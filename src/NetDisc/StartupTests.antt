-- ===== src/NetDisc/StartupTests.antt =====
-- The start of an engine: a test, and an instance of the theorem.
use infiniband_diags.Base.{ℕ, ◌+◌, ◌≡◌, refl, true, none, [], ◌∷◌, ◌==◌, if◌then◌else◌}
use infiniband_diags.Base.Int.{ℤ, pos, negsuc}
use infiniband_diags.Mad.Types.{no_rpc, no_portid}
use infiniband_diags.Mad.Register.{System}
use infiniband_diags.Mad.Register.Opening.{Ledger, accounted}
use infiniband_diags.NetDisc.Engine.{Smp}
use infiniband_diags.NetDisc.Tests.{wires, wires-IsQMap, limits}
use infiniband_diags.NetDisc.Startup.{register_agents, smp_engine_init}
use infiniband_diags.NetDisc.Startup.Laws.{Started, smp_engine_init-Started}

abbrev verdict : ℤ → ℤ
verdict (pos class) = if class == 0x81 then negsuc 0 else pos 5
verdict (negsuc class) = negsuc 0

-- Directed routes are refused; the world counts the descriptors that were closed.
abbrev lid_routes : System ℕ
lid_routes = record {
  init = λ w. (pos 0, w);
  open_port = λ dev_name dev_port w. (pos 9, w);
  close_port = λ port_id w. w + 1;
  register = λ port_id mgmt vers rmpp_version method_mask w. (verdict mgmt, w);
  register_oui = λ port_id mgmt rmpp_version oui method_mask w. (negsuc 0, w);
  malloc = λ w. (true, w);
  free = λ w. w;
  errno = λ w. 0;
  set_errno = λ e w. w;
}

abbrev blank : ℕ → Smp ℕ
blank a = record { qnext = none; cb = 0; path = no_portid; rpc = no_rpc }

abbrev idle : Ledger
idle = record { ports = 4 ∷ []; blocks = 0 }

closed_once : (smp_engine_init {U = ℕ} lid_routes wires blank 0 0 7 none (pos 1) 0).world ≡ 1
unfolding smp_engine_init register_agents
closed_once = refl

smp_engine_init-Started_example :
    Started {U = ℕ} lid_routes wires
      (limits 2)
      wires-IsQMap
      blank
      0
      0
      7
      idle
      (smp_engine_init (accounted lid_routes) wires blank 0 0 7 none (pos 1) (0, idle))
smp_engine_init-Started_example =
    smp_engine_init-Started lid_routes wires (limits 2) wires-IsQMap blank 0 0 7 none (pos 1) 0 idle
