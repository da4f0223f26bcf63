-- ===== src/Mad/ServeTests.antt =====
-- Ports that are opened and datagrams that are answered: tests, and instances of the theorems.
use infiniband_diags.Base.{ℕ, ◌≡◌, refl, true, not, none, some, [], ◌∷◌, ◌==◌, if◌then◌else◌, arith}
use infiniband_diags.Base.Int.{ℤ, pos, negsuc, is_negative}
use infiniband_diags.Mad.Field.{Buf, IsBytes}
use infiniband_diags.Mad.Table.{ib_mad_f, mad_field}
use infiniband_diags.Mad.Wide.{mad_get_field64, get_field64, ntohll}
use infiniband_diags.Mad.Packet.{UmadAddr}
use infiniband_diags.Mad.Rpc.{IbmadPort, mad_get_timeout, mad_get_retries}
use infiniband_diags.Mad.Rpc.Sends.{logged}
use infiniband_diags.Mad.Script.{scripted}
use infiniband_diags.Mad.Register.{
  System, mad_rpc_open_port, register_or_close, register_classes, mad_register_client_via,
  mad_register_port_client, mgmt_class_vers, is_vendor, rmpp_version_of, fresh_port, set_agent,
  mad_rpc_class_agent,
}
use infiniband_diags.Mad.Register.Agents.{asks, mad_rpc_open_port-Agents}
use infiniband_diags.Mad.Register.Opening.{
  Ledger, IsSystem, accounted, Settled, mad_rpc_open_port-Settled,
}
use infiniband_diags.Mad.Serve.{mad_respond_via}
use infiniband_diags.Mad.Serve.Laws.{Responded, mad_respond_via-Responded}

abbrev verdict : ℤ → ℤ → ℤ
verdict (pos m) (pos b) = if m == b then negsuc 0 else pos m
verdict (pos m) (negsuc b) = pos m
verdict (negsuc m) b = negsuc 0

-- A system that opens descriptor 7 and refuses the class `bad`; its world is errno.
abbrev refusing : ℤ → System ℕ
refusing bad = record {
  init = λ e. (pos 0, e);
  open_port = λ dev_name dev_port e. (pos 7, e);
  close_port = λ port_id e. e;
  register = λ port_id mgmt vers rmpp_version method_mask e. (verdict mgmt bad, e);
  register_oui = λ port_id mgmt rmpp_version oui method_mask e. (pos 0, e);
  malloc = λ e. (true, e);
  free = λ e. e;
  errno = λ e. e;
  set_errno = λ e' e. e';
}

refusing-IsSystem : (bad : ℤ) → IsSystem (refusing bad)
refusing-IsSystem bad = record { stored = λ e w. refl; closed = λ port_id w h. h; freed = λ w h. h }

abbrev empty : Ledger
empty = record { ports = []; blocks = 0 }

-- Class 3 is refused after class 1 was registered.
failed_open : (mad_rpc_open_port (refusing (pos 3)) none (pos 1) (pos 1 ∷ pos 3 ∷ []) 0).0 ≡ none
unfolding mad_rpc_open_port register_or_close register_classes mad_register_client_via
    mad_register_port_client mgmt_class_vers is_vendor rmpp_version_of fresh_port set_agent
failed_open = refl

mad_rpc_open_port-Settled_example :
    Settled (refusing (pos 3)) empty (
      mad_rpc_open_port (accounted (refusing (pos 3))) none (pos 1) (pos 1 ∷ pos 3 ∷ []) (0, empty))
mad_rpc_open_port-Settled_example =
    mad_rpc_open_port-Settled (refusing (pos 3)) (refusing-IsSystem (pos 3)) none (pos 1)
      (pos 1 ∷ pos 3 ∷ []) 0 empty

abbrev opened : IbmadPort
opened = set_agent (set_agent (fresh_port 7) (pos 1) (pos 1)) (pos 3) (pos 3)

mad_rpc_open_port-Agents_example :
    ((class : ℕ)
      → is_negative (mad_rpc_class_agent opened (pos class))
        ≡ not (asks (pos 1 ∷ pos 3 ∷ []) class))
    × ((retries : ℤ) → mad_get_retries opened retries ≡ retries)
    × ((timeout : ℤ) → mad_get_timeout opened (pos 0) timeout ≡ timeout)
unfolding mad_rpc_open_port register_or_close register_classes mad_register_client_via
    mad_register_port_client mgmt_class_vers is_vendor rmpp_version_of
mad_rpc_open_port-Agents_example =
    mad_rpc_open_port-Agents (refusing (pos 0)) none (pos 1) (pos 1 ∷ pos 3 ∷ []) 0 opened refl

-- Get(ClassPortInfo) of the performance class, with number 9.
abbrev asked : Buf
asked a =
    if a == 1 then 4 else if a == 3 then 1 else if a == 15 then 9 else if a == 17 then 1 else 0

asked-IsBytes : IsBytes asked
asked-IsBytes a = ground arith

abbrev sender : UmadAddr
sender = record { lid = pos 12; qp = 1; sl = 0; qkey = 0 }

mad_respond_via-Responded_example :
    Responded asked 0 asked-IsBytes sender []
      (mad_respond_via (logged scripted) opened 1 (pos 1000) (some sender) asked none 0 0 ([], []))
unfolding mad_get_field64 get_field64 mad_field ib_mad_f ntohll
mad_respond_via-Responded_example =
    mad_respond_via-Responded asked 0 asked-IsBytes scripted opened 1 0 (pos 1000) (omega arith)
      (λ h. absurd (omega (arith, h))) sender ([], [])
