-- ===== src/NetDisc/Startup/Laws.antt =====
-- libibnetdisc/src/query_smp.c: the engine that a start gives, and the port that a failure closes.
use infiniband_diags.Base.{ℕ, ◌≡◌, refl, inl, inr, Bool-cases, Option, none, some, [], ◌∷◌, arith}
use infiniband_diags.Base.Int.{ℤ, pos, is_negative}
use infiniband_diags.Mad.Field.{Buf}
use infiniband_diags.Mad.Types.{ib_smi_class, ib_smi_direct_class}
use infiniband_diags.Mad.Register.{System}
use infiniband_diags.Mad.Register.Turns.{sign_cases}
use infiniband_diags.Mad.Register.Opening.{Ledger, accounted}
use infiniband_diags.NetDisc.Engine.{Smp, QMap, Config, Engine, minus_eio}
use infiniband_diags.NetDisc.Engine.Queue.{IsQueue}
use infiniband_diags.NetDisc.Engine.Serving.{IsQMap}
use infiniband_diags.NetDisc.Query.Well.{IsWell}
use infiniband_diags.NetDisc.Startup.{Init, register_agents, smp_engine_init}

module _ {W M C U : Type 0} (sys : System W) (qmap : QMap M) (cfg : Config) (laws : IsQMap qmap)
    (heap : ℕ → Smp C) (fresh static_trid : ℕ) (user_data : U) where
  -- The ends of a start with the ledger `l`: a failure that holds nothing more, or a well engine with
  -- an empty queue and an empty wire that holds one descriptor.
  pub data Started (l : Ledger) (out : Init (W × Ledger) M C U) : Type 0 where
    closed : out.rc ≡ minus_eio → out.engine ≡ none → out.world.1 ≡ l → Started l out
    running :
        (umad_fd : ℕ) (engine : Engine (W × Ledger) M C U)
        → out.rc ≡ pos 0
        → out.engine ≡ some (umad_fd, engine)
        → engine.world.1 ≡ record l { ports = umad_fd ∷ l.ports }
        → engine.user_data ≡ user_data
        → IsWell qmap cfg engine
        → IsQueue engine []
        → qmap.count engine.smps_on_wire ≡ 0
        → Started l out

  agents-Started :
      (umad_fd : ℕ) (w : W) (l : Ledger)
      → Started l (
          register_agents
            (accounted sys)
            qmap
            heap
            fresh
            static_trid
            user_data
            umad_fd
            (w, record l { ports = umad_fd ∷ l.ports }))
  unfolding register_agents accounted
  agents-Started umad_fd w l =
      let smi = sys.register umad_fd (pos ib_smi_class) 1 0 none w in
      let dir = sys.register umad_fd (pos ib_smi_direct_class) 1 0 none smi.1 in
      elim (Bool-cases (is_negative smi.0)) [
        | inl refused ↦ rw (register_agents, refused) (closed refl refl (ground arith))
        | inr smi_ok ↦ elim (Bool-cases (is_negative dir.0)) [
          | inl refused ↦ rw (register_agents, smi_ok, refused) (closed refl refl (ground arith))
          | inr dir_ok ↦
              rw (register_agents, smi_ok, dir_ok)
                (running umad_fd _ refl refl refl refl
                  (record {
                    waiting = [];
                    queue = (refl, refl);
                    distinct = tt;
                    allocated = tt;
                    short = omega arith;
                    bounded = omega (arith, laws.count_init);
                  })
                  (refl, refl) laws.count_init)
        ]
      ]

  -- When smp_engine_init fails it returns -EIO and every descriptor that it opened is closed;
  -- otherwise it returns 0, holds one descriptor, and the engine is well, with an empty queue and an
  -- empty wire.
  pub smp_engine_init-Started :
      (ca_name : Option Buf) (ca_port : ℤ) (w : W) (l : Ledger)
      → Started l (
          smp_engine_init
            (accounted sys)
            qmap
            heap
            fresh
            static_trid
            user_data
            ca_name
            ca_port
            (w, l))
  unfolding smp_engine_init accounted
  smp_engine_init-Started ca_name ca_port w l =
      let opened = sys.open_port ca_name ca_port (sys.init w).1 in
      elim (Bool-cases (is_negative (sys.init w).0)) [
        | inl absent ↦ rw (smp_engine_init, absent) (closed refl refl refl)
        | inr ready ↦ elim (sign_cases opened.0) [
          | inl (umad_fd, e) ↦
              rw (smp_engine_init, ready, e) (rw e (agents-Started umad_fd opened.1 l))
          | inr (n, e) ↦ rw (smp_engine_init, ready, e) (closed refl refl (rw e refl))
        ]
      ]
