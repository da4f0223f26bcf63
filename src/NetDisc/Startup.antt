-- ===== src/NetDisc/Startup.antt =====
-- libibnetdisc/src/query_smp.c: `smp_engine_init`, with the calls of libibumad as the parameter
-- `System`. What the engine does not clear, the heap and the static number, are arguments.
pub mod Laws
use infiniband_diags.Base.{ℕ, Bool, Option, none, some, if◌then◌else◌}
use infiniband_diags.Base.Int.{ℤ, pos, negsuc, is_negative}
use infiniband_diags.Mad.Field.{Buf}
use infiniband_diags.Mad.Types.{ib_smi_class, ib_smi_direct_class}
use infiniband_diags.Mad.Register.{System}
use infiniband_diags.NetDisc.Engine.{Smp, QMap, Engine, minus_eio}

-- What smp_engine_init leaves: its return, and the engine with its umad_fd when that is 0.
pub record Init (W M C U : Type 0) : Type 0 where
  pub rc : ℤ
  pub engine : Option (ℕ × Engine W M C U)
  pub world : W

module _ {W M C U : Type 0} (sys : System W) (qmap : QMap M) (heap : ℕ → Smp C)
    (fresh static_trid : ℕ) (user_data : U) where
  abbrev failed_init : W → Init W M C U
  failed_init w = record { rc = minus_eio; engine = none; world = w }

  -- The two registrations, with the exit eio_close.
  unfoldable pub register_agents : (umad_fd : ℕ) → W → Init W M C U
  register_agents umad_fd w =
      let (smi_agent, w₁) = sys.register umad_fd (pos ib_smi_class) 1 0 none w in
      let (smi_dir_agent, w₂) = sys.register umad_fd (pos ib_smi_direct_class) 1 0 none w₁ in
      if is_negative smi_agent
      then failed_init (sys.close_port umad_fd w₁)
      else if is_negative smi_dir_agent
      then failed_init (sys.close_port umad_fd w₂)
      else record {
        rc = pos 0;
        engine = some (
          umad_fd,
          record {
            smi_agent = smi_agent;
            smi_dir_agent = smi_dir_agent;
            smp_queue_head = none;
            smp_queue_tail = none;
            user_data = user_data;
            smps_on_wire = qmap.init;
            total_smps = 0;
            heap = heap;
            fresh = fresh;
            static_trid = static_trid;
            world = w₂;
          },
        );
        world = w₂;
      }

  unfoldable pub smp_engine_init : (ca_name : Option Buf) (ca_port : ℤ) → W → Init W M C U
  smp_engine_init ca_name ca_port w =
      let (rc, w₁) = sys.init w in
      let (fd, w₂) = sys.open_port ca_name ca_port w₁ in
      let opened : Init W M C U = elim fd [
        | pos umad_fd ↦ register_agents umad_fd w₂
        | negsuc n ↦ failed_init w₂
      ] in
      if is_negative rc then failed_init w₁ else opened
