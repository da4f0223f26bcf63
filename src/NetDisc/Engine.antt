-- ===== src/NetDisc/Engine.antt =====
-- libibnetdisc/src/query_smp.c: the engine that keeps a bounded number of SMPs on the wire.
-- complib's cl_qmap is the parameter `QMap`, libibumad the parameter `Umad`, and the callbacks
-- are those of the caller.
pub mod Queue
pub mod Sending
pub mod Serving
pub mod Quiet
use infiniband_diags.Base.{
  ℕ, zero, suc, ◌+◌, ◌%◌, ◌^◌, ◌≤◌, ◌<◌, ◌≡◌, Bool, true, false, not, ◌||◌, Option, none, some, ltb,
  ◌==◌, if◌then◌else◌,
}
use infiniband_diags.Base.Int.{ℤ, pos, negsuc, is_negative, is_zero}
use infiniband_diags.Mad.Field.{Buf}
use infiniband_diags.Mad.Table.{mad_get_field}
use infiniband_diags.Mad.Types.{PortId, Rpc, ib_smi_class, ib_smi_direct_class}
use infiniband_diags.Mad.Encode.{mad_trid}
use infiniband_diags.Mad.Packet.{mad_build_pkt}
use infiniband_diags.Mad.Rpc.{Reply, Umad, low_trid}
use infiniband_diags.Mad.Numbers.{ib_drsmp_status_f}

-- ibnd_smp_t, at an address; `C` is a callback with its data.
pub record Smp (C : Type 0) : Type 0 where
  pub qnext : Option ℕ
  pub cb : C
  pub path : PortId
  pub rpc : Rpc

-- The calls of cl_qmap: the values are addresses, and a key that is there is not inserted again.
pub record QMap (M : Type 0) : Type 0 where
  pub init : M
  pub count : M → ℕ
  pub insert : (key value : ℕ) → M → M
  pub remove : (key : ℕ) → M → Option ℕ × M

-- ibnd_config_t, as far as the engine reads it
pub record Config : Type 0 where
  pub max_smps : ℕ
  pub timeout_ms : ℕ
  pub retries : ℕ
  pub mkey : ℕ

-- smp_engine_t, with the heap that its queue runs through, the static `trid` and the world of umad.
-- `fresh` is the next address that calloc gives; addresses are not given twice.
pub record Engine (W M C U : Type 0) : Type 0 where
  pub smi_agent : ℤ
  pub smi_dir_agent : ℤ
  pub smp_queue_head : Option ℕ
  pub smp_queue_tail : Option ℕ
  pub user_data : U
  pub smps_on_wire : M
  pub total_smps : ℕ
  pub heap : ℕ → Smp C
  pub fresh : ℕ
  pub static_trid : ℕ
  pub world : W

abbrev pub store {ℓ} : {A : Type ℓ} → (ℕ → A) → ℕ → A → ℕ → A
store heap a x b = if b == a then x else heap b

abbrev pub minus_eio : ℤ
minus_eio = negsuc 4

abbrev pub minus_enomem : ℤ
minus_enomem = negsuc 11

abbrev pub set_next : {C : Type 0} → (ℕ → Smp C) → ℕ → Option ℕ → ℕ → Smp C
set_next heap a next = store heap a (record (heap a) { qnext = next })

abbrev pub points_at : Option ℕ → ℕ → Bool
points_at none a = false
points_at (some b) a = b == a

module _ {W M C U : Type 0} where
  unfoldable pub queue_smp : Engine W M C U → ℕ → Engine W M C U
  queue_smp engine smp =
      let heap = set_next engine.heap smp none in
      elim engine.smp_queue_head [
        | none ↦ record engine { heap = heap; smp_queue_head = some smp; smp_queue_tail = some smp }
        | some head ↦ elim engine.smp_queue_tail [
          | none ↦ record engine { heap = heap }
          | some tail ↦ record engine {
            heap = set_next heap tail (some smp);
            smp_queue_tail = some smp;
          }
        ]
      ]

  unfoldable pub get_smp : Engine W M C U → Option ℕ × Engine W M C U
  get_smp engine = elim engine.smp_queue_head [
    | none ↦ (none, engine)
    | some head ↦
        let tail = (if points_at engine.smp_queue_tail head then none else engine.smp_queue_tail) in
        (
          some head,
          record engine { smp_queue_tail = tail; smp_queue_head = (engine.heap head).qnext },
        )
  ]

module _ {W M C U : Type 0} where
  abbrev pub agent_of : Engine W M C U → Rpc → Option ℤ
  agent_of engine rpc =
      if rpc.mgtclass == ib_smi_class
      then some engine.smi_agent
      else if rpc.mgtclass == ib_smi_direct_class
      then some engine.smi_dir_agent
      else none

module _ {W M C U : Type 0} (umad : Umad W) (qmap : QMap M) (cfg : Config) (seed : ℕ) where
  -- The rest of `send_smp`, with the agent of the class; mad_build_pkt may number the request.
  unfoldable pub send_by : (agent : ℤ) → Engine W M C U → ℕ → ℤ × Engine W M C U
  send_by agent engine smp =
      let s = engine.heap smp in
      elim (mad_build_pkt seed engine.static_trid (λ a. 0) s.rpc s.path none none) [
        | none ↦ (negsuc 0, engine)
        | some b ↦
            let (rc, world) =
              umad.send agent (pos cfg.timeout_ms) (pos cfg.retries) b.packet engine.world in
            (
              if is_negative rc then rc else pos 0,
              record engine {
                heap = store engine.heap smp (record s { rpc = b.rpc });
                static_trid = b.static_trid;
                world = world;
              },
            )
      ]

  unfoldable pub send_smp : Engine W M C U → ℕ → ℤ × Engine W M C U
  send_smp engine smp = elim (agent_of engine (engine.heap smp).rpc) [
    | none ↦ (minus_eio, engine)
    | some agent ↦ send_by agent engine smp
  ]

  -- cl_qmap_insert and the count of SMPs
  unfoldable pub put_on_wire : Engine W M C U → ℕ → Engine W M C U
  put_on_wire engine smp = record engine {
    smps_on_wire = qmap.insert ((engine.heap smp).rpc.trid % 2 ^ 32) smp engine.smps_on_wire;
    total_smps = (engine.total_smps + 1) % 2 ^ 32;
  }

  -- `none` is the run that has no fuel left.
  unfoldable pub process_smp_queue : (fuel : ℕ) → Engine W M C U → Option ℤ × Engine W M C U
  process_smp_queue zero engine = (none, engine)
  process_smp_queue (suc fuel) engine =
      let (smp, taken) = get_smp engine in
      let turn : Option ℤ × Engine W M C U = elim smp [
        | none ↦ (some (pos 0), taken)
        | some smp ↦
            let (rc, sent) = send_smp taken smp in
            let rest = process_smp_queue fuel (put_on_wire sent smp) in
            if is_zero rc then rest else (some rc, sent)
      ] in
      if ltb (qmap.count engine.smps_on_wire) cfg.max_smps then turn else (some (pos 0), engine)
