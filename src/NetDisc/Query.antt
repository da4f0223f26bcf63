-- ===== src/NetDisc/Query.antt =====
-- libibnetdisc/src/query_smp.c: SMPs are issued, their replies taken, and the engine is emptied.
pub mod Well
pub mod Issuing
pub mod Ends
use infiniband_diags.Base.{
  ℕ, zero, suc, ◌+◌, ◌%◌, ◌^◌, ◌≤◌, ◌<◌, ◌≡◌, Bool, true, false, not, ◌||◌, Option, none, some, ltb,
  leb, ◌==◌, if◌then◌else◌,
}
use infiniband_diags.Base.Int.{ℤ, pos, negsuc, is_positive, is_zero}
use infiniband_diags.Mad.Field.{Buf}
use infiniband_diags.Mad.Table.{mad_get_field}
use infiniband_diags.Mad.Types.{PortId, Rpc, ib_smi_class, ib_smi_direct_class}
use infiniband_diags.Mad.Encode.{mad_trid}
use infiniband_diags.Mad.Rpc.{Reply, Umad, low_trid}
use infiniband_diags.Mad.Numbers.{ib_drsmp_status_f}
use infiniband_diags.NetDisc.Engine.{
  Smp, QMap, Config, Engine, store, minus_enomem, queue_smp, get_smp, process_smp_queue,
}

abbrev pub ib_mad_method_get : ℕ
ib_mad_method_get = 0x1

abbrev pub ib_smp_data_offs : ℕ
ib_smp_data_offs = 64

abbrev pub ib_smp_data_size : ℕ
ib_smp_data_size = 64

abbrev pub ib_attr_mlnx_ext_port_info : ℕ
ib_attr_mlnx_ext_port_info = 0xff90

-- portid->lid <= 0 || drslid == 0xffff || drdlid == 0xffff
abbrev pub smp_class : PortId → ℕ
smp_class portid =
    if not (is_positive portid.lid)
      || (portid.drpath.drslid == 0xffff || portid.drpath.drdlid == 0xffff)
    then ib_smi_direct_class
    else ib_smi_class

-- The request that `issue_smp` fills in.
unfoldable pub smp_rpc : Config → PortId → (attrid modifier trid : ℕ) → Rpc
smp_rpc cfg portid attrid modifier trid = record {
  mgtclass = smp_class portid;
  method = ib_mad_method_get;
  attr_id = attrid;
  attr_mod = modifier;
  rstatus = 0;
  dataoffs = ib_smp_data_offs;
  datasz = ib_smp_data_size;
  mkey = cfg.mkey;
  trid = trid;
  mask = 0;
  recsz = 0;
  timeout = pos cfg.timeout_ms;
  oui = 0;
  error = 0;
  cckey = 0;
}

-- What is left of a step: its return (`none` without fuel) and the engine.
abbrev pub Step : Type 0 → Type 0 → Type 0 → Type 0 → Type 0
Step W M C U = Option ℤ × Engine W M C U

module _ {W M C U : Type 0} (umad : Umad W) (qmap : QMap M) (cfg : Config) (seed : ℕ) where
  -- process_smp_queue: as many turns as SMPs were allocated empty the queue.
  abbrev pub serve : Engine W M C U → Step W M C U
  serve engine = process_smp_queue umad qmap cfg seed (suc engine.fresh) engine

  -- The new SMP, at the address that calloc gives.
  unfoldable pub alloc_smp : Engine W M C U → PortId → (attrid modifier : ℕ) → C → Engine W M C U
  alloc_smp engine portid attrid modifier cb =
      let (static_trid, trid) = mad_trid seed engine.static_trid in
      let smp : Smp C = record {
        qnext = none;
        cb = cb;
        path = portid;
        rpc = smp_rpc cfg portid attrid modifier trid;
      } in
      record engine {
        heap = store engine.heap engine.fresh smp;
        fresh = suc engine.fresh;
        static_trid = static_trid;
      }

  -- `room` bounds the addresses that calloc has; the path that comes back has sl and qp 0.
  unfoldable pub issue_smp :
      (room : ℕ) → Engine W M C U → PortId → (attrid modifier : ℕ) → C → Step W M C U × PortId
  issue_smp room engine portid attrid modifier cb =
      let smp = engine.fresh in
      let queued = queue_smp (alloc_smp engine portid attrid modifier cb) smp in
      let sent = serve queued in
      if leb room engine.fresh
      then ((some minus_enomem, engine), portid)
      else (sent, record portid { sl = 0; qp = 0 })

  module _ (call : C → Engine W M C U → ℕ → Buf → Step W M C U)
      (mlnx_ext_port_info_err : C → Engine W M C U → ℕ → Buf → Step W M C U) where
    -- After the queue was served: the status decides which callback runs.
    unfoldable pub dispatch : Engine W M C U → ℕ → Reply → Step W M C U
    dispatch engine smp reply =
        let s = engine.heap smp in
        let bad =
          (if s.rpc.attr_id == ib_attr_mlnx_ext_port_info
            then mlnx_ext_port_info_err s.cb engine smp reply.mad
            else (some (pos 0), engine)) in
        if not (reply.status == 0)
        then bad
        else if not (mad_get_field reply.mad 0 ib_drsmp_status_f == 0)
        then bad
        else call s.cb engine smp reply.mad

    -- The SMP was found: the queue is served before the reply is looked at.
    unfoldable pub answer : Engine W M C U → ℕ → Reply → Step W M C U
    answer engine smp reply =
        let (rc, served) = serve engine in
        elim rc [
          | none ↦ (none, served)
          | some rc ↦ if is_zero rc then dispatch served smp reply else (some rc, served)
        ]

    unfoldable pub process_one_recv : Engine W M C U → Step W M C U
    process_one_recv engine =
        let (reply, world) = umad.recv (negsuc 0) engine.world in
        elim reply [
          | none ↦ (some (negsuc 0), record engine { world = world })
          | some r ↦
              let (smp, wire) = qmap.remove (low_trid r.mad) engine.smps_on_wire in
              let removed = record engine { world = world; smps_on_wire = wire } in
              elim smp [ none ↦ (some (negsuc 0), removed) | some smp ↦ answer removed smp r ]
        ]

    -- while (!cl_is_qmap_empty(&engine->smps_on_wire))
    unfoldable pub process_mads : (turns : ℕ) → Engine W M C U → Step W M C U
    process_mads zero engine = (none, engine)
    process_mads (suc turns) engine =
        let (rc, after) = process_one_recv engine in
        let rest = process_mads turns after in
        let turn : Step W M C U = elim rc [
          | none ↦ (none, after)
          | some rc ↦ if is_zero rc then rest else (some rc, after)
        ] in
        if qmap.count engine.smps_on_wire == 0 then (some (pos 0), engine) else turn
