-- ===== src/NetDisc/Query/Issuing.antt =====
-- libibnetdisc/src/query_smp.c: an SMP that is issued waits behind the others, and is served.
use infiniband_diags.Base.{
  ℕ, ◌≤◌, ◌<◌, ◌≡◌, refl, ap, ◌∙◌, inl, inr, Bool-cases, true, Option-cases, some, List, [], ◌∷◌,
  ◌++◌, arith, leb, ◌==◌,
}
use infiniband_diags.Mad.Types.{PortId}
use infiniband_diags.Mad.Rpc.{Umad}
use infiniband_diags.Mad.Rpc.Receive.{IsFinite}
use infiniband_diags.NetDisc.Engine.{QMap, Config, Engine, queue_smp, minus_enomem}
use infiniband_diags.NetDisc.Engine.Queue.{IsQueue}
use infiniband_diags.NetDisc.Engine.Serving.{IsQMap}
use infiniband_diags.NetDisc.Query.{Step, serve, smp_rpc, alloc_smp, issue_smp}
use infiniband_diags.NetDisc.Query.Well.{IsWell, Kept, queued-IsQueue, issue_smp-Kept}

module _ {W M C U : Type 0} where
  -- What is left of an SMP that is issued: without memory nothing changed, and else `queued` is the
  -- engine that was served, whose queue has the SMP, with what was asked, behind those that waited.
  pub data Issued (room : ℕ) (engine : Engine W M C U) (waiting : List ℕ) (portid : PortId)
      (attrid modifier : ℕ) (cb : C) (served : Engine W M C U → Step W M C U) (out : Step W M C U)
      : Type 0 where
    refused :
        room ≤ engine.fresh
        → out ≡ (some minus_enomem, engine)
        → Issued room engine waiting portid attrid modifier cb served out
    issued :
        (queued : Engine W M C U)
        → engine.fresh < room
        → IsQueue queued (waiting ++ (engine.fresh ∷ []))
        → (queued.heap engine.fresh).path ≡ portid
        → (queued.heap engine.fresh).cb ≡ cb
        → (queued.heap engine.fresh).rpc.attr_id ≡ attrid
        → (queued.heap engine.fresh).rpc.attr_mod ≡ modifier
        → out ≡ served queued
        → Issued room engine waiting portid attrid modifier cb served out

module _ {W M C U : Type 0} (umad : Umad W) (qmap : QMap M) (cfg : Config) (seed : ℕ)
    (laws : IsQMap qmap) (size : W → ℕ) (finite : IsFinite umad size) where
  queued-keeps :
      (engine : Engine W M C U) (smp : ℕ)
      → (((queue_smp engine smp).heap smp).path ≡ (engine.heap smp).path)
        × (((queue_smp engine smp).heap smp).cb ≡ (engine.heap smp).cb)
        × (((queue_smp engine smp).heap smp).rpc ≡ (engine.heap smp).rpc)
  unfolding queue_smp
  queued-keeps engine smp = elim (Option-cases engine.smp_queue_head) [
    | inl e ↦ rw (queue_smp, e) (ground arith)
    | inr (head, e) ↦ elim (Option-cases engine.smp_queue_tail) [
      | inl e' ↦ rw (queue_smp, e, e') (ground arith)
      | inr (tail, e') ↦ elim (Bool-cases (smp == tail)) [
        | inl here ↦ rw (queue_smp, e, e') (ground (arith, here))
        | inr away ↦ rw (queue_smp, e, e', away) (ground arith)
      ]
    ]
  ]

  -- Issuing an SMP keeps a well engine well. Without memory it returns -ENOMEM and changes nothing;
  -- otherwise the SMP, with the path, the attribute, the modifier and the callback that were asked
  -- for, is put behind the SMPs that wait, and that queue is served: unless that fails, then none
  -- waits or the wire is full.
  pub issue_smp-Issued :
      (room : ℕ) (engine : Engine W M C U) (portid : PortId) (attrid modifier : ℕ) (cb : C)
      (well : IsWell qmap cfg engine)
      → Kept qmap cfg size engine
          (issue_smp umad qmap cfg seed room engine portid attrid modifier cb).0
        × Issued room engine well.waiting portid attrid modifier cb
            (serve umad qmap cfg seed)
            (issue_smp umad qmap cfg seed room engine portid attrid modifier cb).0
  unfolding issue_smp alloc_smp smp_rpc
  issue_smp-Issued room engine portid attrid modifier cb well =
      let new = alloc_smp umad qmap cfg seed engine portid attrid modifier cb in
      let (path, same_cb, rpc) = queued-keeps new engine.fresh in
      let here : (engine.fresh == engine.fresh) ≡ true = ground arith in
      (
        issue_smp-Kept umad qmap cfg seed laws size finite room engine portid attrid modifier cb
            well,
        elim (Bool-cases (leb room engine.fresh)) [
          | inl full ↦ rw (issue_smp, full) (refused (ground (arith, full)) refl)
          | inr free ↦
              rw (issue_smp, free)
                (issued (queue_smp new engine.fresh) (ground (arith, free))
                  (queued-IsQueue umad qmap cfg seed laws size finite engine portid attrid modifier
                    cb well)
                  (path ∙ rw here refl) (same_cb ∙ rw here refl)
                  (ap (λ r. r.attr_id) rpc ∙ rw here refl) (ap (λ r. r.attr_mod) rpc ∙ rw here refl)
                  refl)
        ],
      )
