-- ===== src/NetDisc/Query/Ends.antt =====
-- A loop over the replies with callbacks that keep a property of the caller's data: it ends, and
-- the property holds at its end.
use infiniband_diags.Base.{
  ℕ, zero, suc, ◌≤◌, ◌<◌, ◌≡◌, refl, ◌∙◌, ◌⊎◌, inl, inr, Bool, Bool-cases, not, true, false,
  Option-cases, some, arith, leb, ◌==◌, if◌then◌else◌,
}
use infiniband_diags.Base.Int.{ℤ, pos, negsuc, is_zero}
use infiniband_diags.Mad.Field.{Buf}
use infiniband_diags.Mad.Table.{mad_get_field}
use infiniband_diags.Mad.Numbers.{ib_drsmp_status_f}
use infiniband_diags.Mad.Types.{PortId}
use infiniband_diags.Mad.Rpc.{Reply, Umad, low_trid}
use infiniband_diags.Mad.Rpc.Receive.{IsFinite}
use infiniband_diags.NetDisc.Engine.{QMap, Config, Engine, queue_smp}
use infiniband_diags.NetDisc.Engine.Sending.{IsQueue-cong}
use infiniband_diags.NetDisc.Engine.Serving.{IsQMap}
use infiniband_diags.NetDisc.Engine.Quiet.{served-Quiet}
use infiniband_diags.NetDisc.Query.{
  Step, ib_attr_mlnx_ext_port_info, serve, alloc_smp, issue_smp, dispatch, answer, process_one_recv,
  process_mads,
}
use infiniband_diags.NetDisc.Query.Well.{IsWell, serve-Kept, issue_smp-Kept}

-- The fields of an engine that its queue and its wire stand in are those of another.
pub IsWell-cong :
    {W M C U : Type 0} (qmap : QMap M) (cfg : Config) (p q : Engine W M C U)
    → q.smp_queue_head ≡ p.smp_queue_head
    → q.smp_queue_tail ≡ p.smp_queue_tail
    → q.fresh ≡ p.fresh
    → qmap.count q.smps_on_wire ≤ qmap.count p.smps_on_wire
    → ((a : ℕ) → (q.heap a).qnext ≡ (p.heap a).qnext)
    → IsWell qmap cfg p
    → IsWell qmap cfg q
IsWell-cong qmap cfg p q head tail fresh wire next well = record {
  waiting = well.waiting;
  queue =
      IsQueue-cong p q well.waiting
        (record { head = head; tail = tail; fresh = fresh; next = next }) well.queue;
  distinct = well.distinct;
  allocated = rw fresh well.allocated;
  short = omega (arith, fresh, well.short);
  bounded = omega (arith, well.bounded, wire);
}

module _ {W M C U : Type 0} (umad : Umad W) (qmap : QMap M) (cfg : Config) (seed : ℕ)
    (laws : IsQMap qmap) (size : W → ℕ) (finite : IsFinite umad size) (Inv : U → Type 0) where
  -- A step that returns, keeps the engine well and the property, and leaves no more datagrams to
  -- come.
  pub record Lasting (engine : Engine W M C U) (out : Step W M C U) : Type 0 where
    pub rc : ℤ
    pub returned : out.0 ≡ some rc
    pub well : IsWell qmap cfg out.1
    pub holds : Inv out.1.user_data
    pub fewer : size out.1.world ≤ size engine.world

  pub returned-Lasting :
      (engine next : Engine W M C U) (rc : ℤ)
      → IsWell qmap cfg next
      → Inv next.user_data
      → size next.world ≤ size engine.world
      → Lasting engine (some rc, next)
  returned-Lasting engine next rc well holds fewer = record {
    rc = rc;
    returned = refl;
    well = well;
    holds = holds;
    fewer = fewer;
  }

  pub Lasting-trans :
      (engine next : Engine W M C U) (out : Step W M C U)
      → size next.world ≤ size engine.world
      → Lasting next out
      → Lasting engine out
  Lasting-trans engine next out le last = record {
    rc = last.rc;
    returned = last.returned;
    well = last.well;
    holds = last.holds;
    fewer = omega (arith, last.fewer, le);
  }

  pub Lasting-if :
      (engine : Engine W M C U) (p q : Step W M C U) (b : Bool)
      → Lasting engine p
      → Lasting engine q
      → Lasting engine (if b then p else q)
  Lasting-if engine p q true hp hq = hp
  Lasting-if engine p q false hp hq = hq

  serve-Lasting :
      (engine : Engine W M C U)
      → IsWell qmap cfg engine
      → Inv engine.user_data
      → Lasting engine (serve umad qmap cfg seed engine)
  serve-Lasting engine well holds =
      let kept = serve-Kept umad qmap cfg seed laws size finite engine well in
      let quiet = served-Quiet size umad qmap cfg seed finite (suc engine.fresh) engine in
      record {
        rc = kept.rc;
        returned = kept.returned;
        well = kept.well;
        holds = rw quiet.same_user holds;
        fewer = kept.fewer;
      }

  queue_smp-user :
      (engine : Engine W M C U) (smp : ℕ) → (queue_smp engine smp).user_data ≡ engine.user_data
  unfolding queue_smp
  queue_smp-user engine smp = elim (Option-cases engine.smp_queue_head) [
    | inl e ↦ rw (queue_smp, e) refl
    | inr (head, e) ↦ elim (Option-cases engine.smp_queue_tail) [
      | inl e' ↦ rw (queue_smp, e, e') refl
      | inr (tail, e') ↦ rw (queue_smp, e, e') refl
    ]
  ]

  issue_smp-user :
      (room : ℕ) (engine : Engine W M C U) (portid : PortId) (attrid modifier : ℕ) (cb : C)
      → (issue_smp umad qmap cfg seed room engine portid attrid modifier cb).0.1.user_data
        ≡ engine.user_data
  unfolding issue_smp alloc_smp
  issue_smp-user room engine portid attrid modifier cb =
      let new = alloc_smp umad qmap cfg seed engine portid attrid modifier cb in
      let queued = queue_smp new engine.fresh in
      let quiet = served-Quiet size umad qmap cfg seed finite (suc queued.fresh) queued in
      elim (Bool-cases (leb room engine.fresh)) [
        | inl full ↦ rw (issue_smp, full) refl
        | inr free ↦ rw (issue_smp, free) (quiet.same_user ∙ queue_smp-user new engine.fresh)
      ]

  pub issue_smp-Lasting :
      (room : ℕ) (engine : Engine W M C U) (portid : PortId) (attrid modifier : ℕ) (cb : C)
      → IsWell qmap cfg engine
      → Inv engine.user_data
      → Lasting engine (issue_smp umad qmap cfg seed room engine portid attrid modifier cb).0
  issue_smp-Lasting room engine portid attrid modifier cb well holds =
      let kept =
        issue_smp-Kept umad qmap cfg seed laws size finite room engine portid attrid modifier cb
          well in
      record {
        rc = kept.rc;
        returned = kept.returned;
        well = kept.well;
        holds = rw (issue_smp-user room engine portid attrid modifier cb) holds;
        fewer = kept.fewer;
      }

  -- What is asked of a callback.
  abbrev pub IsSound : (C → Engine W M C U → ℕ → Buf → Step W M C U) → Type 0
  IsSound f =
      (cb : C) (engine : Engine W M C U) (smp : ℕ) (mad : Buf)
      → IsWell qmap cfg engine
      → Inv engine.user_data
      → Lasting engine (f cb engine smp mad)

  module _ (call : C → Engine W M C U → ℕ → Buf → Step W M C U)
      (mlnx_ext_port_info_err : C → Engine W M C U → ℕ → Buf → Step W M C U)
      (call_ok : IsSound call) (err_ok : IsSound mlnx_ext_port_info_err) where
    dispatch-Lasting :
        (engine : Engine W M C U) (smp : ℕ) (reply : Reply)
        → IsWell qmap cfg engine
        → Inv engine.user_data
        → Lasting engine (dispatch umad qmap cfg seed call mlnx_ext_port_info_err engine smp reply)
    unfolding dispatch
    dispatch-Lasting engine smp reply well holds =
        let s = engine.heap smp in
        let ignored = returned-Lasting engine engine (pos 0) well holds (omega arith) in
        let bad =
          Lasting-if engine _ _ (s.rpc.attr_id == ib_attr_mlnx_ext_port_info)
            (err_ok s.cb engine smp reply.mad well holds) ignored in
        Lasting-if engine _ _ (not (reply.status == 0)) bad (
          Lasting-if engine _ _ (not (mad_get_field reply.mad 0 ib_drsmp_status_f == 0)) bad
            (call_ok s.cb engine smp reply.mad well holds))

    answer-Lasting :
        (engine : Engine W M C U) (smp : ℕ) (reply : Reply)
        → IsWell qmap cfg engine
        → Inv engine.user_data
        → Lasting engine (answer umad qmap cfg seed call mlnx_ext_port_info_err engine smp reply)
    unfolding answer
    answer-Lasting engine smp reply well holds =
        let last = serve-Lasting engine well holds in
        let served = (serve umad qmap cfg seed engine).1 in
        elim (Bool-cases (is_zero last.rc)) [
          | inr bad ↦
              rw (answer, last.returned, bad)
                (returned-Lasting engine served last.rc last.well last.holds last.fewer)
          | inl ok ↦
              rw (answer, last.returned, ok)
                (Lasting-trans engine served _ last.fewer
                  (dispatch-Lasting served smp reply last.well last.holds))
        ]

    -- One reply was taken, or the step failed.
    abbrev Taken : Engine W M C U → Step W M C U → Type 0
    Taken engine out =
        (last : Lasting engine out) × ((is_zero last.rc ≡ false)
          ⊎ (size out.1.world < size engine.world))

    Lasting-Taken :
        (engine next : Engine W M C U) (out : Step W M C U)
        → size next.world < size engine.world
        → Lasting next out
        → Taken engine out
    Lasting-Taken engine next out lt last = (
      Lasting-trans engine next out (omega (arith, lt)) last,
      inr (omega (arith, last.fewer, lt)),
    )

    failed-Taken :
        (engine next : Engine W M C U)
        → IsWell qmap cfg next
        → Inv next.user_data
        → size next.world ≤ size engine.world
        → Taken engine (some (negsuc 0), next)
    unfolding returned-Lasting
    failed-Taken engine next well holds le =
        (returned-Lasting engine next (negsuc 0) well holds le, inl refl)

    one-Taken :
        (engine : Engine W M C U)
        → IsWell qmap cfg engine
        → Inv engine.user_data
        → Taken engine (process_one_recv umad qmap cfg seed call mlnx_ext_port_info_err engine)
    unfolding process_one_recv
    one-Taken engine well holds = elim (Option-cases (umad.recv (negsuc 0) engine.world).0) [
      | inl failed ↦
          rw (process_one_recv, failed)
            (failed-Taken engine _
              (IsWell-cong qmap cfg engine _ refl refl refl (omega arith) (λ a. refl) well) holds
              (finite.recv_le (negsuc 0) engine.world))
      | inr (r, found) ↦
          let less = finite.recv_less (negsuc 0) engine.world r found in
          let fewer = laws.count_remove (low_trid r.mad) engine.smps_on_wire in
          let removed =
            IsWell-cong qmap cfg engine
              (record engine {
                world = (umad.recv (negsuc 0) engine.world).1;
                smps_on_wire = (qmap.remove (low_trid r.mad) engine.smps_on_wire).1;
              })
              refl refl refl fewer (λ a. refl) well in
          elim (Option-cases (qmap.remove (low_trid r.mad) engine.smps_on_wire).0) [
            | inl missing ↦
                rw (process_one_recv, found, missing)
                  (failed-Taken engine _ removed holds (omega (arith, less)))
            | inr (smp, there) ↦
                rw (process_one_recv, found, there)
                  (Lasting-Taken engine _ _ less (answer-Lasting _ smp r removed holds))
          ]
    ]

    -- A loop that returned: unless it failed, no SMP is on the wire.
    abbrev pub Emptied : Engine W M C U → Step W M C U → Type 0
    Emptied engine out =
        (last : Lasting engine out) × ((is_zero last.rc ≡ false)
          ⊎ (qmap.count out.1.smps_on_wire ≡ 0))

    Emptied-trans :
        (engine next : Engine W M C U) (out : Step W M C U)
        → size next.world ≤ size engine.world
        → Emptied next out
        → Emptied engine out
    unfolding Lasting-trans
    Emptied-trans engine next out le (last, empty) = (Lasting-trans engine next out le last, empty)

    pub process_mads-Emptied :
        (turns : ℕ) (engine : Engine W M C U)
        → IsWell qmap cfg engine
        → Inv engine.user_data
        → size engine.world < turns
        → Emptied engine (process_mads umad qmap cfg seed call mlnx_ext_port_info_err turns engine)
    unfolding process_mads returned-Lasting
    process_mads-Emptied zero engine well holds lt = absurd (omega (arith, lt))
    process_mads-Emptied (suc turns) engine well holds lt =
        elim (Bool-cases (qmap.count engine.smps_on_wire == 0)) [
          | inl empty ↦
              rw (process_mads, empty)
                (
                  returned-Lasting engine engine (pos 0) well holds (omega arith),
                  inr (ground (arith, empty)),
                )
          | inr busy ↦
              let (last, progress) = one-Taken engine well holds in
              elim (Bool-cases (is_zero last.rc)) [
                | inr bad ↦
                    rw (process_mads, busy, last.returned, bad)
                      (returned-Lasting engine _ last.rc last.well last.holds last.fewer, inl bad)
                | inl ok ↦
                    let after =
                      (process_one_recv umad qmap cfg seed call mlnx_ext_port_info_err engine).1 in
                    let less : size after.world < size engine.world = elim progress [
                      | inl bad ↦ absurd (cc)
                      | inr less ↦ less
                    ] in
                    rw (process_mads, busy, last.returned, ok)
                      (Emptied-trans engine after _ last.fewer (
                        process_mads-Emptied turns after last.well last.holds
                          (omega (arith, less, lt))))
              ]
        ]
