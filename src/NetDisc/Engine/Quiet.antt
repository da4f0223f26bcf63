-- ===== src/NetDisc/Engine/Quiet.antt =====
-- Serving the queue allocates nothing, leaves the caller's data, and leaves no more datagrams to
-- come.
use infiniband_diags.Base.{
  ℕ, zero, suc, ◌≤◌, ◌≡◌, refl, ◌∙◌, inl, inr, Bool-cases, Option-cases, none, arith, ltb,
}
use infiniband_diags.Base.Int.{ℤ, pos, is_zero}
use infiniband_diags.Mad.Rpc.{Umad}
use infiniband_diags.Mad.Rpc.Receive.{IsFinite}
use infiniband_diags.Mad.Packet.{mad_build_pkt}
use infiniband_diags.NetDisc.Engine.{
  QMap, Config, Engine, agent_of, get_smp, send_by, send_smp, put_on_wire, process_smp_queue,
}
use infiniband_diags.NetDisc.Engine.Serving.{served, sent, full, empty, failed, continued}

module _ {W M C U : Type 0} (size : W → ℕ) where
  -- From `p` to `q` nothing was allocated, the caller's data are what they were, and no more
  -- datagrams are to come.
  pub record Quiet (p q : Engine W M C U) : Type 0 where
    pub fresh : q.fresh ≡ p.fresh
    pub same_user : q.user_data ≡ p.user_data
    pub fewer : size q.world ≤ size p.world

  pub Quiet-refl : (p : Engine W M C U) → Quiet p p
  Quiet-refl p = record { fresh = refl; same_user = refl; fewer = omega arith }

  pub Quiet-trans : (p q r : Engine W M C U) → Quiet p q → Quiet q r → Quiet p r
  Quiet-trans p q r h k = record {
    fresh = k.fresh ∙ h.fresh;
    same_user = k.same_user ∙ h.same_user;
    fewer = omega (arith, h.fewer, k.fewer);
  }

  get_smp-Quiet : (engine : Engine W M C U) → Quiet engine (get_smp engine).1
  unfolding get_smp
  get_smp-Quiet engine = elim (Option-cases engine.smp_queue_head) [
    | inl e ↦ rw (get_smp, e) (record { fresh = refl; same_user = refl; fewer = omega arith })
    | inr (head, e) ↦
        rw (get_smp, e) (record { fresh = refl; same_user = refl; fewer = omega arith })
  ]

  module _ (umad : Umad W) (qmap : QMap M) (cfg : Config) (seed : ℕ)
      (finite : IsFinite umad size) where
    send_by-Quiet :
        (agent : ℤ) (engine : Engine W M C U) (smp : ℕ)
        → Quiet engine (send_by umad qmap cfg seed agent engine smp).1
    unfolding send_by
    send_by-Quiet agent engine smp =
        let s = engine.heap smp in
        elim (Option-cases
          (mad_build_pkt seed engine.static_trid (λ a. 0) s.rpc s.path none none)) [
            | inl refused ↦ rw (send_by, refused) (Quiet-refl engine)
            | inr (b, built) ↦
                rw (send_by, built)
                  (record {
                    fresh = refl;
                    same_user = refl;
                    fewer =
                        finite.send_le agent (pos cfg.timeout_ms) (pos cfg.retries) b.packet
                          engine.world;
                  })
          ]

    send_smp-Quiet :
        (engine : Engine W M C U) (smp : ℕ)
        → Quiet engine (send_smp umad qmap cfg seed engine smp).1
    unfolding send_smp
    send_smp-Quiet engine smp = elim (Option-cases (agent_of engine (engine.heap smp).rpc)) [
      | inl other ↦ rw (send_smp, other) (Quiet-refl engine)
      | inr (agent, found) ↦ rw (send_smp, found) (send_by-Quiet agent engine smp)
    ]

    sent-Quiet :
        (engine : Engine W M C U) (smp : ℕ) → Quiet engine (sent umad qmap cfg seed engine smp).1
    sent-Quiet engine smp =
        Quiet-trans engine (get_smp engine).1 _ (get_smp-Quiet engine)
          (send_smp-Quiet (get_smp engine).1 smp)

    pub served-Quiet :
        (fuel : ℕ) (engine : Engine W M C U)
        → Quiet engine (served umad qmap cfg seed fuel engine).1
    unfolding process_smp_queue put_on_wire
    served-Quiet zero engine = Quiet-refl engine
    served-Quiet (suc fuel) engine =
        elim (Bool-cases (ltb (qmap.count engine.smps_on_wire) cfg.max_smps)) [
          | inr at ↦ rw (full umad qmap cfg seed fuel engine at) (Quiet-refl engine)
          | inl at ↦ elim (Option-cases (get_smp engine).0) [
            | inl none_left ↦
                rw (empty umad qmap cfg seed fuel engine at none_left) (get_smp-Quiet engine)
            | inr (smp, found) ↦
                elim (Bool-cases (is_zero (sent umad qmap cfg seed engine smp).0)) [
                  | inr bad ↦
                      rw (failed umad qmap cfg seed fuel engine smp at found bad)
                        (sent-Quiet engine smp)
                  | inl ok ↦
                      let put =
                        put_on_wire umad qmap cfg seed (sent umad qmap cfg seed engine smp).1 smp in
                      let step : Quiet engine put = record {
                        fresh = (sent-Quiet engine smp).fresh;
                        same_user = (sent-Quiet engine smp).same_user;
                        fewer = (sent-Quiet engine smp).fewer;
                      } in
                      rw (continued umad qmap cfg seed fuel engine smp at found ok)
                        (Quiet-trans engine put _ step (served-Quiet fuel put))
                ]
          ]
        ]
