-- ===== src/NetDisc/Engine/Sending.antt =====
-- Sending an SMP leaves the queue alone.
use infiniband_diags.Base.{ℕ, ◌≡◌, refl, ◌∙◌, inl, inr, Option-cases, none, List, [], ◌∷◌, arith}
use infiniband_diags.Base.Int.{ℤ}
use infiniband_diags.Mad.Rpc.{Umad}
use infiniband_diags.Mad.Packet.{mad_build_pkt}
use infiniband_diags.NetDisc.Engine.{Smp, QMap, Config, Engine, agent_of, send_by, send_smp}
use infiniband_diags.NetDisc.Engine.Queue.{IsLinked, IsQueue}

-- The two engines have the same queue, the same addresses and the same SMPs on the wire.
pub record SameQueue {W M C U : Type 0} (p q : Engine W M C U) : Type 0 where
  pub head : q.smp_queue_head ≡ p.smp_queue_head
  pub tail : q.smp_queue_tail ≡ p.smp_queue_tail
  pub fresh : q.fresh ≡ p.fresh
  pub next : (a : ℕ) → (q.heap a).qnext ≡ (p.heap a).qnext

pub IsLinked-cong :
    {C : Type 0} (p q : ℕ → Smp C) (x : ℕ) (xs : List ℕ) (tail : ℕ)
    → ((a : ℕ) → (q a).qnext ≡ (p a).qnext)
    → IsLinked p x xs tail
    → IsLinked q x xs tail
IsLinked-cong p q x [] tail same links = (same x ∙ links.0, links.1)
IsLinked-cong p q x (y ∷ ys) tail same links =
    (same x ∙ links.0, IsLinked-cong p q y ys tail same links.1)

module _ {W M C U : Type 0} where
  pub IsQueue-cong :
      (p q : Engine W M C U) (xs : List ℕ) → SameQueue p q → IsQueue p xs → IsQueue q xs
  IsQueue-cong p q [] same queue = (same.head ∙ queue.0, same.tail ∙ queue.1)
  IsQueue-cong p q (x ∷ xs) same (head, (tail, at, links)) = (
    same.head ∙ head,
    (tail, same.tail ∙ at, IsLinked-cong p.heap q.heap x xs tail same.next links),
  )

  SameQueue-refl : (p : Engine W M C U) → SameQueue p p
  SameQueue-refl p = record { head = refl; tail = refl; fresh = refl; next = λ a. refl }

  module _ (umad : Umad W) (qmap : QMap M) (cfg : Config) (seed : ℕ) where
    send_by-SameQueue :
        (agent : ℤ) (engine : Engine W M C U) (smp : ℕ)
        → SameQueue engine (send_by umad qmap cfg seed agent engine smp).1
          × ((send_by umad qmap cfg seed agent engine smp).1.smps_on_wire ≡ engine.smps_on_wire)
    unfolding send_by
    send_by-SameQueue agent engine smp =
        let s = engine.heap smp in
        elim (Option-cases
          (mad_build_pkt seed engine.static_trid (λ a. 0) s.rpc s.path none none)) [
            | inl refused ↦ rw (send_by, refused) (SameQueue-refl engine, refl)
            | inr (b, built) ↦
                rw (send_by, built)
                  (
                    record { head = refl; tail = refl; fresh = refl; next = λ a. ground arith },
                    refl,
                  )
          ]

    pub send_smp-SameQueue :
        (engine : Engine W M C U) (smp : ℕ)
        → SameQueue engine (send_smp umad qmap cfg seed engine smp).1
          × ((send_smp umad qmap cfg seed engine smp).1.smps_on_wire ≡ engine.smps_on_wire)
    unfolding send_smp
    send_smp-SameQueue engine smp = elim (Option-cases (agent_of engine (engine.heap smp).rpc)) [
      | inl other ↦ rw (send_smp, other) (SameQueue-refl engine, refl)
      | inr (agent, found) ↦ rw (send_smp, found) (send_by-SameQueue agent engine smp)
    ]
