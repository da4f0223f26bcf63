-- ===== src/Mad/Rpc/Attempts.antt =====
-- The loop over the retries: one turn of it, and what holds at its end.
use infiniband_diags.Base.{ℕ, suc, ◌≡◌, refl, ◌⊎◌, inl, inr, Bool-cases, false, arith}
use infiniband_diags.Base.Int.{pos, is_negative, ℤ}
use infiniband_diags.Mad.Packet.{Packet}
use infiniband_diags.Mad.Rpc.{
  Reply, Umad, Received, got, lost, starved, low_trid, receive, done, send_failed, recv_failed,
  no_fuel, enomem, is_done, attempts,
}
use infiniband_diags.Mad.Rpc.Receive.{receive-got}

-- A reply ends the exchange.
abbrev pub IsAnswer : Packet → Reply → Type 0
IsAnswer pkt r = (low_trid r.mad ≡ low_trid pkt.mad) × ((r.status ≡ 0) ⊎ (r.status ≡ enomem))

Received-cases : (x : Received) → ((r : Reply) × (x ≡ got r)) ⊎ (x ≡ lost) ⊎ (x ≡ starved)
Received-cases (got r) = inl (r, refl)
Received-cases lost = inr (inl refl)
Received-cases starved = inr (inr refl)

module _ {W : Type 0} (umad : Umad W) (agentid timeout : ℤ) (pkt : Packet) (fuel : ℕ) where
  abbrev pub sent : W → W
  sent w = (umad.send agentid timeout (pos 0) pkt w).1

  abbrev pub heard : W → Received × W
  heard w = receive umad (low_trid pkt.mad) timeout fuel (sent w)

  -- The ways that a turn ends.
  pub data Turn (left status : ℕ) (w : W) : Type 0 where
    unsent :
        attempts umad agentid timeout pkt fuel (suc left) status w ≡ (send_failed, sent w)
        → Turn left status w
    unheard :
        attempts umad agentid timeout pkt fuel (suc left) status w ≡ (recv_failed, (heard w).1)
        → Turn left status w
    hungry :
        (heard w).0 ≡ starved
        → attempts umad agentid timeout pkt fuel (suc left) status w ≡ (no_fuel, (heard w).1)
        → Turn left status w
    answered :
        (r : Reply)
        → (heard w).0 ≡ got r
        → IsAnswer pkt r
        → attempts umad agentid timeout pkt fuel (suc left) status w ≡ (done r, (heard w).1)
        → Turn left status w
    again :
        (r : Reply)
        → attempts umad agentid timeout pkt fuel (suc left) status w
          ≡ attempts umad agentid timeout pkt fuel left r.status (heard w).1
        → Turn left status w

  Turn-got :
      (left status : ℕ) (w : W) (r : Reply)
      → is_negative (umad.send agentid timeout (pos 0) pkt w).0 ≡ false
      → (heard w).0 ≡ got r
      → Turn left status w
  unfolding attempts
  Turn-got left status w r ok e = elim (Bool-cases (is_done r)) [
    | inl fin ↦
        answered r e
          (receive-got umad (low_trid pkt.mad) timeout fuel (sent w) r e, ground (arith, fin))
          (rw (attempts, ok, e, fin) refl)
    | inr more ↦ again r (rw (attempts, ok, e, more) refl)
  ]

  pub turn : (left status : ℕ) (w : W) → Turn left status w
  unfolding attempts
  turn left status w = elim (Bool-cases (is_negative (umad.send agentid timeout (pos 0) pkt w).0)) [
    | inl failed ↦ unsent (rw (attempts, failed) refl)
    | inr ok ↦ elim (Received-cases (heard w).0) [
      | inl (r, e) ↦ Turn-got left status w r ok e
      | inr (inl e) ↦ unheard (rw (attempts, ok, e) refl)
      | inr (inr e) ↦ hungry e (rw (attempts, ok, e) refl)
    ]
  ]
