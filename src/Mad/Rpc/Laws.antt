-- ===== src/Mad/Rpc/Laws.antt =====
-- What `_do_madrpc` promises: the reply that it returns, its end, and what it sends.
use infiniband_diags.Base.{ℕ, zero, suc, ◌<◌, ◌≡◌, ◌≢◌, sym, ap, ◌∙◌, some, arith}
use infiniband_diags.Base.Int.{ℤ, pos, negsuc}
use infiniband_diags.Mad.Packet.{Packet}
use infiniband_diags.Mad.Rpc.{Reply, Umad, got, low_trid, done, no_fuel, attempts, do_madrpc}
use infiniband_diags.Mad.Rpc.Receive.{IsFinite, receive-ends, receive-got_less, receive_last}
use infiniband_diags.Mad.Rpc.Attempts.{
  IsAnswer, unsent, unheard, hungry, answered, again, sent, turn,
}

module _ {W : Type 0} (umad : Umad W) (agentid timeout : ℤ) (pkt : Packet) (fuel : ℕ) where
  attempts-done :
      (left status : ℕ) (w : W) (r : Reply)
      → (attempts umad agentid timeout pkt fuel left status w).0 ≡ done r
      → IsAnswer pkt r
  unfolding attempts
  attempts-done zero status w r h = absurd (cc)
  attempts-done (suc left) status w r h = elim (turn umad agentid timeout pkt fuel left status w) [
    | unsent e ↦ absurd (cc)
    | unheard e ↦ absurd (cc)
    | hungry s e ↦ absurd (cc)
    | answered r' at ok e ↦ let same : r' ≡ r = cc in rw (sym same) ok
    | again r' e ↦ attempts-done left r'.status _ r (ap (λ p. p.0) (sym e) ∙ h)
  ]

  -- A reply that is returned carries the transaction number of the packet, in its low 32 bits, and
  -- its status is 0 or ENOMEM.
  pub do_madrpc-done :
      (max_retries : ℤ) (w : W) (r : Reply)
      → (do_madrpc umad agentid timeout max_retries pkt fuel w).0 ≡ done r
      → IsAnswer pkt r
  unfolding do_madrpc
  do_madrpc-done (pos zero) w r h = absurd (cc)
  do_madrpc-done (pos (suc n)) w r h = attempts-done (suc n) 0 w r h
  do_madrpc-done (negsuc n) w r h = absurd (cc)

  attempts_last :
      (left status : ℕ) (w : W) (r : Reply)
      → (attempts umad agentid timeout pkt fuel left status w).0 ≡ done r
      → (w' : W) × (umad.recv timeout w'
          ≡ (some r, (attempts umad agentid timeout pkt fuel left status w).1))
  unfolding attempts
  attempts_last zero status w r h = absurd (cc)
  attempts_last (suc left) status w r h = elim (turn umad agentid timeout pkt fuel left status w) [
    | unsent e ↦ absurd (cc)
    | unheard e ↦ absurd (cc)
    | hungry s e ↦ absurd (cc)
    | answered r' at ok e ↦
        let same : r' ≡ r = cc in
        rw e (
          receive_last umad (low_trid pkt.mad) timeout fuel (sent umad agentid timeout pkt fuel w) r
            (at ∙ ap got same))
    | again r' e ↦ rw e (attempts_last left r'.status _ r (ap (λ p. p.0) (sym e) ∙ h))
  ]

  -- A reply that is returned is what the last call of umad_recv gave.
  pub do_madrpc_last :
      (max_retries : ℤ) (w : W) (r : Reply)
      → (do_madrpc umad agentid timeout max_retries pkt fuel w).0 ≡ done r
      → (w' : W) × (umad.recv timeout w'
          ≡ (some r, (do_madrpc umad agentid timeout max_retries pkt fuel w).1))
  unfolding do_madrpc
  do_madrpc_last (pos zero) w r h = absurd (cc)
  do_madrpc_last (pos (suc n)) w r h = attempts_last (suc n) 0 w r h
  do_madrpc_last (negsuc n) w r h = absurd (cc)

  attempts-ends :
      (size : W → ℕ) (left status : ℕ) (w : W)
      → IsFinite umad size
      → size w < fuel
      → (attempts umad agentid timeout pkt fuel left status w).0 ≢ no_fuel
  unfolding attempts
  attempts-ends size zero status w finite lt h = absurd (cc)
  attempts-ends size (suc left) status w finite lt h =
      let le = finite.send_le agentid timeout (pos 0) pkt w in
      let ends =
        receive-ends umad (low_trid pkt.mad) timeout size fuel
          (sent umad agentid timeout pkt fuel w) finite (omega arith) in
      elim (turn umad agentid timeout pkt fuel left status w) [
        | unsent e ↦ absurd (cc)
        | unheard e ↦ absurd (cc)
        | hungry s e ↦ ends.0 s
        | answered r at ok e ↦ absurd (cc)
        | again r e ↦
            attempts-ends size left r.status _ finite (omega (arith, ends.1))
              (ap (λ p. p.0) (sym e) ∙ h)
      ]

  -- When finitely many datagrams are still to come, a fuel above their number lets the loops end
  -- by themselves.
  pub do_madrpc-ends :
      (size : W → ℕ) (max_retries : ℤ) (w : W)
      → IsFinite umad size
      → size w < fuel
      → (do_madrpc umad agentid timeout max_retries pkt fuel w).0 ≢ no_fuel
  unfolding do_madrpc
  do_madrpc-ends size (pos zero) w finite lt h = absurd (cc)
  do_madrpc-ends size (pos (suc n)) w finite lt h = attempts-ends size (suc n) 0 w finite lt h
  do_madrpc-ends size (negsuc n) w finite lt h = absurd (cc)

  attempts-done_less :
      (size : W → ℕ) (left status : ℕ) (w : W) (r : Reply)
      → IsFinite umad size
      → size w < fuel
      → (attempts umad agentid timeout pkt fuel left status w).0 ≡ done r
      → size (attempts umad agentid timeout pkt fuel left status w).1 < size w
  unfolding attempts
  attempts-done_less size zero status w r finite lt h = absurd (cc)
  attempts-done_less size (suc left) status w r finite lt h =
      let le = finite.send_le agentid timeout (pos 0) pkt w in
      let ends =
        receive-ends umad (low_trid pkt.mad) timeout size fuel
          (sent umad agentid timeout pkt fuel w) finite (omega arith) in
      elim (turn umad agentid timeout pkt fuel left status w) [
        | unsent e ↦ absurd (cc)
        | unheard e ↦ absurd (cc)
        | hungry s e ↦ absurd (cc)
        | answered r' at ok e ↦
            let less =
              receive-got_less umad (low_trid pkt.mad) timeout size fuel
                (sent umad agentid timeout pkt fuel w) r' finite at in
            rw e (omega (arith, less))
        | again r' e ↦
            let rest =
              attempts-done_less size left r'.status _ r finite (omega (arith, ends.1))
                (ap (λ p. p.0) (sym e) ∙ h) in
            rw e (omega (arith, rest, ends.1))
      ]

  -- An exchange that returns a reply has taken one of the datagrams to come.
  pub do_madrpc-done_less :
      (size : W → ℕ) (max_retries : ℤ) (w : W) (r : Reply)
      → IsFinite umad size
      → size w < fuel
      → (do_madrpc umad agentid timeout max_retries pkt fuel w).0 ≡ done r
      → size (do_madrpc umad agentid timeout max_retries pkt fuel w).1 < size w
  unfolding do_madrpc
  do_madrpc-done_less size (pos zero) w r finite lt h = absurd (cc)
  do_madrpc-done_less size (pos (suc n)) w r finite lt h =
      attempts-done_less size (suc n) 0 w r finite lt h
  do_madrpc-done_less size (negsuc n) w r finite lt h = absurd (cc)
