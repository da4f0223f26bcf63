-- ===== src/Mad/Rpc/Receive.antt =====
-- The loop that receives: what it returns, and how much fuel it takes.
use infiniband_diags.Base.{
  ℕ, zero, suc, ◌≤◌, ◌<◌, ◌≡◌, ◌≢◌, refl, sym, ap, ◌∙◌, inl, inr, Bool-cases, true, false,
  Option-cases, none, some, arith, ◌==◌,
}
use infiniband_diags.Base.Int.{ℤ}
use infiniband_diags.Mad.Rpc.{Reply, Umad, got, lost, starved, low_trid, receive}

-- A world that delivers finitely many datagrams: `size` bounds those that are still to come.
pub record IsFinite {W : Type 0} (umad : Umad W) (size : W → ℕ) : Type 0 where
  pub recv_less :
      (timeout : ℤ) (w : W) (r : Reply)
      → (umad.recv timeout w).0 ≡ some r
      → size (umad.recv timeout w).1 < size w
  pub recv_le : (timeout : ℤ) (w : W) → size (umad.recv timeout w).1 ≤ size w
  pub send_le :
      (agentid timeout retries : ℤ) (pkt : _) (w : W)
      → size (umad.send agentid timeout retries pkt w).1 ≤ size w

module _ {W : Type 0} (umad : Umad W) (trid : ℕ) (timeout : ℤ) where
  -- One turn of the loop.
  pub receive_skips :
      (fuel : ℕ) (w : W) (r : Reply)
      → (umad.recv timeout w).0 ≡ some r
      → (low_trid r.mad == trid) ≡ false
      → receive umad trid timeout (suc fuel) w
        ≡ receive umad trid timeout fuel (umad.recv timeout w).1
  unfolding receive
  receive_skips fuel w r e ne = rw (receive, e, ne) refl

  pub receive_takes :
      (fuel : ℕ) (w : W) (r : Reply)
      → (umad.recv timeout w).0 ≡ some r
      → (low_trid r.mad == trid) ≡ true
      → receive umad trid timeout (suc fuel) w ≡ (got r, (umad.recv timeout w).1)
  unfolding receive
  receive_takes fuel w r e eq = rw (receive, e, eq) refl

  pub receive_fails :
      (fuel : ℕ) (w : W)
      → (umad.recv timeout w).0 ≡ none
      → receive umad trid timeout (suc fuel) w ≡ (lost, (umad.recv timeout w).1)
  unfolding receive
  receive_fails fuel w e = rw (receive, e) refl

  -- What the loop returns has the number that was sent.
  pub receive-got :
      (fuel : ℕ) (w : W) (r : Reply)
      → (receive umad trid timeout fuel w).0 ≡ got r
      → low_trid r.mad ≡ trid
  unfolding receive
  receive-got zero w r h = absurd (cc)
  receive-got (suc fuel) w r h = elim (Option-cases (umad.recv timeout w).0) [
    | inl e ↦ let k = receive_fails fuel w e in absurd (cc)
    | inr (r', e) ↦ elim (Bool-cases (low_trid r'.mad == trid)) [
      | inl eq ↦
          let k = receive_takes fuel w r' e eq in
          let same : r ≡ r' = cc in rw same (ground (arith, eq))
      | inr ne ↦
          receive-got fuel (umad.recv timeout w).1 r
            (ap (λ p. p.0) (sym (receive_skips fuel w r' e ne)) ∙ h)
    ]
  ]

  -- What the loop returns is what its last call of umad_recv gave.
  pub receive_last :
      (fuel : ℕ) (w : W) (r : Reply)
      → (receive umad trid timeout fuel w).0 ≡ got r
      → (w' : W) × (umad.recv timeout w' ≡ (some r, (receive umad trid timeout fuel w).1))
  unfolding receive
  receive_last zero w r h = absurd (cc)
  receive_last (suc fuel) w r h = elim (Option-cases (umad.recv timeout w).0) [
    | inl e ↦ let k = receive_fails fuel w e in absurd (cc)
    | inr (r', e) ↦ elim (Bool-cases (low_trid r'.mad == trid)) [
      | inl eq ↦
          let k = receive_takes fuel w r' e eq in
          let same : r' ≡ r = cc in
          rw k (w, ap (λ o. (o, (umad.recv timeout w).1)) (e ∙ ap some same))
      | inr ne ↦
          let k = receive_skips fuel w r' e ne in
          rw k (receive_last fuel (umad.recv timeout w).1 r (ap (λ p. p.0) (sym k) ∙ h))
    ]
  ]

  -- With fuel above the datagrams to come, the loop ends by itself, and leaves no more of them.
  pub receive-ends :
      (size : W → ℕ) (fuel : ℕ) (w : W)
      → IsFinite umad size
      → size w < fuel
      → ((receive umad trid timeout fuel w).0 ≢ starved)
        × (size (receive umad trid timeout fuel w).1 ≤ size w)
  unfolding receive
  receive-ends size zero w finite lt = absurd (omega arith)
  receive-ends size (suc fuel) w finite lt = elim (Option-cases (umad.recv timeout w).0) [
    | inl e ↦ rw (receive_fails fuel w e) ((λ h. absurd (cc)), finite.recv_le timeout w)
    | inr (r', e) ↦ elim (Bool-cases (low_trid r'.mad == trid)) [
      | inl eq ↦ rw (receive_takes fuel w r' e eq) ((λ h. absurd (cc)), finite.recv_le timeout w)
      | inr ne ↦
          let less = finite.recv_less timeout w r' e in
          let rest = receive-ends size fuel (umad.recv timeout w).1 finite (omega arith) in
          rw (receive_skips fuel w r' e ne) (rest.0, omega (arith, rest.1))
    ]
  ]

  -- A reply that is returned is one less to come.
  pub receive-got_less :
      (size : W → ℕ) (fuel : ℕ) (w : W) (r : Reply)
      → IsFinite umad size
      → (receive umad trid timeout fuel w).0 ≡ got r
      → size (receive umad trid timeout fuel w).1 < size w
  unfolding receive
  receive-got_less size zero w r finite h = absurd (cc)
  receive-got_less size (suc fuel) w r finite h = elim (Option-cases (umad.recv timeout w).0) [
    | inl e ↦ let k = receive_fails fuel w e in absurd (cc)
    | inr (r', e) ↦ elim (Bool-cases (low_trid r'.mad == trid)) [
      | inl eq ↦ rw (receive_takes fuel w r' e eq) (finite.recv_less timeout w r' e)
      | inr ne ↦
          let less = finite.recv_less timeout w r' e in
          let k = receive_skips fuel w r' e ne in
          let rest =
            receive-got_less size fuel (umad.recv timeout w).1 r finite
              (ap (λ p. p.0) (sym k) ∙ h) in
          rw k (omega (arith, rest))
    ]
  ]
