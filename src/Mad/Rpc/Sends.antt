-- ===== src/Mad/Rpc/Sends.antt =====
-- The packets that `_do_madrpc` sends: a umad that keeps a log, and what the log holds in the end.
use infiniband_diags.Base.{
  ℕ, zero, suc, ◌≤◌, ◌≡◌, ◌≢◌, ◌⊎◌, refl, ap, ◌∙◌, inl, inr, Bool-cases, Option-cases, List, ◌∷◌,
  arith, ◌==◌,
}
use infiniband_diags.Base.Int.{ℤ, pos}
use infiniband_diags.Mad.Packet.{Packet}
use infiniband_diags.Mad.Rpc.{Umad, low_trid, receive, Outcome, timed_out, attempts, do_madrpc}
use infiniband_diags.Mad.Rpc.Receive.{receive_skips, receive_takes, receive_fails}
use infiniband_diags.Mad.Rpc.Attempts.{unsent, unheard, hungry, answered, again, sent, heard, turn}

-- The packets sent so far, the last one first.
abbrev pub Log : Type 0
Log = List Packet

abbrev pub copies : ℕ → Packet → Log → Log
copies zero pkt log = log
copies (suc k) pkt log = pkt ∷ copies k pkt log

copies_cons : (k : ℕ) (pkt : Packet) (log : Log) → copies k pkt (pkt ∷ log) ≡ copies (suc k) pkt log
copies_cons zero pkt log = refl
copies_cons (suc k) pkt log = ap (λ l. pkt ∷ l) (copies_cons k pkt log)

unfoldable pub logged : {W : Type 0} → Umad W → Umad (W × Log)
logged umad = record {
  send = λ agentid timeout retries pkt w.
      let (ok, w') = umad.send agentid timeout retries pkt w.0 in (ok, (w', pkt ∷ w.1));
  recv = λ timeout w. let (r, w') = umad.recv timeout w.0 in (r, (w', w.1));
}

-- The log of an end: `k` copies, at most `left`, and all of them when every one was answered in vain.
pub record Sent (pkt : Packet) (left : ℕ) (log : Log) (o : Outcome) (log' : Log) : Type 0 where
  pub count : ℕ
  pub bounded : count ≤ left
  pub copied : log' ≡ copies count pkt log
  pub exhausted : (count ≡ left) ⊎ ((status : ℕ) → o ≢ timed_out status)

module _ {W : Type 0} (umad : Umad W) (agentid timeout : ℤ) (pkt : Packet) (fuel : ℕ) where
  receive-log : (trid n : ℕ) (w : W × Log) → (receive (logged umad) trid timeout n w).1.1 ≡ w.1
  unfolding logged receive
  receive-log trid zero w = refl
  receive-log trid (suc n) w = elim (Option-cases (umad.recv timeout w.0).0) [
    | inl e ↦ rw (receive_fails (logged umad) trid timeout n w e) refl
    | inr (r, e) ↦ elim (Bool-cases (low_trid r.mad == trid)) [
      | inl eq ↦ rw (receive_takes (logged umad) trid timeout n w r e eq) refl
      | inr ne ↦
          rw (receive_skips (logged umad) trid timeout n w r e ne)
            (receive-log trid n ((umad.recv timeout w.0).1, w.1))
    ]
  ]

  once :
      (left : ℕ) (log : Log) (o : Outcome) (log' : Log)
      → log' ≡ pkt ∷ log
      → ((status : ℕ) → o ≢ timed_out status)
      → Sent pkt (suc left) log o log'
  once left log o log' e no_end = record {
    count = 1;
    bounded = omega arith;
    copied = e;
    exhausted = inr no_end;
  }

  heard-log : (w : W × Log) → (heard (logged umad) agentid timeout pkt fuel w).1.1 ≡ pkt ∷ w.1
  unfolding logged
  heard-log w = receive-log (low_trid pkt.mad) fuel (sent (logged umad) agentid timeout pkt fuel w)

  attempts-Sent :
      (left status : ℕ) (w : W × Log)
      → Sent pkt left w.1
          (attempts (logged umad) agentid timeout pkt fuel left status w).0
          (attempts (logged umad) agentid timeout pkt fuel left status w).1.1
  unfolding attempts logged
  attempts-Sent zero status w = record {
    count = 0;
    bounded = omega arith;
    copied = refl;
    exhausted = inl refl;
  }
  attempts-Sent (suc left) status w =
      elim (turn (logged umad) agentid timeout pkt fuel left status w) [
        | unsent e ↦ rw e (once left w.1 _ _ refl (λ s h. absurd (cc)))
        | unheard e ↦ rw e (once left w.1 _ _ (heard-log w) (λ s h. absurd (cc)))
        | hungry s e ↦ rw e (once left w.1 _ _ (heard-log w) (λ s h. absurd (cc)))
        | answered r at ok e ↦ rw e (once left w.1 _ _ (heard-log w) (λ s h. absurd (cc)))
        | again r e ↦
            let rest =
              attempts-Sent left r.status (heard (logged umad) agentid timeout pkt fuel w).1 in
            rw e (record {
              count = suc rest.count;
              bounded = omega (arith, rest.bounded);
              copied =
                  rest.copied
                  ∙ (ap (copies rest.count pkt) (heard-log w) ∙ copies_cons rest.count pkt w.1);
              exhausted = elim rest.exhausted [
                | inl all ↦ inl (ap suc all)
                | inr no_end ↦ inr no_end
              ];
            })
      ]

  -- The packets that an exchange sends are copies of the one packet, at most `max_retries` of them,
  -- and exactly so many when it times out.
  pub do_madrpc-Sent :
      (n : ℕ) (w : W × Log)
      → Sent pkt n w.1
          (do_madrpc (logged umad) agentid timeout (pos n) pkt fuel w).0
          (do_madrpc (logged umad) agentid timeout (pos n) pkt fuel w).1.1
  unfolding do_madrpc
  do_madrpc-Sent zero w = record {
    count = 0;
    bounded = omega arith;
    copied = refl;
    exhausted = inl refl;
  }
  do_madrpc-Sent (suc n) w = attempts-Sent (suc n) 0 w
