-- ===== src/Mad/Call/Laws.antt =====
-- What `mad_rpc` promises: its end, and the reply behind the data that it returns.
use infiniband_diags.Base.{
  ℕ, zero, suc, ◌<◌, ◌^◌, ◌≡◌, ◌≢◌, refl, sym, ap, ◌∙◌, ◌⊎◌, inl, inr, Bool-cases, Option,
  Option-cases, none, some, arith, ◌==◌,
}
use infiniband_diags.Base.Int.{ℤ}
use infiniband_diags.Mad.Field.{Buf}
use infiniband_diags.Mad.Table.{mad_get_field}
use infiniband_diags.Mad.Types.{PortId, Rpc}
use infiniband_diags.Mad.Packet.{Packet, Built, mad_build_pkt}
use infiniband_diags.Mad.Packet.Laws.{mad_build_pkt-rpc}
use infiniband_diags.Mad.Encode.{number_request}
use infiniband_diags.Mad.Numbers.{ib_drsmp_status_f}
use infiniband_diags.Mad.Rpc.{
  Reply, Umad, IbmadPort, Outcome, done, invalid, send_failed, recv_failed, timed_out, no_fuel,
  mad_get_timeout,
}
use infiniband_diags.Mad.Rpc.Receive.{IsFinite}
use infiniband_diags.Mad.Rpc.Attempts.{IsAnswer}
use infiniband_diags.Mad.Rpc.Laws.{
  do_madrpc-done, do_madrpc-ends, do_madrpc-done_less, do_madrpc_last,
}
use infiniband_diags.Mad.Call.{
  redirect_port, set_error, replied, unbuilt, unanswered, bad_status, unfinished, Run,
  ib_mad_sts_redirect, zeroed, copy_out, conclude, exchange, rpc_loop, mad_rpc,
}
use infiniband_diags.Mad.Call.Requests.{
  unnumbered, set_error-unnumbered, set_error-trid, number_request-unnumbered, Fits, Fits-trans,
  number_request-Fits, redirect_port-drpath,
}

module _ {W : Type 0} (umad : Umad W) (port : IbmadPort) (seed : ℕ)
    (madrpc_timeout madrpc_retries : ℤ) (payload rcvdata : Option Buf) (recv_fuel : ℕ) where
  abbrev asked : Rpc → Packet → W → Outcome × W
  asked rpc pkt w = exchange umad port madrpc_timeout madrpc_retries recv_fuel rpc pkt w

  abbrev looped : ℕ → Rpc → PortId → ℕ → W → Run W
  looped fuel rpc dport trid w =
      rpc_loop umad port seed madrpc_timeout madrpc_retries payload rcvdata recv_fuel fuel rpc dport
        trid w

  -- The ways that a turn of the loop ends.
  data Lap (fuel : ℕ) (rpc : Rpc) (dport : PortId) (trid : ℕ) (w : W) : Type 0 where
    not_built : (looped (suc fuel) rpc dport trid w).value ≡ unbuilt → Lap fuel rpc dport trid w
    not_answered :
        (b : Built)
        → (looped (suc fuel) rpc dport trid w).value ≡ unanswered (asked b.rpc b.packet w).0
        → Lap fuel rpc dport trid w
    concluded :
        (b : Built) (r : Reply) (dport' : PortId)
        → mad_build_pkt seed trid zeroed rpc dport none payload ≡ some b
        → (dport' ≡ dport) ⊎ (mad_get_field r.mad 0 ib_drsmp_status_f ≡ ib_mad_sts_redirect)
        → (asked b.rpc b.packet w).0 ≡ done r
        → looped (suc fuel) rpc dport trid w
          ≡ conclude b.rpc dport' b.static_trid r.mad rcvdata (asked b.rpc b.packet w).1
        → Lap fuel rpc dport trid w
    redirected :
        (b : Built) (r : Reply)
        → b.rpc ≡ (number_request seed trid rpc).0
        → (asked b.rpc b.packet w).0 ≡ done r
        → looped (suc fuel) rpc dport trid w
          ≡ looped fuel b.rpc (redirect_port dport r.mad).1 b.static_trid (asked b.rpc b.packet w).1
        → Lap fuel rpc dport trid w

  Lap-done :
      (fuel : ℕ) (rpc : Rpc) (dport : PortId) (trid : ℕ) (w : W) (b : Built) (r : Reply)
      → mad_build_pkt seed trid zeroed rpc dport none payload ≡ some b
      → (asked b.rpc b.packet w).0 ≡ done r
      → Lap fuel rpc dport trid w
  unfolding rpc_loop
  Lap-done fuel rpc dport trid w b r built at =
      elim (Bool-cases (mad_get_field r.mad 0 ib_drsmp_status_f == ib_mad_sts_redirect)) [
        | inr other ↦ concluded b r dport built (inl refl) at (rw (rpc_loop, built, at, other) refl)
        | inl redirect ↦ elim (Bool-cases (redirect_port dport r.mad).0) [
          | inl moved ↦
              redirected b r (mad_build_pkt-rpc seed trid zeroed rpc dport none payload b built) at
                (rw (rpc_loop, built, at, redirect, moved) refl)
          | inr stuck ↦
              concluded b r (redirect_port dport r.mad).1 built (inr (ground (arith, redirect))) at
                (rw (rpc_loop, built, at, redirect, stuck) refl)
        ]
      ]

  Lap-outcome :
      (fuel : ℕ) (rpc : Rpc) (dport : PortId) (trid : ℕ) (w : W) (b : Built) (o : Outcome)
      → mad_build_pkt seed trid zeroed rpc dport none payload ≡ some b
      → (asked b.rpc b.packet w).0 ≡ o
      → Lap fuel rpc dport trid w
  unfolding rpc_loop
  Lap-outcome fuel rpc dport trid w b (done r) built e = Lap-done fuel rpc dport trid w b r built e
  Lap-outcome fuel rpc dport trid w b invalid built e =
      not_answered b (rw (rpc_loop, built, e) refl)
  Lap-outcome fuel rpc dport trid w b send_failed built e =
      not_answered b (rw (rpc_loop, built, e) refl)
  Lap-outcome fuel rpc dport trid w b recv_failed built e =
      not_answered b (rw (rpc_loop, built, e) refl)
  Lap-outcome fuel rpc dport trid w b (timed_out s) built e =
      not_answered b (rw (rpc_loop, built, e) refl)
  Lap-outcome fuel rpc dport trid w b no_fuel built e =
      not_answered b (rw (rpc_loop, built, e) refl)

  lap : (fuel : ℕ) (rpc : Rpc) (dport : PortId) (trid : ℕ) (w : W) → Lap fuel rpc dport trid w
  unfolding rpc_loop
  lap fuel rpc dport trid w =
      elim (Option-cases (mad_build_pkt seed trid zeroed rpc dport none payload)) [
        | inl e ↦ not_built (rw (rpc_loop, e) refl)
        | inr (b, e) ↦ Lap-outcome fuel rpc dport trid w b (asked b.rpc b.packet w).0 e refl
      ]

  -- A run that ended on its own.
  abbrev pub Ends : Run W → Type 0
  Ends run = (run.value ≢ unfinished) × (run.value ≢ unanswered no_fuel)

  conclude-Ends :
      (rpc : Rpc) (dport : PortId) (trid : ℕ) (mad : Buf) (w : W)
      → Ends (conclude rpc dport trid mad rcvdata w)
  unfolding conclude
  conclude-Ends rpc dport trid mad w =
      elim (Bool-cases (mad_get_field mad 0 ib_drsmp_status_f == 0)) [
        | inl ok ↦ rw ok ((λ h. absurd (cc)), λ h. absurd (cc))
        | inr bad ↦ rw bad ((λ h. absurd (cc)), λ h. absurd (cc))
      ]

  asked-ends :
      (size : W → ℕ) (b : Built) (w : W)
      → IsFinite umad size
      → size w < recv_fuel
      → (asked b.rpc b.packet w).0 ≢ no_fuel
  asked-ends size b w finite lt = do_madrpc-ends umad _ _ b.packet recv_fuel size _ w finite lt

  looped-Ends :
      (size : W → ℕ) (fuel : ℕ) (rpc : Rpc) (dport : PortId) (trid : ℕ) (w : W)
      → IsFinite umad size
      → size w < fuel
      → size w < recv_fuel
      → Ends (looped fuel rpc dport trid w)
  looped-Ends size zero rpc dport trid w finite lt lt' = absurd (omega arith)
  looped-Ends size (suc fuel) rpc dport trid w finite lt lt' = elim (lap fuel rpc dport trid w) [
    | not_built e ↦ ((λ h. absurd (cc)), λ h. absurd (cc))
    | not_answered b e ↦
        let ends = asked-ends size b w finite lt' in ((λ h. absurd (cc)), λ h. ends (cc))
    | concluded b r dport' built side at e ↦ rw e (conclude-Ends b.rpc dport' b.static_trid r.mad _)
    | redirected b r same at e ↦
        let less = do_madrpc-done_less umad _ _ b.packet recv_fuel size _ w r finite lt' at in
        rw e (
          looped-Ends size fuel b.rpc _ b.static_trid _ finite (omega (arith, less))
            (omega (arith, less)))
  ]

  -- When finitely many datagrams are still to come, `mad_rpc` ends by itself: fuels above their
  -- number are enough for its loop and for the loop that receives.
  pub mad_rpc-Ends :
      (size : W → ℕ) (fuel : ℕ) (rpc : Rpc) (dport : PortId) (trid : ℕ) (w : W)
      → IsFinite umad size
      → size w < fuel
      → size w < recv_fuel
      → Ends (
          mad_rpc umad port seed madrpc_timeout madrpc_retries payload rcvdata recv_fuel fuel rpc
            dport trid w)
  unfolding mad_rpc
  mad_rpc-Ends size fuel rpc dport trid w finite lt lt' =
      looped-Ends size fuel (set_error rpc 0) dport trid w finite lt lt'

  -- The last call of umad_recv gave this reply, and left this world.
  abbrev Heard : Rpc → Reply → W → Type 0
  Heard rpc r w' =
      (w₀ : W) × (umad.recv (mad_get_timeout port rpc.timeout madrpc_timeout) w₀ ≡ (some r, w'))

  -- The reply behind the data of a run, and the request and the port that it answers.
  pub record Answered (rpc : Rpc) (dport : PortId) (data' : Option Buf) (run : Run W) : Type 0 where
    pub sent : Rpc
    pub same_request : unnumbered sent ≡ unnumbered rpc
    pub fits : (sent.trid < 2 ^ 64) ⊎ (sent.trid ≡ rpc.trid)
    pub routed : run.dport.drpath ≡ dport.drpath
    pub numbered : ℕ
    pub built : Built
    pub built_of : mad_build_pkt seed numbered zeroed sent run.dport none payload ≡ some built
    pub reply : Reply
    pub before : W
    pub exchanged : asked built.rpc built.packet before ≡ (done reply, run.world)
    pub heard : Heard built.rpc reply run.world
    pub matches : IsAnswer built.packet reply
    pub no_error : mad_get_field reply.mad 0 ib_drsmp_status_f ≡ 0
    pub request : run.rpc ≡ record (set_error built.rpc 0) { rstatus = 0 }
    pub copied : data' ≡ copy_out built.rpc reply.mad rcvdata

  conclude-Answered :
      (rpc : Rpc) (trid : ℕ) (b : Built) (r : Reply) (dport : PortId) (w₀ w : W)
      (data' : Option Buf)
      → mad_build_pkt seed trid zeroed rpc dport none payload ≡ some b
      → asked b.rpc b.packet w₀ ≡ (done r, w)
      → mad_get_field r.mad 0 ib_drsmp_status_f ≡ 0
      → (conclude b.rpc dport b.static_trid r.mad rcvdata w).value ≡ replied data'
      → Answered rpc dport data' (conclude b.rpc dport b.static_trid r.mad rcvdata w)
  unfolding conclude
  conclude-Answered rpc trid b r dport w₀ w data' built exchanged no_error h =
      let value : (conclude b.rpc dport b.static_trid r.mad rcvdata w).value
          ≡ replied (copy_out b.rpc r.mad rcvdata) =
        rw no_error refl in
      record {
        sent = rpc;
        same_request = refl;
        fits = inr refl;
        routed = refl;
        numbered = trid;
        built = b;
        built_of = built;
        reply = r;
        before = w₀;
        exchanged = exchanged;
        heard =
            rw (← ap (λ p. p.1) exchanged)
              (do_madrpc_last umad _ _ b.packet recv_fuel _ w₀ r (ap (λ p. p.0) exchanged));
        matches = do_madrpc-done umad _ _ b.packet recv_fuel _ w₀ r (ap (λ p. p.0) exchanged);
        no_error = no_error;
        request = rw no_error refl;
        copied = cc;
      }

  replied_status :
      (rpc : Rpc) (dport : PortId) (trid : ℕ) (mad : Buf) (w : W) (data' : Option Buf)
      → (conclude rpc dport trid mad rcvdata w).value ≡ replied data'
      → mad_get_field mad 0 ib_drsmp_status_f ≡ 0
  unfolding conclude
  replied_status rpc dport trid mad w data' h =
      elim (Bool-cases (mad_get_field mad 0 ib_drsmp_status_f == 0)) [
        | inl ok ↦ ground (arith, ok)
        | inr bad ↦
            let value : (conclude rpc dport trid mad rcvdata w).value
                ≡ bad_status (mad_get_field mad 0 ib_drsmp_status_f) =
              rw bad refl in
            absurd (cc)
      ]

  Answered-of :
      (rpc' rpc : Rpc) (dport' dport : PortId) (data' : Option Buf) (run : Run W)
      → unnumbered rpc' ≡ unnumbered rpc
      → Fits rpc' rpc
      → dport'.drpath ≡ dport.drpath
      → Answered rpc' dport' data' run
      → Answered rpc dport data' run
  Answered-of rpc' rpc dport' dport data' run same fits path a = record {
    sent = a.sent;
    same_request = a.same_request ∙ same;
    fits = Fits-trans a.sent rpc' rpc a.fits fits;
    routed = a.routed ∙ path;
    numbered = a.numbered;
    built = a.built;
    built_of = a.built_of;
    reply = a.reply;
    before = a.before;
    exchanged = a.exchanged;
    heard = a.heard;
    matches = a.matches;
    no_error = a.no_error;
    request = a.request;
    copied = a.copied;
  }

  looped-Answered :
      (fuel : ℕ) (rpc : Rpc) (dport : PortId) (trid : ℕ) (w : W) (data' : Option Buf)
      → (looped fuel rpc dport trid w).value ≡ replied data'
      → Answered rpc dport data' (looped fuel rpc dport trid w)
  unfolding rpc_loop
  looped-Answered zero rpc dport trid w data' h = absurd (cc)
  looped-Answered (suc fuel) rpc dport trid w data' h = elim (lap fuel rpc dport trid w) [
    | not_built e ↦ absurd (cc)
    | not_answered b e ↦ absurd (cc)
    | concluded b r dport' built side at e ↦
        let value = ap (λ run. run.value) (sym e) ∙ h in
        let no_error = replied_status b.rpc dport' b.static_trid r.mad _ data' value in
        let same : dport' ≡ dport = elim side [
          | inl same ↦ same
          | inr redirect ↦ absurd (omega (arith, redirect, no_error))
        ] in
        let answered =
          conclude-Answered rpc trid b r dport' w (asked b.rpc b.packet w).1 data' (rw same built)
            (ap (λ o. (o, (asked b.rpc b.packet w).1)) at) no_error value in
        rw e (
          Answered-of rpc rpc dport' dport data' _ refl (inr refl) (ap (λ d. d.drpath) same)
            answered)
    | redirected b r same at e ↦
        let next = (redirect_port dport r.mad).1 in
        let later =
          looped-Answered fuel b.rpc next b.static_trid (asked b.rpc b.packet w).1 data'
            (ap (λ run. run.value) (sym e) ∙ h) in
        rw e (
          Answered-of b.rpc rpc next dport data' _
            (ap unnumbered same ∙ number_request-unnumbered seed trid rpc)
            (rw same (number_request-Fits seed trid rpc)) (redirect_port-drpath dport r.mad) later)
  ]

  -- Data are returned only from a reply that the last call of umad_recv gave, in the exchange that
  -- the run ends with, of a packet that was built from the request, but for its number, and for the
  -- port that `dport` is at the end, whose route is the one it started with: the reply's transaction
  -- number matches, its own status is 0, so is the status left in the request, and the data are those
  -- of the reply at `dataoffs`.
  pub mad_rpc-Answered :
      (fuel : ℕ) (rpc : Rpc) (dport : PortId) (trid : ℕ) (w : W) (data' : Option Buf)
      → (mad_rpc umad port seed madrpc_timeout madrpc_retries payload rcvdata recv_fuel fuel rpc
          dport trid w).value
        ≡ replied data'
      → Answered rpc dport data' (
          mad_rpc umad port seed madrpc_timeout madrpc_retries payload rcvdata recv_fuel fuel rpc
            dport trid w)
  unfolding mad_rpc
  mad_rpc-Answered fuel rpc dport trid w data' h =
      Answered-of (set_error rpc 0) rpc dport dport data' _ (set_error-unnumbered rpc 0)
        (inr (set_error-trid rpc 0)) refl
        (looped-Answered fuel (set_error rpc 0) dport trid w data' h)
