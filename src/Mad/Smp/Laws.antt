-- ===== src/Mad/Smp/Laws.antt =====
-- libibmad/src/smp.c: the data of a query, and the datagram that was sent for them.
use infiniband_diags.Base.{
  ℕ, ◌+◌, ◌^◌, ◌<◌, ◌≡◌, inl, inr, refl, sym, ap, ◌∙◌, Bool, true, false, Option, none, some, arith,
  if◌then◌else◌,
}
use infiniband_diags.Base.Int.{ℤ}
use infiniband_diags.Base.Bits.{bit_and_mask}
use infiniband_diags.Mad.Field.{Buf, IsBytes}
use infiniband_diags.Mad.Table.{mad_get_field}
use infiniband_diags.Mad.Wide.{memcpy}
use infiniband_diags.Mad.Types.{PortId, DrPath, Rpc, ib_mad_method_get, ib_mad_method_set}
use infiniband_diags.Mad.Encode.{mgtclass8}
use infiniband_diags.Mad.Encode.Header.{IsRequest, mad_encode-Header}
use infiniband_diags.Mad.Packet.{Packet, lid_routed}
use infiniband_diags.Mad.Packet.Laws.{mad_build_pkt-mad_encode, mad_build_pkt-rpc}
use infiniband_diags.Mad.Numbers.{
  ib_mad_method_f, ib_mad_mgmtclass_f, ib_mad_attrid_f, ib_mad_attrmod_f, ib_drsmp_status_f,
}
use infiniband_diags.Mad.Rpc.{IbmadPort, Umad, Reply, done, mad_get_timeout}
use infiniband_diags.Mad.Rpc.Attempts.{IsAnswer}
use infiniband_diags.Mad.Call.{Run, replied, zeroed, mad_rpc, exchange}
use infiniband_diags.Mad.Call.Laws.{mad_rpc-Answered}
use infiniband_diags.Mad.Call.Requests.{unnumbered, number_request-unnumbered}
use infiniband_diags.Mad.Smp.{
  smp_class, smp_rpc, smp_port, smp_set_status_via, smp_query_status_via, ib_smp_data_size,
  ib_smp_data_offs,
}

-- The datagram that was sent for an attribute, and the reply whose 64 bytes of data were taken.
pub record Fetched {W : Type 0} (umad : Umad W) (srcport : IbmadPort)
    (madrpc_timeout madrpc_retries : ℤ) (recv_fuel : ℕ) (method : ℕ) (portid : PortId)
    (attrid attr_mod : ℕ) (rcvbuf : Buf) (data' : Option Buf) (run : Run W) : Type 0 where
  pub request : Rpc
  pub pkt : Packet
  pub reply : Reply
  pub before : W
  pub exchanged :
      exchange umad srcport madrpc_timeout madrpc_retries recv_fuel request pkt before
      ≡ (done reply, run.world)
  pub heard :
      (w' : W) × (umad.recv (mad_get_timeout srcport request.timeout madrpc_timeout) w'
        ≡ (some reply, run.world))
  pub method_sent : mad_get_field pkt.mad 0 ib_mad_method_f ≡ method
  pub class_sent : mad_get_field pkt.mad 0 ib_mad_mgmtclass_f ≡ smp_class portid
  pub attr_sent : mad_get_field pkt.mad 0 ib_mad_attrid_f ≡ attrid
  pub mod_sent : mad_get_field pkt.mad 0 ib_mad_attrmod_f ≡ attr_mod
  pub matches : IsAnswer pkt reply
  pub no_error : mad_get_field reply.mad 0 ib_drsmp_status_f ≡ 0
  pub status : run.rpc.rstatus ≡ 0
  pub taken :
      data' ≡ some (memcpy rcvbuf 0 (λ a. reply.mad (ib_smp_data_offs + a)) ib_smp_data_size)

class_small : (portid : PortId) → smp_class portid < 2 ^ 8
unfolding smp_class
class_small portid = ground arith

chosen_path :
    (b : Bool) (path d : DrPath)
    → IsBytes path.p
    → (if b then none else some path) ≡ some d
    → IsBytes d.p
chosen_path true path d bytes h = absurd (cc)
chosen_path false path d bytes h = let same : path ≡ d = cc in rw (sym same) bytes

module _ {W : Type 0} (umad : Umad W) (srcport : IbmadPort) (seed : ℕ)
    (madrpc_timeout madrpc_retries : ℤ) (recv_fuel fuel : ℕ) where
  abbrev called : ℕ → Buf → PortId → ℕ → ℕ → ℤ → ℕ → W → Run W
  called method rcvbuf portid attrid attr_mod timeout static_trid w =
      mad_rpc umad srcport seed madrpc_timeout madrpc_retries (some rcvbuf) (some rcvbuf) recv_fuel
        fuel (smp_rpc method portid attrid attr_mod timeout srcport) (smp_port portid) static_trid w

  called-Fetched :
      (method : ℕ) (rcvbuf : Buf) (portid : PortId) (attrid attr_mod : ℕ) (timeout : ℤ)
      (static_trid : ℕ) (w : W) (data' : Option Buf)
      → method < 2 ^ 7
      → attrid < 2 ^ 16
      → attr_mod < 2 ^ 32
      → IsBytes rcvbuf
      → IsBytes portid.drpath.p
      → (called method rcvbuf portid attrid attr_mod timeout static_trid w).value ≡ replied data'
      → Fetched umad srcport madrpc_timeout madrpc_retries recv_fuel method portid attrid attr_mod
          rcvbuf data'
          (called method rcvbuf portid attrid attr_mod timeout static_trid w)
  unfolding smp_rpc smp_port
  called-Fetched method rcvbuf portid attrid attr_mod timeout static_trid w data' m_ok a_ok mod_ok
        bytes path_bytes h =
      let rpc = smp_rpc method portid attrid attr_mod timeout srcport in
      let run = called method rcvbuf portid attrid attr_mod timeout static_trid w in
      let a =
        mad_rpc-Answered umad srcport seed madrpc_timeout madrpc_retries (some rcvbuf) (some rcvbuf)
          recv_fuel fuel rpc (smp_port portid) static_trid w data' h in
      let sent : Rpc = a.sent in
      let (e, reached, same, addr) =
        mad_build_pkt-mad_encode seed a.numbered zeroed sent run.dport none (some rcvbuf) a.built
          a.built_of refl in
      let offs : sent.dataoffs ≡ 64 = ap (λ r. r.dataoffs) a.same_request in
      let drpath = (if lid_routed sent then none else some run.dport.drpath) in
      let request : IsRequest sent drpath (some rcvbuf) = record {
        path_bytes =
            λ d at. chosen_path (lid_routed sent) run.dport.drpath d (rw a.routed path_bytes) at;
        data_bytes = λ d at. let eq : rcvbuf ≡ d = cc in rw (sym eq) bytes;
        data_behind = λ d at. omega (arith, offs);
        status_fits = omega (arith, ap (λ r. r.rstatus) a.same_request);
      } in
      let trid_ok : sent.trid < 2 ^ 64 = elim a.fits [
        | inl small ↦ small
        | inr same ↦ omega (arith, same)
      ] in
      let header =
        mad_encode-Header seed a.numbered zeroed sent drpath (some rcvbuf) e (λ k. omega arith)
          request trid_ok reached in
      let kept =
        ap unnumbered (
          mad_build_pkt-rpc seed a.numbered zeroed sent run.dport none (some rcvbuf) a.built
            a.built_of)
        ∙ number_request-unnumbered seed a.numbered sent
        ∙ a.same_request in
      let at : a.built.rpc.dataoffs ≡ 64 = ap (λ r. r.dataoffs) kept in
      let size : a.built.rpc.datasz ≡ 64 = ap (λ r. r.datasz) kept in
      record {
        request = a.built.rpc;
        pkt = a.built.packet;
        reply = a.reply;
        before = a.before;
        exchanged = a.exchanged;
        heard = a.heard;
        method_sent =
            ap (λ m. mad_get_field m 0 ib_mad_method_f) same
            ∙ header.method
            ∙ omega (arith, m_ok, ap (λ r. r.method) a.same_request);
        class_sent =
            ap (λ m. mad_get_field m 0 ib_mad_mgmtclass_f) same
            ∙ header.mgmt_class
            ∙ ap mgtclass8 a.same_request
            ∙ bit_and_mask 8 (smp_class portid)
            ∙ omega (arith, class_small portid);
        attr_sent =
            ap (λ m. mad_get_field m 0 ib_mad_attrid_f) same
            ∙ header.attr_id
            ∙ omega (arith, a_ok, ap (λ r. r.attr_id) a.same_request);
        mod_sent =
            ap (λ m. mad_get_field m 0 ib_mad_attrmod_f) same
            ∙ header.attr_mod
            ∙ omega (arith, mod_ok, ap (λ r. r.attr_mod) a.same_request);
        matches = a.matches;
        no_error = a.no_error;
        status = ap (λ r. r.rstatus) a.request;
        taken = a.copied ∙ rw (at, size) refl;
      }

  pub smp_query_status_via-Fetched :
      (rcvbuf : Buf) (portid : PortId) (attrid attr_mod : ℕ) (timeout : ℤ) (static_trid : ℕ) (w : W)
      (data' : Option Buf)
      → attrid < 2 ^ 16
      → attr_mod < 2 ^ 32
      → IsBytes rcvbuf
      → IsBytes portid.drpath.p
      → (smp_query_status_via umad srcport seed madrpc_timeout madrpc_retries recv_fuel fuel rcvbuf
          portid attrid attr_mod timeout static_trid w).value
        ≡ replied data'
      → Fetched umad srcport madrpc_timeout madrpc_retries recv_fuel ib_mad_method_get portid attrid
          attr_mod rcvbuf data'
          (smp_query_status_via umad srcport seed madrpc_timeout madrpc_retries recv_fuel fuel
            rcvbuf portid attrid attr_mod timeout static_trid w)
  unfolding smp_query_status_via
  smp_query_status_via-Fetched rcvbuf portid attrid attr_mod timeout static_trid w data' a_ok mod_ok
        bytes path_bytes h =
      called-Fetched ib_mad_method_get rcvbuf portid attrid attr_mod timeout static_trid w data'
        (omega arith) a_ok mod_ok bytes path_bytes h

  -- The same of a change of an attribute, with the method Set.
  pub smp_set_status_via-Fetched :
      (rcvbuf : Buf) (portid : PortId) (attrid attr_mod : ℕ) (timeout : ℤ) (static_trid : ℕ) (w : W)
      (data' : Option Buf)
      → attrid < 2 ^ 16
      → attr_mod < 2 ^ 32
      → IsBytes rcvbuf
      → IsBytes portid.drpath.p
      → (smp_set_status_via umad srcport seed madrpc_timeout madrpc_retries recv_fuel fuel rcvbuf
          portid attrid attr_mod timeout static_trid w).value
        ≡ replied data'
      → Fetched umad srcport madrpc_timeout madrpc_retries recv_fuel ib_mad_method_set portid attrid
          attr_mod rcvbuf data'
          (smp_set_status_via umad srcport seed madrpc_timeout madrpc_retries recv_fuel fuel rcvbuf
            portid attrid attr_mod timeout static_trid w)
  unfolding smp_set_status_via
  smp_set_status_via-Fetched rcvbuf portid attrid attr_mod timeout static_trid w data' a_ok mod_ok
        bytes path_bytes h =
      called-Fetched ib_mad_method_set rcvbuf portid attrid attr_mod timeout static_trid w data'
        (omega arith) a_ok mod_ok bytes path_bytes h
