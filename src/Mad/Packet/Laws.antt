-- ===== src/Mad/Packet/Laws.antt =====
-- Which packets are built, and how those of subnet management differ from the others.
use infiniband_diags.Base.{
  ℕ, ◌≡◌, refl, sym, inl, inr, ◌↔◌, true, Option, none, some, arith, if◌then◌else◌,
}
use infiniband_diags.Base.Int.{at_least}
use infiniband_diags.Mad.Field.{Buf}
use infiniband_diags.Mad.Types.{PortId, DrPath, Rpc, RmppHdr, ib_subnet_path_hops_max}
use infiniband_diags.Mad.Encode.{
  is_direct, mad_encode, Encoded, number_request, encode_rest, encode_first, encode_second,
}
use infiniband_diags.Mad.Encode.Header.{mad_encode-none_iff}
use infiniband_diags.Mad.Packet.{
  Built, mad_build_pkt, set_rmpp, lid_routed, packet_addr, packet_grh, packet_pkey,
}

mapped-none_iff :
    {A B : Type 0} (o : Option A) (f : A → B)
    → (elim o [ none ↦ none | some a ↦ some (f a) ] ≡ none) ↔ (o ≡ none)
mapped-none_iff none f = (λ h. refl, λ h. refl)
mapped-none_iff (some a) f = (λ h. absurd (cc), λ h. absurd (cc))

mapped-some :
    {A B : Type 0} (o : Option A) (f : A → B) (b : B)
    → elim o [ none ↦ none | some a ↦ some (f a) ] ≡ some b
    → (a : A) × (o ≡ some a) × (f a ≡ b)
mapped-some none f b h = absurd (cc)
mapped-some (some a) f b h = (a, refl, cc)

module _ (seed trid : ℕ) (mad : Buf) (rpc : Rpc) (dport : PortId) (rmpp : Option RmppHdr)
    (payload : Option Buf) where
  drpath_direct :
      is_direct rpc ≡ true
      → (if lid_routed rpc then none else some dport.drpath) ≡ some dport.drpath
  drpath_direct direct = ground (arith, direct)

  -- A packet is not built exactly when it is routed directly over too many hops.
  pub mad_build_pkt-none_iff :
      (mad_build_pkt seed trid mad rpc dport rmpp payload ≡ none)
      ↔ ((is_direct rpc ≡ true) × (at_least ib_subnet_path_hops_max dport.drpath.cnt ≡ true))
  unfolding mad_build_pkt
  mad_build_pkt-none_iff =
      let drpath : Option DrPath = (if lid_routed rpc then none else some dport.drpath) in
      let built = mapped-none_iff (mad_encode seed trid mad rpc drpath payload) _ in
      let encoded = mad_encode-none_iff seed trid mad rpc drpath payload in
      (
        λ h.
            let (direct, why) = encoded.0 (built.0 h) in
            let routed : drpath ≡ some dport.drpath = drpath_direct direct in
            (
              direct,
              elim why [
                | inl missing ↦ absurd (cc)
                | inr (d, same, long) ↦ let eq : dport.drpath ≡ d = cc in rw eq long
              ],
            ),
        λ h. built.1 (encoded.1 (h.0, inr (dport.drpath, drpath_direct h.0, h.1))),
      )

  -- Building a packet only numbers the request.
  pub mad_build_pkt-rpc :
      (b : Built)
      → mad_build_pkt seed trid mad rpc dport rmpp payload ≡ some b
      → b.rpc ≡ (number_request seed trid rpc).0
  unfolding mad_build_pkt mad_encode encode_rest
  mad_build_pkt-rpc b h =
      let drpath : Option DrPath = (if lid_routed rpc then none else some dport.drpath) in
      let (e, reached, same) = mapped-some (mad_encode seed trid mad rpc drpath payload) _ b h in
      let (second, at, same') =
        mapped-some (encode_second rpc drpath (encode_first rpc mad)) _ e reached in
      rw (sym same, sym same') refl

  -- What is set beside the datagram.
  pub packet_parts :
      (b : Built)
      → mad_build_pkt seed trid mad rpc dport rmpp payload ≡ some b
      → (b.packet.addr ≡ packet_addr rpc dport)
        × (b.packet.grh ≡ packet_grh rpc dport)
        × (b.packet.pkey ≡ packet_pkey rpc dport)
  unfolding mad_build_pkt
  packet_parts b h =
      let drpath : Option DrPath = (if lid_routed rpc then none else some dport.drpath) in
      let (e, reached, same) = mapped-some (mad_encode seed trid mad rpc drpath payload) _ b h in
      rw (sym same) (refl, refl, refl)

  -- A packet without an RMPP header carries the encoded request.
  pub mad_build_pkt-mad_encode :
      (b : Built)
      → mad_build_pkt seed trid mad rpc dport rmpp payload ≡ some b
      → rmpp ≡ none
      → (e : Encoded) × (mad_encode seed trid mad rpc
            (if lid_routed rpc then none else some dport.drpath)
            payload
          ≡ some e)
        × (b.packet.mad ≡ e.buf)
        × (b.packet.addr ≡ packet_addr rpc dport)
  unfolding mad_build_pkt set_rmpp
  mad_build_pkt-mad_encode b h plain =
      let drpath : Option DrPath = (if lid_routed rpc then none else some dport.drpath) in
      let (e, reached, same) = mapped-some (mad_encode seed trid mad rpc drpath payload) _ b h in
      (e, reached, rw (sym same, plain) refl, rw (sym same) refl)
