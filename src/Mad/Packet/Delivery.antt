-- ===== src/Mad/Packet/Delivery.antt =====
-- libibmad/src/mad.c: where the packet of a request goes, by the class that its datagram carries.
use infiniband_diags.Base.{
  ℕ, ◌<◌, ◌^◌, ◌≡◌, ◌≢◌, refl, ap, ◌∙◌, ◌⊎◌, inl, inr, Bool-cases, true, false, Option, none, some,
  arith, ◌==◌, if◌then◌else◌,
}
use infiniband_diags.Base.Int.{pos, is_positive}
use infiniband_diags.Mad.Field.{Buf, IsBytes}
use infiniband_diags.Mad.Table.{mad_get_field}
use infiniband_diags.Mad.Numbers.{ib_mad_mgmtclass_f}
use infiniband_diags.Mad.Types.{PortId, Rpc, ib_smi_class, ib_smi_direct_class}
use infiniband_diags.Mad.Encode.{mgtclass8}
use infiniband_diags.Mad.Encode.Header.{IsRequest, mad_encode-Header}
use infiniband_diags.Mad.Packet.{
  Packet, Built, mad_build_pkt, lid_routed, packet_addr, packet_grh, packet_pkey,
}
use infiniband_diags.Mad.Packet.Laws.{mad_build_pkt-mad_encode, packet_parts}

-- What subnet management leaves out of an address, and its GRH and P_Key index.
abbrev pub IsBare : Packet → Type 0
IsBare packet =
    (packet.addr.sl ≡ 0) × (packet.addr.qkey ≡ 0) × (packet.grh ≡ none) × (packet.pkey ≡ 0)

-- Where a packet with a datagram of this class goes.
pub data Delivered (class : ℕ) (dport : PortId) (packet : Packet) : Type 0 where
  general :
      class ≢ ib_smi_class
      → class ≢ ib_smi_direct_class
      → packet.addr ≡ record { lid = dport.lid; qp = dport.qp; sl = dport.sl; qkey = dport.qkey }
      → packet.pkey ≡ dport.pkey_idx
      → Delivered class dport packet
  by_lid :
      class ≡ ib_smi_class
      → packet.addr.lid ≡ dport.lid
      → packet.addr.qp ≡ dport.qp
      → IsBare packet
      → Delivered class dport packet
  by_route :
      class ≡ ib_smi_direct_class
      → (dport.drpath.drslid ≡ 0xffff) ⊎ (is_positive dport.lid ≡ false)
      → packet.addr.lid ≡ pos 0xffff
      → packet.addr.qp ≡ 0
      → IsBare packet
      → Delivered class dport packet
  to_start_of_route :
      class ≡ ib_smi_direct_class
      → dport.drpath.drslid ≢ 0xffff
      → is_positive dport.lid ≡ true
      → packet.addr.lid ≡ dport.lid
      → packet.addr.qp ≡ 0
      → IsBare packet
      → Delivered class dport packet

bare_parts :
    (rpc : Rpc) (dport : PortId)
    → (mgtclass8 rpc ≡ ib_smi_class) ⊎ (mgtclass8 rpc ≡ ib_smi_direct_class)
    → ((packet_addr rpc dport).sl ≡ 0)
      × ((packet_addr rpc dport).qkey ≡ 0)
      × (packet_grh rpc dport ≡ none)
      × (packet_pkey rpc dport ≡ 0)
unfolding packet_addr packet_grh packet_pkey
bare_parts rpc dport smi = ground (arith, smi)

sent_where :
    (rpc : Rpc) (dport : PortId) (packet : Packet)
    → packet.addr ≡ packet_addr rpc dport
    → packet.grh ≡ packet_grh rpc dport
    → packet.pkey ≡ packet_pkey rpc dport
    → Delivered (mgtclass8 rpc) dport packet
unfolding packet_addr packet_pkey
sent_where rpc dport packet addr grh pkey =
    let bare = bare_parts rpc dport in
    elim (Bool-cases (mgtclass8 rpc == ib_smi_direct_class)) [
      | inl direct ↦
          let e : mgtclass8 rpc ≡ ib_smi_direct_class = ground (arith, direct) in
          let parts : IsBare packet = rw (addr, grh, pkey) (bare (inr e)) in
          elim (Bool-cases (dport.drpath.drslid == 0xffff)) [
            | inl permissive ↦
                by_route e (inl (ground (arith, permissive)))
                  (rw addr (ground (arith, direct, permissive)))
                  (rw addr (ground (arith, direct, permissive))) parts
            | inr given ↦ elim (Bool-cases (is_positive dport.lid)) [
              | inl lid ↦
                  to_start_of_route e (ground (arith, given)) lid
                    (rw addr (ground (arith, direct, given, lid)))
                    (rw addr (ground (arith, direct, given, lid))) parts
              | inr none_given ↦
                  by_route e (inr none_given) (rw addr (ground (arith, direct, given, none_given)))
                    (rw addr (ground (arith, direct, given, none_given))) parts
            ]
          ]
      | inr routed ↦ elim (Bool-cases (mgtclass8 rpc == ib_smi_class)) [
        | inl smi ↦
            let e : mgtclass8 rpc ≡ ib_smi_class = ground (arith, smi) in
            by_lid e (rw addr (ground (arith, smi, routed))) (rw addr (ground (arith, smi, routed)))
              (rw (addr, grh, pkey) (bare (inl e)))
        | inr other ↦
            general (ground (arith, other)) (ground (arith, routed))
              (rw (addr, packet_addr, other, routed) refl)
              (rw (pkey, packet_pkey, other, routed) refl)
      ]
    ]

-- The class in the header of the datagram decides where its packet goes: a packet of subnet
-- management over LIDs goes to the LID of its port; one over a directed route goes to the
-- permissive LID, or, when the port has a LID and the DrSLID is not the permissive one, to that LID,
-- where the route starts; neither has a GRH, and its P_Key index, Q_Key and service level are 0. All
-- other packets have the address and the P_Key index of the port. The request has no RMPP header, a
-- number of 64 bits and bytes as its route and data.
pub mad_build_pkt-Delivered :
    (seed trid : ℕ) (mad : Buf) (rpc : Rpc) (dport : PortId) (payload : Option Buf) (b : Built)
    → IsBytes mad
    → IsRequest rpc (if lid_routed rpc then none else some dport.drpath) payload
    → rpc.trid < 2 ^ 64
    → mad_build_pkt seed trid mad rpc dport none payload ≡ some b
    → Delivered (mad_get_field b.packet.mad 0 ib_mad_mgmtclass_f) dport b.packet
mad_build_pkt-Delivered seed trid mad rpc dport payload b bytes request fits h =
    let (addr, grh, pkey) = packet_parts seed trid mad rpc dport none payload b h in
    let (e, reached, same, to) =
      mad_build_pkt-mad_encode seed trid mad rpc dport none payload b h refl in
    let header = mad_encode-Header seed trid mad rpc _ payload e bytes request fits reached in
    let class : mad_get_field b.packet.mad 0 ib_mad_mgmtclass_f ≡ mgtclass8 rpc =
      ap (λ m. mad_get_field m 0 ib_mad_mgmtclass_f) same ∙ header.mgmt_class in
    rw class (sent_where rpc dport b.packet addr grh pkey)
