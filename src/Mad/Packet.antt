-- ===== src/Mad/Packet.antt =====
-- libibmad/src/mad.c: the packet of a request, `mad_build_pkt`.
-- libibumad is not part of the repository: a packet holds the arguments of its setters.
pub mod Laws
pub mod Delivery
use infiniband_diags.Base.{ℕ, Bool, not, ◌&&◌, ◌||◌, Option, none, some, ◌==◌, if◌then◌else◌}
use infiniband_diags.Base.Int.{ℤ, pos, is_positive}
use infiniband_diags.Mad.Field.{Buf}
use infiniband_diags.Mad.Table.{mad_set_field}
use infiniband_diags.Mad.Types.{PortId, Rpc, RmppHdr, ib_smi_class, ib_smi_direct_class}
use infiniband_diags.Mad.Encode.{mgtclass8, mad_encode}
use infiniband_diags.Mad.Numbers.{
  ib_sa_rmpp_vers_f, ib_sa_rmpp_type_f, ib_sa_rmpp_resp_f, ib_sa_rmpp_flags_f, ib_sa_rmpp_status_f,
  ib_sa_rmpp_d1_f, ib_sa_rmpp_d2_f,
}

-- umad_set_addr
pub record UmadAddr : Type 0 where
  pub lid : ℤ
  pub qp : ℕ
  pub sl : ℕ
  pub qkey : ℕ

-- The fields of ib_mad_addr_t that umad_set_grh reads.
pub record Grh : Type 0 where
  pub gid : Buf
  pub hop_limit : ℕ
  pub traffic_class : ℕ
  pub flow_label : ℕ

pub record Packet : Type 0 where
  pub addr : UmadAddr
  pub grh : Option Grh
  pub pkey : ℕ
  pub mad : Buf

abbrev pub is_smi : Rpc → Bool
is_smi rpc = mgtclass8 rpc == ib_smi_class || mgtclass8 rpc == ib_smi_direct_class

abbrev pub lid_routed : Rpc → Bool
lid_routed rpc = not (mgtclass8 rpc == ib_smi_direct_class)

unfoldable pub packet_addr : Rpc → PortId → UmadAddr
packet_addr rpc dport =
    if not (is_smi rpc)
    then record { lid = dport.lid; qp = dport.qp; sl = dport.sl; qkey = dport.qkey }
    else if lid_routed rpc
    then record { lid = dport.lid; qp = dport.qp; sl = 0; qkey = 0 }
    else if not (dport.drpath.drslid == 0xffff) && is_positive dport.lid
    then record { lid = dport.lid; qp = 0; sl = 0; qkey = 0 }
    else record { lid = pos 0xffff; qp = 0; sl = 0; qkey = 0 }

unfoldable pub packet_grh : Rpc → PortId → Option Grh
packet_grh rpc dport =
    if not (dport.grh_present == 0) && not (is_smi rpc)
    then some (record { gid = dport.gid; hop_limit = 0xff; traffic_class = 0; flow_label = 0 })
    else none

unfoldable pub packet_pkey : Rpc → PortId → ℕ
packet_pkey rpc dport = if is_smi rpc then 0 else dport.pkey_idx

unfoldable pub set_rmpp : Rpc → Option RmppHdr → Buf → Buf
set_rmpp rpc none mad = mad
set_rmpp rpc (some rmpp) mad =
    let mad₁ = mad_set_field mad 0 ib_sa_rmpp_vers_f 1 in
    let mad₂ = mad_set_field mad₁ 0 ib_sa_rmpp_type_f rmpp.type in
    let mad₃ = mad_set_field mad₂ 0 ib_sa_rmpp_resp_f 0x3f in
    let mad₄ = mad_set_field mad₃ 0 ib_sa_rmpp_flags_f rmpp.flags in
    let mad₅ = mad_set_field mad₄ 0 ib_sa_rmpp_status_f rmpp.status in
    let mad₆ = mad_set_field mad₅ 0 ib_sa_rmpp_d1_f rmpp.d1 in
    let mad₇ = mad_set_field mad₆ 0 ib_sa_rmpp_d2_f rmpp.d2 in if is_smi rpc then mad else mad₇

-- What `mad_build_pkt` leaves; its length is always IB_MAD_SIZE.
pub record Built : Type 0 where
  pub packet : Packet
  pub rpc : Rpc
  pub static_trid : ℕ

-- mad_build_pkt; `none` is the return of -1.
unfoldable pub mad_build_pkt :
    ℕ → ℕ → Buf → Rpc → PortId → Option RmppHdr → Option Buf → Option Built
mad_build_pkt seed static_trid mad rpc dport rmpp payload =
    let drpath = (if lid_routed rpc then none else some dport.drpath) in
    elim (mad_encode seed static_trid mad rpc drpath payload) [
      | none ↦ none
      | some e ↦ some (record {
        packet = record {
          addr = packet_addr rpc dport;
          grh = packet_grh rpc dport;
          pkey = packet_pkey rpc dport;
          mad = set_rmpp rpc rmpp e.buf;
        };
        rpc = e.rpc;
        static_trid = e.static_trid;
      })
    ]
