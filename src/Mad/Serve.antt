-- ===== src/Mad/Serve.antt =====
-- libibmad/src/serv.c: a datagram that is sent without waiting, and the response to one.
pub mod Laws
use infiniband_diags.Base.{
  ℕ, ◌%◌, ◌^◌, bit_and, bit_or, Bool, true, false, not, ◌&&◌, ◌||◌, Option, none, some, ◌==◌,
  if◌then◌else◌,
}
use infiniband_diags.Base.Int.{ℤ, pos, is_negative}
use infiniband_diags.Mad.Field.{Buf}
use infiniband_diags.Mad.Table.{mad_get_field}
use infiniband_diags.Mad.Wide.{mad_get_field64}
use infiniband_diags.Mad.Types.{
  PortId, Rpc, RmppHdr, ib_smi_class, ib_smi_direct_class, ib_sa_class, ib_mad_response,
  ib_mad_method_get, ib_mad_method_set, ib_mad_method_send, ib_default_qp1_qkey, no_portid, no_rpc,
}
use infiniband_diags.Mad.Encode.{mgtclass8, mad_is_vendor_range2}
use infiniband_diags.Mad.Packet.{UmadAddr, Packet, Built, mad_build_pkt}
use infiniband_diags.Mad.Numbers.{
  ib_mad_method_f, ib_mad_mgmtclass_f, ib_mad_trid_f, ib_mad_attrid_f, ib_mad_attrmod_f,
  ib_sa_attroffs_f, ib_vend2_oui_f,
}
use infiniband_diags.Mad.Rpc.{IbmadPort, Umad, mad_get_timeout}
use infiniband_diags.Mad.Call.{zeroed}

-- The destination of a response that is given none: the sender of the request. libibumad has
-- converted the fields of `UmadAddr` from network order.
unfoldable pub port_of_addr : UmadAddr → PortId
port_of_addr addr = record no_portid {
  lid = addr.lid;
  qp = addr.qp;
  qkey = addr.qkey;
  sl = addr.sl;
}

unfoldable pub response_method : ℕ → ℕ
response_method method =
    let got = (if method == ib_mad_method_set then ib_mad_method_get else method) in
    if not (got == ib_mad_method_send) then bit_or got ib_mad_response else got

-- The request `rpc` of mad_respond_via, filled from the datagram that is answered.
unfoldable pub response_rpc : Buf → (rstatus : ℕ) → Rpc
response_rpc mad rstatus =
    let mgtclass = mad_get_field mad 0 ib_mad_mgmtclass_f in
    record no_rpc {
      mgtclass = mgtclass;
      method = response_method (mad_get_field mad 0 ib_mad_method_f);
      attr_id = mad_get_field mad 0 ib_mad_attrid_f;
      attr_mod = mad_get_field mad 0 ib_mad_attrmod_f;
      rstatus = rstatus;
      trid = mad_get_field64 mad 0 ib_mad_trid_f;
      recsz = if mgtclass == ib_sa_class then mad_get_field mad 0 ib_sa_attroffs_f else 0;
      oui = if mad_is_vendor_range2 mgtclass then mad_get_field mad 0 ib_vend2_oui_f else 0;
    }

-- The queue pair and its key, with their defaults.
unfoldable pub response_port : (mgtclass : ℕ) → PortId → PortId
response_port mgtclass portid =
    let qp =
      (if mgtclass == ib_smi_class || mgtclass == ib_smi_direct_class
        then 0
        else if portid.qp == 0
        then 1
        else portid.qp) in
    record portid {
      qp = qp;
      qkey = if portid.qkey == 0 && qp == 1 then ib_default_qp1_qkey else portid.qkey;
    }

-- `portid`, or the sender that the datagram names; `none` is the return of -1 with EINVAL.
unfoldable pub response_dest : Option PortId → Option UmadAddr → Option PortId
response_dest (some portid) mad_addr = some portid
response_dest none none = none
response_dest none (some addr) = some (port_of_addr addr)

-- What a send leaves: false for -1, the request, the destination, the packet if one was built, and the rest of
-- the state.
pub record Served (W : Type 0) : Type 0 where
  pub ok : Bool
  pub rpc : Rpc
  pub portid : Option PortId
  pub packet : Option Packet
  pub static_trid : ℕ
  pub world : W

module _ {W : Type 0} (umad : Umad W) (srcport : IbmadPort) (seed : ℕ) (madrpc_timeout : ℤ) where
  -- mad_build_pkt and umad_send, the ends of mad_send_via and mad_respond_via
  unfoldable pub build_and_send :
      Buf
      → Rpc
      → PortId
      → Option RmppHdr
      → Option Buf
      → (agentid : ℤ) (static_trid : ℕ) → W
      → Served W
  build_and_send mad rpc dport rmpp payload agentid static_trid w =
      elim (mad_build_pkt seed static_trid mad rpc dport rmpp payload) [
        | none ↦ record {
          ok = false;
          rpc = rpc;
          portid = some dport;
          packet = none;
          static_trid = static_trid;
          world = w;
        }
        | some b ↦
            let (rc, w') =
              umad.send agentid (mad_get_timeout srcport rpc.timeout madrpc_timeout) (pos 0)
                b.packet w in
            record {
              ok = not (is_negative rc);
              rpc = b.rpc;
              portid = some dport;
              packet = some b.packet;
              static_trid = b.static_trid;
              world = w';
            }
      ]

  unfoldable pub mad_send_via :
      Rpc → PortId → Option RmppHdr → Option Buf → (static_trid : ℕ) → W → Served W
  mad_send_via rpc dport rmpp payload static_trid w =
      build_and_send zeroed rpc dport rmpp payload (srcport.class_agents (mgtclass8 rpc))
        static_trid w

  -- mad_respond_via; the datagram that is answered is `mad`, from `mad_addr`.
  unfoldable pub mad_respond_via :
      (mad_addr : Option UmadAddr) (mad : Buf) (portid : Option PortId) (rstatus static_trid : ℕ)
      → W
      → Served W
  mad_respond_via mad_addr mad portid rstatus static_trid w =
      let rpc = response_rpc mad rstatus in
      elim (response_dest portid mad_addr) [
        | none ↦ record {
          ok = false;
          rpc = rpc;
          portid = none;
          packet = none;
          static_trid = static_trid;
          world = w;
        }
        | some dest ↦
            build_and_send mad rpc (response_port rpc.mgtclass dest) none none
              (srcport.class_agents rpc.mgtclass) static_trid w
      ]
