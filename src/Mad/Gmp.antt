-- ===== src/Mad/Gmp.antt =====
-- libibmad/src/gs.c, cc.c, vendor.c and bm.c: the requests of the general management classes.
pub mod Laws
use infiniband_diags.Base.{
  ℕ, ◌+◌, ◌-◌, ◌/◌, ◌%◌, ◌^◌, bit_or, Bool, true, false, not, ◌&&◌, ◌||◌, Option, none, some, leb,
  ◌==◌, if◌then◌else◌,
}
use infiniband_diags.Base.Int.{ℤ, pos, negsuc, is_positive}
use infiniband_diags.Mad.Field.{Buf}
use infiniband_diags.Mad.Table.{mad_set_field}
use infiniband_diags.Mad.Wide.{memcpy, htonll}
use infiniband_diags.Mad.Types.{
  PortId, Rpc, no_rpc, ib_cc_class, ib_mad_size, ib_mad_method_get, ib_mad_method_set,
  ib_mad_method_trap, ib_default_qp1_qkey,
}
use infiniband_diags.Mad.Encode.{mad_is_vendor_range2}
use infiniband_diags.Mad.Numbers.{
  ib_pc_port_select_f, ib_pc_counter_select_f, ib_pc_counter_select2_f, ib_pc_ext_counter_select2_f,
}
use infiniband_diags.Mad.Rpc.{IbmadPort, Umad}
use infiniband_diags.Mad.Call.{Run, replied, mad_rpc, zeroed}
use infiniband_diags.Mad.Rmpp.{RmppRun, mad_rpc_rmpp}
use infiniband_diags.Mad.Register.{ib_performance_class, ib_board_mgmt_class}
use infiniband_diags.Mad.Serve.{Served, mad_send_via}

-- IB_MAD_RPC_VERSION1
abbrev pub ib_mad_rpc_version1 : ℕ
ib_mad_rpc_version1 = 0x100

abbrev pub ib_pc_data_offs : ℕ
ib_pc_data_offs = 64

abbrev pub ib_gsi_port_counters_ext : ℕ
ib_gsi_port_counters_ext = 0x1d

abbrev pub ib_cc_attr_congestion_log : ℕ
ib_cc_attr_congestion_log = 0x13

abbrev pub ib_bm_bkey_offs : ℕ
ib_bm_bkey_offs = 24

abbrev pub ib_bm_data_sz : ℕ
ib_bm_data_sz = 192

-- if (!dest->qp) dest->qp = 1; if (!dest->qkey) dest->qkey = IB_DEFAULT_QP1_QKEY;
unfoldable pub pma_dest : PortId → PortId
pma_dest dest = record dest {
  qp = if dest.qp == 0 then 1 else dest.qp;
  qkey = if dest.qkey == 0 then ib_default_qp1_qkey else dest.qkey;
}

-- portid->qp = 1; if (!portid->qkey) portid->qkey = IB_DEFAULT_QP1_QKEY;
unfoldable pub qp1_port : PortId → PortId
qp1_port portid = record portid {
  qp = 1;
  qkey = if portid.qkey == 0 then ib_default_qp1_qkey else portid.qkey;
}

abbrev pub is_minus_one : ℤ → Bool
is_minus_one (pos n) = false
is_minus_one (negsuc n) = n == 0

-- The request of pma_query_via and of performance_reset_via, by its method.
unfoldable pub pma_rpc : (method id : ℕ) (timeout : ℤ) → Rpc
pma_rpc method id timeout = record no_rpc {
  mgtclass = bit_or ib_performance_class ib_mad_rpc_version1;
  method = method;
  attr_id = id;
  timeout = timeout;
  datasz = ib_mad_size - ib_pc_data_offs;
  dataoffs = ib_pc_data_offs;
}

-- The buffer that performance_reset_via fills; `mask` is unsigned and has 32 bits.
unfoldable pub reset_buffer : Buf → (port mask id : ℕ) → Buf
reset_buffer rcvbuf port mask id =
    let all = (if mask == 0 then 2 ^ 32 - 1 else mask) in
    let buf₁ = memcpy rcvbuf 0 zeroed ib_mad_size in
    let buf₂ = mad_set_field buf₁ 0 ib_pc_port_select_f port in
    let buf₃ = mad_set_field buf₂ 0 ib_pc_counter_select_f all in
    let high = all / 2 ^ 16 in
    if id == ib_gsi_port_counters_ext
    then mad_set_field buf₃ 0 ib_pc_ext_counter_select2_f high
    else mad_set_field buf₃ 0 ib_pc_counter_select2_f high

-- The caller's buffer after a call: the data, or what the buffer held.
abbrev pub received : {W : Type 0} → Run W → Buf → Buf
received run buf = elim run.value [ replied (some data') ↦ data' | _ ↦ buf ]

-- The data of a congestion control attribute: size and offset.
unfoldable pub cc_data : ℕ → ℕ × ℕ
cc_data attrid =
    if attrid == ib_cc_attr_congestion_log then (ib_mad_size - 32, 32) else (ib_mad_size - 64, 64)

-- The request of cc_query_status_via and of cc_config_status_via, by its method.
unfoldable pub cc_rpc : (method attrid attr_mod : ℕ) (timeout : ℤ) (cckey : ℕ) → Rpc
cc_rpc method attrid attr_mod timeout cckey = record no_rpc {
  method = method;
  attr_id = attrid;
  attr_mod = attr_mod;
  timeout = timeout;
  datasz = (cc_data attrid).0;
  dataoffs = (cc_data attrid).1;
  mgtclass = ib_cc_class;
  cckey = cckey;
}

unfoldable pub response_expected : ℕ → Bool
response_expected method =
    method == ib_mad_method_get || method == ib_mad_method_set || method == ib_mad_method_trap

-- ib_vendor_call_t, whose `rmpp` is not read
pub record VendorCall : Type 0 where
  pub method : ℕ
  pub mgmt_class : ℕ
  pub attrid : ℕ
  pub attr_mod : ℕ
  pub oui : ℕ
  pub timeout : ℤ

unfoldable pub mad_is_vendor_range1 : ℕ → Bool
mad_is_vendor_range1 mgmt = leb 0x9 mgmt && leb mgmt 0xf

unfoldable pub vendor_rpc : VendorCall → Rpc
vendor_rpc call =
    let range1 = mad_is_vendor_range1 call.mgmt_class in
    record no_rpc {
      mgtclass = bit_or call.mgmt_class ib_mad_rpc_version1;
      method = call.method;
      attr_id = call.attrid;
      attr_mod = call.attr_mod;
      timeout = if response_expected call.method then call.timeout else pos 0;
      datasz = if range1 then ib_mad_size - 24 else ib_mad_size - 40;
      dataoffs = if range1 then 24 else 40;
      oui = if range1 then 0 else call.oui;
    }

-- ib_bm_call_t
pub record BmCall : Type 0 where
  pub method : ℕ
  pub attrid : ℕ
  pub attr_mod : ℕ
  pub timeout : ℤ
  pub bkey : ℕ

unfoldable pub bm_rpc : BmCall → Rpc
bm_rpc call = record no_rpc {
  mgtclass = ib_board_mgmt_class;
  method = call.method;
  attr_id = call.attrid;
  attr_mod = call.attr_mod;
  timeout = if response_expected call.method then call.timeout else pos 0;
  datasz = ib_mad_size - ib_bm_bkey_offs;
  dataoffs = ib_bm_bkey_offs;
}

-- bm_data: the key, 32 reserved bytes, and the data
unfoldable pub bm_data : ℕ → Buf → Buf
bm_data bkey payload = memcpy (memcpy zeroed 0 (htonll bkey) 8) 40 payload ib_bm_data_sz

-- The end of a call that may wait for a reply: NULL before anything was sent, an exchange, an
-- exchange with RMPP, or a send without a reply.
pub data Call (W : Type 0) : Type 0 where
  rejected : Call W
  exchanged : Run W → Call W
  rmpp_exchanged : RmppRun W → Call W
  only_sent : Served W → Call W

module _ {W : Type 0} (umad : Umad W) (srcport : IbmadPort) (seed : ℕ)
    (madrpc_timeout madrpc_retries : ℤ) (recv_fuel fuel : ℕ) where
  abbrev pub call_rpc : (payload rcvdata : Buf) → Rpc → PortId → (static_trid : ℕ) → W → Run W
  call_rpc payload rcvdata rpc dport static_trid w =
      mad_rpc umad srcport seed madrpc_timeout madrpc_retries (some payload) (some rcvdata)
        recv_fuel fuel rpc dport static_trid w

  -- The buffer that is left, and the run; errno is then the error of its request.
  unfoldable pub pma_query_via :
      Buf → PortId → (port : ℕ) (timeout : ℤ) (id static_trid : ℕ) → W → Buf × Call W
  pma_query_via rcvbuf dest port timeout id static_trid w =
      let buf = mad_set_field rcvbuf 0 ib_pc_port_select_f port in
      let run =
        call_rpc buf buf (pma_rpc ib_mad_method_get id timeout) (pma_dest dest) static_trid w in
      if is_minus_one dest.lid then (rcvbuf, rejected) else (received run buf, exchanged run)

  unfoldable pub performance_reset_via :
      Buf → PortId → (port mask : ℕ) (timeout : ℤ) (id static_trid : ℕ) → W → Buf × Call W
  performance_reset_via rcvbuf dest port mask timeout id static_trid w =
      let buf = reset_buffer rcvbuf port mask id in
      let run =
        call_rpc buf buf (pma_rpc ib_mad_method_set id timeout) (pma_dest dest) static_trid w in
      if is_minus_one dest.lid then (rcvbuf, rejected) else (received run buf, exchanged run)

  unfoldable pub cc_query_status_via :
      Buf → PortId → (attrid attr_mod : ℕ) (timeout : ℤ) (cckey static_trid : ℕ) → W → Run W
  cc_query_status_via rcvbuf portid attrid attr_mod timeout cckey static_trid w =
      call_rpc rcvbuf rcvbuf (cc_rpc ib_mad_method_get attrid attr_mod timeout cckey)
        (qp1_port portid) static_trid w

  unfoldable pub cc_config_status_via :
      (payload rcvbuf : Buf)
      → PortId
      → (attrid attr_mod : ℕ) (timeout : ℤ) (cckey static_trid : ℕ) → W
      → Run W
  cc_config_status_via payload rcvbuf portid attrid attr_mod timeout cckey static_trid w =
      call_rpc payload rcvbuf (cc_rpc ib_mad_method_set attrid attr_mod timeout cckey)
        (qp1_port portid) static_trid w

  unfoldable pub ib_vendor_call_via : Buf → PortId → VendorCall → (static_trid : ℕ) → W → Call W
  ib_vendor_call_via buf portid call static_trid w =
      let rpc = vendor_rpc call in
      let transfer =
        mad_rpc_rmpp umad srcport seed madrpc_timeout madrpc_retries recv_fuel rpc (qp1_port portid)
          none (some buf) static_trid w in
      let sent =
        mad_send_via umad srcport seed madrpc_timeout rpc (qp1_port portid) none (some buf)
          static_trid w in
      if not (is_positive portid.lid)
      then rejected
      else if not (mad_is_vendor_range1 call.mgmt_class)
          && not (mad_is_vendor_range2 call.mgmt_class)
      then rejected
      else if response_expected call.method
      then rmpp_exchanged transfer
      else only_sent sent

  -- The caller's data after the call, and the call; the key is not given back.
  unfoldable pub bm_call_via : Buf → PortId → BmCall → (static_trid : ℕ) → W → Buf × Call W
  bm_call_via buf portid call static_trid w =
      let request = bm_data call.bkey buf in
      let run = call_rpc request request (bm_rpc call) (qp1_port portid) static_trid w in
      let back = memcpy buf 0 (λ a. received run request (40 + a)) ib_bm_data_sz in
      let sent =
        mad_send_via umad srcport seed madrpc_timeout (bm_rpc call) (qp1_port portid) none
          (some request) static_trid w in
      if not (is_positive portid.lid)
      then (buf, rejected)
      else if response_expected call.method
      then (back, exchanged run)
      else (buf, only_sent sent)
