-- ===== src/Mad/Encode.antt =====
-- libibmad/src/mad.c: transaction numbers, and the encoding of a request into a datagram.
-- `srandom` and `random` are the parameter `seed`, the value that the generator gives.
pub mod Stages
pub mod Header
use infiniband_diags.Base.{
  ℕ, ◌+◌, ◌%◌, ◌^◌, bit_and, Bool, not, ◌&&◌, ◌||◌, Option, none, some, leb, ◌==◌, if◌then◌else◌,
}
use infiniband_diags.Base.Int.{to_u32, at_least}
use infiniband_diags.Mad.Field.{Buf}
use infiniband_diags.Mad.Table.{mad_set_field}
use infiniband_diags.Mad.Wide.{memcpy, mad_set_field64, mad_set_array}
use infiniband_diags.Mad.Types.{
  DrPath, Rpc, ib_smi_direct_class, ib_sa_class, ib_cc_class, ib_mad_response,
  ib_subnet_path_hops_max,
}
use infiniband_diags.Mad.Numbers.{
  ib_mad_method_f, ib_mad_response_f, ib_mad_classver_f, ib_mad_mgmtclass_f, ib_mad_basever_f,
  ib_mad_status_f, ib_drsmp_hopcnt_f, ib_drsmp_hopptr_f, ib_drsmp_status_f, ib_drsmp_direction_f,
  ib_mad_trid_f, ib_mad_attrid_f, ib_mad_attrmod_f, ib_mad_mkey_f, ib_drsmp_drdlid_f,
  ib_drsmp_drslid_f, ib_drsmp_rpath_f, ib_drsmp_path_f, ib_sa_compmask_f, ib_cc_cckey_f,
  ib_vend2_oui_f,
}

-- mad_trid: the new value of the static `trid`, and the number returned.
unfoldable pub mad_trid : ℕ → ℕ → ℕ × ℕ
mad_trid seed trid =
    let next = ((if trid == 0 then seed else trid) + 1) % 2 ^ 64 in (next, bit_and next 0xffffffff)

abbrev pub mgtclass8 : Rpc → ℕ
mgtclass8 rpc = bit_and rpc.mgtclass 0xff

abbrev pub is_resp : Rpc → Bool
is_resp rpc = not (bit_and rpc.method ib_mad_response == 0)

abbrev pub is_direct : Rpc → Bool
is_direct rpc = mgtclass8 rpc == ib_smi_direct_class

-- mad_is_vendor_range2
abbrev pub mad_is_vendor_range2 : ℕ → Bool
mad_is_vendor_range2 mgmt = leb 0x30 mgmt && leb mgmt 0x4f

-- first word
unfoldable pub encode_first : Rpc → Buf → Buf
encode_first rpc buf =
    let buf₁ = mad_set_field buf 0 ib_mad_method_f rpc.method in
    let buf₂ = mad_set_field buf₁ 0 ib_mad_response_f (if is_resp rpc then 1 else 0) in
    let two = mgtclass8 rpc == ib_sa_class || mgtclass8 rpc == ib_cc_class in
    let buf₃ = mad_set_field buf₂ 0 ib_mad_classver_f (if two then 2 else 1) in
    let buf₄ = mad_set_field buf₃ 0 ib_mad_mgmtclass_f (mgtclass8 rpc) in
    mad_set_field buf₄ 0 ib_mad_basever_f 1

-- second word of a directed route packet
unfoldable pub encode_second_direct : Rpc → DrPath → Buf → Buf
encode_second_direct rpc drpath buf =
    let cnt = to_u32 drpath.cnt in
    let buf₁ = mad_set_field buf 0 ib_drsmp_hopcnt_f cnt in
    let buf₂ =
      mad_set_field buf₁ 0 ib_drsmp_hopptr_f (if is_resp rpc then (cnt + 1) % 2 ^ 32 else 0) in
    let buf₃ = mad_set_field buf₂ 0 ib_drsmp_status_f rpc.rstatus in
    mad_set_field buf₃ 0 ib_drsmp_direction_f (if is_resp rpc then 1 else 0)

-- second word; `none` is the return of NULL with errno EINVAL.
unfoldable pub encode_second : Rpc → Option DrPath → Buf → Option Buf
encode_second rpc none buf =
    if is_direct rpc then none else some (mad_set_field buf 0 ib_mad_status_f rpc.rstatus)
encode_second rpc (some drpath) buf =
    if is_direct rpc
    then if at_least ib_subnet_path_hops_max drpath.cnt
      then none
      else some (encode_second_direct rpc drpath buf)
    else some (mad_set_field buf 0 ib_mad_status_f rpc.rstatus)

-- words 3 to 8
unfoldable pub encode_ids : Rpc → Buf → Buf
encode_ids rpc buf =
    let buf₁ = mad_set_field64 buf 0 ib_mad_trid_f rpc.trid in
    let buf₂ = mad_set_field buf₁ 0 ib_mad_attrid_f rpc.attr_id in
    let buf₃ = mad_set_field buf₂ 0 ib_mad_attrmod_f rpc.attr_mod in
    mad_set_field64 buf₃ 0 ib_mad_mkey_f rpc.mkey

-- word 9 and the path of a directed route packet
unfoldable pub encode_path_direct : Rpc → DrPath → Buf → Buf
encode_path_direct rpc drpath buf =
    let dlid = (if drpath.drdlid == 0 then 0xffff else drpath.drdlid) in
    let slid = (if drpath.drslid == 0 then 0xffff else drpath.drslid) in
    let buf₁ = mad_set_field buf 0 ib_drsmp_drdlid_f dlid in
    let buf₂ = mad_set_field buf₁ 0 ib_drsmp_drslid_f slid in
    if is_resp rpc
    then mad_set_array buf₂ 0 ib_drsmp_rpath_f drpath.p
    else mad_set_array buf₂ 0 ib_drsmp_path_f drpath.p

unfoldable pub encode_path : Rpc → Option DrPath → Buf → Buf
encode_path rpc none buf = buf
encode_path rpc (some drpath) buf = if is_direct rpc then encode_path_direct rpc drpath buf else buf

-- the keys of single classes, the data, and the OUI of vendor range 2
unfoldable pub encode_class : Rpc → Buf → Buf
encode_class rpc buf =
    let buf₁ =
      (if mgtclass8 rpc == ib_sa_class
        then mad_set_field64 buf 0 ib_sa_compmask_f rpc.mask
        else buf) in
    if mgtclass8 rpc == ib_cc_class then mad_set_field64 buf₁ 0 ib_cc_cckey_f rpc.cckey else buf₁

unfoldable pub encode_data : Rpc → Option Buf → Buf → Buf
encode_data rpc none buf = buf
encode_data rpc (some payload) buf = memcpy buf rpc.dataoffs payload rpc.datasz

unfoldable pub encode_vendor : Rpc → Buf → Buf
encode_vendor rpc buf =
    if mad_is_vendor_range2 (mgtclass8 rpc) then mad_set_field buf 0 ib_vend2_oui_f rpc.oui else buf

-- What `mad_encode` leaves: the datagram, the request with its number, and the static `trid`.
pub record Encoded : Type 0 where
  pub buf : Buf
  pub rpc : Rpc
  pub static_trid : ℕ

-- if (!rpc->trid) rpc->trid = mad_trid();
unfoldable pub number_request : ℕ → ℕ → Rpc → Rpc × ℕ
number_request seed static_trid rpc =
    let fresh = mad_trid seed static_trid in
    if rpc.trid == 0 then (record rpc { trid = fresh.1 }, fresh.0) else (rpc, static_trid)

-- words 3 and above, with the number of the request
unfoldable pub encode_rest : ℕ → ℕ → Rpc → Option DrPath → Option Buf → Buf → Encoded
encode_rest seed static_trid rpc drpath payload second =
    let numbered = number_request seed static_trid rpc in
    let rpc' = numbered.0 in
    let routed = encode_path rpc' drpath (encode_ids rpc' second) in
    record {
      buf = encode_vendor rpc' (encode_data rpc' payload (encode_class rpc' routed));
      rpc = rpc';
      static_trid = numbered.1;
    }

-- mad_encode
unfoldable pub mad_encode : ℕ → ℕ → Buf → Rpc → Option DrPath → Option Buf → Option Encoded
mad_encode seed static_trid buf rpc drpath payload =
    elim (encode_second rpc drpath (encode_first rpc buf)) [
      | none ↦ none
      | some second ↦ some (encode_rest seed static_trid rpc drpath payload second)
    ]
