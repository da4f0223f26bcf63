-- ===== src/Mad/Types.antt =====
-- libibmad/include/infiniband/mad.h: requests, paths and port identifiers.
use infiniband_diags.Base.{ℕ}
use infiniband_diags.Base.Int.{ℤ, pos}
use infiniband_diags.Mad.Field.{Buf}

-- ib_dr_path_t
pub record DrPath : Type 0 where
  pub cnt : ℤ
  pub p : Buf
  pub drslid : ℕ
  pub drdlid : ℕ

-- ib_portid_t
pub record PortId : Type 0 where
  pub lid : ℤ
  pub drpath : DrPath
  pub grh_present : ℕ
  pub gid : Buf
  pub qp : ℕ
  pub qkey : ℕ
  pub sl : ℕ
  pub pkey_idx : ℕ

-- ib_rpc_cc_t: ib_rpc_t and ib_rpc_v1_t are its first fields.
pub record Rpc : Type 0 where
  pub mgtclass : ℕ
  pub method : ℕ
  pub attr_id : ℕ
  pub attr_mod : ℕ
  pub rstatus : ℕ
  pub dataoffs : ℕ
  pub datasz : ℕ
  pub mkey : ℕ
  pub trid : ℕ
  pub mask : ℕ
  pub recsz : ℕ
  pub timeout : ℤ
  pub oui : ℕ
  pub error : ℕ
  pub cckey : ℕ

-- ib_rmpp_hdr_t
pub record RmppHdr : Type 0 where
  pub type : ℕ
  pub flags : ℕ
  pub status : ℕ
  pub d1 : ℕ
  pub d2 : ℕ

-- enum MAD_CLASSES
abbrev pub ib_smi_class : ℕ
ib_smi_class = 0x1

abbrev pub ib_smi_direct_class : ℕ
ib_smi_direct_class = 0x81

abbrev pub ib_sa_class : ℕ
ib_sa_class = 0x3

abbrev pub ib_cc_class : ℕ
ib_cc_class = 0x21

abbrev pub ib_mad_response : ℕ
ib_mad_response = 0x80

abbrev pub ib_mad_size : ℕ
ib_mad_size = 256

abbrev pub ib_subnet_path_hops_max : ℕ
ib_subnet_path_hops_max = 64

-- ib_rpc_t rpc = { 0 }
abbrev pub no_rpc : Rpc
no_rpc = record {
  mgtclass = 0;
  method = 0;
  attr_id = 0;
  attr_mod = 0;
  rstatus = 0;
  dataoffs = 0;
  datasz = 0;
  mkey = 0;
  trid = 0;
  mask = 0;
  recsz = 0;
  timeout = pos 0;
  oui = 0;
  error = 0;
  cckey = 0;
}

-- ib_portid_t portid = { 0 }
abbrev pub no_portid : PortId
no_portid = record {
  lid = pos 0;
  drpath = record { cnt = pos 0; p = λ a. 0; drslid = 0; drdlid = 0 };
  grh_present = 0;
  gid = λ a. 0;
  qp = 0;
  qkey = 0;
  sl = 0;
  pkey_idx = 0;
}

-- enum MAD_METHODS
abbrev pub ib_mad_method_get : ℕ
ib_mad_method_get = 0x1

abbrev pub ib_mad_method_set : ℕ
ib_mad_method_set = 0x2

abbrev pub ib_mad_method_send : ℕ
ib_mad_method_send = 0x3

abbrev pub ib_mad_method_trap : ℕ
ib_mad_method_trap = 0x5

abbrev pub ib_default_qp1_qkey : ℕ
ib_default_qp1_qkey = 0x80010000
