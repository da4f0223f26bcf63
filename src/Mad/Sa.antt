-- ===== src/Mad/Sa.antt =====
-- libibmad/src/sa.c: requests to the subnet administration.
use infiniband_diags.Base.{ℕ, Bool, true, false, not, Option, none, some, if◌then◌else◌}
use infiniband_diags.Base.Int.{ℤ, pos, negsuc, is_positive}
use infiniband_diags.Mad.Field.{Buf}
use infiniband_diags.Mad.Wide.{
  memcpy, u64_val, array_val, as_u32, mad_decode_field, mad_encode_field,
}
use infiniband_diags.Mad.Types.{PortId, Rpc, no_rpc, ib_sa_class, ib_mad_method_get}
use infiniband_diags.Mad.Encode.{mad_trid}
use infiniband_diags.Mad.Numbers.{
  ib_sa_pr_dgid_f, ib_sa_pr_sgid_f, ib_sa_pr_dlid_f, ib_sa_nr_port_guid_f,
}
use infiniband_diags.Mad.Rpc.{IbmadPort, Umad}
use infiniband_diags.Mad.Call.{zeroed}
use infiniband_diags.Mad.Rmpp.{RmppRun, transferred, mad_rpc_rmpp}
use infiniband_diags.Mad.Gmp.{qp1_port}

abbrev pub ib_sa_data_size : ℕ
ib_sa_data_size = 200

abbrev pub ib_sa_data_offs : ℕ
ib_sa_data_offs = 56

-- IB_SA_ATTR_NODERECORD, IB_SA_ATTR_PATHRECORD
abbrev pub ib_sa_attr_noderecord : ℕ
ib_sa_attr_noderecord = 0x11

abbrev pub ib_sa_attr_pathrecord : ℕ
ib_sa_attr_pathrecord = 0x35

-- IB_PR_DEF_MASK, the bits of DGID and SGID, and IB_NR_DEF_MASK, the bit of the port GUID
abbrev pub ib_pr_def_mask : ℕ
ib_pr_def_mask = 0xc

abbrev pub ib_nr_def_mask : ℕ
ib_nr_def_mask = 0x100

abbrev pub ib_sa_pr_recsz : ℕ
ib_sa_pr_recsz = 64

abbrev pub ib_sa_nr_recsz : ℕ
ib_sa_nr_recsz = 108

-- ib_sa_call_t, whose `rmpp` is not read
pub record SaCall : Type 0 where
  pub attrid : ℕ
  pub attr_mod : ℕ
  pub mask : ℕ
  pub method : ℕ
  pub trid : ℕ
  pub recsz : ℕ

-- The request of sa_rpc_call.
unfoldable pub sa_rpc : SaCall → (timeout : ℤ) → Rpc
sa_rpc sa timeout = record no_rpc {
  mgtclass = ib_sa_class;
  method = sa.method;
  attr_id = sa.attrid;
  attr_mod = sa.attr_mod;
  mask = sa.mask;
  timeout = timeout;
  datasz = ib_sa_data_size;
  dataoffs = ib_sa_data_offs;
  trid = sa.trid;
}

-- The data that a call returns, or none for NULL.
abbrev pub answer_of : {W : Type 0} → RmppRun W → Option Buf
answer_of run = elim run.value [ transferred answer ↦ answer | _ ↦ none ]

-- What sa_rpc_call leaves.
pub record SaRun (W : Type 0) : Type 0 where
  pub answer : Option Buf
  pub sa : SaCall
  pub portid : PortId
  pub static_trid : ℕ
  pub world : W

-- What a query leaves: its return, its buffer, and the port of the subnet manager.
pub record Queried (W : Type 0) (A : Type 0) : Type 0 where
  pub value : A
  pub buf : Buf
  pub sm_id : PortId
  pub static_trid : ℕ
  pub world : W

abbrev get_record : (attrid mask trid : ℕ) → SaCall
get_record attrid mask trid = record {
  attrid = attrid;
  attr_mod = 0;
  mask = mask;
  method = ib_mad_method_get;
  trid = trid;
  recsz = 0;
}

-- The record that a path query sends.
unfoldable pub path_request : Buf → (srcgid destgid : Buf) → Buf
path_request buf srcgid destgid =
    let cleared = memcpy buf 0 zeroed ib_sa_pr_recsz in
    mad_encode_field (mad_encode_field cleared ib_sa_pr_dgid_f (array_val destgid)) ib_sa_pr_sgid_f
      (array_val srcgid)

-- The buffer after a call: the answer, or what it held.
abbrev pub filled : Option Buf → Buf → Buf
filled none buf = buf
filled (some answer) buf = answer

module _ {W : Type 0} (umad : Umad W) (srcport : IbmadPort) (seed : ℕ)
    (madrpc_timeout madrpc_retries : ℤ) (recv_fuel : ℕ) where
  unfoldable pub sa_rpc_call : Buf → PortId → SaCall → (timeout : ℤ) (static_trid : ℕ) → W → SaRun W
  sa_rpc_call rcvbuf portid sa timeout static_trid w =
      let run =
        mad_rpc_rmpp umad srcport seed madrpc_timeout madrpc_retries recv_fuel (sa_rpc sa timeout)
          (qp1_port portid) none (some rcvbuf) static_trid w in
      if not (is_positive portid.lid)
      then record { answer = none; sa = sa; portid = portid; static_trid = static_trid; world = w }
      else record {
        answer = answer_of run;
        sa = record sa { recsz = run.rpc.recsz };
        portid = qp1_port portid;
        static_trid = run.static_trid;
        world = run.world;
      }

  -- The value is the destination LID, or -1.
  unfoldable pub ib_path_query_via :
      (srcgid destgid : Buf) → PortId → Buf → (static_trid : ℕ) → W → Queried W ℤ
  ib_path_query_via srcgid destgid sm_id buf static_trid w =
      let fresh = mad_trid seed static_trid in
      let request = path_request buf srcgid destgid in
      let run =
        sa_rpc_call request sm_id (get_record ib_sa_attr_pathrecord ib_pr_def_mask fresh.1) (pos 0)
          fresh.0 w in
      record {
        value = elim run.answer [
          | none ↦ negsuc 0
          | some p ↦ pos (as_u32 (mad_decode_field p ib_sa_pr_dlid_f zeroed))
        ];
        buf = filled run.answer request;
        sm_id = run.portid;
        static_trid = run.static_trid;
        world = run.world;
      }

  -- The value is false for -1.
  unfoldable pub ib_node_query_via :
      (guid : ℕ) → PortId → Buf → (static_trid : ℕ) → W → Queried W Bool
  ib_node_query_via guid sm_id buf static_trid w =
      let fresh = mad_trid seed static_trid in
      let cleared = memcpy buf 0 zeroed ib_sa_nr_recsz in
      let request = mad_encode_field cleared ib_sa_nr_port_guid_f (u64_val guid) in
      let run =
        sa_rpc_call request sm_id (get_record ib_sa_attr_noderecord ib_nr_def_mask fresh.1) (pos 0)
          fresh.0 w in
      record {
        value = elim run.answer [ none ↦ false | some p ↦ true ];
        buf = filled run.answer request;
        sm_id = run.portid;
        static_trid = run.static_trid;
        world = run.world;
      }
