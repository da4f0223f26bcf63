-- ===== src/Mad/Resolve.antt =====
-- libibmad/src/resolve.c: the ports of the subnet manager, of a GID or GUID, and of the caller.
-- The local buffers that a query sends hold `stack`; errno is left out.
pub mod Laws
use infiniband_diags.Base.{
  ℕ, ◌%◌, ◌^◌, Bool, true, false, not, ◌&&◌, Option, none, some, leb, ◌==◌, if◌then◌else◌,
}
use infiniband_diags.Base.Int.{ℤ, pos, negsuc, is_negative}
use infiniband_diags.Mad.Field.{Buf}
use infiniband_diags.Mad.Wide.{
  u64_val, as_u32, as_u64, mad_decode_field, mad_encode_field, mad_get_field64, mad_set_field64,
}
use infiniband_diags.Mad.Types.{PortId, no_portid}
use infiniband_diags.Mad.Numbers.{
  ib_port_smlid_f, ib_port_smsl_f, ib_port_lid_f, ib_port_gid_prefix_f, ib_node_port_guid_f,
  ib_node_local_port_f, ib_gid_prefix_f, ib_gid_guid_f, ib_sa_pr_sl_f,
}
use infiniband_diags.Mad.Rpc.{IbmadPort, Umad}
use infiniband_diags.Mad.Call.{Run, replied, zeroed}
use infiniband_diags.Mad.Smp.{smp_query_status_via}
use infiniband_diags.Mad.Sa.{ib_path_query_via}

abbrev pub ib_attr_node_info : ℕ
ib_attr_node_info = 0x11

abbrev pub ib_attr_port_info : ℕ
ib_attr_port_info = 0x15

abbrev pub ib_default_subn_prefix : ℕ
ib_default_subn_prefix = 0xfe80000000000000

-- IB_LID_VALID
unfoldable pub ib_lid_valid : ℤ → Bool
ib_lid_valid (pos lid) = leb 1 lid && leb lid 0xbfff
ib_lid_valid (negsuc lid) = false

unfoldable pub ib_portid_set : PortId → ℤ → (qp qkey : ℕ) → PortId
ib_portid_set portid lid qp qkey = record portid {
  lid = lid;
  qp = qp;
  qkey = qkey;
  grh_present = 0;
}

-- The data of a query, or none for NULL.
abbrev pub data_of : {W : Type 0} → Run W → Option Buf
data_of run = elim run.value [ replied answer ↦ answer | _ ↦ none ]

-- A field of at most 32 bits, and one of 64 bits, as mad_decode_field gives them.
abbrev pub decode_u32 : Buf → ℕ → ℕ
decode_u32 buf field = as_u32 (mad_decode_field buf field zeroed)

abbrev pub decode_u64 : Buf → ℕ → ℕ
decode_u64 buf field = as_u64 (mad_decode_field buf field zeroed)

-- What a resolution leaves: false for -1, the port, and the port of the subnet manager.
pub record Resolved (W : Type 0) : Type 0 where
  pub ok : Bool
  pub portid : PortId
  pub sm_id : PortId
  pub static_trid : ℕ
  pub world : W

-- What ib_resolve_self_via leaves.
pub record SelfRun (W : Type 0) : Type 0 where
  pub ok : Bool
  pub portid : PortId
  pub portnum : Option ℕ
  pub gid : Option Buf
  pub static_trid : ℕ
  pub world : W

-- The port of a subnet manager, from the PortInfo that names it; `sl` is one byte.
unfoldable pub sm_port : Buf → Option PortId
sm_port portinfo =
    let lid = pos (decode_u32 portinfo ib_port_smlid_f) in
    let sl = decode_u32 portinfo ib_port_smsl_f % 2 ^ 8 in
    if not (ib_lid_valid lid)
    then none
    else some (ib_portid_set (record no_portid { sl = sl }) lid 0 0)

-- The GID of the own port in the default subnet.
unfoldable pub self_gid : Buf → (nodeinfo : Buf) → Buf
self_gid gid nodeinfo =
    mad_set_field64 (mad_set_field64 gid 0 ib_gid_prefix_f ib_default_subn_prefix) 0 ib_gid_guid_f
      (decode_u64 nodeinfo ib_node_port_guid_f)

-- The GID that is asked for: the default prefix for none, and the GUID that is given.
unfoldable pub asked_gid : Buf → Option ℕ → Buf
asked_gid gid guid =
    let prefixed =
      (if mad_get_field64 gid 0 ib_gid_prefix_f == 0
        then mad_set_field64 gid 0 ib_gid_prefix_f ib_default_subn_prefix
        else gid) in
    elim guid [ none ↦ prefixed | some g ↦ mad_set_field64 prefixed 0 ib_gid_guid_f g ]

-- sm_id, or the local sm_portid for NULL
abbrev pub or_local : Option PortId → PortId
or_local none = no_portid
or_local (some sm_id) = sm_id

module _ {W : Type 0} (umad : Umad W) (srcport : IbmadPort) (seed : ℕ)
    (madrpc_timeout madrpc_retries : ℤ) (recv_fuel fuel : ℕ) (stack : Buf) where
  -- smp_query_via of the own port
  abbrev pub query_self : (attrid static_trid : ℕ) → W → Run W
  query_self attrid static_trid w =
      smp_query_status_via umad srcport seed madrpc_timeout madrpc_retries recv_fuel fuel stack
        no_portid attrid 0 (pos 0) static_trid w

  -- The port is sm_id, which is cleared first.
  unfoldable pub ib_resolve_smlid_via : (static_trid : ℕ) → W → Resolved W
  ib_resolve_smlid_via static_trid w =
      let run = query_self ib_attr_port_info static_trid w in
      let found : Option PortId = elim (data_of run) [
        | none ↦ none
        | some portinfo ↦ sm_port portinfo
      ] in
      record {
        ok = elim found [ none ↦ false | some sm_id ↦ true ];
        portid = or_local found;
        sm_id = or_local found;
        static_trid = run.static_trid;
        world = run.world;
      }

  -- if (!IB_LID_VALID(sm_id->lid)) ib_resolve_smlid_via(sm_id, ...)
  unfoldable pub ensure_sm : PortId → (static_trid : ℕ) → W → Resolved W
  ensure_sm sm_id static_trid w =
      let resolved = ib_resolve_smlid_via static_trid w in
      if ib_lid_valid sm_id.lid
      then record { ok = true; portid = sm_id; sm_id = sm_id; static_trid = static_trid; world = w }
      else resolved

  unfoldable pub ib_resolve_gid_via :
      PortId → (gid : Buf) → Option PortId → (static_trid : ℕ) → W → Resolved W
  ib_resolve_gid_via portid gid sm_id static_trid w =
      let sm = ensure_sm (or_local sm_id) static_trid w in
      let path =
        ib_path_query_via umad srcport seed madrpc_timeout madrpc_retries recv_fuel gid gid sm.sm_id
          zeroed sm.static_trid sm.world in
      if not sm.ok then record sm { portid = portid } else record {
        ok = not (is_negative path.value);
        portid = record portid { lid = path.value };
        sm_id = path.sm_id;
        static_trid = path.static_trid;
        world = path.world;
      }

  unfoldable pub ib_resolve_guid_via :
      PortId → (guid : Option ℕ) → Option PortId → (static_trid : ℕ) → W → Resolved W
  ib_resolve_guid_via portid guid sm_id static_trid w =
      let sm = ensure_sm (or_local sm_id) static_trid w in
      let run = query_self ib_attr_node_info sm.static_trid sm.world in
      let destgid = asked_gid portid.gid guid in
      let answer : Resolved W = elim (data_of run) [
        | none ↦ record {
          ok = false;
          portid = portid;
          sm_id = sm.sm_id;
          static_trid = run.static_trid;
          world = run.world;
        }
        | some nodeinfo ↦
            let path =
              ib_path_query_via umad srcport seed madrpc_timeout madrpc_retries recv_fuel
                (self_gid stack nodeinfo) destgid sm.sm_id zeroed run.static_trid run.world in
            let moved = record portid { gid = destgid; lid = path.value } in
            let sl = decode_u32 path.buf ib_sa_pr_sl_f % 2 ^ 8 in
            record {
              ok = not (is_negative path.value);
              portid = if is_negative path.value then moved else record moved { sl = sl };
              sm_id = path.sm_id;
              static_trid = path.static_trid;
              world = path.world;
            }
      ] in
      if not sm.ok then record sm { portid = portid } else answer

  unfoldable pub ib_resolve_self_via :
      PortId → Option ℕ → Option Buf → (static_trid : ℕ) → W → SelfRun W
  ib_resolve_self_via portid portnum gid static_trid w =
      let run = query_self ib_attr_node_info static_trid w in
      let run' = query_self ib_attr_port_info run.static_trid run.world in
      let failed : ℕ → W → SelfRun W = λ trid world. record {
        ok = false;
        portid = portid;
        portnum = portnum;
        gid = gid;
        static_trid = trid;
        world = world;
      } in
      elim (data_of run) [
        | none ↦ failed run.static_trid run.world
        | some nodeinfo ↦ elim (data_of run') [
          | none ↦ failed run'.static_trid run'.world
          | some portinfo ↦
              let prefix = decode_u64 portinfo ib_port_gid_prefix_f in
              let guid = decode_u64 nodeinfo ib_node_port_guid_f in
              record {
                ok = true;
                portid = record portid {
                  lid = pos (decode_u32 portinfo ib_port_lid_f);
                  sl = decode_u32 portinfo ib_port_smsl_f % 2 ^ 8;
                };
                portnum = elim portnum [
                  | none ↦ none
                  | some old ↦ some (decode_u32 nodeinfo ib_node_local_port_f)
                ];
                gid = elim gid [
                  | none ↦ none
                  | some old ↦ some (
                      mad_encode_field (mad_encode_field old ib_gid_prefix_f (u64_val prefix))
                        ib_gid_guid_f (u64_val guid))
                ];
                static_trid = run'.static_trid;
                world = run'.world;
              }
        ]
      ]
