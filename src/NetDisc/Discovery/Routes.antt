-- ===== src/NetDisc/Discovery/Routes.antt =====
-- libibnetdisc/src/ibnetdisc.c: which ports of a node are followed, and along which route.
use infiniband_diags.Base.{
  ℕ, ◌%◌, ◌^◌, bit_and, Bool, false, true, not, ◌&&◌, ◌||◌, Option, none, some, List, [], ◌∷◌, leb,
  ◌==◌, if◌then◌else◌,
}
use infiniband_diags.Base.Int.{pos, is_zero, at_least}
use infiniband_diags.Mad.Field.{Buf}
use infiniband_diags.Mad.Table.{mad_get_field}
use infiniband_diags.Mad.Types.{PortId}
use infiniband_diags.Mad.Numbers.{
  ib_node_devid_f, ib_node_vendorid_f, ib_port_phys_state_f, ib_port_link_speed_active_f,
  ib_port_link_speed_ext_active_f, ib_port_capmask_f,
}
use infiniband_diags.NetDisc.Path.{Hop, extend_dpath, retract_dpath}
use infiniband_diags.NetDisc.Fabric.Heap.{Fabric, ib_node_switch}
use infiniband_diags.NetDisc.Fabric.{port_of}

-- The numbers of OpenSM's ib_types.h that are used. `cap_has_ext_speeds` is in host order.
pub record IbTypes : Type 0 where
  pub phys_state_linkup : ℕ
  pub link_speed_active_10 : ℕ
  pub link_speed_ext_active_none : ℕ
  pub cap_has_ext_speeds : ℕ

abbrev within : ℕ → ℕ → ℕ → Bool
within low high n = leb low n && leb n high

abbrev is_any : List ℕ → ℕ → Bool
is_any [] n = false
is_any (x ∷ xs) n = n == x || is_any xs n

-- The NodeInfo of a node whose ports have the extended PortInfo of Mellanox.
unfoldable pub is_mlnx_ext_port_info_supported : (info : Buf) → Bool
is_mlnx_ext_port_info_supported info =
    let devid = mad_get_field info 0 ib_node_devid_f % 2 ^ 16 in
    let vendorid = mad_get_field info 0 ib_node_vendorid_f in
    (within 0xc738 0xc73b devid
      || is_any (0xc839 ∷ 0xcb20 ∷ 0xcf08 ∷ 0xcf09 ∷ 0xd2f0 ∷ []) devid
      || (vendorid == 0x119f
          && (is_any (0x1b02 ∷ 0x1b50 ∷ 0x1ba0 ∷ []) devid
              || within 0x1bd0 0x1bd5 devid
              || devid == 0x1bf0)))
    || (within 0x1003 0x101b devid
        || devid == 0xa2d2
        || (vendorid == 0x119f
            && (is_any
                  (0x1b33 ∷ 0x1b73 ∷ 0x1b40 ∷ 0x1b41 ∷ 0x1b60 ∷ 0x1b61 ∷ 0x1b83 ∷ 0x1b93 ∷ 0x1b94
                    ∷ 0x1bb4 ∷ 0x1bb5 ∷ [])
                  devid
                || within 0x1bc4 0x1bc6 devid)))

-- node == fabric.from_node
abbrev pub is_at : Option ℕ → ℕ → Bool
is_at none nd = false
is_at (some a) nd = a == nd

module _ {L : Type 0} where
  -- The route to the other end of a port; we can't proceed through an HCA with DR.
  unfoldable pub route_on : Fabric L → PortId → (nd port_num : ℕ) → Hop
  route_on fab path nd port_num =
      let is_switch = (fab.node_at nd).type == ib_node_switch in
      if not is_switch && (is_at fab.from_node nd && at_least 2 path.drpath.cnt)
      then retract_dpath fab.scan path
      else if is_zero path.lid || is_switch
      then extend_dpath fab.scan path port_num
      else (pos 0, (fab.scan, path))

  -- node->ports[0] is null, and would be read.
  abbrev pub lacks_port0 : Fabric L → (nd : ℕ) → Bool
  lacks_port0 fab nd =
      (fab.node_at nd).type == ib_node_switch
      && elim (port_of fab nd 0) [ none ↦ true | some port0 ↦ false ]

  -- node->ports[0]->info of a switch, or the port's own; recv_port_info stops before a null ports[0].
  unfoldable pub capmask_info : Fabric L → (nd port : ℕ) → Buf
  capmask_info fab nd port =
      if (fab.node_at nd).type == ib_node_switch
      then elim (port_of fab nd 0) [ none ↦ (λ a. 0) | some port0 ↦ (fab.port_at port0).info ]
      else (fab.port_at port).info

module _ {L : Type 0} (types : IbTypes) where
  -- Whether there is something to be found behind a port.
  unfoldable pub leads_on : Fabric L → (nd port port_num local_port : ℕ) → Bool
  leads_on fab nd port port_num local_port =
      not (port_num == 0)
      && (mad_get_field (fab.port_at port).info 0 ib_port_phys_state_f == types.phys_state_linkup
          && (((fab.node_at nd).type == ib_node_switch && not (port_num == local_port))
              || (is_at fab.from_node nd && port_num == fab.from_portnum)))

  -- LinkUp/QDR
  unfoldable pub is_qdr : Fabric L → (nd port : ℕ) → Bool
  is_qdr fab nd port =
      let info = (fab.port_at port).info in
      let cap_mask = mad_get_field (capmask_info fab nd port) 0 ib_port_capmask_f in
      let espeed =
        (if bit_and cap_mask types.cap_has_ext_speeds == 0
          then 0
          else mad_get_field info 0 ib_port_link_speed_ext_active_f) in
      mad_get_field info 0 ib_port_phys_state_f == types.phys_state_linkup
      && (mad_get_field info 0 ib_port_link_speed_active_f == types.link_speed_active_10
          && espeed == types.link_speed_ext_active_none)
