-- ===== src/NetDisc/ChassisGuid.antt =====
-- libibnetdisc/src/chassis.c: the GUID of the chassis that a node belongs to.
pub mod Laws
use infiniband_diags.Base.{
  ℕ, bit_and, Bool, true, false, not, ◌||◌, Option, none, some, ◌==◌, if◌then◌else◌,
}
use infiniband_diags.Mad.Field.{Buf}
use infiniband_diags.Mad.Table.{mad_get_field}
use infiniband_diags.Mad.Wide.{mad_get_field64}
use infiniband_diags.Mad.Numbers.{ib_node_vendorid_f, ib_node_system_guid_f}

abbrev pub ts_vendor_id : ℕ
ts_vendor_id = 0x5ad

abbrev pub ss_vendor_id : ℕ
ss_vendor_id = 0x66a

abbrev pub xs_vendor_id : ℕ
xs_vendor_id = 0x1397

-- Byte 4 is the location.
unfoldable pub topspin_chassisguid : ℕ → ℕ
topspin_chassisguid guid = bit_and guid 0xffffffff00ffffff

unfoldable pub ibnd_is_xsigo_guid : ℕ → Bool
ibnd_is_xsigo_guid guid = bit_and guid 0xffffff0000000000 == 0x0013970000000000

unfoldable pub is_xsigo_leafone : ℕ → Bool
is_xsigo_leafone guid = bit_and guid 0xffffffffff000000 == 0x0013970102000000

unfoldable pub ibnd_is_xsigo_hca : ℕ → Bool
ibnd_is_xsigo_hca guid = bit_and guid 0xffffffff00000000 == 0x0013970200000000

unfoldable pub ibnd_is_xsigo_tca : ℕ → Bool
ibnd_is_xsigo_tca guid = bit_and guid 0xffffffff00000000 == 0x0013970300000000

abbrev pub is_xsigo_ca : ℕ → Bool
is_xsigo_ca guid = ibnd_is_xsigo_hca guid || ibnd_is_xsigo_tca guid

unfoldable pub is_xsigo_switch : ℕ → Bool
is_xsigo_switch guid = bit_and guid 0xffffffff00000000 == 0x0013970100000000

-- What the search reads of a node: its NodeInfo, whether it has a port 1, and the NodeInfo of the
-- node at the other end of that port.
pub record GuidNode : Type 0 where
  pub info : Buf
  pub has_port1 : Bool
  pub peer : Option Buf

abbrev pub system_guid : Buf → ℕ
system_guid info = mad_get_field64 info 0 ib_node_system_guid_f

-- The chassis of a channel adapter is that of the leaf that it is linked to.
unfoldable pub peer_chassisguid : ℕ → Option Buf → ℕ
peer_chassisguid sysimgguid none = sysimgguid
peer_chassisguid sysimgguid (some peer) =
    if is_xsigo_leafone (system_guid peer)
    then bit_and (system_guid peer) 0xffffffff00ffffff
    else sysimgguid

unfoldable pub xsigo_chassisguid : GuidNode → ℕ
xsigo_chassisguid node =
    let sysimgguid = system_guid node.info in
    if not (is_xsigo_ca sysimgguid)
    then if is_xsigo_switch sysimgguid then bit_and sysimgguid 0xffffffff00ffffff else sysimgguid
    else if not node.has_port1
    then 0
    else peer_chassisguid sysimgguid node.peer

unfoldable pub get_chassisguid : GuidNode → ℕ
get_chassisguid node =
    let vendid = mad_get_field node.info 0 ib_node_vendorid_f in
    let sysimgguid = system_guid node.info in
    if vendid == ts_vendor_id || vendid == ss_vendor_id
    then topspin_chassisguid sysimgguid
    else if vendid == xs_vendor_id || ibnd_is_xsigo_guid sysimgguid
    then xsigo_chassisguid node
    else sysimgguid
