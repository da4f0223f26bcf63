-- ===== src/Mad/Table/Node.antt =====
-- libibmad/src/fields.c, lines 126 to 212: PortInfo, NodeInfo and SwitchInfo.
use infiniband_diags.Base.{List, [], ◌∷◌}
use infiniband_diags.Mad.Field.{
  IbField, bitsoffs, empty, raw, dump_hex, dump_linkdowndefstate, dump_linkspeed, dump_linkspeeden,
  dump_linkspeedsup, dump_linkwidth, dump_linkwidthen, dump_linkwidthsup, dump_mtu, dump_node_type,
  dump_opervls, dump_physportstate, dump_portcapmask, dump_portstate, dump_uint, dump_vlcap,
}

unfoldable pub node_fields : List IbField
node_fields =
    raw 64 64 "GidPrefix" dump_hex
    ∷ bitsoffs 128 16 "Lid" dump_uint
    ∷ bitsoffs 144 16 "SMLid" dump_uint
    ∷ raw 160 32 "CapMask" dump_portcapmask
    ∷ bitsoffs 192 16 "DiagCode" dump_hex
    ∷ bitsoffs 208 16 "MkeyLeasePeriod" dump_uint
    ∷ bitsoffs 224 8 "LocalPort" dump_uint
    ∷ bitsoffs 232 8 "LinkWidthEnabled" dump_linkwidthen
    ∷ bitsoffs 240 8 "LinkWidthSupported" dump_linkwidthsup
    ∷ bitsoffs 248 8 "LinkWidthActive" dump_linkwidth
    ∷ bitsoffs 256 4 "LinkSpeedSupported" dump_linkspeedsup
    ∷ bitsoffs 260 4 "LinkState" dump_portstate
    ∷ bitsoffs 264 4 "PhysLinkState" dump_physportstate
    ∷ bitsoffs 268 4 "LinkDownDefState" dump_linkdowndefstate
    ∷ bitsoffs 272 2 "ProtectBits" dump_uint
    ∷ bitsoffs 277 3 "LMC" dump_uint
    ∷ bitsoffs 280 4 "LinkSpeedActive" dump_linkspeed
    ∷ bitsoffs 284 4 "LinkSpeedEnabled" dump_linkspeeden
    ∷ bitsoffs 288 4 "NeighborMTU" dump_mtu
    ∷ bitsoffs 292 4 "SMSL" dump_uint
    ∷ bitsoffs 296 4 "VLCap" dump_vlcap
    ∷ bitsoffs 300 4 "InitType" dump_hex
    ∷ bitsoffs 304 8 "VLHighLimit" dump_uint
    ∷ bitsoffs 312 8 "VLArbHighCap" dump_uint
    ∷ bitsoffs 320 8 "VLArbLowCap" dump_uint
    ∷ bitsoffs 328 4 "InitReply" dump_hex
    ∷ bitsoffs 332 4 "MtuCap" dump_mtu
    ∷ bitsoffs 336 3 "VLStallCount" dump_uint
    ∷ bitsoffs 339 5 "HoqLife" dump_uint
    ∷ bitsoffs 344 4 "OperVLs" dump_opervls
    ∷ bitsoffs 348 1 "PartEnforceInb" dump_uint
    ∷ bitsoffs 349 1 "PartEnforceOutb" dump_uint
    ∷ bitsoffs 350 1 "FilterRawInb" dump_uint
    ∷ bitsoffs 351 1 "FilterRawOutb" dump_uint
    ∷ bitsoffs 352 16 "MkeyViolations" dump_uint
    ∷ bitsoffs 368 16 "PkeyViolations" dump_uint
    ∷ bitsoffs 384 16 "QkeyViolations" dump_uint
    ∷ bitsoffs 400 8 "GuidCap" dump_uint
    ∷ bitsoffs 408 1 "ClientReregister" dump_uint
    ∷ bitsoffs 409 2 "McastPkeyTrapSuppressionEnabled" dump_uint
    ∷ bitsoffs 411 5 "SubnetTimeout" dump_uint
    ∷ bitsoffs 419 5 "RespTimeVal" dump_uint
    ∷ bitsoffs 424 4 "LocalPhysErr" dump_uint
    ∷ bitsoffs 428 4 "OverrunErr" dump_uint
    ∷ bitsoffs 432 16 "MaxCreditHint" dump_uint
    ∷ bitsoffs 456 24 "RoundTrip" dump_uint
    ∷ empty
    ∷ bitsoffs 0 8 "BaseVers" dump_uint
    ∷ bitsoffs 8 8 "ClassVers" dump_uint
    ∷ bitsoffs 16 8 "NodeType" dump_node_type
    ∷ bitsoffs 24 8 "NumPorts" dump_uint
    ∷ raw 32 64 "SystemGuid" dump_hex
    ∷ raw 96 64 "Guid" dump_hex
    ∷ raw 160 64 "PortGuid" dump_hex
    ∷ bitsoffs 224 16 "PartCap" dump_uint
    ∷ bitsoffs 240 16 "DevId" dump_hex
    ∷ raw 256 32 "Revision" dump_hex
    ∷ bitsoffs 288 8 "LocalPort" dump_uint
    ∷ bitsoffs 296 24 "VendorId" dump_hex
    ∷ empty
    ∷ bitsoffs 0 16 "LinearFdbCap" dump_uint
    ∷ bitsoffs 16 16 "RandomFdbCap" dump_uint
    ∷ bitsoffs 32 16 "McastFdbCap" dump_uint
    ∷ bitsoffs 48 16 "LinearFdbTop" dump_uint
    ∷ bitsoffs 64 8 "DefPort" dump_uint
    ∷ bitsoffs 72 8 "DefMcastPrimPort" dump_uint
    ∷ bitsoffs 80 8 "DefMcastNotPrimPort" dump_uint
    ∷ bitsoffs 88 5 "LifeTime" dump_uint
    ∷ bitsoffs 93 1 "StateChange" dump_uint
    ∷ bitsoffs 94 2 "OptSLtoVLMapping" dump_uint
    ∷ bitsoffs 96 16 "LidsPerPort" dump_uint
    ∷ bitsoffs 112 16 "PartEnforceCap" dump_uint
    ∷ bitsoffs 128 1 "InboundPartEnf" dump_uint
    ∷ bitsoffs 129 1 "OutboundPartEnf" dump_uint
    ∷ bitsoffs 130 1 "FilterRawInbound" dump_uint
    ∷ bitsoffs 131 1 "FilterRawOutbound" dump_uint
    ∷ bitsoffs 132 1 "EnhancedPort0" dump_uint
    ∷ bitsoffs 144 16 "MulticastFDBTop" dump_hex
    ∷ empty
    ∷ []
