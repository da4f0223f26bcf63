-- ===== src/Mad/Table/Records.antt =====
-- libibmad/src/fields.c, lines 298 to 408: SA records, vendor data, extended counters and ClassPortInfo.
use infiniband_diags.Base.{List, [], ◌∷◌}
use infiniband_diags.Mad.Field.{
  IbField, be_offs, bitsoffs, empty, raw, dump_array, dump_hex, dump_string, dump_uint,
}

unfoldable pub record_fields : List IbField
record_fields =
    bitsoffs 41 7 "MultiPathNumPath" dump_uint
    ∷ bitsoffs 120 8 "MultiPathNumSrc" dump_uint
    ∷ bitsoffs 128 8 "MultiPathNumDest" dump_uint
    ∷ raw 192 128 "MultiPathGid" dump_array
    ∷ raw 64 128 "PathRecDGid" dump_array
    ∷ raw 192 128 "PathRecSGid" dump_array
    ∷ bitsoffs 320 16 "PathRecDLid" dump_uint
    ∷ bitsoffs 336 16 "PathRecSLid" dump_uint
    ∷ bitsoffs 393 7 "PathRecNumPath" dump_uint
    ∷ bitsoffs 428 4 "PathRecSL" dump_uint
    ∷ raw 0 128 "McastMemMGid" dump_array
    ∷ raw 128 128 "McastMemPortGid" dump_array
    ∷ raw 256 32 "McastMemQkey" dump_hex
    ∷ bitsoffs 288 16 "McastMemMLid" dump_hex
    ∷ bitsoffs 352 4 "McastMemSL" dump_uint
    ∷ bitsoffs 306 6 "McastMemMTU" dump_uint
    ∷ bitsoffs 338 6 "McastMemRate" dump_uint
    ∷ bitsoffs 312 8 "McastMemTClass" dump_uint
    ∷ bitsoffs 320 16 "McastMemPkey" dump_uint
    ∷ bitsoffs 356 20 "McastMemFlowLbl" dump_uint
    ∷ bitsoffs 388 4 "McastMemJoinState" dump_uint
    ∷ bitsoffs 392 1 "McastMemProxyJoin" dump_uint
    ∷ raw 0 64 "ServRecID" dump_hex
    ∷ raw 64 128 "ServRecGid" dump_array
    ∷ bitsoffs 192 16 "ServRecPkey" dump_hex
    ∷ raw 224 32 "ServRecLease" dump_hex
    ∷ raw 256 128 "ServRecKey" dump_hex
    ∷ raw 384 512 "ServRecName" dump_string
    ∷ raw 896 512 "ServRecData" dump_array
    ∷ raw 96 32 "ATSNodeAddr" dump_hex
    ∷ bitsoffs 128 16 "ATSMagicKey" dump_hex
    ∷ bitsoffs 144 16 "ATSNodeType" dump_hex
    ∷ raw 256 256 "ATSNodeName" dump_string
    ∷ raw 0 64 "SLToVLMap" dump_hex
    ∷ raw 0 512 "VLArbTbl" dump_array
    ∷ be_offs 288 24 "OUI" dump_array
    ∷ raw 320 1728 "Vendor2Data" dump_array
    ∷ bitsoffs 8 8 "PortSelect" dump_uint
    ∷ bitsoffs 16 16 "CounterSelect" dump_hex
    ∷ raw 64 64 "PortXmitData" dump_uint
    ∷ raw 128 64 "PortRcvData" dump_uint
    ∷ raw 192 64 "PortXmitPkts" dump_uint
    ∷ raw 256 64 "PortRcvPkts" dump_uint
    ∷ raw 320 64 "PortUnicastXmitPkts" dump_uint
    ∷ raw 384 64 "PortUnicastRcvPkts" dump_uint
    ∷ raw 448 64 "PortMulticastXmitPkts" dump_uint
    ∷ raw 512 64 "PortMulticastRcvPkts" dump_uint
    ∷ empty
    ∷ raw 0 64 "GUID0" dump_hex
    ∷ bitsoffs 0 8 "BaseVersion" dump_uint
    ∷ bitsoffs 8 8 "ClassVersion" dump_uint
    ∷ bitsoffs 16 16 "CapabilityMask" dump_hex
    ∷ bitsoffs 32 27 "CapabilityMask2" dump_hex
    ∷ bitsoffs 59 5 "RespTimeVal" dump_uint
    ∷ raw 64 128 "RedirectGID" dump_array
    ∷ bitsoffs 192 8 "RedirectTC" dump_hex
    ∷ bitsoffs 200 4 "RedirectSL" dump_uint
    ∷ bitsoffs 204 20 "RedirectFL" dump_hex
    ∷ bitsoffs 224 16 "RedirectLID" dump_uint
    ∷ bitsoffs 240 16 "RedirectPKey" dump_hex
    ∷ bitsoffs 264 24 "RedirectQP" dump_hex
    ∷ raw 288 32 "RedirectQKey" dump_hex
    ∷ raw 320 128 "TrapGID" dump_array
    ∷ bitsoffs 448 8 "TrapTC" dump_hex
    ∷ bitsoffs 456 4 "TrapSL" dump_uint
    ∷ bitsoffs 460 20 "TrapFL" dump_hex
    ∷ bitsoffs 480 16 "TrapLID" dump_uint
    ∷ bitsoffs 496 16 "TrapPKey" dump_hex
    ∷ bitsoffs 512 8 "TrapHL" dump_uint
    ∷ bitsoffs 520 24 "TrapQP" dump_hex
    ∷ raw 544 32 "TrapQKey" dump_hex
    ∷ []
