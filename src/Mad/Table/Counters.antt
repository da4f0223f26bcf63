-- ===== src/Mad/Table/Counters.antt =====
-- libibmad/src/fields.c, lines 217 to 293: forwarding tables, notices, port counters, SMInfo and RMPP.
use infiniband_diags.Base.{List, [], ◌∷◌}
use infiniband_diags.Mad.Field.{
  IbField, be_offs, bitsoffs, empty, raw, dump_array, dump_hex, dump_node_type, dump_string,
  dump_uint,
}

unfoldable pub counter_fields : List IbField
counter_fields =
    raw 0 512 "LinearForwTbl" dump_array
    ∷ raw 0 512 "MulticastForwTbl" dump_array
    ∷ raw 0 512 "NodeDesc" dump_string
    ∷ bitsoffs 0 1 "NoticeIsGeneric" dump_uint
    ∷ bitsoffs 1 7 "NoticeType" dump_uint
    ∷ bitsoffs 8 24 "NoticeProducerType" dump_node_type
    ∷ bitsoffs 32 16 "NoticeTrapNumber" dump_uint
    ∷ bitsoffs 48 16 "NoticeIssuerLID" dump_uint
    ∷ bitsoffs 64 1 "NoticeToggle" dump_uint
    ∷ bitsoffs 65 15 "NoticeCount" dump_uint
    ∷ raw 80 432 "NoticeDataDetails" dump_array
    ∷ bitsoffs 80 16 "NoticeDataLID" dump_uint
    ∷ bitsoffs 96 16 "NoticeDataTrap144LID" dump_uint
    ∷ bitsoffs 128 32 "NoticeDataTrap144CapMask" dump_uint
    ∷ bitsoffs 8 8 "PortSelect" dump_uint
    ∷ bitsoffs 16 16 "CounterSelect" dump_hex
    ∷ bitsoffs 32 16 "SymbolErrorCounter" dump_uint
    ∷ bitsoffs 48 8 "LinkErrorRecoveryCounter" dump_uint
    ∷ bitsoffs 56 8 "LinkDownedCounter" dump_uint
    ∷ bitsoffs 64 16 "PortRcvErrors" dump_uint
    ∷ bitsoffs 80 16 "PortRcvRemotePhysicalErrors" dump_uint
    ∷ bitsoffs 96 16 "PortRcvSwitchRelayErrors" dump_uint
    ∷ bitsoffs 112 16 "PortXmitDiscards" dump_uint
    ∷ bitsoffs 128 8 "PortXmitConstraintErrors" dump_uint
    ∷ bitsoffs 136 8 "PortRcvConstraintErrors" dump_uint
    ∷ bitsoffs 144 8 "CounterSelect2" dump_hex
    ∷ bitsoffs 152 4 "LocalLinkIntegrityErrors" dump_uint
    ∷ bitsoffs 156 4 "ExcessiveBufferOverrunErrors" dump_uint
    ∷ bitsoffs 176 16 "VL15Dropped" dump_uint
    ∷ raw 192 32 "PortXmitData" dump_uint
    ∷ raw 224 32 "PortRcvData" dump_uint
    ∷ raw 256 32 "PortXmitPkts" dump_uint
    ∷ raw 288 32 "PortRcvPkts" dump_uint
    ∷ raw 320 32 "PortXmitWait" dump_uint
    ∷ empty
    ∷ raw 0 64 "SmInfoGuid" dump_hex
    ∷ raw 64 64 "SmInfoKey" dump_hex
    ∷ raw 128 32 "SmActivity" dump_uint
    ∷ bitsoffs 160 4 "SmPriority" dump_uint
    ∷ bitsoffs 164 4 "SmState" dump_uint
    ∷ be_offs 216 8 "RmppVers" dump_uint
    ∷ be_offs 208 8 "RmppType" dump_uint
    ∷ be_offs 203 5 "RmppResp" dump_uint
    ∷ be_offs 200 3 "RmppFlags" dump_hex
    ∷ be_offs 192 8 "RmppStatus" dump_hex
    ∷ raw 224 32 "RmppData1" dump_hex
    ∷ raw 224 32 "RmppSegNum" dump_uint
    ∷ raw 256 32 "RmppData2" dump_hex
    ∷ raw 256 32 "RmppPayload" dump_uint
    ∷ raw 256 32 "RmppNewWin" dump_uint
    ∷ []
