-- ===== src/Mad/Table/Congestion.antt =====
-- libibmad/src/fields.c, lines 760 to 928: congestion control, and the node record.
use infiniband_diags.Base.{List, [], ◌∷◌}
use infiniband_diags.Mad.Field.{
  IbField, bitsoffs, empty, raw, dump_array, dump_hex, dump_node_type, dump_string, dump_uint,
}

unfoldable pub congestion_fields : List IbField
congestion_fields =
    raw 32 32 "PortVLXmitTimeCong0" dump_uint
    ∷ raw 64 32 "PortVLXmitTimeCong1" dump_uint
    ∷ raw 96 32 "PortVLXmitTimeCong2" dump_uint
    ∷ raw 128 32 "PortVLXmitTimeCong3" dump_uint
    ∷ raw 160 32 "PortVLXmitTimeCong4" dump_uint
    ∷ raw 192 32 "PortVLXmitTimeCong5" dump_uint
    ∷ raw 224 32 "PortVLXmitTimeCong6" dump_uint
    ∷ raw 256 32 "PortVLXmitTimeCong7" dump_uint
    ∷ raw 288 32 "PortVLXmitTimeCong8" dump_uint
    ∷ raw 320 32 "PortVLXmitTimeCong9" dump_uint
    ∷ raw 352 32 "PortVLXmitTimeCong10" dump_uint
    ∷ raw 384 32 "PortVLXmitTimeCong11" dump_uint
    ∷ raw 416 32 "PortVLXmitTimeCong12" dump_uint
    ∷ raw 448 32 "PortVLXmitTimeCong13" dump_uint
    ∷ raw 480 32 "PortVLXmitTimeCong14" dump_uint
    ∷ empty
    ∷ bitsoffs 24 8 "StateChangeEnable" dump_hex
    ∷ bitsoffs 56 8 "LinkSpeedSupported" dump_hex
    ∷ bitsoffs 88 8 "LinkSpeedEnabled" dump_hex
    ∷ bitsoffs 120 8 "LinkSpeedActive" dump_hex
    ∷ empty
    ∷ raw 192 64 "CC_Key" dump_hex
    ∷ bitsoffs 0 16 "CongestionInfo" dump_hex
    ∷ bitsoffs 16 8 "ControlTableCap" dump_uint
    ∷ empty
    ∷ raw 0 64 "CC_Key" dump_hex
    ∷ bitsoffs 64 1 "CC_KeyProtectBit" dump_uint
    ∷ bitsoffs 80 16 "CC_KeyLeasePeriod" dump_uint
    ∷ bitsoffs 96 16 "CC_KeyViolations" dump_uint
    ∷ empty
    ∷ bitsoffs 0 8 "LogType" dump_uint
    ∷ bitsoffs 8 8 "CongestionFlags" dump_hex
    ∷ empty
    ∷ bitsoffs 16 16 "LogEventsCounter" dump_uint
    ∷ raw 32 32 "CurrentTimeStamp" dump_uint
    ∷ raw 64 256 "PortMap" dump_array
    ∷ empty
    ∷ bitsoffs 0 16 "SLID" dump_uint
    ∷ bitsoffs 16 16 "DLID" dump_uint
    ∷ bitsoffs 32 4 "SL" dump_uint
    ∷ raw 64 32 "Timestamp" dump_uint
    ∷ empty
    ∷ bitsoffs 16 16 "ThresholdEventCounter" dump_uint
    ∷ bitsoffs 32 16 "ThresholdCongestionEventMap" dump_hex
    ∷ bitsoffs 64 32 "CurrentTimeStamp" dump_uint
    ∷ empty
    ∷ bitsoffs 0 24 "Local_QP_CN_Entry" dump_uint
    ∷ bitsoffs 24 4 "SL_CN_Entry" dump_uint
    ∷ bitsoffs 28 4 "Service_Type_CN_Entry" dump_hex
    ∷ bitsoffs 32 24 "Remote_QP_Number_CN_Entry" dump_uint
    ∷ bitsoffs 64 16 "Local_LID_CN" dump_uint
    ∷ bitsoffs 80 16 "Remote_LID_CN_Entry" dump_uint
    ∷ bitsoffs 96 32 "Timestamp_CN_Entry" dump_uint
    ∷ empty
    ∷ raw 0 32 "Control_Map" dump_hex
    ∷ raw 32 256 "Victim_Mask" dump_array
    ∷ raw 288 256 "Credit_Mask" dump_array
    ∷ bitsoffs 544 4 "Threshold" dump_hex
    ∷ bitsoffs 552 8 "Packet_Size" dump_uint
    ∷ bitsoffs 560 4 "CS_Threshold" dump_hex
    ∷ bitsoffs 576 16 "CS_ReturnDelay" dump_hex
    ∷ bitsoffs 592 16 "Marking_Rate" dump_uint
    ∷ empty
    ∷ bitsoffs 0 1 "Valid" dump_uint
    ∷ bitsoffs 1 1 "Control_Type" dump_uint
    ∷ bitsoffs 4 4 "Threshold" dump_hex
    ∷ bitsoffs 8 8 "Packet_Size" dump_uint
    ∷ bitsoffs 16 16 "Cong_Parm_Marking_Rate" dump_uint
    ∷ empty
    ∷ bitsoffs 0 16 "Port_Control" dump_hex
    ∷ bitsoffs 16 16 "Control_Map" dump_hex
    ∷ empty
    ∷ bitsoffs 0 16 "CCTI_Timer" dump_uint
    ∷ bitsoffs 16 8 "CCTI_Increase" dump_uint
    ∷ bitsoffs 24 8 "Trigger_Threshold" dump_uint
    ∷ bitsoffs 32 8 "CCTI_Min" dump_uint
    ∷ empty
    ∷ bitsoffs 0 16 "CCTI_Limit" dump_uint
    ∷ empty
    ∷ bitsoffs 0 2 "CCT_Shift" dump_uint
    ∷ bitsoffs 2 14 "CCT_Multiplier" dump_uint
    ∷ empty
    ∷ raw 0 32 "Timestamp" dump_uint
    ∷ empty
    ∷ bitsoffs 0 16 "Lid" dump_uint
    ∷ bitsoffs 32 8 "BaseVers" dump_uint
    ∷ bitsoffs 40 8 "ClassVers" dump_uint
    ∷ bitsoffs 48 8 "NodeType" dump_node_type
    ∷ bitsoffs 56 8 "NumPorts" dump_uint
    ∷ raw 64 64 "SystemGuid" dump_hex
    ∷ raw 128 64 "Guid" dump_hex
    ∷ raw 192 64 "PortGuid" dump_hex
    ∷ bitsoffs 256 16 "PartCap" dump_uint
    ∷ bitsoffs 272 16 "DevId" dump_hex
    ∷ raw 288 32 "Revision" dump_hex
    ∷ bitsoffs 320 8 "LocalPort" dump_uint
    ∷ bitsoffs 328 24 "VendorId" dump_hex
    ∷ raw 352 512 "NodeDesc" dump_string
    ∷ empty
    ∷ []
