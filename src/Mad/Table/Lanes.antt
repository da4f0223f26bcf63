-- ===== src/Mad/Table/Lanes.antt =====
-- libibmad/src/fields.c, lines 655 to 755: flow control, waits and congestion by lane.
use infiniband_diags.Base.{List, [], ◌∷◌}
use infiniband_diags.Mad.Field.{IbField, bitsoffs, empty, raw, dump_uint}

unfoldable pub lane_fields : List IbField
lane_fields =
    bitsoffs 58 2 "PortVLXmitFlowCtlUpdateErrors13" dump_uint
    ∷ bitsoffs 60 2 "PortVLXmitFlowCtlUpdateErrors14" dump_uint
    ∷ bitsoffs 62 2 "PortVLXmitFlowCtlUpdateErrors15" dump_uint
    ∷ empty
    ∷ bitsoffs 32 16 "PortVLXmitWait0" dump_uint
    ∷ bitsoffs 48 16 "PortVLXmitWait1" dump_uint
    ∷ bitsoffs 64 16 "PortVLXmitWait2" dump_uint
    ∷ bitsoffs 80 16 "PortVLXmitWait3" dump_uint
    ∷ bitsoffs 96 16 "PortVLXmitWait4" dump_uint
    ∷ bitsoffs 112 16 "PortVLXmitWait5" dump_uint
    ∷ bitsoffs 128 16 "PortVLXmitWait6" dump_uint
    ∷ bitsoffs 144 16 "PortVLXmitWait7" dump_uint
    ∷ bitsoffs 160 16 "PortVLXmitWait8" dump_uint
    ∷ bitsoffs 176 16 "PortVLXmitWait9" dump_uint
    ∷ bitsoffs 192 16 "PortVLXmitWait10" dump_uint
    ∷ bitsoffs 208 16 "PortVLXmitWait11" dump_uint
    ∷ bitsoffs 224 16 "PortVLXmitWait12" dump_uint
    ∷ bitsoffs 240 16 "PortVLXmitWait13" dump_uint
    ∷ bitsoffs 256 16 "PortVLXmitWait14" dump_uint
    ∷ bitsoffs 272 16 "PortVLXmitWait15" dump_uint
    ∷ empty
    ∷ bitsoffs 32 16 "SWPortVLCongestion0" dump_uint
    ∷ bitsoffs 48 16 "SWPortVLCongestion1" dump_uint
    ∷ bitsoffs 64 16 "SWPortVLCongestion2" dump_uint
    ∷ bitsoffs 80 16 "SWPortVLCongestion3" dump_uint
    ∷ bitsoffs 96 16 "SWPortVLCongestion4" dump_uint
    ∷ bitsoffs 112 16 "SWPortVLCongestion5" dump_uint
    ∷ bitsoffs 128 16 "SWPortVLCongestion6" dump_uint
    ∷ bitsoffs 144 16 "SWPortVLCongestion7" dump_uint
    ∷ bitsoffs 160 16 "SWPortVLCongestion8" dump_uint
    ∷ bitsoffs 176 16 "SWPortVLCongestion9" dump_uint
    ∷ bitsoffs 192 16 "SWPortVLCongestion10" dump_uint
    ∷ bitsoffs 208 16 "SWPortVLCongestion11" dump_uint
    ∷ bitsoffs 224 16 "SWPortVLCongestion12" dump_uint
    ∷ bitsoffs 240 16 "SWPortVLCongestion13" dump_uint
    ∷ bitsoffs 256 16 "SWPortVLCongestion14" dump_uint
    ∷ bitsoffs 272 16 "SWPortVLCongestion15" dump_uint
    ∷ empty
    ∷ raw 32 32 "PortPktRcvFECN" dump_uint
    ∷ raw 64 32 "PortPktRcvBECN" dump_uint
    ∷ empty
    ∷ raw 32 32 "PortSLRcvFECN0" dump_uint
    ∷ raw 64 32 "PortSLRcvFECN1" dump_uint
    ∷ raw 96 32 "PortSLRcvFECN2" dump_uint
    ∷ raw 128 32 "PortSLRcvFECN3" dump_uint
    ∷ raw 160 32 "PortSLRcvFECN4" dump_uint
    ∷ raw 192 32 "PortSLRcvFECN5" dump_uint
    ∷ raw 224 32 "PortSLRcvFECN6" dump_uint
    ∷ raw 256 32 "PortSLRcvFECN7" dump_uint
    ∷ raw 288 32 "PortSLRcvFECN8" dump_uint
    ∷ raw 320 32 "PortSLRcvFECN9" dump_uint
    ∷ raw 352 32 "PortSLRcvFECN10" dump_uint
    ∷ raw 384 32 "PortSLRcvFECN11" dump_uint
    ∷ raw 416 32 "PortSLRcvFECN12" dump_uint
    ∷ raw 448 32 "PortSLRcvFECN13" dump_uint
    ∷ raw 480 32 "PortSLRcvFECN14" dump_uint
    ∷ raw 512 32 "PortSLRcvFECN15" dump_uint
    ∷ empty
    ∷ raw 32 32 "PortSLRcvBECN0" dump_uint
    ∷ raw 64 32 "PortSLRcvBECN1" dump_uint
    ∷ raw 96 32 "PortSLRcvBECN2" dump_uint
    ∷ raw 128 32 "PortSLRcvBECN3" dump_uint
    ∷ raw 160 32 "PortSLRcvBECN4" dump_uint
    ∷ raw 192 32 "PortSLRcvBECN5" dump_uint
    ∷ raw 224 32 "PortSLRcvBECN6" dump_uint
    ∷ raw 256 32 "PortSLRcvBECN7" dump_uint
    ∷ raw 288 32 "PortSLRcvBECN8" dump_uint
    ∷ raw 320 32 "PortSLRcvBECN9" dump_uint
    ∷ raw 352 32 "PortSLRcvBECN10" dump_uint
    ∷ raw 384 32 "PortSLRcvBECN11" dump_uint
    ∷ raw 416 32 "PortSLRcvBECN12" dump_uint
    ∷ raw 448 32 "PortSLRcvBECN13" dump_uint
    ∷ raw 480 32 "PortSLRcvBECN14" dump_uint
    ∷ raw 512 32 "PortSLRcvBECN15" dump_uint
    ∷ empty
    ∷ raw 32 32 "PortXmitTimeCong" dump_uint
    ∷ empty
    ∷ []
