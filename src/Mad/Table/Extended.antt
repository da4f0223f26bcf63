-- ===== src/Mad/Table/Extended.antt =====
-- libibmad/src/fields.c, lines 532 to 654: link speeds, extended speed counters and counters by virtual lane.
use infiniband_diags.Base.{List, [], ◌∷◌}
use infiniband_diags.Mad.Field.{
  IbField, bitsoffs, empty, raw, dump_hex, dump_linkspeedext, dump_linkspeedexten,
  dump_linkspeedextsup, dump_portcapmask2, dump_uint,
}

unfoldable pub extended_fields : List IbField
extended_fields =
    bitsoffs 480 16 "CapabilityMask2" dump_portcapmask2
    ∷ bitsoffs 496 4 "LinkSpeedExtActive" dump_linkspeedext
    ∷ bitsoffs 500 4 "LinkSpeedExtSupported" dump_linkspeedextsup
    ∷ bitsoffs 507 5 "LinkSpeedExtEnabled" dump_linkspeedexten
    ∷ empty
    ∷ bitsoffs 8 8 "PortSelect" dump_uint
    ∷ raw 64 64 "CounterSelect" dump_hex
    ∷ bitsoffs 128 16 "SyncHeaderErrorCounter" dump_uint
    ∷ bitsoffs 144 16 "UnknownBlockCounter" dump_uint
    ∷ bitsoffs 160 16 "ErrorDetectionCounterLane0" dump_uint
    ∷ bitsoffs 176 16 "ErrorDetectionCounterLane1" dump_uint
    ∷ bitsoffs 192 16 "ErrorDetectionCounterLane2" dump_uint
    ∷ bitsoffs 208 16 "ErrorDetectionCounterLane3" dump_uint
    ∷ bitsoffs 224 16 "ErrorDetectionCounterLane4" dump_uint
    ∷ bitsoffs 240 16 "ErrorDetectionCounterLane5" dump_uint
    ∷ bitsoffs 256 16 "ErrorDetectionCounterLane6" dump_uint
    ∷ bitsoffs 272 16 "ErrorDetectionCounterLane7" dump_uint
    ∷ bitsoffs 288 16 "ErrorDetectionCounterLane8" dump_uint
    ∷ bitsoffs 304 16 "ErrorDetectionCounterLane9" dump_uint
    ∷ bitsoffs 320 16 "ErrorDetectionCounterLane10" dump_uint
    ∷ bitsoffs 336 16 "ErrorDetectionCounterLane11" dump_uint
    ∷ raw 352 32 "FECCorrectableBlockCtrLane0" dump_uint
    ∷ raw 384 32 "FECCorrectableBlockCtrLane1" dump_uint
    ∷ raw 416 32 "FECCorrectableBlockCtrLane2" dump_uint
    ∷ raw 448 32 "FECCorrectableBlockCtrLane3" dump_uint
    ∷ raw 480 32 "FECCorrectableBlockCtrLane4" dump_uint
    ∷ raw 512 32 "FECCorrectableBlockCtrLane5" dump_uint
    ∷ raw 544 32 "FECCorrectableBlockCtrLane6" dump_uint
    ∷ raw 576 32 "FECCorrectableBlockCtrLane7" dump_uint
    ∷ raw 608 32 "FECCorrectableBlockCtrLane8" dump_uint
    ∷ raw 640 32 "FECCorrectableBlockCtrLane9" dump_uint
    ∷ raw 672 32 "FECCorrectableBlockCtrLane10" dump_uint
    ∷ raw 704 32 "FECCorrectableBlockCtrLane11" dump_uint
    ∷ raw 736 32 "FECUncorrectableBlockCtrLane0" dump_uint
    ∷ raw 768 32 "FECUncorrectableBlockCtrLane1" dump_uint
    ∷ raw 800 32 "FECUncorrectableBlockCtrLane2" dump_uint
    ∷ raw 832 32 "FECUncorrectableBlockCtrLane3" dump_uint
    ∷ raw 864 32 "FECUncorrectableBlockCtrLane4" dump_uint
    ∷ raw 896 32 "FECUncorrectableBlockCtrLane5" dump_uint
    ∷ raw 928 32 "FECUncorrectableBlockCtrLane6" dump_uint
    ∷ raw 960 32 "FECUncorrectableBlockCtrLane7" dump_uint
    ∷ raw 992 32 "FECUncorrectableBlockCtrLane8" dump_uint
    ∷ raw 1024 32 "FECUncorrectableBlockCtrLane9" dump_uint
    ∷ raw 1056 32 "FECUncorrectableBlockCtrLane10" dump_uint
    ∷ raw 1088 32 "FECUncorrectableBlockCtrLane11" dump_uint
    ∷ empty
    ∷ raw 32 32 "PortOpRcvPkts" dump_uint
    ∷ raw 64 32 "PortOpRcvData" dump_uint
    ∷ empty
    ∷ raw 32 32 "PortXmitFlowPkts" dump_uint
    ∷ raw 64 32 "PortRcvFlowPkts" dump_uint
    ∷ empty
    ∷ bitsoffs 32 16 "PortVLOpPackets0" dump_uint
    ∷ bitsoffs 48 16 "PortVLOpPackets1" dump_uint
    ∷ bitsoffs 64 16 "PortVLOpPackets2" dump_uint
    ∷ bitsoffs 80 16 "PortVLOpPackets3" dump_uint
    ∷ bitsoffs 96 16 "PortVLOpPackets4" dump_uint
    ∷ bitsoffs 112 16 "PortVLOpPackets5" dump_uint
    ∷ bitsoffs 128 16 "PortVLOpPackets6" dump_uint
    ∷ bitsoffs 144 16 "PortVLOpPackets7" dump_uint
    ∷ bitsoffs 160 16 "PortVLOpPackets8" dump_uint
    ∷ bitsoffs 176 16 "PortVLOpPackets9" dump_uint
    ∷ bitsoffs 192 16 "PortVLOpPackets10" dump_uint
    ∷ bitsoffs 208 16 "PortVLOpPackets11" dump_uint
    ∷ bitsoffs 224 16 "PortVLOpPackets12" dump_uint
    ∷ bitsoffs 240 16 "PortVLOpPackets13" dump_uint
    ∷ bitsoffs 256 16 "PortVLOpPackets14" dump_uint
    ∷ bitsoffs 272 16 "PortVLOpPackets15" dump_uint
    ∷ empty
    ∷ raw 32 32 "PortVLOpData0" dump_uint
    ∷ raw 64 32 "PortVLOpData1" dump_uint
    ∷ raw 96 32 "PortVLOpData2" dump_uint
    ∷ raw 128 32 "PortVLOpData3" dump_uint
    ∷ raw 160 32 "PortVLOpData4" dump_uint
    ∷ raw 192 32 "PortVLOpData5" dump_uint
    ∷ raw 224 32 "PortVLOpData6" dump_uint
    ∷ raw 256 32 "PortVLOpData7" dump_uint
    ∷ raw 288 32 "PortVLOpData8" dump_uint
    ∷ raw 320 32 "PortVLOpData9" dump_uint
    ∷ raw 352 32 "PortVLOpData10" dump_uint
    ∷ raw 384 32 "PortVLOpData11" dump_uint
    ∷ raw 416 32 "PortVLOpData12" dump_uint
    ∷ raw 448 32 "PortVLOpData13" dump_uint
    ∷ raw 480 32 "PortVLOpData14" dump_uint
    ∷ raw 512 32 "PortVLOpData15" dump_uint
    ∷ empty
    ∷ bitsoffs 32 2 "PortVLXmitFlowCtlUpdateErrors0" dump_uint
    ∷ bitsoffs 34 2 "PortVLXmitFlowCtlUpdateErrors1" dump_uint
    ∷ bitsoffs 36 2 "PortVLXmitFlowCtlUpdateErrors2" dump_uint
    ∷ bitsoffs 38 2 "PortVLXmitFlowCtlUpdateErrors3" dump_uint
    ∷ bitsoffs 40 2 "PortVLXmitFlowCtlUpdateErrors4" dump_uint
    ∷ bitsoffs 42 2 "PortVLXmitFlowCtlUpdateErrors5" dump_uint
    ∷ bitsoffs 44 2 "PortVLXmitFlowCtlUpdateErrors6" dump_uint
    ∷ bitsoffs 46 2 "PortVLXmitFlowCtlUpdateErrors7" dump_uint
    ∷ bitsoffs 48 2 "PortVLXmitFlowCtlUpdateErrors8" dump_uint
    ∷ bitsoffs 50 2 "PortVLXmitFlowCtlUpdateErrors9" dump_uint
    ∷ bitsoffs 52 2 "PortVLXmitFlowCtlUpdateErrors10" dump_uint
    ∷ bitsoffs 54 2 "PortVLXmitFlowCtlUpdateErrors11" dump_uint
    ∷ bitsoffs 56 2 "PortVLXmitFlowCtlUpdateErrors12" dump_uint
    ∷ []
