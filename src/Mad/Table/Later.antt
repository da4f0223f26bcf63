-- ===== src/Mad/Table/Later.antt =====
-- libibmad/src/fields.c, lines 933 to 1019: sampling results, FEC and the fields added last.
use infiniband_diags.Base.{List, [], ◌∷◌}
use infiniband_diags.Mad.Field.{IbField, bitsoffs, empty, raw, dump_hex, dump_uint}

unfoldable pub later_fields : List IbField
later_fields =
    bitsoffs 0 16 "Tag" dump_hex
    ∷ bitsoffs 30 2 "SampleStatus" dump_hex
    ∷ raw 32 32 "Counter0" dump_uint
    ∷ raw 64 32 "Counter1" dump_uint
    ∷ raw 96 32 "Counter2" dump_uint
    ∷ raw 128 32 "Counter3" dump_uint
    ∷ raw 160 32 "Counter4" dump_uint
    ∷ raw 192 32 "Counter5" dump_uint
    ∷ raw 224 32 "Counter6" dump_uint
    ∷ raw 256 32 "Counter7" dump_uint
    ∷ raw 288 32 "Counter8" dump_uint
    ∷ raw 320 32 "Counter9" dump_uint
    ∷ raw 352 32 "Counter10" dump_uint
    ∷ raw 384 32 "Counter11" dump_uint
    ∷ raw 416 32 "Counter12" dump_uint
    ∷ raw 448 32 "Counter13" dump_uint
    ∷ raw 480 32 "Counter14" dump_uint
    ∷ empty
    ∷ raw 0 32 "CapMask" dump_hex
    ∷ bitsoffs 32 16 "FECModeActive" dump_uint
    ∷ bitsoffs 48 16 "FDRFECModeSupported" dump_hex
    ∷ bitsoffs 64 16 "FDRFECModeEnabled" dump_hex
    ∷ bitsoffs 80 16 "EDRFECModeSupported" dump_hex
    ∷ bitsoffs 96 16 "EDRFECModeEnabled" dump_hex
    ∷ empty
    ∷ bitsoffs 8 8 "PortSelect" dump_uint
    ∷ raw 64 64 "CounterSelect" dump_hex
    ∷ bitsoffs 128 16 "SyncHeaderErrorCounter" dump_uint
    ∷ bitsoffs 144 16 "UnknownBlockCounter" dump_uint
    ∷ raw 352 32 "FECCorrectableSymbolCtrLane0" dump_uint
    ∷ raw 384 32 "FECCorrectableSymbolCtrLane1" dump_uint
    ∷ raw 416 32 "FECCorrectableSymbolCtrLane2" dump_uint
    ∷ raw 448 32 "FECCorrectableSymbolCtrLane3" dump_uint
    ∷ raw 480 32 "FECCorrectableSymbolCtrLane4" dump_uint
    ∷ raw 512 32 "FECCorrectableSymbolCtrLane5" dump_uint
    ∷ raw 544 32 "FECCorrectableSymbolCtrLane6" dump_uint
    ∷ raw 576 32 "FECCorrectableSymbolCtrLane7" dump_uint
    ∷ raw 608 32 "FECCorrectableSymbolCtrLane8" dump_uint
    ∷ raw 640 32 "FECCorrectableSymbolCtrLane9" dump_uint
    ∷ raw 672 32 "FECCorrectableSymbolCtrLane10" dump_uint
    ∷ raw 704 32 "FECCorrectableSymbolCtrLane11" dump_uint
    ∷ raw 1120 32 "PortFECCorrectableBlockCtr" dump_uint
    ∷ raw 1152 32 "PortFECUncorrectableBlockCtr" dump_uint
    ∷ raw 1184 32 "PortFECCorrectedSymbolCtr" dump_uint
    ∷ empty
    ∷ raw 32 32 "CounterSelect2" dump_hex
    ∷ raw 576 64 "SymbolErrorCounter" dump_uint
    ∷ raw 640 64 "LinkErrorRecoveryCounter" dump_uint
    ∷ raw 704 64 "LinkDownedCounter" dump_uint
    ∷ raw 768 64 "PortRcvErrors" dump_uint
    ∷ raw 832 64 "PortRcvRemotePhysicalErrors" dump_uint
    ∷ raw 896 64 "PortRcvSwitchRelayErrors" dump_uint
    ∷ raw 960 64 "PortXmitDiscards" dump_uint
    ∷ raw 1024 64 "PortXmitConstraintErrors" dump_uint
    ∷ raw 1088 64 "PortRcvConstraintErrors" dump_uint
    ∷ raw 1152 64 "LocalLinkIntegrityErrors" dump_uint
    ∷ raw 1216 64 "ExcessiveBufferOverrunErrors" dump_uint
    ∷ raw 1280 64 "VL15Dropped" dump_uint
    ∷ raw 1344 64 "PortXmitWait" dump_uint
    ∷ raw 1408 64 "QP1Dropped" dump_uint
    ∷ empty
    ∷ raw 160 16 "QP1Dropped" dump_uint
    ∷ raw 112 16 "HDRFECModeSupported" dump_hex
    ∷ raw 128 16 "HDRFECModeEnabled" dump_hex
    ∷ empty
    ∷ empty
    ∷ []
