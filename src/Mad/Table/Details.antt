-- ===== src/Mad/Table/Details.antt =====
-- libibmad/src/fields.c, lines 413 to 527: counters by service level, error details, sampling and GUIDs.
use infiniband_diags.Base.{List, [], ◌∷◌}
use infiniband_diags.Mad.Field.{IbField, bitsoffs, empty, raw, dump_hex, dump_uint}

unfoldable pub detail_fields : List IbField
detail_fields =
    raw 32 32 "XmtDataSL0" dump_uint
    ∷ raw 64 32 "XmtDataSL1" dump_uint
    ∷ raw 96 32 "XmtDataSL2" dump_uint
    ∷ raw 128 32 "XmtDataSL3" dump_uint
    ∷ raw 160 32 "XmtDataSL4" dump_uint
    ∷ raw 192 32 "XmtDataSL5" dump_uint
    ∷ raw 224 32 "XmtDataSL6" dump_uint
    ∷ raw 256 32 "XmtDataSL7" dump_uint
    ∷ raw 288 32 "XmtDataSL8" dump_uint
    ∷ raw 320 32 "XmtDataSL9" dump_uint
    ∷ raw 352 32 "XmtDataSL10" dump_uint
    ∷ raw 384 32 "XmtDataSL11" dump_uint
    ∷ raw 416 32 "XmtDataSL12" dump_uint
    ∷ raw 448 32 "XmtDataSL13" dump_uint
    ∷ raw 480 32 "XmtDataSL14" dump_uint
    ∷ raw 512 32 "XmtDataSL15" dump_uint
    ∷ empty
    ∷ raw 32 32 "RcvDataSL0" dump_uint
    ∷ raw 64 32 "RcvDataSL1" dump_uint
    ∷ raw 96 32 "RcvDataSL2" dump_uint
    ∷ raw 128 32 "RcvDataSL3" dump_uint
    ∷ raw 160 32 "RcvDataSL4" dump_uint
    ∷ raw 192 32 "RcvDataSL5" dump_uint
    ∷ raw 224 32 "RcvDataSL6" dump_uint
    ∷ raw 256 32 "RcvDataSL7" dump_uint
    ∷ raw 288 32 "RcvDataSL8" dump_uint
    ∷ raw 320 32 "RcvDataSL9" dump_uint
    ∷ raw 352 32 "RcvDataSL10" dump_uint
    ∷ raw 384 32 "RcvDataSL11" dump_uint
    ∷ raw 416 32 "RcvDataSL12" dump_uint
    ∷ raw 448 32 "RcvDataSL13" dump_uint
    ∷ raw 480 32 "RcvDataSL14" dump_uint
    ∷ raw 512 32 "RcvDataSL15" dump_uint
    ∷ empty
    ∷ bitsoffs 32 16 "PortInactiveDiscards" dump_uint
    ∷ bitsoffs 48 16 "PortNeighborMTUDiscards" dump_uint
    ∷ bitsoffs 64 16 "PortSwLifetimeLimitDiscards" dump_uint
    ∷ bitsoffs 80 16 "PortSwHOQLifetimeLimitDiscards" dump_uint
    ∷ empty
    ∷ bitsoffs 32 16 "PortLocalPhysicalErrors" dump_uint
    ∷ bitsoffs 48 16 "PortMalformedPktErrors" dump_uint
    ∷ bitsoffs 64 16 "PortBufferOverrunErrors" dump_uint
    ∷ bitsoffs 80 16 "PortDLIDMappingErrors" dump_uint
    ∷ bitsoffs 96 16 "PortVLMappingErrors" dump_uint
    ∷ bitsoffs 112 16 "PortLoopingErrors" dump_uint
    ∷ empty
    ∷ bitsoffs 0 8 "OpCode" dump_hex
    ∷ bitsoffs 8 8 "PortSelect" dump_uint
    ∷ bitsoffs 16 8 "Tick" dump_hex
    ∷ bitsoffs 29 3 "CounterWidth" dump_uint
    ∷ bitsoffs 34 3 "CounterMask0" dump_hex
    ∷ bitsoffs 37 27 "CounterMasks1to9" dump_hex
    ∷ bitsoffs 65 15 "CounterMasks10to14" dump_hex
    ∷ bitsoffs 80 8 "SampleMechanisms" dump_uint
    ∷ bitsoffs 94 2 "SampleStatus" dump_uint
    ∷ raw 96 64 "OptionMask" dump_hex
    ∷ raw 160 64 "VendorMask" dump_hex
    ∷ raw 224 32 "SampleStart" dump_uint
    ∷ raw 256 32 "SampleInterval" dump_uint
    ∷ bitsoffs 288 16 "Tag" dump_hex
    ∷ bitsoffs 304 16 "CounterSelect0" dump_hex
    ∷ bitsoffs 320 16 "CounterSelect1" dump_hex
    ∷ bitsoffs 336 16 "CounterSelect2" dump_hex
    ∷ bitsoffs 352 16 "CounterSelect3" dump_hex
    ∷ bitsoffs 368 16 "CounterSelect4" dump_hex
    ∷ bitsoffs 384 16 "CounterSelect5" dump_hex
    ∷ bitsoffs 400 16 "CounterSelect6" dump_hex
    ∷ bitsoffs 416 16 "CounterSelect7" dump_hex
    ∷ bitsoffs 432 16 "CounterSelect8" dump_hex
    ∷ bitsoffs 448 16 "CounterSelect9" dump_hex
    ∷ bitsoffs 464 16 "CounterSelect10" dump_hex
    ∷ bitsoffs 480 16 "CounterSelect11" dump_hex
    ∷ bitsoffs 496 16 "CounterSelect12" dump_hex
    ∷ bitsoffs 512 16 "CounterSelect13" dump_hex
    ∷ bitsoffs 528 16 "CounterSelect14" dump_hex
    ∷ raw 576 64 "SamplesOnlyOptionMask" dump_hex
    ∷ empty
    ∷ raw 0 64 "GUID0" dump_hex
    ∷ raw 64 64 "GUID1" dump_hex
    ∷ raw 128 64 "GUID2" dump_hex
    ∷ raw 192 64 "GUID3" dump_hex
    ∷ raw 256 64 "GUID4" dump_hex
    ∷ raw 320 64 "GUID5" dump_hex
    ∷ raw 384 64 "GUID6" dump_hex
    ∷ raw 448 64 "GUID7" dump_hex
    ∷ bitsoffs 0 16 "Lid" dump_uint
    ∷ bitsoffs 16 8 "BlockNum" dump_uint
    ∷ raw 64 64 "Guid0" dump_hex
    ∷ raw 128 64 "Guid1" dump_hex
    ∷ raw 192 64 "Guid2" dump_hex
    ∷ raw 256 64 "Guid3" dump_hex
    ∷ raw 320 64 "Guid4" dump_hex
    ∷ raw 384 64 "Guid5" dump_hex
    ∷ raw 448 64 "Guid6" dump_hex
    ∷ raw 512 64 "Guid7" dump_hex
    ∷ []
