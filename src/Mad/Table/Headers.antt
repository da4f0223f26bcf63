-- ===== src/Mad/Table/Headers.antt =====
-- libibmad/src/fields.c, lines 58 to 125: the headers of management datagrams.
use infiniband_diags.Base.{List, [], ◌∷◌}
use infiniband_diags.Mad.Field.{IbField, be_offs, empty, raw, dump_hex, dump_rhex, dump_uint}

unfoldable pub header_fields : List IbField
header_fields =
    empty
    ∷ raw 0 64 "GidPrefix" dump_rhex
    ∷ raw 64 64 "GidGuid" dump_rhex
    ∷ be_offs 0 7 "MadMethod" dump_hex
    ∷ be_offs 7 1 "MadIsResponse" dump_uint
    ∷ be_offs 8 8 "MadClassVersion" dump_uint
    ∷ be_offs 16 8 "MadMgmtClass" dump_uint
    ∷ be_offs 24 8 "MadBaseVersion" dump_uint
    ∷ be_offs 48 16 "MadStatus" dump_hex
    ∷ be_offs 32 8 "DrSmpHopCnt" dump_uint
    ∷ be_offs 40 8 "DrSmpHopPtr" dump_uint
    ∷ be_offs 48 15 "DrSmpStatus" dump_hex
    ∷ be_offs 63 1 "DrSmpDirection" dump_uint
    ∷ raw 64 64 "MadTRID" dump_hex
    ∷ be_offs 144 16 "MadAttr" dump_hex
    ∷ raw 160 32 "MadModifier" dump_hex
    ∷ raw 192 64 "MadMkey" dump_hex
    ∷ be_offs 256 16 "DrSmpDLID" dump_uint
    ∷ be_offs 272 16 "DrSmpSLID" dump_uint
    ∷ raw 288 64 "SaSMkey" dump_hex
    ∷ be_offs 368 16 "SaAttrOffs" dump_uint
    ∷ raw 384 64 "SaCompMask" dump_hex
    ∷ raw 448 1600 "SaData" dump_hex
    ∷ empty
    ∷ raw 512 1536 "GsData" dump_hex
    ∷ raw 1024 512 "DrSmpPath" dump_hex
    ∷ raw 1536 512 "DrSmpRetPath" dump_hex
    ∷ raw 0 64 "Mkey" dump_hex
    ∷ []
