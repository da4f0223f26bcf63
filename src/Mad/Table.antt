-- ===== src/Mad/Table.antt =====
-- libibmad/src/fields.c: the table `ib_mad_f` of all fields, in nine parts, and the functions that
-- name a field by its number in `enum MAD_FIELDS`.
pub mod Headers
pub mod Node
pub mod Counters
pub mod Records
pub mod Details
pub mod Extended
pub mod Lanes
pub mod Congestion
pub mod Later
pub mod Checks
pub mod Laws
pub mod Writes
pub mod Overlap
use infiniband_diags.Base.{ℕ, ◌≡◌, refl, List, ◌++◌, length, get_or}
use infiniband_diags.Mad.Field.{Buf, IbField, empty, set_field, get_field}
use Headers.{header_fields}
use Node.{node_fields}
use Counters.{counter_fields}
use Records.{record_fields}
use Details.{detail_fields}
use Extended.{extended_fields}
use Lanes.{lane_fields}
use Congestion.{congestion_fields}
use Later.{later_fields}

unfoldable pub ib_mad_f : List IbField
unfolding header_fields node_fields counter_fields record_fields detail_fields extended_fields
    lane_fields congestion_fields later_fields
ib_mad_f =
    header_fields
    ++ (node_fields
        ++ (counter_fields
            ++ (record_fields
                ++ (detail_fields
                    ++ (extended_fields ++ (lane_fields ++ (congestion_fields ++ later_fields)))))))

-- ib_mad_f + field
unfoldable pub mad_field : ℕ → IbField
mad_field field = get_or ib_mad_f field empty

-- mad_get_field
unfoldable pub mad_get_field : Buf → ℕ → ℕ → ℕ
mad_get_field buf base_offs field = get_field buf base_offs (mad_field field)

-- mad_set_field
unfoldable pub mad_set_field : Buf → ℕ → ℕ → ℕ → Buf
mad_set_field buf base_offs field val = set_field buf base_offs (mad_field field) val

length-ib_mad_f : length ib_mad_f ≡ 664
unfolding ib_mad_f
length-ib_mad_f = refl
