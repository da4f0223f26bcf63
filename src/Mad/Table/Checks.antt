-- ===== src/Mad/Table/Checks.antt =====
-- Every entry of `ib_mad_f` is one that the encoder handles: the parts of a short field add up, and
-- a longer field is made of whole bytes.
use infiniband_diags.Base.{
  ℕ, zero, suc, ◌%◌, ◌≤◌, ◌≡◌, refl, Bool, true, ◌&&◌, List, [], ◌∷◌, arith, leb, ◌==◌,
  if◌then◌else◌, get_or,
}
use infiniband_diags.Mad.Field.{IbField, empty}
use infiniband_diags.Mad.Field.Stream.{is_field, IsField}
use infiniband_diags.Mad.Table.{ib_mad_f, mad_field}

pub is_entry : IbField → Bool
unfolding is_field
is_entry f = if leb f.bitlen 32 then is_field f else (f.bitoffs % 8 == 0 && f.bitlen % 8 == 0)

all_entries : List IbField → Bool
unfolding is_entry
all_entries [] = true
all_entries (f ∷ fs) = is_entry f && all_entries fs

all_entries_get :
    (fs : List IbField) (n : ℕ) → all_entries fs ≡ true → is_entry (get_or fs n empty) ≡ true
unfolding all_entries
all_entries_get [] n h = refl
all_entries_get (f ∷ fs) zero h = ground arith
all_entries_get (f ∷ fs) (suc n) h = all_entries_get fs n (ground arith)

table_checked : all_entries ib_mad_f ≡ true
unfolding all_entries ib_mad_f
table_checked = refl

pub mad_field-IsEntry : (field : ℕ) → is_entry (mad_field field) ≡ true
unfolding mad_field
mad_field-IsEntry field = all_entries_get ib_mad_f field table_checked

short_entry : (f : IbField) → f.bitlen ≤ 32 → is_entry f ≡ true → IsField f
unfolding is_entry
short_entry f h e = ground arith

pub mad_field-IsField : (field : ℕ) → (mad_field field).bitlen ≤ 32 → IsField (mad_field field)
mad_field-IsField field short = short_entry (mad_field field) short (mad_field-IsEntry field)
