-- ===== src/Mad/Table/Laws.antt =====
-- The accessors that take a field's number, over the whole table.
use infiniband_diags.Base.{ℕ, ◌+◌, ◌-◌, ◌%◌, ◌^◌, ◌≤◌, ◌<◌, ◌≡◌, ◌&&◌, leb, ltb, if◌then◌else◌}
use infiniband_diags.Base.Bits.{testbit}
use infiniband_diags.Mad.Field.{Buf, IsBytes}
use infiniband_diags.Mad.Field.Stream.{bit_at, start_bit, Takes}
use infiniband_diags.Mad.Field.Laws.{
  bit_at-set_field, testbit-get_field, set_field-IsBytes, get_field-lt,
}
use infiniband_diags.Mad.Field.Lens.{
  AreDisjoint, get_field-set_field, set_field-get_field, set_field-set_field,
  get_field-set_field_ne, set_field_comm,
}
use infiniband_diags.Mad.Table.{mad_field, mad_get_field, mad_set_field}
use infiniband_diags.Mad.Table.Checks.{mad_field-IsField}

-- A field of the table that `mad_get_field` and `mad_set_field` are for.
abbrev pub IsShort : ℕ → Type 0
IsShort field = (mad_field field).bitlen ≤ 32

-- The value fits the field, or the field is one whose writer cuts values off.
abbrev pub Fits : ℕ → ℕ → Type 0
Fits field val = Takes (mad_field field) val

-- A field of at most 32 bits, written with a value that fits or that its writer cuts off, holds the
-- low bits of that value from its first bit on, and every other bit of the buffer is what it was.
pub bit_at-mad_set_field :
    (buf : Buf) (base_offs field val i : ℕ)
    → IsShort field
    → Fits field val
    → bit_at (mad_set_field buf base_offs field val) i ≡ (
        let first = start_bit base_offs (mad_field field) in
        if leb first i && ltb i (first + (mad_field field).bitlen)
        then testbit val (i - first)
        else bit_at buf i)
unfolding mad_set_field
bit_at-mad_set_field buf base_offs field val i short fits =
    bit_at-set_field buf base_offs (mad_field field) val i (mad_field-IsField field short) fits

-- `mad_get_field` of a field of at most 32 bits, in a buffer of bytes, is the number whose bits
-- are those of the field in the buffer.
pub testbit-mad_get_field :
    (buf : Buf) (base_offs field i : ℕ)
    → IsBytes buf
    → IsShort field
    → testbit (mad_get_field buf base_offs field) i ≡ (
        if ltb i (mad_field field).bitlen
        then bit_at buf (start_bit base_offs (mad_field field) + i)
        else 0)
unfolding mad_get_field
testbit-mad_get_field buf base_offs field i bytes short =
    testbit-get_field buf bytes base_offs (mad_field field) i (mad_field-IsField field short)

module _ (buf : Buf) (base_offs field : ℕ) (bytes : IsBytes buf) (short : IsShort field) where
  -- From a field of at most 32 bits in a buffer of bytes the value that was written is read back,
  -- reduced to the width of the field; it fits the field, or its writer cuts it off.
  pub mad_get_field-mad_set_field :
      (val : ℕ)
      → Fits field val
      → mad_get_field (mad_set_field buf base_offs field val) base_offs field
        ≡ val % 2 ^ (mad_field field).bitlen
  unfolding mad_get_field mad_set_field
  mad_get_field-mad_set_field val fits =
      get_field-set_field buf bytes base_offs (mad_field field) (mad_field-IsField field short) val
        fits

  -- On a field of at most 32 bits, in a buffer of bytes, writing back what was read changes nothing,
  -- and a second write of a value that the field takes leaves no trace of the first.
  pub mad_set_field_lens :
      (v w : ℕ)
      → Fits field v
      → Fits field w
      → (mad_set_field buf base_offs field (mad_get_field buf base_offs field) ≡ buf)
        × (mad_set_field (mad_set_field buf base_offs field v) base_offs field w
            ≡ mad_set_field buf base_offs field w)
  unfolding mad_get_field mad_set_field
  mad_set_field_lens v w hv hw =
      let ok = mad_field-IsField field short in
      (
        set_field-get_field buf bytes base_offs (mad_field field) ok,
        set_field-set_field buf bytes base_offs (mad_field field) ok v w hv hw,
      )

  -- For two fields of at most 32 bits with no common bit, in a buffer of bytes, a write of one does
  -- not change what is read from the other, and the two writes may be exchanged.
  pub mad_set_field_disjoint :
      (base_offs' field' v w : ℕ)
      → IsShort field'
      → AreDisjoint base_offs (mad_field field) base_offs' (mad_field field')
      → Fits field v
      → Fits field' w
      → (mad_get_field (mad_set_field buf base_offs field v) base_offs' field'
          ≡ mad_get_field buf base_offs' field')
        × (mad_set_field (mad_set_field buf base_offs field v) base_offs' field' w
            ≡ mad_set_field (mad_set_field buf base_offs' field' w) base_offs field v)
  unfolding mad_get_field mad_set_field
  mad_set_field_disjoint base_offs' field' v w short' apart hv hw =
      let f = mad_field field in
      let g = mad_field field' in
      let f_ok = mad_field-IsField field short in
      let g_ok = mad_field-IsField field' short' in
      (
        get_field-set_field_ne buf bytes base_offs f f_ok base_offs' g g_ok apart v hv,
        set_field_comm buf bytes base_offs f f_ok base_offs' g g_ok apart v w hv hw,
      )

pub mad_set_field-IsBytes :
    (buf : Buf) (base_offs field val : ℕ)
    → IsBytes buf
    → IsBytes (mad_set_field buf base_offs field val)
unfolding mad_set_field
mad_set_field-IsBytes buf base_offs field val bytes =
    set_field-IsBytes buf bytes base_offs (mad_field field) val

pub mad_get_field-lt :
    (buf : Buf) (base_offs field : ℕ)
    → IsBytes buf
    → IsShort field
    → mad_get_field buf base_offs field < 2 ^ (mad_field field).bitlen
unfolding mad_get_field
mad_get_field-lt buf base_offs field bytes short =
    get_field-lt buf bytes base_offs (mad_field field) (mad_field-IsField field short)
