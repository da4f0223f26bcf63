-- ===== src/Mad/Field/Lens.antt =====
-- Reads and writes of fields as lenses on a buffer: what was written is read back, a write of what
-- was read changes nothing, the last write wins, and disjoint fields do not meet.
use mathlib.Core.Path.{fun_ext}
use native.Mathlib.Nat.{mod-lt, one-le-pow}
use infiniband_diags.Base.{ℕ, ◌+◌, ◌-◌, ◌*◌, ◌%◌, ◌^◌, ◌≤◌, ◌≡◌, ◌⊎◌, inl, bit_xor, arith}
use infiniband_diags.Base.Bits.{testbit_ext, testbit-mod, xor_three}
use infiniband_diags.Mad.Field.{Buf, IsBytes, IbField, set_field, get_field}
use infiniband_diags.Mad.Field.Stream.{bit_at, start_bit, IsField, Takes}
use infiniband_diags.Mad.Field.Laws.{
  bit_at-set_field, testbit-get_field, set_field-IsBytes, get_field-lt,
}

-- Buffers with the same stream of bits are the same.
buf_ext : (p q : Buf) → IsBytes p → IsBytes q → ((i : ℕ) → bit_at p i ≡ bit_at q i) → p ≡ q
buf_ext p q hp hq same = fun_ext λ a.
    testbit_ext 8 (p a) (q a) (hp a) (hq a)
      λ j h. ground (arith, xor_three a, xor_three (bit_xor 3 a), same (8 * bit_xor 3 a + j))

-- No bit belongs to both fields.
abbrev pub AreDisjoint : ℕ → IbField → ℕ → IbField → Type 0
AreDisjoint a f b g =
    (start_bit a f + f.bitlen ≤ start_bit b g) ⊎ (start_bit b g + g.bitlen ≤ start_bit a f)

module _ (p : Buf) (bytes : IsBytes p) (base : ℕ) (f : IbField) (is_field : IsField f) where
  pub get_field-set_field :
      (val : ℕ) → Takes f val → get_field (set_field p base f val) base f ≡ val % 2 ^ f.bitlen
  get_field-set_field val fits =
      let bytes' = set_field-IsBytes p bytes base f val in
      testbit_ext f.bitlen _ _ (get_field-lt (set_field p base f val) bytes' base f is_field)
        (mod-lt val (one-le-pow f.bitlen 2 (omega arith)))
        λ i h. ground (
          arith,
          testbit-get_field (set_field p base f val) bytes' base f i is_field,
          bit_at-set_field p base f val (start_bit base f + i) is_field fits,
          testbit-mod f.bitlen val i,
        )

  pub set_field-get_field : set_field p base f (get_field p base f) ≡ p
  set_field-get_field =
      let val = get_field p base f in
      buf_ext _ _ (set_field-IsBytes p bytes base f val) bytes λ i. ground (
        arith,
        bit_at-set_field p base f val i is_field (inl (get_field-lt p bytes base f is_field)),
        testbit-get_field p bytes base f (i - start_bit base f) is_field,
      )

  pub set_field-set_field :
      (v w : ℕ)
      → Takes f v
      → Takes f w
      → set_field (set_field p base f v) base f w ≡ set_field p base f w
  set_field-set_field v w hv hw =
      let bytes' = set_field-IsBytes p bytes base f v in
      buf_ext _ _ (set_field-IsBytes _ bytes' base f w) (set_field-IsBytes p bytes base f w) λ i.
        ground (
          arith,
          bit_at-set_field (set_field p base f v) base f w i is_field hw,
          bit_at-set_field p base f v i is_field hv,
          bit_at-set_field p base f w i is_field hw,
        )

  module _ (base' : ℕ) (g : IbField) (g_field : IsField g)
      (apart : AreDisjoint base f base' g) where
    pub get_field-set_field_ne :
        (val : ℕ) → Takes f val → get_field (set_field p base f val) base' g ≡ get_field p base' g
    get_field-set_field_ne val fits =
        let bytes' = set_field-IsBytes p bytes base f val in
        testbit_ext g.bitlen _ _ (get_field-lt (set_field p base f val) bytes' base' g g_field)
          (get_field-lt p bytes base' g g_field)
          λ i h. ground (
            arith,
            testbit-get_field (set_field p base f val) bytes' base' g i g_field,
            testbit-get_field p bytes base' g i g_field,
            bit_at-set_field p base f val (start_bit base' g + i) is_field fits,
          )

    pub set_field_comm :
        (v w : ℕ)
        → Takes f v
        → Takes g w
        → set_field (set_field p base f v) base' g w ≡ set_field (set_field p base' g w) base f v
    set_field_comm v w hv hw =
        let one = set_field p base f v in
        let other = set_field p base' g w in
        buf_ext _ _ (set_field-IsBytes one (set_field-IsBytes p bytes base f v) base' g w)
          (set_field-IsBytes other (set_field-IsBytes p bytes base' g w) base f v)
          λ i. ground (
            arith,
            bit_at-set_field one base' g w i g_field hw,
            bit_at-set_field p base f v i is_field hv,
            bit_at-set_field other base f v i is_field hv,
            bit_at-set_field p base' g w i g_field hw,
          )
