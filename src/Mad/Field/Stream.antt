-- ===== src/Mad/Field/Stream.antt =====
-- The bits of a buffer in the order in which `_set_field` and `_get_field` number them: words of
-- 32 bits, each from its lowest bit. Which fields the two functions handle.
use infiniband_diags.Base.{
  ℕ, ◌+◌, ◌-◌, ◌*◌, ◌/◌, ◌%◌, ◌^◌, ◌≤◌, ◌<◌, ◌≡◌, ap, ◌∙◌, ◌⊎◌, bit_and, bit_xor, Bool, true, false,
  ◌&&◌, ◌||◌, arith, leb, ◌==◌, if◌then◌else◌,
}
use infiniband_diags.Base.Bits.{testbit, xor_three, bit_and_mask}
use infiniband_diags.Mad.Field.{Buf, update, IbField, prebits, postbits, bytelen, within_byte}

-- Bit `i` of the stream lies in the byte at `3 ^ (i / 8)`.
abbrev pub bit_at : Buf → ℕ → ℕ
bit_at p i = testbit (p (bit_xor 3 (i / 8))) (i % 8)

-- The first bit of a field.
abbrev pub start_bit : ℕ → IbField → ℕ
start_bit base_offs f = 8 * base_offs + f.bitoffs

-- The three parts of a field cover it: its bits below the first whole byte, whole bytes, and the
-- bits in the last byte; and its value fits a 32-bit word.
unfoldable pub is_field : IbField → Bool
is_field f =
    leb f.bitlen 32 && (within_byte f || (prebits f + 8 * bytelen f + postbits f == f.bitlen))

abbrev pub IsField : IbField → Type 0
IsField f = is_field f ≡ true

pub bit_and_seven : (a : ℕ) → bit_and a 7 ≡ a % 8
bit_and_seven a = bit_and_mask 3 a

pub prebits_lem : (f : IbField) → prebits f ≡ (8 - f.bitoffs % 8) % 8
prebits_lem f = bit_and_seven _ ∙ ap (λ (t : ℕ). (8 - t) % 8) (bit_and_seven f.bitoffs)

pub postbits_lem : (f : IbField) → postbits f ≡ (f.bitoffs + f.bitlen) % 8
postbits_lem f = rw bit_and_seven

-- The two kinds of field, in plain arithmetic.
pub IsField-cases :
    (f : IbField)
    → IsField f
    → (f.bitlen ≤ 32)
      × ((within_byte f ≡ true) × (f.bitoffs % 8 + f.bitlen < 8)
          ⊎ (within_byte f ≡ false)
            × ((8 - f.bitoffs % 8) % 8 + 8 * (f.bitlen / 8) + (f.bitoffs + f.bitlen) % 8
                ≡ f.bitlen))
unfolding is_field
IsField-cases f h = ground (arith, bit_and_seven f.bitoffs, prebits_lem f, postbits_lem f)

-- The value keeps to the field: it fits, or the writer cuts it off, as it does in all fields but
-- those with bits in a last byte.
abbrev pub Takes : IbField → ℕ → Type 0
Takes f val = (val < 2 ^ f.bitlen) ⊎ ((within_byte f || postbits f == 0) ≡ true)

pub bit_at-update :
    (p : Buf) (idx v i : ℕ)
    → bit_at (update p (bit_xor 3 idx) v) i
      ≡ (if i / 8 == idx then testbit v (i % 8) else bit_at p i)
bit_at-update p idx v i = ground (arith, xor_three idx, xor_three (i / 8))
