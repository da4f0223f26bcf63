-- ===== src/Mad/Field/Frame.antt =====
-- Which bytes a write may change, and on which bytes a read depends.
use infiniband_diags.Base.{ℕ, ◌+◌, ◌*◌, ◌/◌, ◌≤◌, ◌<◌, ◌≡◌, ◌⊎◌, bit_xor, arith}
use infiniband_diags.Base.Bits.{testbit_ext, xor_three}
use infiniband_diags.Mad.Field.{Buf, IsBytes, IbField, set_field, get_field}
use infiniband_diags.Mad.Field.Stream.{start_bit, IsField, Takes}
use infiniband_diags.Mad.Field.Laws.{
  bit_at-set_field, testbit-get_field, set_field-IsBytes, get_field-lt,
}

-- A read depends on the bytes of the words that the field touches.
pub get_field_cong :
    (p q : Buf) (base : ℕ) (f : IbField)
    → IsBytes p
    → IsBytes q
    → IsField f
    → ((i : ℕ)
        → start_bit base f ≤ i
        → i < start_bit base f + f.bitlen
        → p (bit_xor 3 (i / 8)) ≡ q (bit_xor 3 (i / 8)))
    → get_field p base f ≡ get_field q base f
get_field_cong p q base f hp hq ok same =
    testbit_ext f.bitlen _ _ (get_field-lt p hp base f ok) (get_field-lt q hq base f ok) λ i h.
      ground (
        arith,
        testbit-get_field p hp base f i ok,
        testbit-get_field q hq base f i ok,
        same (start_bit base f + i),
      )

-- A write keeps each byte that holds no bit of the field.
pub set_field_frame :
    (p : Buf) (base : ℕ) (f : IbField) (val a : ℕ)
    → IsBytes p
    → IsField f
    → Takes f val
    → (8 * bit_xor 3 a + 8 ≤ start_bit base f) ⊎ (start_bit base f + f.bitlen ≤ 8 * bit_xor 3 a)
    → set_field p base f val a ≡ p a
set_field_frame p base f val a bytes ok fits apart =
    testbit_ext 8 _ _ (set_field-IsBytes p bytes base f val a) (bytes a) λ j h. ground (
      arith,
      xor_three a,
      xor_three (bit_xor 3 a),
      bit_at-set_field p base f val (8 * bit_xor 3 a + j) ok fits,
    )
