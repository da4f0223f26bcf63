-- ===== src/Base/Masks.antt =====
-- Masks above the low bits, and numbers put together from a low and a high part.
use Prim.Native.Nat.{ℕ, ◌+◌, ◌-◌, ◌*◌, ◌/◌, ◌%◌, ◌^◌, ◌≤◌, ◌<◌, bit_and, bit_or}
use mathlib.Core.Path.{◌≡◌, ap, ◌∙◌}
use mathlib.Core.Logic.{◌⊎◌, inl, inr}
use native.Mathlib.Omega.{arith}
use infiniband_diags.Base.Tests.{lt_or_le}
use infiniband_diags.Base.Bits.{
  testbit, testbit-le, testbit-or, testbit-and, testbit-shl, testbit-shr, testbit-mod, testbit-mask,
  testbit_ext, lt-pow_of_bits, lt-two-pow, pow-le-pow,
}

pub high_index : (g k i : ℕ) → (i < k) ⊎ (testbit (g / 2 ^ k) (i - k) ≡ testbit g i)
high_index g k i = elim (lt_or_le i k) [
  | inl lt ↦ inl lt
  | inr le ↦
      let e : k + (i - k) ≡ i = omega arith in inr (testbit-shr k g (i - k) ∙ ap (testbit g) e)
]

high_bits :
    (g k m i : ℕ)
    → testbit (bit_and g ((2 ^ m - 1) * 2 ^ k)) i ≡ testbit (g / 2 ^ k % 2 ^ m * 2 ^ k) i
high_bits g k m i = ground (
  arith,
  testbit-and i g ((2 ^ m - 1) * 2 ^ k),
  testbit-shl k (2 ^ m - 1) i,
  testbit-mask m (i - k),
  testbit-shl k (g / 2 ^ k % 2 ^ m) i,
  testbit-mod m (g / 2 ^ k) (i - k),
  high_index g k i,
  testbit-le i g,
)

field_above : (g k m i : ℕ) → k + m ≤ i → testbit (g / 2 ^ k % 2 ^ m * 2 ^ k) i ≡ 0
field_above g k m i le =
    ground (arith, testbit-shl k (g / 2 ^ k % 2 ^ m) i, testbit-mod m (g / 2 ^ k) (i - k))

-- The bits of a number under a mask of `m` ones above `k` zeros.
pub bit_and_high : (g k m : ℕ) → bit_and g ((2 ^ m - 1) * 2 ^ k) ≡ g / 2 ^ k % 2 ^ m * 2 ^ k
bit_and_high g k m =
    testbit_ext (k + m) _ _
      (lt-pow_of_bits (k + m) _ λ i le. high_bits g k m i ∙ field_above g k m i le)
      (lt-pow_of_bits (k + m) _ (field_above g k m)) λ i lt. high_bits g k m i

or_bit : (k w i : ℕ) → testbit (bit_or (w % 2 ^ k) (w / 2 ^ k * 2 ^ k)) i ≡ testbit w i
or_bit k w i = ground (
  arith,
  testbit-or i (w % 2 ^ k) (w / 2 ^ k * 2 ^ k),
  testbit-mod k w i,
  testbit-shl k (w / 2 ^ k) i,
  high_index w k i,
  testbit-le i w,
)

below_sum : (a b : ℕ) → (a < 2 ^ (a + b)) × (b < 2 ^ (a + b))
below_sum a b = (
  omega (arith, lt-two-pow a, pow-le-pow a (a + b) (omega arith)),
  omega (arith, lt-two-pow b, pow-le-pow b (a + b) (omega arith)),
)

-- A number is the union of its low bits and its high bits.
pub or_split : (k w : ℕ) → bit_or (w % 2 ^ k) (w / 2 ^ k * 2 ^ k) ≡ w
or_split k w =
    let x = bit_or (w % 2 ^ k) (w / 2 ^ k * 2 ^ k) in
    let bounds = below_sum x w in testbit_ext (x + w) x w bounds.0 bounds.1 λ i lt. or_bit k w i

pub or_comm : (a b : ℕ) → bit_or a b ≡ bit_or b a
or_comm a b =
    let bounds = below_sum (bit_or a b) (bit_or b a) in
    testbit_ext (bit_or a b + bit_or b a) _ _ bounds.0 bounds.1
      λ i lt. ground (arith, testbit-or i a b, testbit-or i b a)
