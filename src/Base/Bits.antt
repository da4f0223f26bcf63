-- ===== src/Base/Bits.antt =====
-- Natural numbers as bit strings: what shifts, truncation and the bitwise operations do to each bit.
use Prim.Native.Nat.{
  ℕ, zero, suc, ◌+◌, ◌-◌, ◌*◌, ◌/◌, ◌%◌, ◌^◌, ◌≤◌, ◌<◌, min, max, digits, bitwise, bit_and, bit_or,
  bit_xor, differ, bit_and-bitwise, bit_or-bitwise, bit_xor-bitwise,
}
use mathlib.Core.Path.{◌≡◌, refl, ap, sym}
use native.Mathlib.Omega.{arith}
use native.Mathlib.Nat.{
  pow-succ', pow-suc, one-le-pow, le_refl, div-div-eq-div-mul, div-add-mod, div-one, zero-add,
  suc-add,
}
use infiniband_diags.Base.Tests.{ltb, if◌then◌else◌}

-- Bit `i` of a number, the lowest one first.
abbrev pub testbit : ℕ → ℕ → ℕ
testbit n zero = n % 2
testbit n (suc i) = testbit (n / 2) i

-- `digits` counts its rounds down from the first number; any larger count gives the same.
rounds_suffice :
    (z : ℕ → ℕ) (f : ℕ → ℕ → ℕ) (a b k l : ℕ) → a ≤ k → a ≤ l → digits z f k a b ≡ digits z f l a b
rounds_suffice z f zero b zero zero p q = refl
rounds_suffice z f zero b zero (suc l) p q = refl
rounds_suffice z f zero b (suc k) zero p q = refl
rounds_suffice z f zero b (suc k) (suc l) p q = refl
rounds_suffice z f (suc a) b zero l p q = absurd (omega arith)
rounds_suffice z f (suc a) b (suc k) zero p q = absurd (omega arith)
rounds_suffice z f (suc a) b (suc k) (suc l) p q =
    rw (rounds_suffice z f (suc a / 2) (b / 2) k l (omega arith) (omega arith))

-- One round of a digit operation whose rule `z` for an exhausted number agrees with `f` at 0.
lowest_digit :
    (z : ℕ → ℕ) (f : ℕ → ℕ → ℕ)
    → ((y : ℕ) → z y ≡ z (y / 2) * 2 + f 0 (y % 2))
    → (x y : ℕ) → bitwise z f x y ≡ bitwise z f (x / 2) (y / 2) * 2 + f (x % 2) (y % 2)
lowest_digit z f agrees zero y = agrees y
lowest_digit z f agrees (suc x) y =
    omega (arith, rounds_suffice z f (suc x / 2) (y / 2) x (suc x / 2) (omega arith) (le_refl _))

or_digit : (x y : ℕ) → bit_or x y ≡ 2 * bit_or (x / 2) (y / 2) + max (x % 2) (y % 2)
or_digit x y = simp bit_or-bitwise (omega (arith, lowest_digit (λ n. n) max (λ n. omega arith) x y))

and_digit : (x y : ℕ) → bit_and x y ≡ 2 * bit_and (x / 2) (y / 2) + min (x % 2) (y % 2)
and_digit x y =
    simp bit_and-bitwise (omega (arith, lowest_digit (λ n. 0) min (λ n. omega arith) x y))

pub testbit-or : (i a b : ℕ) → testbit (bit_or a b) i ≡ max (testbit a i) (testbit b i)
testbit-or zero a b = omega (arith, or_digit a b)
testbit-or (suc i) a b =
    let half : bit_or a b / 2 ≡ bit_or (a / 2) (b / 2) = omega (arith, or_digit a b) in
    rw half (testbit-or i (a / 2) (b / 2))

pub testbit-and : (i a b : ℕ) → testbit (bit_and a b) i ≡ min (testbit a i) (testbit b i)
testbit-and zero a b = omega (arith, and_digit a b)
testbit-and (suc i) a b =
    let half : bit_and a b / 2 ≡ bit_and (a / 2) (b / 2) = omega (arith, and_digit a b) in
    rw half (testbit-and i (a / 2) (b / 2))

pub testbit-le : (i a : ℕ) → testbit a i ≤ 1
testbit-le zero a = omega arith
testbit-le (suc i) a = testbit-le i (a / 2)

pub testbit-zero : (i : ℕ) → testbit 0 i ≡ 0
testbit-zero zero = refl
testbit-zero (suc i) = testbit-zero i

pow-suc_double : (k : ℕ) → 2 ^ suc k ≡ 2 * 2 ^ k
pow-suc_double k = pow-succ' 2 k

mul-pow_half : (x k : ℕ) → x * 2 ^ suc k ≡ 2 * (x * 2 ^ k)
mul-pow_half x k = omega (arith, ap (λ (t : ℕ). x * t) (pow-suc_double k))

div-pow_suc : (x k : ℕ) → x / 2 ^ suc k ≡ x / 2 / 2 ^ k
div-pow_suc x k = rw pow-suc_double (sym (div-div-eq-div-mul x 2 (2 ^ k)))

mod-pow_suc : (x k : ℕ) → x % 2 ^ suc k ≡ 2 * (x / 2 % 2 ^ k) + x % 2
mod-pow_suc x k = omega (
  arith,
  div-pow_suc x k,
  pow-suc_double k,
  div-add-mod (x / 2) (2 ^ k),
  div-add-mod x (2 ^ suc k),
  ap (λ (t : ℕ). t * (x / 2 ^ suc k)) (pow-suc_double k),
  ap (λ (t : ℕ). 2 ^ k * t) (div-pow_suc x k),
)

-- x << k
pub testbit-shl : (k x i : ℕ) → testbit (x * 2 ^ k) i ≡ (if ltb i k then 0 else testbit x (i - k))
testbit-shl zero x i =
    let same : x * 2 ^ 0 ≡ x = omega arith in
    let back : i - 0 ≡ i = omega arith in rw (same, back) (ground arith)
testbit-shl (suc k) x zero = rw mul-pow_half (ground arith)
testbit-shl (suc k) x (suc i) =
    let half : x * 2 ^ suc k / 2 ≡ x * 2 ^ k = omega (arith, mul-pow_half x k) in
    rw half (ground (arith, testbit-shl k x i))

-- x >> k
pub testbit-shr : (k x i : ℕ) → testbit (x / 2 ^ k) i ≡ testbit x (k + i)
testbit-shr zero x i = rw (div-one, zero-add)
testbit-shr (suc k) x i = rw (div-pow_suc, testbit-shr k (x / 2) i, suc-add)

-- x mod 2^k
pub testbit-mod : (k x i : ℕ) → testbit (x % 2 ^ k) i ≡ (if ltb i k then testbit x i else 0)
testbit-mod zero x i =
    let none_left : x % 2 ^ 0 ≡ 0 = omega arith in rw none_left (ground (arith, testbit-zero i))
testbit-mod (suc k) x zero = rw mod-pow_suc (ground arith)
testbit-mod (suc k) x (suc i) =
    let half : x % 2 ^ suc k / 2 ≡ x / 2 % 2 ^ k = omega (arith, mod-pow_suc x k) in
    rw half (ground (arith, testbit-mod k (x / 2) i))

-- The mask of the k low bits.
pub testbit-mask : (k i : ℕ) → testbit (2 ^ k - 1) i ≡ (if ltb i k then 1 else 0)
testbit-mask zero i = ground (arith, testbit-zero i)
testbit-mask (suc k) zero = ground (arith, pow-suc 2 k, one-le-pow k 2)
testbit-mask (suc k) (suc i) =
    let half : (2 ^ suc k - 1) / 2 ≡ 2 ^ k - 1 = omega (arith, pow-suc 2 k, one-le-pow k 2) in
    rw half (ground (arith, testbit-mask k i))

-- Equal bits make equal numbers.
pub testbit_ext :
    (k a b : ℕ) → a < 2 ^ k → b < 2 ^ k → ((i : ℕ) → i < k → testbit a i ≡ testbit b i) → a ≡ b
testbit_ext zero a b ha hb same = omega arith
testbit_ext (suc k) a b ha hb same = omega (
  arith,
  same 0 (omega arith),
  testbit_ext k (a / 2) (b / 2) (omega (arith, pow-suc_double k)) (omega (arith, pow-suc_double k))
      (λ i h. same (suc i) (omega arith)),
)

-- Above its width a number has no bits.
pub testbit_of_lt : (k a i : ℕ) → a < 2 ^ k → k ≤ i → testbit a i ≡ 0
testbit_of_lt zero a i ha h = let none_left : a ≡ 0 = omega arith in rw none_left (testbit-zero i)
testbit_of_lt (suc k) a zero ha h = absurd (omega arith)
testbit_of_lt (suc k) a (suc i) ha h =
    testbit_of_lt k (a / 2) i (omega (arith, pow-suc_double k)) (omega arith)

lt-pow_of_testbit : (k n a : ℕ) → a < 2 ^ n → ((i : ℕ) → k ≤ i → testbit a i ≡ 0) → a < 2 ^ k
lt-pow_of_testbit zero zero a ha no_bits = ha
lt-pow_of_testbit zero (suc n) a ha no_bits = omega (
  arith,
  no_bits 0 (omega arith),
  lt-pow_of_testbit zero n (a / 2) (omega (arith, pow-suc_double n))
      (λ i h. no_bits (suc i) (omega arith)),
)
lt-pow_of_testbit (suc k) zero a ha no_bits = omega (arith, one-le-pow (suc k) 2)
lt-pow_of_testbit (suc k) (suc n) a ha no_bits = omega (
  arith,
  pow-suc_double k,
  lt-pow_of_testbit k n (a / 2) (omega (arith, pow-suc_double n))
      (λ i h. no_bits (suc i) (omega arith)),
)

pub lt-two-pow : (a : ℕ) → a < 2 ^ a
lt-two-pow zero = omega arith
lt-two-pow (suc a) = omega (arith, pow-suc_double a, lt-two-pow a)

-- A number whose bits stop at `k` is below 2^k.
pub lt-pow_of_bits : (k a : ℕ) → ((i : ℕ) → k ≤ i → testbit a i ≡ 0) → a < 2 ^ k
lt-pow_of_bits k a no_bits = lt-pow_of_testbit k a a (lt-two-pow a) no_bits

-- The complement of a byte's mask, and the exclusive or by 3 that reverses the bytes of a word.
pub testbit-complement :
    (k m i : ℕ) → m < 2 ^ k → testbit (2 ^ k - 1 - m) i ≡ (if ltb i k then 1 - testbit m i else 0)
testbit-complement zero m i h = ground (arith, testbit-zero i)
testbit-complement (suc k) m zero h =
    let low : (2 ^ suc k - 1 - m) % 2 ≡ 1 - m % 2 = omega (arith, pow-suc_double k) in
    rw low (ground arith)
testbit-complement (suc k) m (suc i) h =
    let half : (2 ^ suc k - 1 - m) / 2 ≡ 2 ^ k - 1 - m / 2 = omega (arith, pow-suc_double k) in
    rw half (ground (arith, pow-suc_double k, testbit-complement k (m / 2) i))

differ-one : (d : ℕ) → d ≤ 1 → differ 1 d ≡ 1 - d
differ-one zero h = refl
differ-one (suc zero) h = refl
differ-one (suc (suc d)) h = absurd (omega arith)

pub xor_three : (i : ℕ) → bit_xor 3 i ≡ i / 4 * 4 + (3 - i % 4)
xor_three i =
    simp bit_xor-bitwise
      (omega (arith, differ-one (i % 2) (omega arith), differ-one (i / 2 % 2) (omega arith)))

and-zero_below : (n a : ℕ) → a ≤ n → bit_and a 0 ≡ 0
and-zero_below n zero h = refl
and-zero_below zero (suc a) h = absurd (omega arith)
and-zero_below (suc n) (suc a) h =
    omega (arith, and_digit (suc a) 0, and-zero_below n (suc a / 2) (omega arith))

-- A mask of `k` ones keeps the remainder by 2^k.
pub bit_and_mask : (k a : ℕ) → bit_and a (2 ^ k - 1) ≡ a % 2 ^ k
bit_and_mask zero a = omega (arith, and-zero_below a a (le_refl a))
bit_and_mask (suc k) a =
    let half : (2 ^ suc k - 1) / 2 ≡ 2 ^ k - 1 = omega (arith, pow-suc_double k, one-le-pow k 2) in
    let odd : (2 ^ suc k - 1) % 2 ≡ 1 = omega (arith, pow-suc_double k, one-le-pow k 2) in
    omega (
      arith,
      and_digit a (2 ^ suc k - 1),
      mod-pow_suc a k,
      bit_and_mask k (a / 2),
      ap (bit_and (a / 2)) half,
      odd,
    )

pub pow-le-pow : (i k : ℕ) → i ≤ k → 2 ^ i ≤ 2 ^ k
pow-le-pow zero k h = one-le-pow k 2 (omega arith)
pow-le-pow (suc i) zero h = absurd (omega arith)
pow-le-pow (suc i) (suc k) h =
    omega (arith, pow-suc_double i, pow-suc_double k, pow-le-pow i k (omega arith))

-- A shifted mask fits the width that its last bit asks for.
pub mask-lt-pow : (len o k : ℕ) → len + o ≤ k → (2 ^ len - 1) * 2 ^ o < 2 ^ k
mask-lt-pow len zero k h =
    omega (arith, pow-le-pow len k (omega arith), one-le-pow len 2 (omega arith))
mask-lt-pow len (suc o) zero h = absurd (omega arith)
mask-lt-pow len (suc o) (suc k) h =
    omega (arith, mul-pow_half (2 ^ len - 1) o, pow-suc_double k, mask-lt-pow len o k (omega arith))
