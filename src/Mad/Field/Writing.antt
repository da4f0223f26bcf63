-- ===== src/Mad/Field/Writing.antt =====
-- What each step of `_set_field` does to the bits of the buffer.
use Prim.Native.Nat.{min, max}
use native.Mathlib.Nat.{one-le-pow}
use infiniband_diags.Base.{
  ℕ, zero, suc, ◌+◌, ◌-◌, ◌*◌, ◌/◌, ◌%◌, ◌^◌, ◌<◌, ◌≡◌, ◌⊎◌, inl, inr, bit_and, bit_or, bit_xor,
  ◌&&◌, arith, ltb, leb, ◌==◌, if◌then◌else◌,
}
use infiniband_diags.Base.Bits.{
  testbit, testbit-or, testbit-and, testbit-le, testbit-shl, testbit-shr, testbit-mod, testbit-mask,
  testbit-complement, testbit_of_lt, mask-lt-pow, pow-le-pow,
}
use infiniband_diags.Mad.Field.{
  Buf, not8, u8, Cursor, merge_byte, set_prebits, set_byte, set_bytes, set_postbits,
}
use infiniband_diags.Mad.Field.Stream.{bit_at, bit_at-update}

pub merged : ℕ → ℕ → ℕ → ℕ → ℕ
merged byte keep bits i = max (min (testbit byte i) (testbit keep i)) (testbit bits i)

testbit-merge :
    (byte keep bits i : ℕ)
    → i < 8
    → testbit (u8 (bit_or (bit_and byte keep) bits)) i ≡ merged byte keep bits i
unfolding merged
testbit-merge byte keep bits i h = ground (
  arith,
  testbit-mod 8 (bit_or (bit_and byte keep) bits) i,
  testbit-or i (bit_and byte keep) bits,
  testbit-and i byte keep,
)

pub bit_at-merge_byte :
    (p : Buf) (idx keep bits i : ℕ)
    → bit_at (merge_byte p idx keep bits) i
      ≡ (if i / 8 == idx then merged (p (bit_xor 3 idx)) keep bits (i % 8) else bit_at p i)
unfolding merge_byte
bit_at-merge_byte p idx keep bits i = ground (
  arith,
  bit_at-update p idx (u8 (bit_or (bit_and (p (bit_xor 3 idx)) keep) bits)) i,
  testbit-merge (p (bit_xor 3 idx)) keep bits (i % 8),
)

-- A field inside a byte: bits [o, o + len) are those of the value, the others stay.
pub merged-within :
    (byte len o val i : ℕ)
    → o + len < 8
    → i < 8
    → merged byte (not8 ((2 ^ len - 1) * 2 ^ o)) (bit_and val (2 ^ len - 1) * 2 ^ o) i
      ≡ (if leb o i && ltb i (o + len) then testbit val (i - o) else testbit byte i)
unfolding merged
merged-within byte len o val i h hi = ground (
  arith,
  testbit-complement 8 ((2 ^ len - 1) * 2 ^ o) i (mask-lt-pow len o 8 (omega arith)),
  testbit-shl o (2 ^ len - 1) i,
  testbit-mask len (i - o),
  testbit-shl o (bit_and val (2 ^ len - 1)) i,
  testbit-and (i - o) val (2 ^ len - 1),
  testbit-le i byte,
  testbit-le (i - o) val,
)

-- The first bits of a longer field, at the top of their byte.
merged-prebits :
    (byte pre val i : ℕ)
    → pre < 8
    → i < 8
    → merged byte (2 ^ (8 - pre) - 1) (bit_and val (2 ^ pre - 1) * 2 ^ (8 - pre)) i
      ≡ (if leb (8 - pre) i then testbit val (i - (8 - pre)) else testbit byte i)
unfolding merged
merged-prebits byte pre val i h hi = ground (
  arith,
  testbit-mask (8 - pre) i,
  testbit-shl (8 - pre) (bit_and val (2 ^ pre - 1)) i,
  testbit-and (i - (8 - pre)) val (2 ^ pre - 1),
  testbit-mask pre (i - (8 - pre)),
  testbit-le i byte,
  testbit-le (i - (8 - pre)) val,
)

-- The last bits of a longer field, at the bottom of their byte.
merged-postbits :
    (byte post val i : ℕ)
    → post < 8
    → i < 8
    → val < 2 ^ post
    → merged byte (not8 (2 ^ post - 1)) val i
      ≡ (if ltb i post then testbit val i else testbit byte i)
unfolding merged
merged-postbits byte post val i h hi fits = ground (
  arith,
  testbit-complement 8 (2 ^ post - 1) i (omega (arith, pow-le-pow post 8, one-le-pow post 2)),
  testbit-mask post i,
  testbit-le i byte,
  testbit_of_lt post val i fits,
)

-- The bits of the three kinds of step.
pub bit_at-set_prebits :
    (pre : ℕ) (c : Cursor) (i : ℕ)
    → pre < 8
    → bit_at (set_prebits pre c).bytes i ≡ (
        if i / 8 == c.idx && leb (8 - pre) (i % 8)
        then testbit c.val (i - (8 * c.idx + (8 - pre)))
        else bit_at c.bytes i)
unfolding set_prebits
bit_at-set_prebits pre c i h = ground (
  arith,
  bit_at-merge_byte c.bytes c.idx (2 ^ (8 - pre) - 1) (bit_and c.val (2 ^ pre - 1) * 2 ^ (8 - pre))
      i,
  merged-prebits (c.bytes (bit_xor 3 c.idx)) pre c.val (i % 8) h,
)

pub bit_at-set_bytes :
    (n : ℕ) (c : Cursor) (i : ℕ)
    → bit_at (set_bytes n c).bytes i ≡ (
        if leb c.idx (i / 8) && ltb (i / 8) (c.idx + n)
        then testbit c.val (i - 8 * c.idx)
        else bit_at c.bytes i)
unfolding set_bytes set_byte
bit_at-set_bytes zero c i = ground arith
bit_at-set_bytes (suc n) c i = ground (
  arith,
  bit_at-set_bytes n (set_byte c) i,
  bit_at-update c.bytes c.idx (bit_and c.val 0xff) i,
  testbit-and (i % 8) c.val 0xff,
  testbit-mask 8 (i % 8),
  testbit-le (i % 8) c.val,
  testbit-shr 8 c.val (i - 8 * (c.idx + 1)),
)

pub bit_at-set_postbits :
    (post : ℕ) (c : Cursor) (i : ℕ)
    → post < 8
    → (post ≡ 0) ⊎ (c.val < 2 ^ post)
    → bit_at (set_postbits post c) i ≡ (
        if i / 8 == c.idx && ltb (i % 8) post
        then testbit c.val (i - 8 * c.idx)
        else bit_at c.bytes i)
unfolding set_postbits
bit_at-set_postbits post c i h (inl none_left) = ground arith
bit_at-set_postbits post c i h (inr fits) = ground (
  arith,
  bit_at-merge_byte c.bytes c.idx (not8 (2 ^ post - 1)) c.val i,
  merged-postbits (c.bytes (bit_xor 3 c.idx)) post c.val (i % 8) h,
)

pub set_prebits-idx :
    (pre : ℕ) (c : Cursor) → (set_prebits pre c).idx ≡ (if pre == 0 then c.idx else c.idx + 1)
unfolding set_prebits
set_prebits-idx pre c = ground arith

pub testbit-set_prebits :
    (pre : ℕ) (c : Cursor) (i : ℕ) → testbit (set_prebits pre c).val i ≡ testbit c.val (pre + i)
unfolding set_prebits
testbit-set_prebits pre c i = ground (arith, testbit-shr pre c.val i)

pub set_bytes-idx : (n : ℕ) (c : Cursor) → (set_bytes n c).idx ≡ c.idx + n
unfolding set_bytes set_byte
set_bytes-idx zero c = omega arith
set_bytes-idx (suc n) c = omega (arith, set_bytes-idx n (set_byte c))

pub testbit-set_bytes :
    (n : ℕ) (c : Cursor) (i : ℕ) → testbit (set_bytes n c).val i ≡ testbit c.val (8 * n + i)
unfolding set_bytes set_byte
testbit-set_bytes zero c i = ground arith
testbit-set_bytes (suc n) c i =
    ground (arith, testbit-set_bytes n (set_byte c) i, testbit-shr 8 c.val (8 * n + i))
