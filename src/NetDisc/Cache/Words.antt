-- ===== src/NetDisc/Cache/Words.antt =====
-- libibnetdisc/src/ibnetdisc_cache.c: numbers and buffers as bytes, the lowest byte first. What is
-- written at `outbuf` is a list of bytes; what is read at `inbuf` is given with the bytes behind it.
-- A read behind the end, which C leaves undefined, gives 0 and no more bytes.
use infiniband_diags.Base.{
  ℕ, zero, suc, ◌*◌, ◌/◌, ◌%◌, ◌^◌, ◌<◌, bit_and, bit_or, ◌≡◌, refl, ap, ◌∙◌, inl, inr, Bool-cases,
  List, [], ◌∷◌, ◌++◌, length, get_or, ltb, arith, if◌then◌else◌,
}
use infiniband_diags.Base.Masks.{bit_and_high, or_split, or_comm}
use mathlib.Core.Path.{fun_ext}
use infiniband_diags.Base.Bits.{bit_and_mask}
use infiniband_diags.Mad.Field.{Buf}

unfoldable pub marshall8 : ℕ → List ℕ
marshall8 num = num ∷ []

unfoldable pub marshall16 : ℕ → List ℕ
marshall16 num = bit_and num 0xff ∷ bit_and num 0xff00 / 2 ^ 8 ∷ []

unfoldable pub marshall32 : ℕ → List ℕ
marshall32 num =
    bit_and num 0xff
    ∷ bit_and num 0xff00 / 2 ^ 8
    ∷ bit_and num 0xff0000 / 2 ^ 16
    ∷ bit_and num 0xff000000 / 2 ^ 24
    ∷ []

unfoldable pub marshall64 : ℕ → List ℕ
marshall64 num =
    num % 2 ^ 8
    ∷ num / 2 ^ 8 % 2 ^ 8
    ∷ num / 2 ^ 16 % 2 ^ 8
    ∷ num / 2 ^ 24 % 2 ^ 8
    ∷ num / 2 ^ 32 % 2 ^ 8
    ∷ num / 2 ^ 40 % 2 ^ 8
    ∷ num / 2 ^ 48 % 2 ^ 8
    ∷ num / 2 ^ 56 % 2 ^ 8
    ∷ []

unfoldable pub marshall_buf : Buf → (len : ℕ) → List ℕ
marshall_buf inbuf zero = []
marshall_buf inbuf (suc len) = inbuf 0 ∷ marshall_buf (λ k. inbuf (suc k)) len

unfoldable pub unmarshall8 : List ℕ → ℕ × List ℕ
unmarshall8 (b ∷ rest) = (b, rest)
unmarshall8 [] = (0, [])

unfoldable pub unmarshall16 : List ℕ → ℕ × List ℕ
unmarshall16 (b0 ∷ b1 ∷ rest) = (bit_or (b1 * 2 ^ 8) b0, rest)
unmarshall16 _ = (0, [])

unfoldable pub unmarshall32 : List ℕ → ℕ × List ℕ
unmarshall32 (b0 ∷ b1 ∷ b2 ∷ b3 ∷ rest) =
    (bit_or (bit_or (bit_or b0 (b1 * 2 ^ 8)) (b2 * 2 ^ 16)) (b3 * 2 ^ 24), rest)
unmarshall32 _ = (0, [])

unfoldable pub unmarshall64 : List ℕ → ℕ × List ℕ
unmarshall64 (b0 ∷ b1 ∷ b2 ∷ b3 ∷ b4 ∷ b5 ∷ b6 ∷ b7 ∷ rest) = (
  bit_or
      (bit_or
        (bit_or
          (bit_or (bit_or (bit_or (bit_or b0 (b1 * 2 ^ 8)) (b2 * 2 ^ 16)) (b3 * 2 ^ 24))
            (b4 * 2 ^ 32))
          (b5 * 2 ^ 40))
        (b6 * 2 ^ 48))
      (b7 * 2 ^ 56),
  rest,
)
unmarshall64 _ = (0, [])

-- The bytes behind the first `len`.
abbrev pub behind : ℕ → List ℕ → List ℕ
behind zero bytes = bytes
behind (suc len) [] = []
behind (suc len) (b ∷ bytes) = behind len bytes

-- memcpy(outbuf, inbuf, len), over what `outbuf` held
unfoldable pub unmarshall_buf : Buf → (len : ℕ) → List ℕ → Buf × List ℕ
unmarshall_buf outbuf len inbuf =
    ((λ k. if ltb k len then get_or inbuf k 0 else outbuf k), behind len inbuf)

-- One more byte above the low bits of a number.
or_next : (k w x y : ℕ) → x ≡ w % 2 ^ k → y ≡ w / 2 ^ k → bit_or x (y * 2 ^ k) ≡ w
or_next k w x y e e' = rw (e, e') (or_split k w)

pub unmarshall8-marshall8 : (n : ℕ) (rest : List ℕ) → unmarshall8 (marshall8 n ++ rest) ≡ (n, rest)
unfolding unmarshall8 marshall8
unmarshall8-marshall8 n rest = refl

pub unmarshall16-marshall16 :
    (n : ℕ) (rest : List ℕ) → n < 2 ^ 16 → unmarshall16 (marshall16 n ++ rest) ≡ (n, rest)
unfolding unmarshall16 marshall16
unmarshall16-marshall16 n rest lt =
    let low : bit_and n 0xff ≡ n % 2 ^ 8 = bit_and_mask 8 n in
    let high : bit_and n 0xff00 / 2 ^ 8 ≡ n / 2 ^ 8 = omega (arith, bit_and_high n 8 8) in
    ap (λ (v : ℕ). (v, rest))
      (rw (low, high) (or_comm (n / 2 ^ 8 * 2 ^ 8) (n % 2 ^ 8) ∙ or_split 8 n))

pub unmarshall32-marshall32 :
    (n : ℕ) (rest : List ℕ) → n < 2 ^ 32 → unmarshall32 (marshall32 n ++ rest) ≡ (n, rest)
unfolding unmarshall32 marshall32
unmarshall32-marshall32 n rest lt =
    let b0 : bit_and n 0xff ≡ n % 2 ^ 8 = bit_and_mask 8 n in
    let b1 : bit_and n 0xff00 / 2 ^ 8 ≡ n % 2 ^ 16 / 2 ^ 8 = omega (arith, bit_and_high n 8 8) in
    let b2 : bit_and n 0xff0000 / 2 ^ 16 ≡ n % 2 ^ 24 / 2 ^ 16 =
      omega (arith, bit_and_high n 16 8) in
    let b3 : bit_and n 0xff000000 / 2 ^ 24 ≡ n / 2 ^ 24 = omega (arith, bit_and_high n 24 8) in
    let w1 = or_next 8 (n % 2 ^ 16) (bit_and n 0xff) _ (omega (arith, b0)) b1 in
    let w2 = or_next 16 (n % 2 ^ 24) _ _ (omega (arith, w1)) b2 in
    let w3 = or_next 24 n _ _ w2 b3 in ap (λ (v : ℕ). (v, rest)) w3

pub unmarshall64-marshall64 :
    (n : ℕ) (rest : List ℕ) → n < 2 ^ 64 → unmarshall64 (marshall64 n ++ rest) ≡ (n, rest)
unfolding unmarshall64 marshall64
unmarshall64-marshall64 n rest lt =
    let x1 : ℕ = bit_or (n % 2 ^ 8) (n / 2 ^ 8 % 2 ^ 8 * 2 ^ 8) in
    let w1 : x1 ≡ n % 2 ^ 16 =
      or_next 8 (n % 2 ^ 16) (n % 2 ^ 8) (n / 2 ^ 8 % 2 ^ 8) (omega arith) (omega arith) in
    let x2 : ℕ = bit_or x1 (n / 2 ^ 16 % 2 ^ 8 * 2 ^ 16) in
    let w2 : x2 ≡ n % 2 ^ 24 =
      or_next 16 (n % 2 ^ 24) x1 (n / 2 ^ 16 % 2 ^ 8) (omega (arith, w1)) (omega (arith, lt)) in
    let x3 : ℕ = bit_or x2 (n / 2 ^ 24 % 2 ^ 8 * 2 ^ 24) in
    let w3 : x3 ≡ n % 2 ^ 32 =
      or_next 24 (n % 2 ^ 32) x2 (n / 2 ^ 24 % 2 ^ 8) (omega (arith, w2)) (omega (arith, lt)) in
    let x4 : ℕ = bit_or x3 (n / 2 ^ 32 % 2 ^ 8 * 2 ^ 32) in
    let w4 : x4 ≡ n % 2 ^ 40 =
      or_next 32 (n % 2 ^ 40) x3 (n / 2 ^ 32 % 2 ^ 8) (omega (arith, w3)) (omega (arith, lt)) in
    let x5 : ℕ = bit_or x4 (n / 2 ^ 40 % 2 ^ 8 * 2 ^ 40) in
    let w5 : x5 ≡ n % 2 ^ 48 =
      or_next 40 (n % 2 ^ 48) x4 (n / 2 ^ 40 % 2 ^ 8) (omega (arith, w4)) (omega (arith, lt)) in
    let x6 : ℕ = bit_or x5 (n / 2 ^ 48 % 2 ^ 8 * 2 ^ 48) in
    let w6 : x6 ≡ n % 2 ^ 56 =
      or_next 48 (n % 2 ^ 56) x5 (n / 2 ^ 48 % 2 ^ 8) (omega (arith, w5)) (omega (arith, lt)) in
    let x7 : ℕ = bit_or x6 (n / 2 ^ 56 % 2 ^ 8 * 2 ^ 56) in
    let w7 : x7 ≡ n =
      or_next 56 (n) x6 (n / 2 ^ 56 % 2 ^ 8) (omega (arith, w6)) (omega (arith, lt)) in
    ap (λ (v : ℕ). (v, rest)) w7

pub length-marshall_buf : (len : ℕ) (b : Buf) → length (marshall_buf b len) ≡ len
unfolding marshall_buf
length-marshall_buf zero b = refl
length-marshall_buf (suc len) b = ap suc (length-marshall_buf len (λ k. b (suc k)))

behind-marshall_buf :
    (len : ℕ) (b : Buf) (rest : List ℕ) → behind len (marshall_buf b len ++ rest) ≡ rest
unfolding marshall_buf
behind-marshall_buf zero b rest = refl
behind-marshall_buf (suc len) b rest = behind-marshall_buf len (λ k. b (suc k)) rest

get_or-marshall_buf :
    (len : ℕ) (b : Buf) (rest : List ℕ) (k : ℕ)
    → k < len
    → get_or (marshall_buf b len ++ rest) k 0 ≡ b k
unfolding marshall_buf
get_or-marshall_buf zero b rest k lt = absurd (omega (arith, lt))
get_or-marshall_buf (suc len) b rest zero lt = refl
get_or-marshall_buf (suc len) b rest (suc k) lt =
    get_or-marshall_buf len (λ k. b (suc k)) rest k (omega (arith, lt))

-- The first `len` bytes of a buffer over those of another.
abbrev pub over : Buf → ℕ → Buf → Buf
over old len b = λ k. if ltb k len then b k else old k

pub unmarshall_buf-marshall_buf :
    (len : ℕ) (old b : Buf) (rest : List ℕ)
    → unmarshall_buf old len (marshall_buf b len ++ rest) ≡ (over old len b, rest)
unfolding unmarshall_buf
unmarshall_buf-marshall_buf len old b rest =
    let at = λ (k : ℕ). get_or-marshall_buf len b rest k in
    let read : (unmarshall_buf old len (marshall_buf b len ++ rest)).0 ≡ over old len b =
      fun_ext λ k. elim (Bool-cases (ltb k len)) [
        | inl here ↦ rw here (at k (ground (arith, here)))
        | inr away ↦ rw away refl
      ] in
    λ i. (read i, behind-marshall_buf len b rest i)
