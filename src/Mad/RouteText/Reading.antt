-- ===== src/Mad/RouteText/Reading.antt =====
-- libibmad/src/portid.c: the hops that are read from a list of decimal numbers.
use infiniband_diags.Base.{
  ℕ, zero, suc, ◌+◌, ◌/◌, ◌%◌, ◌^◌, ◌≤◌, ◌<◌, ◌≡◌, refl, ap, ◌∙◌, inl, inr, Bool-cases, true, false,
  none, some, [], ◌∷◌, ◌++◌, leb, ◌==◌, arith,
}
use infiniband_diags.Base.Int.{ℤ, pos, negsuc}
use infiniband_diags.Mad.Types.{DrPath}
use infiniband_diags.Mad.RouteText.{
  Text, comma, is_digit, is_space, digits_value, atoi, to_u8, split, increment, push, read_hops,
  decimal_digits, decimal,
}

abbrev AllDigits : Text → Type 0
AllDigits [] = Unit
AllDigits (c ∷ cs) = (is_digit c ≡ true) × AllDigits cs

-- The digits of a byte.
record Digits (v : ℕ) : Type 0 where
  first : ℕ
  more : Text
  written : decimal v ≡ first ∷ more
  is_first : is_digit first ≡ true
  are_digits : AllDigits more
  value : digits_value 0 (first ∷ more) ≡ v

byte-Digits : (v : ℕ) → v < 2 ^ 8 → Digits v
unfolding decimal decimal_digits digits_value
byte-Digits v lt = elim (Bool-cases (leb v 9)) [
  | inl one ↦ record {
    first = 48 + v % 10;
    more = [];
    written = ground (arith, one);
    is_first = ground (arith, one);
    are_digits = tt;
    value = ground (arith, one);
  }
  | inr many ↦ elim (Bool-cases (leb v 99)) [
    | inl two ↦ record {
      first = 48 + v / 10 % 10;
      more = (48 + v % 10) ∷ [];
      written = ground (arith, many, two);
      is_first = ground (arith, two);
      are_digits = (ground arith, tt);
      value = ground (arith, two);
    }
    | inr three ↦ record {
      first = 48 + v / 10 / 10 % 10;
      more = (48 + v / 10 % 10) ∷ (48 + v % 10) ∷ [];
      written = ground (arith, many, three, lt);
      is_first = ground (arith, lt);
      are_digits = (ground arith, (ground arith, tt));
      value = ground (arith, lt);
    }
  ]
]

split_comma : (ds r : Text) → AllDigits ds → split (ds ++ (comma ∷ r)) ≡ (ds, some r)
unfolding split
split_comma [] r h = refl
split_comma (c ∷ cs) r (h, hs) =
    let other : (c == comma) ≡ false = ground (arith, h) in
    rw (split, other, split_comma cs r hs) refl

split_end : (ds : Text) → AllDigits ds → split (ds ++ []) ≡ (ds, none)
unfolding split
split_end [] h = refl
split_end (c ∷ cs) (h, hs) =
    let other : (c == comma) ≡ false = ground (arith, h) in rw (split, other, split_end cs hs) refl

atoi_digits :
    (c : ℕ) (cs : Text) → is_digit c ≡ true → atoi (c ∷ cs) ≡ pos (digits_value 0 (c ∷ cs))
unfolding atoi
atoi_digits c cs h =
    let no_space : is_space c ≡ false = ground (arith, h) in
    let no_minus : (c == 45) ≡ false = ground (arith, h) in
    let no_plus : (c == 43) ≡ false = ground (arith, h) in
    rw (atoi, no_space, no_minus, no_plus) refl

-- One turn of the loop, at the end of the text and before a comma.
module _ (v fuel : ℕ) (path : DrPath) (v_ok : v < 2 ^ 8) where
  hop_of : (d : Digits v) → to_u8 (atoi (d.first ∷ d.more)) ≡ v
  unfolding to_u8
  hop_of d = ap to_u8 (atoi_digits d.first d.more d.is_first ∙ ap pos d.value) ∙ omega (arith, v_ok)

  last_turn : read_hops (suc fuel) (decimal v ++ []) path ≡ push path v
  unfolding read_hops
  last_turn =
      let d = byte-Digits v v_ok in
      let e = split_end (d.first ∷ d.more) (d.is_first, d.are_digits) in
      rw (d.written, read_hops, e)
        (ap (λ text. push path (to_u8 (atoi text.0))) e ∙ ap (push path) (hop_of d))

  turn :
      (r : Text)
      → read_hops (suc fuel) (decimal v ++ (comma ∷ r)) path ≡ read_hops fuel r (push path v)
  unfolding read_hops
  turn r =
      let d = byte-Digits v v_ok in
      let e = split_comma (d.first ∷ d.more) r (d.is_first, d.are_digits) in
      rw (d.written, read_hops, e)
        (ap (λ text. read_hops fuel r (push path (to_u8 (atoi text.0)))) e
          ∙ ap (λ hop. read_hops fuel r (push path hop)) (hop_of d))

-- The hops from the i-th on, each behind a comma.
abbrev pub tail : (ℕ → ℕ) → ℕ → ℕ → Text
tail p i zero = []
tail p i (suc k) = comma ∷ (decimal (p i) ++ tail p (suc i) k)

abbrev pub before : ℕ → ℤ
before zero = negsuc 0
before (suc i) = pos i

-- `out` has the hops of `p` from the i-th to the (i + k)-th, and those of `path` before them.
pub record Reads (path : DrPath) (p : ℕ → ℕ) (i k : ℕ) (out : DrPath) : Type 0 where
  pub count : out.cnt ≡ pos (i + k)
  pub hops : (a : ℕ) → i ≤ a → a ≤ i + k → out.p a ≡ p a
  pub below : (a : ℕ) → a < i → out.p a ≡ path.p a

push-cnt : (path : DrPath) (i v : ℕ) → path.cnt ≡ before i → (push path v).cnt ≡ pos i
unfolding push increment
push-cnt path zero v h = rw h refl
push-cnt path (suc i) v h = rw h refl

push-here : (path : DrPath) (i v : ℕ) → path.cnt ≡ before i → (push path v).p i ≡ v
unfolding push
push-here path i v h =
    let e : increment path.cnt ≡ pos i = push-cnt path i v h in rw (push, e) (ground arith)

push-away : (path : DrPath) (i v a : ℕ) → path.cnt ≡ before i → a < i → (push path v).p a ≡ path.p a
unfolding push
push-away path i v a h lt =
    let e : increment path.cnt ≡ pos i = push-cnt path i v h in rw (push, e) (ground (arith, lt))

module _ (p : ℕ → ℕ) (bytes : (a : ℕ) → p a < 2 ^ 8) where
  pub read_hops-Reads :
      (k i fuel : ℕ) (path : DrPath)
      → k < fuel
      → path.cnt ≡ before i
      → Reads path p i k (read_hops fuel (decimal (p i) ++ tail p (suc i) k) path)
  read_hops-Reads k i zero path lt h = absurd (omega (arith, lt))
  read_hops-Reads zero i (suc fuel) path lt h = rw (last_turn (p i) fuel path (bytes i)) (record {
    count = push-cnt path i (p i) h ∙ ap pos (omega arith);
    hops = λ a le le'. let e : a ≡ i = omega (arith, le, le') in rw e (push-here path i (p i) h);
    below = λ a less. push-away path i (p i) a h less;
  })
  read_hops-Reads (suc k) i (suc fuel) path lt h =
      let later =
        read_hops-Reads k (suc i) fuel (push path (p i)) (omega (arith, lt))
          (push-cnt path i (p i) h) in
      rw (turn (p i) fuel path (bytes i) (decimal (p (suc i)) ++ tail p (suc (suc i)) k)) (record {
        count = later.count ∙ ap pos (omega arith);
        hops = λ a le le'. elim (Bool-cases (a == i)) [
          | inl here ↦
              let e : a ≡ i = ground (arith, here) in
              rw e (later.below i (omega arith) ∙ push-here path i (p i) h)
          | inr away ↦ later.hops a (ground (arith, away, le)) (omega (arith, le'))
        ];
        below = λ a less. later.below a (omega (arith, less)) ∙ push-away path i (p i) a h less;
      })
