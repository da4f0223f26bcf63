-- ===== src/Mad/Table/Writes.antt =====
-- A run of `mad_set_field` calls: which reads it leaves alone, and what is read back after it.
use native.Mathlib.Nat.{one-le-pow}
use infiniband_diags.Base.Bits.{xor_three}
use infiniband_diags.Base.{
  ℕ, ◌+◌, ◌*◌, ◌/◌, ◌%◌, ◌^◌, ◌≤◌, ◌<◌, ◌≡◌, refl, ◌∙◌, inl, inr, ◌⊎◌, Bool, true, ◌&&◌, ◌||◌, List,
  [], ◌∷◌, bit_xor, arith, leb, ◌==◌,
}
use infiniband_diags.Mad.Field.{Buf, IsBytes, within_byte, postbits}
use infiniband_diags.Mad.Field.Lens.{AreDisjoint}
use infiniband_diags.Mad.Field.Frame.{get_field_cong, set_field_frame}
use infiniband_diags.Mad.Table.{mad_field, mad_get_field, mad_set_field}
use infiniband_diags.Mad.Table.Checks.{mad_field-IsField}
use infiniband_diags.Mad.Table.Laws.{
  IsShort, Fits, mad_set_field_disjoint, mad_get_field-mad_set_field, mad_set_field-IsBytes,
}

abbrev pub Write : Type 0
Write = ℕ × ℕ

unfoldable pub apply_writes : Buf → List Write → Buf
apply_writes buf [] = buf
apply_writes buf ((field, val) ∷ ws) = apply_writes (mad_set_field buf 0 field val) ws

-- The field is short, and its writer cuts values off.
abbrev pub is_plain : ℕ → Bool
is_plain m =
    leb (mad_field m).bitlen 32 && (within_byte (mad_field m) || postbits (mad_field m) == 0)

abbrev pub are_apart : ℕ → ℕ → Bool
are_apart n m =
    leb ((mad_field n).bitoffs + (mad_field n).bitlen) (mad_field m).bitoffs
    || leb ((mad_field m).bitoffs + (mad_field m).bitlen) (mad_field n).bitoffs

-- Every write of the run is of such a field, and none meets field `n`.
abbrev pub spares : ℕ → List Write → Bool
spares n [] = true
spares n ((m, v) ∷ ws) = is_plain m && (are_apart n m && spares n ws)

-- The bits of every write end by byte `k`, or begin at byte `k`.
abbrev pub all_below : ℕ → List Write → Bool
all_below k [] = true
all_below k ((m, v) ∷ ws) =
    is_plain m && (leb ((mad_field m).bitoffs + (mad_field m).bitlen) (8 * k) && all_below k ws)

abbrev pub all_above : ℕ → List Write → Bool
all_above k [] = true
all_above k ((m, v) ∷ ws) = is_plain m && (leb (8 * k) (mad_field m).bitoffs && all_above k ws)

plain-Fits : (m v : ℕ) → is_plain m ≡ true → IsShort m × Fits m v
plain-Fits m v h = (ground arith, inr (ground arith))

pub apply_writes-IsBytes :
    (buf : Buf) (ws : List Write) → IsBytes buf → IsBytes (apply_writes buf ws)
unfolding apply_writes
apply_writes-IsBytes buf [] h = h
apply_writes-IsBytes buf ((m, v) ∷ ws) h =
    apply_writes-IsBytes (mad_set_field buf 0 m v) ws (mad_set_field-IsBytes buf 0 m v h)

pub read_spared :
    (buf : Buf) (n : ℕ) (ws : List Write)
    → IsBytes buf
    → IsShort n
    → spares n ws ≡ true
    → mad_get_field (apply_writes buf ws) 0 n ≡ mad_get_field buf 0 n
unfolding apply_writes
read_spared buf n [] bytes short h = refl
read_spared buf n ((m, v) ∷ ws) bytes short h =
    let plain : is_plain m ≡ true = ground (arith, h) in
    let rest : spares n ws ≡ true = ground (arith, h) in
    let apart : AreDisjoint 0 (mad_field m) 0 (mad_field n) = ground (arith, h) in
    let fits = plain-Fits m v plain in
    read_spared (mad_set_field buf 0 m v) n ws (mad_set_field-IsBytes buf 0 m v bytes) short rest
    ∙ (mad_set_field_disjoint buf 0 m bytes fits.0 0 n v 0 short apart fits.1
        (inl (one-le-pow (mad_field n).bitlen 2 (omega arith)))).0

-- The value of the last write of a field is read back after the run.
pub read_written :
    (buf : Buf) (n v : ℕ) (ws : List Write)
    → IsBytes buf
    → is_plain n ≡ true
    → spares n ws ≡ true
    → mad_get_field (apply_writes buf ((n, v) ∷ ws)) 0 n ≡ v % 2 ^ (mad_field n).bitlen
unfolding apply_writes
read_written buf n v ws bytes plain h =
    let (short, fits) = plain-Fits n v plain in
    read_spared (mad_set_field buf 0 n v) n ws (mad_set_field-IsBytes buf 0 n v bytes) short h
    ∙ mad_get_field-mad_set_field buf 0 n bytes short v fits

-- `k` is a word boundary.
module _ (k : ℕ) (boundary : k % 4 ≡ 0) where
  pub write_frame :
      (buf : Buf) (m v a : ℕ)
      → IsBytes buf
      → IsShort m × Fits m v
      → ((k ≤ a) × ((mad_field m).bitoffs + (mad_field m).bitlen ≤ 8 * k)
          ⊎ (a < k) × (8 * k ≤ (mad_field m).bitoffs))
      → mad_set_field buf 0 m v a ≡ buf a
  unfolding mad_set_field
  write_frame buf m v a bytes fits side =
      set_field_frame buf 0 (mad_field m) v a bytes (mad_field-IsField m fits.0) fits.1
        (ground (arith, xor_three a, side))

  pub all_below_frame :
      (buf : Buf) (ws : List Write) (a : ℕ)
      → IsBytes buf
      → all_below k ws ≡ true
      → k ≤ a
      → apply_writes buf ws a ≡ buf a
  unfolding apply_writes
  all_below_frame buf [] a bytes h le = refl
  all_below_frame buf ((m, v) ∷ ws) a bytes h le =
      all_below_frame (mad_set_field buf 0 m v) ws a (mad_set_field-IsBytes buf 0 m v bytes)
        (ground (arith, h)) le
      ∙ write_frame buf m v a bytes (plain-Fits m v (ground (arith, h)))
          (inl (le, ground (arith, h)))

  pub all_above_frame :
      (buf : Buf) (ws : List Write) (a : ℕ)
      → IsBytes buf
      → all_above k ws ≡ true
      → a < k
      → apply_writes buf ws a ≡ buf a
  unfolding apply_writes
  all_above_frame buf [] a bytes h lt = refl
  all_above_frame buf ((m, v) ∷ ws) a bytes h lt =
      all_above_frame (mad_set_field buf 0 m v) ws a (mad_set_field-IsBytes buf 0 m v bytes)
        (ground (arith, h)) lt
      ∙ write_frame buf m v a bytes (plain-Fits m v (ground (arith, h)))
          (inr (lt, ground (arith, h)))

-- A read depends only on the bytes of its words.
pub mad_get_field_cong :
    (p q : Buf) (n lo hi : ℕ)
    → lo % 4 ≡ 0
    → hi % 4 ≡ 0
    → IsBytes p
    → IsBytes q
    → IsShort n
    → 8 * lo ≤ (mad_field n).bitoffs
    → (mad_field n).bitoffs + (mad_field n).bitlen ≤ 8 * hi
    → ((a : ℕ) → lo ≤ a → a < hi → p a ≡ q a)
    → mad_get_field p 0 n ≡ mad_get_field q 0 n
unfolding mad_get_field
mad_get_field_cong p q n lo hi hlo hhi hp hq short from to same =
    get_field_cong p q 0 (mad_field n) hp hq (mad_field-IsField n short) λ i h h'.
      same (bit_xor 3 (i / 8)) (omega (arith, xor_three (i / 8))) (omega (arith, xor_three (i / 8)))
