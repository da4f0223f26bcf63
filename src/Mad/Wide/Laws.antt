-- ===== src/Mad/Wide/Laws.antt =====
-- Copies, 64-bit fields and arrays are read back as they were written.
use mathlib.Core.Path.{fun_ext}
use infiniband_diags.Base.{ℕ, ◌+◌, ◌-◌, ◌/◌, ◌^◌, ◌≤◌, ◌<◌, ◌≡◌, ◌⊎◌, ◌∙◌, arith}
use infiniband_diags.Mad.Field.{Buf, IsBytes, IbField}
use infiniband_diags.Mad.Table.{mad_field}
use infiniband_diags.Mad.Wide.{
  mad_get_field64, mad_set_field64, memcpy, htonll, ntohll, set_field64, get_field64, set_array,
  get_array,
}

pub ntohll-htonll : (val : ℕ) → val < 2 ^ 64 → ntohll (htonll val) ≡ val
unfolding ntohll htonll
ntohll-htonll val h = omega arith

memcpy_inside : (dst src : Buf) (at n k : ℕ) → k < n → memcpy dst at src n (at + k) ≡ src k
unfolding memcpy
memcpy_inside dst src at n k h = let back : at + k - at ≡ k = omega arith in rw back (ground arith)

pub memcpy_outside :
    (dst src : Buf) (at n a : ℕ) → (a < at) ⊎ (at + n ≤ a) → memcpy dst at src n a ≡ dst a
unfolding memcpy
memcpy_outside dst src at n a h = ground arith

pub memcpy-IsBytes :
    (dst src : Buf) (at n : ℕ) → IsBytes dst → IsBytes src → IsBytes (memcpy dst at src n)
unfolding memcpy
memcpy-IsBytes dst src at n hd hs a = ground (arith, hd a, hs (a - at))

pub htonll-IsBytes : (val : ℕ) → IsBytes (htonll val)
unfolding htonll
htonll-IsBytes val a = omega arith

ntohll_cong : (p q : Buf) → ((k : ℕ) → k < 8 → p k ≡ q k) → ntohll p ≡ ntohll q
unfolding ntohll
ntohll_cong p q same = omega (
  arith,
  same 0 (omega arith),
  same 1 (omega arith),
  same 2 (omega arith),
  same 3 (omega arith),
  same 4 (omega arith),
  same 5 (omega arith),
  same 6 (omega arith),
  same 7 (omega arith),
)

pub mad_set_field64-IsBytes :
    (buf : Buf) (base_offs n val : ℕ) → IsBytes buf → IsBytes (mad_set_field64 buf base_offs n val)
unfolding mad_set_field64 set_field64
mad_set_field64-IsBytes buf base_offs n val h = memcpy-IsBytes _ _ _ _ h (htonll-IsBytes val)

pub mad_get_field64_cong :
    (p q : Buf) (base_offs n : ℕ)
    → ((a : ℕ)
        → base_offs + (mad_field n).bitoffs / 8 ≤ a
        → a < base_offs + (mad_field n).bitoffs / 8 + 8
        → p a ≡ q a)
    → mad_get_field64 p base_offs n ≡ mad_get_field64 q base_offs n
unfolding mad_get_field64 get_field64
mad_get_field64_cong p q base_offs n same =
    ntohll_cong _ _ (λ k h. same _ (omega arith) (omega arith))

pub mad_set_field64_ne :
    (buf : Buf) (base_offs n val a : ℕ)
    → (a < base_offs + (mad_field n).bitoffs / 8) ⊎ (base_offs + (mad_field n).bitoffs / 8 + 8 ≤ a)
    → mad_set_field64 buf base_offs n val a ≡ buf a
unfolding mad_set_field64 set_field64
mad_set_field64_ne buf base_offs n val a h = memcpy_outside _ _ _ _ a h

pub get_field64-set_field64 :
    (buf : Buf) (base_offs : ℕ) (f : IbField) (val : ℕ)
    → val < 2 ^ 64
    → get_field64 (set_field64 buf base_offs f val) base_offs f ≡ val
unfolding set_field64 get_field64
get_field64-set_field64 buf base_offs f val h =
    ntohll_cong _ (htonll val) (memcpy_inside buf (htonll val) (base_offs + f.bitoffs / 8) 8)
    ∙ ntohll-htonll val h

pub mad_get_field64-mad_set_field64 :
    (buf : Buf) (base_offs n val : ℕ)
    → val < 2 ^ 64
    → mad_get_field64 (mad_set_field64 buf base_offs n val) base_offs n ≡ val
unfolding mad_get_field64 mad_set_field64
mad_get_field64-mad_set_field64 buf base_offs n val h =
    get_field64-set_field64 buf base_offs (mad_field n) val h

-- An array that was written is copied out unchanged.
pub get_array-set_array :
    (buf : Buf) (base_offs : ℕ) (f : IbField) (val old : Buf)
    → get_array (set_array buf base_offs f val) base_offs f old ≡ memcpy old 0 val (f.bitlen / 8)
unfolding set_array get_array memcpy
get_array-set_array buf base_offs f val old = fun_ext λ k. ground arith

-- Bytes outside the field are left alone.
pub set_field64_ne :
    (buf : Buf) (base_offs : ℕ) (f : IbField) (val x : ℕ)
    → (x < base_offs + f.bitoffs / 8) ⊎ (base_offs + f.bitoffs / 8 + 8 ≤ x)
    → set_field64 buf base_offs f val x ≡ buf x
unfolding set_field64 memcpy
set_field64_ne buf base_offs f val x h = ground arith

pub mad_get_field64-lt :
    (buf : Buf) (base_offs field : ℕ) → IsBytes buf → mad_get_field64 buf base_offs field < 2 ^ 64
unfolding mad_get_field64 get_field64 ntohll
mad_get_field64-lt buf base_offs field bytes =
    let at = base_offs + (mad_field field).bitoffs / 8 in
    omega (
      arith,
      bytes (at + 0),
      bytes (at + 1),
      bytes (at + 2),
      bytes (at + 3),
      bytes (at + 4),
      bytes (at + 5),
      bytes (at + 6),
      bytes (at + 7),
    )
