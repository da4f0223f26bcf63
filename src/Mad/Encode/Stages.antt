-- ===== src/Mad/Encode/Stages.antt =====
-- The stages of `mad_encode`: what each writes, and which bytes it leaves alone.
use infiniband_diags.Base.{
  ℕ, ◌+◌, ◌/◌, ◌%◌, ◌^◌, ◌≤◌, ◌<◌, ◌≡◌, refl, ◌∙◌, inl, inr, ◌⊎◌, Bool, Bool-cases, true, false,
  ◌||◌, List, [], ◌∷◌, arith, ◌==◌, Option, none, some, if◌then◌else◌,
}
use infiniband_diags.Base.Int.{to_u32}
use infiniband_diags.Mad.Field.{Buf, IsBytes}
use infiniband_diags.Mad.Table.{ib_mad_f, mad_field, mad_set_field}
use infiniband_diags.Mad.Table.Laws.{mad_set_field-IsBytes}
use infiniband_diags.Mad.Table.Writes.{
  Write, all_above, all_below, apply_writes, apply_writes-IsBytes, all_below_frame, all_above_frame,
  write_frame,
}
use infiniband_diags.Mad.Wide.{
  memcpy, mad_set_field64, mad_get_field64, mad_set_array, set_array, array_offs,
}
use infiniband_diags.Mad.Wide.Laws.{
  memcpy-IsBytes, memcpy_outside, mad_set_field64-IsBytes, mad_set_field64_ne, mad_get_field64_cong,
  mad_get_field64-mad_set_field64,
}
use infiniband_diags.Mad.Types.{DrPath, Rpc, ib_sa_class, ib_cc_class}
use infiniband_diags.Mad.Encode.{
  mad_is_vendor_range2, mgtclass8, is_resp, is_direct, encode_first, encode_second,
  encode_second_direct, encode_ids, encode_path, encode_path_direct, encode_class, encode_data,
  encode_vendor,
}
use infiniband_diags.Mad.Numbers.{
  ib_mad_method_f, ib_mad_response_f, ib_mad_classver_f, ib_mad_mgmtclass_f, ib_mad_basever_f,
  ib_mad_status_f, ib_drsmp_hopcnt_f, ib_drsmp_hopptr_f, ib_drsmp_status_f, ib_drsmp_direction_f,
  ib_mad_trid_f, ib_mad_attrid_f, ib_mad_attrmod_f, ib_mad_mkey_f, ib_drsmp_drdlid_f,
  ib_drsmp_drslid_f, ib_sa_compmask_f, ib_cc_cckey_f, ib_vend2_oui_f,
}

abbrev pub class_version : Rpc → ℕ
class_version rpc = if mgtclass8 rpc == ib_sa_class || mgtclass8 rpc == ib_cc_class then 2 else 1

abbrev pub response_bit : Rpc → ℕ
response_bit rpc = if is_resp rpc then 1 else 0

abbrev pub first_writes : Rpc → List Write
first_writes rpc =
    (ib_mad_method_f, rpc.method)
    ∷ (ib_mad_response_f, response_bit rpc)
    ∷ (ib_mad_classver_f, class_version rpc)
    ∷ (ib_mad_mgmtclass_f, mgtclass8 rpc)
    ∷ (ib_mad_basever_f, 1)
    ∷ []

pub encode_first_lem :
    (rpc : Rpc) (buf : Buf) → encode_first rpc buf ≡ apply_writes buf (first_writes rpc)
unfolding encode_first apply_writes
encode_first_lem rpc buf = refl

-- `q` is a buffer of bytes that agrees with `p` where `P` holds.
pub record Keeps (P : ℕ → Type 0) (p q : Buf) : Type 0 where
  pub bytes : IsBytes q
  pub same : (a : ℕ) → P a → q a ≡ p a

pub Keeps-trans : (P : ℕ → Type 0) (p q r : Buf) → Keeps P p q → Keeps P q r → Keeps P p r
Keeps-trans P p q r h k = record { bytes = k.bytes; same = λ a at. k.same a at ∙ h.same a at }

Keeps-refl : (P : ℕ → Type 0) (p : Buf) → IsBytes p → Keeps P p p
Keeps-refl P p h = record { bytes = h; same = λ a at. refl }

Keeps-if :
    (P : ℕ → Type 0) (p q r : Buf) (b : Bool)
    → Keeps P p q
    → Keeps P p r
    → Keeps P p (if b then q else r)
Keeps-if P p q r true hq hr = hq
Keeps-if P p q r false hq hr = hr

Keeps-below :
    (k : ℕ) (buf : Buf) (ws : List Write)
    → k % 4 ≡ 0
    → IsBytes buf
    → all_above k ws ≡ true
    → Keeps (λ a. a < k) buf (apply_writes buf ws)
Keeps-below k buf ws boundary h above = record {
  bytes = apply_writes-IsBytes buf ws h;
  same = λ a at. all_above_frame k boundary buf ws a h above at;
}

abbrev pub OutsideSecond : ℕ → Type 0
OutsideSecond a = (a < 4) ⊎ (8 ≤ a)

Keeps-outside :
    (buf : Buf) (ws : List Write)
    → IsBytes buf
    → all_above 4 ws ≡ true
    → all_below 8 ws ≡ true
    → Keeps OutsideSecond buf (apply_writes buf ws)
Keeps-outside buf ws h above below = record {
  bytes = apply_writes-IsBytes buf ws h;
  same = λ a. elim [
    | inl lt ↦ all_above_frame 4 refl buf ws a h above lt
    | inr le ↦ all_below_frame 8 refl buf ws a h below le
  ];
}

-- The status of a directed route packet has 15 bits, and its writer does not cut it off.
status-Keeps :
    (buf : Buf) (v : ℕ)
    → IsBytes buf
    → v < 2 ^ 15
    → Keeps OutsideSecond buf (mad_set_field buf 0 ib_drsmp_status_f v)
unfolding mad_field ib_mad_f
status-Keeps buf v h fits = record {
  bytes = mad_set_field-IsBytes buf 0 ib_drsmp_status_f v h;
  same = λ a. elim [
    | inl lt ↦
        write_frame 4 refl buf ib_drsmp_status_f v a h (omega arith, inl fits)
          (inr (lt, omega arith))
    | inr le ↦
        write_frame 8 refl buf ib_drsmp_status_f v a h (omega arith, inl fits)
          (inl (le, omega arith))
  ];
}

second_direct-Keeps :
    (rpc : Rpc) (drpath : DrPath) (buf : Buf)
    → IsBytes buf
    → rpc.rstatus < 2 ^ 15
    → Keeps OutsideSecond buf (encode_second_direct rpc drpath buf)
unfolding encode_second_direct apply_writes mad_field ib_mad_f
second_direct-Keeps rpc drpath buf h fits =
    let cnt = to_u32 drpath.cnt in
    let hops : List Write =
      (ib_drsmp_hopcnt_f, cnt)
      ∷ (ib_drsmp_hopptr_f, if is_resp rpc then (cnt + 1) % 2 ^ 32 else 0)
      ∷ [] in
    let direction : List Write = (ib_drsmp_direction_f, if is_resp rpc then 1 else 0) ∷ [] in
    let first = Keeps-outside buf hops h refl refl in
    let status = status-Keeps (apply_writes buf hops) rpc.rstatus first.bytes fits in
    Keeps-trans _ _ _ _ first
      (Keeps-trans _ _ _ _ status (Keeps-outside _ direction status.bytes refl refl))

encode_second-cases :
    (rpc : Rpc) (drpath : Option DrPath) (buf second : Buf)
    → encode_second rpc drpath buf ≡ some second
    → (second ≡ mad_set_field buf 0 ib_mad_status_f rpc.rstatus)
      ⊎ ((d : DrPath) × (second ≡ encode_second_direct rpc d buf))
unfolding encode_second
encode_second-cases rpc none buf second e = inl (ground arith)
encode_second-cases rpc (some d) buf second e = elim (Bool-cases (is_direct rpc)) [
  | inl direct ↦ inr (d, ground arith)
  | inr routed ↦ inl (ground arith)
]

-- The second word leaves the others alone.
pub second-Keeps :
    (rpc : Rpc) (drpath : Option DrPath) (buf second : Buf)
    → IsBytes buf
    → rpc.rstatus < 2 ^ 15
    → encode_second rpc drpath buf ≡ some second
    → Keeps OutsideSecond buf second
unfolding apply_writes mad_field ib_mad_f
second-Keeps rpc drpath buf second h fits e = elim (encode_second-cases rpc drpath buf second e) [
  | inl routed ↦ rw routed (Keeps-outside buf ((ib_mad_status_f, rpc.rstatus) ∷ []) h refl refl)
  | inr (d, direct) ↦ rw direct (second_direct-Keeps rpc d buf h fits)
]

-- Words 9 and above.
abbrev pub InHeader : ℕ → Type 0
InHeader a = a < 24

copy-Keeps :
    (buf src : Buf) (at n : ℕ)
    → IsBytes buf
    → IsBytes src
    → 24 ≤ at
    → Keeps InHeader buf (memcpy buf at src n)
copy-Keeps buf src at n h k le = record {
  bytes = memcpy-IsBytes buf src at n h k;
  same = λ a lt. memcpy_outside buf src at n a (inl (omega arith));
}

pub path-Keeps :
    (rpc : Rpc) (drpath : Option DrPath) (buf : Buf)
    → IsBytes buf
    → ((d : DrPath) → drpath ≡ some d → IsBytes d.p)
    → Keeps InHeader buf (encode_path rpc drpath buf)
unfolding apply_writes encode_path encode_path_direct mad_set_array set_array array_offs mad_field
    ib_mad_f
path-Keeps rpc none buf h hd = Keeps-refl InHeader buf h
path-Keeps rpc (some d) buf h hd =
    let dlid = (if d.drdlid == 0 then 0xffff else d.drdlid) in
    let slid = (if d.drslid == 0 then 0xffff else d.drslid) in
    let lids : List Write = (ib_drsmp_drdlid_f, dlid) ∷ (ib_drsmp_drslid_f, slid) ∷ [] in
    let routed = Keeps-below 24 buf lids refl h refl in
    let bytes = hd d refl in
    Keeps-if InHeader buf _ buf (is_direct rpc)
      (Keeps-if InHeader buf _ _ (is_resp rpc)
        (Keeps-trans InHeader buf _ _ routed
          (copy-Keeps (apply_writes buf lids) d.p 192 64 routed.bytes bytes (omega arith)))
        (Keeps-trans InHeader buf _ _ routed
          (copy-Keeps (apply_writes buf lids) d.p 128 64 routed.bytes bytes (omega arith))))
      (Keeps-refl InHeader buf h)

set64-Keeps :
    (buf : Buf) (n val : ℕ)
    → IsBytes buf
    → 24 ≤ (mad_field n).bitoffs / 8
    → Keeps InHeader buf (mad_set_field64 buf 0 n val)
set64-Keeps buf n val h le = record {
  bytes = mad_set_field64-IsBytes buf 0 n val h;
  same = λ a lt. mad_set_field64_ne buf 0 n val a (inl (omega arith));
}

pub class-Keeps : (rpc : Rpc) (buf : Buf) → IsBytes buf → Keeps InHeader buf (encode_class rpc buf)
unfolding encode_class mad_field ib_mad_f
class-Keeps rpc buf h =
    let masked =
      Keeps-if InHeader buf _ buf (mgtclass8 rpc == ib_sa_class)
        (set64-Keeps buf ib_sa_compmask_f rpc.mask h (omega arith)) (Keeps-refl InHeader buf h) in
    Keeps-if InHeader buf _ _ (mgtclass8 rpc == ib_cc_class)
      (Keeps-trans InHeader buf _ _ masked
        (set64-Keeps _ ib_cc_cckey_f rpc.cckey masked.bytes (omega arith)))
      masked

pub data-Keeps :
    (rpc : Rpc) (payload : Option Buf) (buf : Buf)
    → IsBytes buf
    → ((d : Buf) → payload ≡ some d → IsBytes d)
    → ((d : Buf) → payload ≡ some d → 24 ≤ rpc.dataoffs)
    → Keeps InHeader buf (encode_data rpc payload buf)
unfolding encode_data
data-Keeps rpc none buf h hd le = Keeps-refl InHeader buf h
data-Keeps rpc (some d) buf h hd le =
    copy-Keeps buf d rpc.dataoffs rpc.datasz h (hd d refl) (le d refl)

pub vendor-Keeps :
    (rpc : Rpc) (buf : Buf) → IsBytes buf → Keeps InHeader buf (encode_vendor rpc buf)
unfolding encode_vendor apply_writes mad_field ib_mad_f
vendor-Keeps rpc buf h = elim (Bool-cases (mad_is_vendor_range2 (mgtclass8 rpc))) [
  | inl vendor ↦ rw vendor (Keeps-below 24 buf ((ib_vend2_oui_f, rpc.oui) ∷ []) refl h refl)
  | inr other ↦ rw other (Keeps-refl InHeader buf h)
]

-- Words 3 to 8: the two numbers that the header carries, and what stays of the words before them.
abbrev pub attr_writes : Rpc → List Write
attr_writes rpc = (ib_mad_attrid_f, rpc.attr_id) ∷ (ib_mad_attrmod_f, rpc.attr_mod) ∷ []

module _ (rpc : Rpc) (buf : Buf) (h : IsBytes buf) where
  abbrev pub numbered : Buf
  numbered = mad_set_field64 buf 0 ib_mad_trid_f rpc.trid

  pub numbered-IsBytes : IsBytes numbered
  numbered-IsBytes = mad_set_field64-IsBytes buf 0 ib_mad_trid_f rpc.trid h

  abbrev pub attributed : Buf
  attributed = apply_writes numbered (attr_writes rpc)

  pub ids_lem : encode_ids rpc buf ≡ mad_set_field64 attributed 0 ib_mad_mkey_f rpc.mkey
  unfolding encode_ids apply_writes
  ids_lem = refl

  pub ids-Keeps : Keeps InHeader attributed (encode_ids rpc buf)
  unfolding mad_field ib_mad_f
  ids-Keeps = rw ids_lem (
      set64-Keeps attributed ib_mad_mkey_f rpc.mkey
        (apply_writes-IsBytes numbered (attr_writes rpc) numbered-IsBytes) (omega arith))

  pub ids-trid : rpc.trid < 2 ^ 64 → mad_get_field64 (encode_ids rpc buf) 0 ib_mad_trid_f ≡ rpc.trid
  unfolding mad_field ib_mad_f
  ids-trid fits =
      mad_get_field64_cong _ numbered 0 ib_mad_trid_f (λ a lo hi.
        ids-Keeps.same a (omega arith)
        ∙ all_above_frame 16 refl numbered (attr_writes rpc) a numbered-IsBytes refl (omega arith))
      ∙ mad_get_field64-mad_set_field64 buf 0 ib_mad_trid_f rpc.trid fits

  pub ids-first : (a : ℕ) → a < 8 → encode_ids rpc buf a ≡ buf a
  unfolding mad_field ib_mad_f
  ids-first a lt =
      ids-Keeps.same a (omega arith)
      ∙ (all_above_frame 16 refl numbered (attr_writes rpc) a numbered-IsBytes refl (omega arith)
          ∙ mad_set_field64_ne buf 0 ib_mad_trid_f rpc.trid a (inl (omega arith)))
