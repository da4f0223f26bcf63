-- ===== src/Mad/Encode/Header.antt =====
-- What the header of an encoded request says, and when a request cannot be encoded.
use infiniband_diags.Base.{
  ℕ, ◌+◌, ◌%◌, ◌^◌, bit_and, ◌≤◌, ◌<◌, ◌≡◌, refl, ap, ◌∙◌, sym, inl, inr, ◌⊎◌, ◌↔◌, Bool-cases,
  true, false, List, [], ◌∷◌, arith, ◌==◌, Option, none, some, if◌then◌else◌,
}
use infiniband_diags.Base.Bits.{bit_and_mask}
use infiniband_diags.Base.Int.{at_least}
use infiniband_diags.Mad.Field.{Buf, IsBytes}
use infiniband_diags.Mad.Table.{ib_mad_f, mad_field, mad_get_field}
use infiniband_diags.Mad.Table.Writes.{
  Write, apply_writes, apply_writes-IsBytes, read_written, is_plain, spares, mad_get_field_cong,
}
use infiniband_diags.Mad.Wide.{mad_get_field64}
use infiniband_diags.Mad.Wide.Laws.{mad_get_field64_cong}
use infiniband_diags.Mad.Types.{DrPath, Rpc, ib_subnet_path_hops_max}
use infiniband_diags.Mad.Encode.{
  mgtclass8, is_direct, encode_first, encode_second, encode_ids, Encoded, number_request,
  encode_path, encode_class, encode_data, encode_vendor, encode_rest, mad_encode, mad_trid,
}
use infiniband_diags.Mad.Encode.Stages.{
  Keeps, class_version, response_bit, InHeader, OutsideSecond, attr_writes, numbered, attributed,
  encode_first_lem, Keeps-trans, second-Keeps, path-Keeps, class-Keeps, data-Keeps, vendor-Keeps,
  numbered-IsBytes, ids-Keeps, ids-trid, ids-first,
}
use infiniband_diags.Mad.Numbers.{
  ib_mad_method_f, ib_mad_response_f, ib_mad_classver_f, ib_mad_mgmtclass_f, ib_mad_basever_f,
  ib_mad_trid_f, ib_mad_attrid_f, ib_mad_attrmod_f,
}

-- A request is refused exactly when it is routed directly and has no path, or one with too many hops.
pub mad_encode-none_iff :
    (seed trid : ℕ) (buf : Buf) (rpc : Rpc) (drpath : Option DrPath) (payload : Option Buf)
    → (mad_encode seed trid buf rpc drpath payload ≡ none) ↔ (
        (is_direct rpc ≡ true)
        × ((drpath ≡ none)
            ⊎ ((d : DrPath) × (drpath ≡ some d) × (at_least ib_subnet_path_hops_max d.cnt ≡ true))))
unfolding mad_encode encode_second
mad_encode-none_iff seed trid buf rpc none payload =
    (λ h. (ground arith, inl refl), λ h. ground arith)
mad_encode-none_iff seed trid buf rpc (some d) payload =
    (λ h. (ground arith, inr (d, refl, ground arith)), λ h. refused h.0 h.1)
  where
    refused :
        is_direct rpc ≡ true
        → (some d ≡ none)
          ⊎ ((d' : DrPath) × (some d ≡ some d') × (at_least ib_subnet_path_hops_max d'.cnt ≡ true))
        → mad_encode seed trid buf rpc (some d) payload ≡ none
    refused direct (inl absent) = cc
    refused direct (inr (d', same, long)) = ground arith

-- The header that a request asks for.
pub record Header (rpc : Rpc) (trid : ℕ) (buf : Buf) : Type 0 where
  pub method : mad_get_field buf 0 ib_mad_method_f ≡ rpc.method % 2 ^ 7
  pub response : mad_get_field buf 0 ib_mad_response_f ≡ response_bit rpc
  pub class_ver : mad_get_field buf 0 ib_mad_classver_f ≡ class_version rpc
  pub mgmt_class : mad_get_field buf 0 ib_mad_mgmtclass_f ≡ mgtclass8 rpc
  pub base_ver : mad_get_field buf 0 ib_mad_basever_f ≡ 1
  pub number : mad_get_field64 buf 0 ib_mad_trid_f ≡ trid
  pub attr_id : mad_get_field buf 0 ib_mad_attrid_f ≡ rpc.attr_id % 2 ^ 16
  pub attr_mod : mad_get_field buf 0 ib_mad_attrmod_f ≡ rpc.attr_mod % 2 ^ 32

-- The inputs that the encoder copies are bytes, and the data lie behind the common header.
pub record IsRequest (rpc : Rpc) (drpath : Option DrPath) (payload : Option Buf) : Type 0 where
  pub path_bytes : (d : DrPath) → drpath ≡ some d → IsBytes d.p
  pub data_bytes : (d : Buf) → payload ≡ some d → IsBytes d
  pub data_behind : (d : Buf) → payload ≡ some d → 24 ≤ rpc.dataoffs
  pub status_fits : rpc.rstatus < 2 ^ 15

-- All that follows words 3 to 8 leaves the header alone.
tail-Keeps :
    (rpc : Rpc) (drpath : Option DrPath) (payload : Option Buf) (buf : Buf)
    → IsBytes buf
    → IsRequest rpc drpath payload
    → Keeps InHeader buf (
        encode_vendor rpc (encode_data rpc payload (encode_class rpc (encode_path rpc drpath buf))))
tail-Keeps rpc drpath payload buf h ok =
    let routed = path-Keeps rpc drpath buf h ok.path_bytes in
    let keyed = class-Keeps rpc _ routed.bytes in
    let filled = data-Keeps rpc payload _ keyed.bytes ok.data_bytes ok.data_behind in
    Keeps-trans InHeader _ _ _
      (Keeps-trans InHeader _ _ _ (Keeps-trans InHeader _ _ _ routed keyed) filled)
      (vendor-Keeps rpc _ filled.bytes)

low8 : (a : ℕ) → bit_and a 0xff % 2 ^ 8 ≡ bit_and a 0xff
low8 a = rw (bit_and_mask 8 a) (omega arith)

module _ (rpc : Rpc) (buf second : Buf) (bytes : IsBytes buf)
    (kept : Keeps OutsideSecond (encode_first rpc buf) second) (rpc' : Rpc) (out : Buf)
    (tail : Keeps InHeader (encode_ids rpc' second) out) where
  -- The first word at the end is the one that was written first.
  first_word : (a : ℕ) → a < 4 → out a ≡ encode_first rpc buf a
  first_word a lt =
      tail.same a (omega arith)
      ∙ (ids-first rpc' second kept.bytes a (omega arith) ∙ kept.same a (inl lt))

  read_first :
      (n v : ℕ) (before after : List Write)
      → encode_first rpc buf ≡ apply_writes (apply_writes buf before) ((n, v) ∷ after)
      → is_plain n ≡ true
      → spares n after ≡ true
      → (mad_field n).bitoffs + (mad_field n).bitlen ≤ 32
      → mad_get_field out 0 n ≡ v % 2 ^ (mad_field n).bitlen
  read_first n v before after e plain spared low =
      mad_get_field_cong out (encode_first rpc buf) n 0 4 refl refl tail.bytes
        (rw encode_first_lem (apply_writes-IsBytes buf _ bytes)) (ground (arith, plain))
        (omega arith) low (λ a lo hi. first_word a hi)
      ∙ rw e (
          read_written (apply_writes buf before) n v after (apply_writes-IsBytes buf before bytes)
            plain spared)

  read_attr :
      (n v : ℕ) (before after : List Write)
      → attributed rpc' second kept.bytes
        ≡ apply_writes (apply_writes (numbered rpc' second kept.bytes) before) ((n, v) ∷ after)
      → is_plain n ≡ true
      → spares n after ≡ true
      → 128 ≤ (mad_field n).bitoffs
      → (mad_field n).bitoffs + (mad_field n).bitlen ≤ 192
      → mad_get_field out 0 n ≡ v % 2 ^ (mad_field n).bitlen
  read_attr n v before after e plain spared low high =
      let start = numbered-IsBytes rpc' second kept.bytes in
      let stored = apply_writes-IsBytes _ (attr_writes rpc') start in
      mad_get_field_cong out (attributed rpc' second kept.bytes) n 16 24 refl refl tail.bytes stored
        (ground (arith, plain)) low high
        (λ a lo hi. tail.same a hi ∙ (ids-Keeps rpc' second kept.bytes).same a hi)
      ∙ rw e (read_written _ n v after (apply_writes-IsBytes _ before start) plain spared)

  Header-of :
      rpc'.trid < 2 ^ 64
      → rpc'.attr_id ≡ rpc.attr_id
      → rpc'.attr_mod ≡ rpc.attr_mod
      → Header rpc rpc'.trid out
  unfolding apply_writes mad_field ib_mad_f
  Header-of fits same_id same_mod =
      let m : Write = (ib_mad_method_f, rpc.method) in
      let r : Write = (ib_mad_response_f, response_bit rpc) in
      let c : Write = (ib_mad_classver_f, class_version rpc) in
      let g : Write = (ib_mad_mgmtclass_f, mgtclass8 rpc) in
      let b : Write = (ib_mad_basever_f, 1) in
      let first = encode_first_lem rpc buf in
      record {
        method =
            read_first ib_mad_method_f rpc.method [] (r ∷ c ∷ g ∷ b ∷ []) first refl refl
              (omega arith);
        response =
            read_first ib_mad_response_f (response_bit rpc) (m ∷ []) (c ∷ g ∷ b ∷ []) first refl
              refl (omega arith)
            ∙ ground arith;
        class_ver =
            read_first ib_mad_classver_f (class_version rpc) (m ∷ r ∷ []) (g ∷ b ∷ []) first refl
              refl (omega arith)
            ∙ ground arith;
        mgmt_class =
            read_first ib_mad_mgmtclass_f (mgtclass8 rpc) (m ∷ r ∷ c ∷ []) (b ∷ []) first refl refl
              (omega arith)
            ∙ low8 rpc.mgtclass;
        base_ver =
            read_first ib_mad_basever_f 1 (m ∷ r ∷ c ∷ g ∷ []) [] first refl refl (omega arith);
        number =
            mad_get_field64_cong out (encode_ids rpc' second) 0 ib_mad_trid_f
              (λ a lo hi. tail.same a (omega arith))
            ∙ ids-trid rpc' second kept.bytes fits;
        attr_id =
            read_attr ib_mad_attrid_f rpc'.attr_id [] ((ib_mad_attrmod_f, rpc'.attr_mod) ∷ []) refl
              refl refl (omega arith) (omega arith)
            ∙ ap (λ v. v % 2 ^ 16) same_id;
        attr_mod =
            read_attr ib_mad_attrmod_f rpc'.attr_mod ((ib_mad_attrid_f, rpc'.attr_id) ∷ []) [] refl
              refl refl (omega arith) (omega arith)
            ∙ ap (λ v. v % 2 ^ 32) same_mod;
      }

finished :
    (o : Option Buf) (rest : Buf → Encoded) (e : Encoded)
    → elim o [ none ↦ none | some second ↦ some (rest second) ] ≡ some e
    → (second : Buf) × (o ≡ some second) × (rest second ≡ e)
finished none rest e h = absurd (cc)
finished (some second) rest e h = (second, refl, cc)

-- Numbering changes the number alone.
record Numbered (rpc rpc' : Rpc) : Type 0 where
  same_id : rpc'.attr_id ≡ rpc.attr_id
  same_mod : rpc'.attr_mod ≡ rpc.attr_mod
  same_offs : rpc'.dataoffs ≡ rpc.dataoffs
  same_status : rpc'.rstatus ≡ rpc.rstatus
  fits : rpc.trid < 2 ^ 64 → rpc'.trid < 2 ^ 64

pub mad_trid-lt : (seed trid : ℕ) → (mad_trid seed trid).1 < 2 ^ 64
unfolding mad_trid
mad_trid-lt seed trid =
    omega (arith, bit_and_mask 32 (((if trid == 0 then seed else trid) + 1) % 2 ^ 64))

Numbered-of : (seed trid : ℕ) (rpc : Rpc) → Numbered rpc (number_request seed trid rpc).0
unfolding number_request
Numbered-of seed trid rpc = elim (Bool-cases (rpc.trid == 0)) [
  | inl zero_trid ↦ rw zero_trid (record {
    same_id = refl;
    same_mod = refl;
    same_offs = refl;
    same_status = refl;
    fits = λ h. mad_trid-lt seed trid;
  })
  | inr given ↦ rw given (record {
    same_id = refl;
    same_mod = refl;
    same_offs = refl;
    same_status = refl;
    fits = λ h. h;
  })
]

-- The header of the datagram that a request becomes: its class, method, response bit and class
-- version, and the identifier, the modifier and the 64 bits of the number that it is given.
pub mad_encode-Header :
    (seed trid : ℕ) (buf : Buf) (rpc : Rpc) (drpath : Option DrPath) (payload : Option Buf)
    (e : Encoded)
    → IsBytes buf
    → IsRequest rpc drpath payload
    → rpc.trid < 2 ^ 64
    → mad_encode seed trid buf rpc drpath payload ≡ some e
    → Header rpc e.rpc.trid e.buf
unfolding mad_encode encode_rest
mad_encode-Header seed trid buf rpc drpath payload e bytes ok fits h =
    let (second, reached, same) =
      finished (encode_second rpc drpath (encode_first rpc buf))
        (encode_rest seed trid rpc drpath payload) e h in
    let given = Numbered-of seed trid rpc in
    let rpc' = (number_request seed trid rpc).0 in
    let first_bytes : IsBytes (encode_first rpc buf) =
      rw encode_first_lem (apply_writes-IsBytes buf _ bytes) in
    let kept =
      second-Keeps rpc drpath (encode_first rpc buf) second first_bytes ok.status_fits reached in
    let asked : IsRequest rpc' drpath payload = record {
      path_bytes = ok.path_bytes;
      data_bytes = ok.data_bytes;
      data_behind = λ d h. rw given.same_offs (ok.data_behind d h);
      status_fits = rw given.same_status ok.status_fits;
    } in
    let tail =
      tail-Keeps rpc' drpath payload (encode_ids rpc' second)
        (ids-Keeps rpc' second kept.bytes).bytes asked in
    rw (sym same) (
      Header-of rpc buf second bytes kept rpc' _ tail (given.fits fits) given.same_id
        given.same_mod)

-- A request that has a number keeps it.
pub mad_encode-trid :
    (seed trid : ℕ) (buf : Buf) (rpc : Rpc) (drpath : Option DrPath) (payload : Option Buf)
    (e : Encoded)
    → (rpc.trid == 0) ≡ false
    → mad_encode seed trid buf rpc drpath payload ≡ some e
    → e.rpc.trid ≡ rpc.trid
unfolding mad_encode encode_rest number_request
mad_encode-trid seed trid buf rpc drpath payload e given h =
    let (second, reached, same) =
      finished (encode_second rpc drpath (encode_first rpc buf))
        (encode_rest seed trid rpc drpath payload) e h in
    rw (sym same, given) refl
