-- ===== src/Mad/Field/Laws.antt =====
-- `_set_field` and `_get_field` against the stream of bits: the whole effect of a write, the whole
-- result of a read, and what follows for a pair of fields.
use infiniband_diags.Base.{
  ℕ, zero, suc, ◌+◌, ◌-◌, ◌*◌, ◌/◌, ◌%◌, ◌^◌, ◌≤◌, ◌<◌, ◌≡◌, ◌∙◌, ◌⊎◌, inl, inr, bit_and, bit_or,
  bit_xor, Bool-cases, ◌&&◌, arith, ltb, leb, ◌==◌, if◌then◌else◌,
}
use infiniband_diags.Base.Bits.{
  testbit-or, testbit-and, testbit-shl, testbit-shr, testbit-mod, testbit-mask, testbit-le, testbit,
  lt-pow_of_bits, testbit_of_lt, bit_and_mask,
}
use infiniband_diags.Mad.Field.{
  Buf, IsBytes, IbField, prebits, postbits, bytelen, within_byte, not8, Cursor, merge_byte,
  set_prebits, set_byte, set_bytes, set_postbits, set_field_within, set_field, u32, get_bytes,
  get_prebits, get_postbits, get_field,
}
use infiniband_diags.Mad.Field.Reading.{testbit-get_prebits, testbit-get_tail}
use infiniband_diags.Mad.Field.Stream.{
  bit_at, start_bit, IsField, Takes, IsField-cases, prebits_lem, postbits_lem, bit_and_seven,
}
use infiniband_diags.Mad.Field.Writing.{
  bit_at-set_prebits, bit_at-set_bytes, bit_at-set_postbits, bit_at-merge_byte, merged-within,
  set_prebits-idx, testbit-set_prebits, set_bytes-idx, testbit-set_bytes,
}

bit_at-set_field_within :
    (p : Buf) (idx : ℕ) (f : IbField) (val i : ℕ)
    → f.bitoffs % 8 + f.bitlen < 8
    → bit_at (set_field_within p idx f val) i ≡ (
        if leb (8 * idx + f.bitoffs % 8) i && ltb i (8 * idx + f.bitoffs % 8 + f.bitlen)
        then testbit val (i - (8 * idx + f.bitoffs % 8))
        else bit_at p i)
unfolding set_field_within
bit_at-set_field_within p idx f val i h =
    let byte = p (bit_xor 3 idx) in
    let ones = 2 ^ f.bitlen - 1 in
    let o = f.bitoffs % 8 in
    rw bit_and_seven (
      ground (
        arith,
        bit_at-merge_byte p idx (not8 (ones * 2 ^ o)) (bit_and val ones * 2 ^ o) i,
        merged-within byte f.bitlen o val (i % 8) h,
      ))

-- Whole bytes and the last bits, from a cursor at a byte's start.
bit_at-set_tail :
    (n post : ℕ) (c : Cursor) (i : ℕ)
    → post < 8
    → (post ≡ 0) ⊎ (c.val < 2 ^ (8 * n + post))
    → bit_at (set_postbits post (set_bytes n c)) i ≡ (
        if leb (8 * c.idx) i && ltb i (8 * c.idx + 8 * n + post)
        then testbit c.val (i - 8 * c.idx)
        else bit_at c.bytes i)
bit_at-set_tail n post c i hpost fits =
    let small : (post ≡ 0) ⊎ ((set_bytes n c).val < 2 ^ post) = elim fits [
      | inl none_left ↦ inl none_left
      | inr fits' ↦ inr (
          lt-pow_of_bits post (set_bytes n c).val (λ j h.
            testbit-set_bytes n c j
            ∙ testbit_of_lt (8 * n + post) c.val (8 * n + j) fits' (omega arith)))
    ] in
    ground (
      arith,
      bit_at-set_postbits post (set_bytes n c) i hpost small,
      bit_at-set_bytes n c i,
      set_bytes-idx n c,
      testbit-set_bytes n c (i - 8 * (c.idx + n)),
    )

-- The three steps of a longer field, in terms of its parts.
bit_at-set_parts :
    (pre n post : ℕ) (c : Cursor) (i : ℕ)
    → pre < 8
    → post < 8
    → (post ≡ 0) ⊎ (c.val < 2 ^ (pre + 8 * n + post))
    → bit_at (set_postbits post (set_bytes n (set_prebits pre c))) i ≡ (
        if leb (8 * c.idx + (8 - pre) % 8) i
          && ltb i (8 * c.idx + (8 - pre) % 8 + (pre + 8 * n + post))
        then testbit c.val (i - (8 * c.idx + (8 - pre) % 8))
        else bit_at c.bytes i)
bit_at-set_parts pre n post c i hpre hpost fits =
    let c' = set_prebits pre c in
    let small : (post ≡ 0) ⊎ (c'.val < 2 ^ (8 * n + post)) = elim fits [
      | inl none_left ↦ inl none_left
      | inr fits' ↦ inr (
          lt-pow_of_bits (8 * n + post) c'.val (λ j h.
            testbit-set_prebits pre c j
            ∙ testbit_of_lt (pre + 8 * n + post) c.val (pre + j) fits' (omega arith)))
    ] in
    ground (
      arith,
      bit_at-set_tail n post c' i hpost small,
      bit_at-set_prebits pre c i hpre,
      set_prebits-idx pre c,
      testbit-set_prebits pre c (i - 8 * c'.idx),
    )

-- A write of a value that the field takes changes the bits of the field to those of the value, and no other.
pub bit_at-set_field :
    (p : Buf) (base_offs : ℕ) (f : IbField) (val i : ℕ)
    → IsField f
    → Takes f val
    → bit_at (set_field p base_offs f val) i ≡ (
        if leb (start_bit base_offs f) i && ltb i (start_bit base_offs f + f.bitlen)
        then testbit val (i - start_bit base_offs f)
        else bit_at p i)
unfolding set_field
bit_at-set_field p base_offs f val i h fits =
    let (width, kinds) = IsField-cases f h in
    elim kinds [
      | inl (yes_within, short) ↦
          rw yes_within
            (ground (arith, bit_at-set_field_within p (base_offs + f.bitoffs / 8) f val i short))
      | inr (not_within, sum) ↦
          let c : Cursor = record { bytes = p; idx = base_offs + f.bitoffs / 8; val = val } in
          let total : prebits f + 8 * bytelen f + postbits f ≡ f.bitlen =
            omega (arith, prebits_lem f, postbits_lem f) in
          let fits' : (postbits f ≡ 0) ⊎ (val < 2 ^ (prebits f + 8 * bytelen f + postbits f)) =
            elim fits [ inl small ↦ inr (rw total small) | inr cut ↦ inl (ground (arith, cut)) ] in
          rw not_within (
            ground (
              arith,
              bit_at-set_parts (prebits f) (bytelen f) (postbits f) c i
                  (omega (arith, prebits_lem f)) (omega (arith, postbits_lem f)) fits',
              total,
              prebits_lem f,
            ))
    ]

module _ (p : Buf) (bytes : IsBytes p) where
  testbit-get_parts :
      (pre n post idx i : ℕ)
      → pre < 8
      → post < 8
      → pre + 8 * n + post ≤ 32
      → let first = (if pre == 0 then idx else idx + 1) in
        testbit
          (bit_or
            (u32 (get_bytes p n (first + n - 1) (get_postbits p post (first + n)) * 2 ^ pre))
            (get_prebits p pre idx))
          i
        ≡ (if ltb i (pre + 8 * n + post) then bit_at p (8 * idx + (8 - pre) % 8 + i) else 0)
  testbit-get_parts pre n post idx i hpre hpost width =
      let first = (if pre == 0 then idx else idx + 1) in
      let top = get_postbits p post (first + n) in
      let val = get_bytes p n (first + n - 1) top in
      ground (
        arith,
        testbit-or i (u32 (val * 2 ^ pre)) (get_prebits p pre idx),
        testbit-mod 32 (val * 2 ^ pre) i,
        testbit-shl pre val i,
        testbit-get_prebits p bytes pre idx i hpre,
        testbit-get_tail p bytes n post first (i - pre) hpost,
      )

  testbit-get_within :
      (idx o len i : ℕ)
      → o + len < 8
      → testbit (bit_and (p (bit_xor 3 idx) / 2 ^ o) (2 ^ len - 1)) i
        ≡ (if ltb i len then bit_at p (8 * idx + o + i) else 0)
  testbit-get_within idx o len i h =
      let byte = p (bit_xor 3 idx) in
      ground (
        arith,
        testbit-and i (byte / 2 ^ o) (2 ^ len - 1),
        testbit-mask len i,
        testbit-shr o byte i,
        testbit-le (o + i) byte,
      )

  -- A read returns the bits of the field as a number, and no others.
  pub testbit-get_field :
      (base_offs : ℕ) (f : IbField) (i : ℕ)
      → IsField f
      → testbit (get_field p base_offs f) i
        ≡ (if ltb i f.bitlen then bit_at p (start_bit base_offs f + i) else 0)
  unfolding get_field
  testbit-get_field base_offs f i h =
      let (width, kinds) = IsField-cases f h in
      let idx = base_offs + f.bitoffs / 8 in
      elim kinds [
        | inl (yes_within, short) ↦
            rw (yes_within, bit_and_seven)
              (ground (arith, testbit-get_within idx (f.bitoffs % 8) f.bitlen i short))
        | inr (not_within, sum) ↦
            let first = (if prebits f == 0 then idx else idx + 1) in
            let last : base_offs + (f.bitoffs + f.bitlen) / 8 ≡ first + bytelen f =
              ground (arith, prebits_lem f) in
            let total : prebits f + 8 * bytelen f + postbits f ≡ f.bitlen =
              omega (arith, prebits_lem f, postbits_lem f) in
            rw (not_within, last)
              (ground (
                arith,
                testbit-get_parts (prebits f) (bytelen f) (postbits f) idx i
                    (omega (arith, prebits_lem f)) (omega (arith, postbits_lem f)) (rw total width),
                total,
                prebits_lem f,
              ))
      ]

  pub get_field-lt :
      (base_offs : ℕ) (f : IbField) → IsField f → get_field p base_offs f < 2 ^ f.bitlen
  get_field-lt base_offs f h =
      lt-pow_of_bits f.bitlen (get_field p base_offs f)
        (λ i above. ground (arith, testbit-get_field base_offs f i h))

  -- A write stores bytes.
  merge_byte-IsBytes : (idx keep bits : ℕ) → IsBytes (merge_byte p idx keep bits)
  unfolding merge_byte
  merge_byte-IsBytes idx keep bits a = ground (arith, bytes a)

set_prebits-IsBytes : (pre : ℕ) (c : Cursor) → IsBytes c.bytes → IsBytes (set_prebits pre c).bytes
unfolding set_prebits merge_byte
set_prebits-IsBytes pre c h a = ground (arith, h a)

set_byte-IsBytes : (c : Cursor) → IsBytes c.bytes → IsBytes (set_byte c).bytes
unfolding set_byte
set_byte-IsBytes c h a = ground (arith, h a, bit_and_mask 8 c.val)

set_bytes-IsBytes : (n : ℕ) (c : Cursor) → IsBytes c.bytes → IsBytes (set_bytes n c).bytes
unfolding set_bytes
set_bytes-IsBytes zero c h = h
set_bytes-IsBytes (suc n) c h = set_bytes-IsBytes n (set_byte c) (set_byte-IsBytes c h)

set_postbits-IsBytes : (post : ℕ) (c : Cursor) → IsBytes c.bytes → IsBytes (set_postbits post c)
unfolding set_postbits merge_byte
set_postbits-IsBytes post c h a = ground (arith, h a)

pub set_field-IsBytes :
    (p : Buf)
    → IsBytes p
    → (base_offs : ℕ) (f : IbField) (val : ℕ) → IsBytes (set_field p base_offs f val)
unfolding set_field set_field_within
set_field-IsBytes p bytes base_offs f val a =
    let idx = base_offs + f.bitoffs / 8 in
    let c : Cursor = record { bytes = p; idx = idx; val = val } in
    let c' = set_bytes (bytelen f) (set_prebits (prebits f) c) in
    elim (Bool-cases (within_byte f)) [
      | inl yes_within ↦ rw yes_within (merge_byte-IsBytes p bytes idx _ _ a)
      | inr not_within ↦ rw not_within (
          set_postbits-IsBytes (postbits f) c'
            (set_bytes-IsBytes (bytelen f) _ (set_prebits-IsBytes (prebits f) c bytes)) a)
    ]
