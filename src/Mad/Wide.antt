-- ===== src/Mad/Wide.antt =====
-- libibmad/src/fields.c: fields of 64 bits and fields that are arrays of bytes, which are copied by
-- `memcpy`; and the encoder and decoder that choose by a field's width.
pub mod Laws
pub mod Codec
use infiniband_diags.Base.{
  ℕ, zero, suc, ◌+◌, ◌-◌, ◌*◌, ◌/◌, ◌%◌, ◌^◌, Bool, ◌&&◌, ltb, leb, ◌==◌, if◌then◌else◌,
}
use infiniband_diags.Mad.Field.{Buf, IbField, be_to_bitsoffs, u8, u32, update, set_field, get_field}
use infiniband_diags.Mad.Table.{mad_field}

-- memcpy(dst + at, src, n); the regions do not overlap.
unfoldable pub memcpy : Buf → ℕ → Buf → ℕ → Buf
memcpy dst at src n = λ x. if leb at x && ltb x (at + n) then src (x - at) else dst x

-- The memory image of htonll(val): the highest byte comes first.
unfoldable pub htonll : ℕ → Buf
htonll val = λ k. u8 (val / 2 ^ (8 * (7 - k)))

-- ntohll of the eight bytes at `src`
unfoldable pub ntohll : Buf → ℕ
ntohll src =
    src 0 * 2 ^ 56
    + src 1 * 2 ^ 48
    + src 2 * 2 ^ 40
    + src 3 * 2 ^ 32
    + src 4 * 2 ^ 24
    + src 5 * 2 ^ 16
    + src 6 * 2 ^ 8
    + src 7

-- _set_field64
unfoldable pub set_field64 : Buf → ℕ → IbField → ℕ → Buf
set_field64 buf base_offs f val = memcpy buf (base_offs + f.bitoffs / 8) (htonll val) 8

-- _get_field64
unfoldable pub get_field64 : Buf → ℕ → IbField → ℕ
get_field64 buf base_offs f = ntohll (λ k. buf (base_offs + f.bitoffs / 8 + k))

unfoldable pub array_offs : IbField → ℕ
array_offs f = if ltb f.bitlen 32 then be_to_bitsoffs f.bitoffs f.bitlen else f.bitoffs

-- _set_array: field must be byte aligned
unfoldable pub set_array : Buf → ℕ → IbField → Buf → Buf
set_array buf base_offs f val = memcpy buf (base_offs + array_offs f / 8) val (f.bitlen / 8)

-- _get_array
unfoldable pub get_array : Buf → ℕ → IbField → Buf → Buf
get_array buf base_offs f val =
    memcpy val 0 (λ k. buf (base_offs + array_offs f / 8 + k)) (f.bitlen / 8)

unfoldable pub mad_get_field64 : Buf → ℕ → ℕ → ℕ
mad_get_field64 buf base_offs field = get_field64 buf base_offs (mad_field field)

unfoldable pub mad_set_field64 : Buf → ℕ → ℕ → ℕ → Buf
mad_set_field64 buf base_offs field val = set_field64 buf base_offs (mad_field field) val

unfoldable pub mad_set_array : Buf → ℕ → ℕ → Buf → Buf
mad_set_array buf base_offs field val = set_array buf base_offs (mad_field field) val

unfoldable pub mad_get_array : Buf → ℕ → ℕ → Buf → Buf
mad_get_array buf base_offs field val = get_array buf base_offs (mad_field field) val

-- What `void *val` points at: one of the C types that the two functions below read or write.
-- `int_val` holds the four bytes of an `int` as they lie in memory.
pub data Value : Type 0 where
  int_val : Buf → Value
  u32_val : ℕ → Value
  u64_val : ℕ → Value
  array_val : Buf → Value

-- mad_decode_field. The array is copied over `old`, what `val` held before.
unfoldable pub mad_decode_field : Buf → ℕ → Buf → Value
mad_decode_field buf field old =
    let f = mad_field field in
    if field == 0
    then int_val (memcpy old 0 buf 4)
    else if leb f.bitlen 32
    then u32_val (get_field buf 0 f)
    else if f.bitlen == 64
    then u64_val (get_field64 buf 0 f)
    else array_val (get_array buf 0 f old)

-- The object that `val` points at, read as each type. A value of another type than the field's is
-- misuse that C leaves undefined; it is read as zeros here.
unfoldable pub as_u32 : Value → ℕ
as_u32 (u32_val n) = n
as_u32 _ = 0

unfoldable pub as_u64 : Value → ℕ
as_u64 (u64_val n) = n
as_u64 _ = 0

unfoldable pub as_bytes : Value → Buf
as_bytes (int_val b) = b
as_bytes (array_val b) = b
as_bytes _ = λ _. 0

-- mad_encode_field
unfoldable pub mad_encode_field : Buf → ℕ → Value → Buf
mad_encode_field buf field val =
    let f = mad_field field in
    if field == 0
    then memcpy buf 0 (as_bytes val) 4
    else if leb f.bitlen 32
    then set_field buf 0 f (as_u32 val)
    else if f.bitlen == 64
    then set_field64 buf 0 f (as_u64 val)
    else set_array buf 0 f (as_bytes val)
