-- ===== src/Mad/Wide/Codec.antt =====
-- `mad_encode_field` and `mad_decode_field`, over the whole table.
use native.Mathlib.Nat.{mod-eq_of_lt}
use infiniband_diags.Base.{ℕ, ◌/◌, ◌^◌, ◌≤◌, ◌<◌, ◌≡◌, ◌≢◌, inl, arith}
use infiniband_diags.Mad.Field.{Buf, IsBytes, IbField}
use infiniband_diags.Mad.Field.Lens.{get_field-set_field}
use infiniband_diags.Mad.Table.{mad_field}
use infiniband_diags.Mad.Table.Checks.{mad_field-IsField}
use infiniband_diags.Mad.Wide.{
  memcpy, Value, u32_val, u64_val, array_val, mad_decode_field, mad_encode_field, as_u32, as_u64,
  as_bytes,
}
use infiniband_diags.Mad.Wide.Laws.{get_field64-set_field64, get_array-set_array}

-- The values of a field: a number that fits, or an array.
pub data IsValueOf (f : IbField) : Value → Type 0 where
  word : (n : ℕ) → f.bitlen ≤ 32 → n < 2 ^ f.bitlen → IsValueOf f (u32_val n)
  dword : (n : ℕ) → f.bitlen ≡ 64 → n < 2 ^ 64 → IsValueOf f (u64_val n)
  bytes : (b : Buf) → 32 < f.bitlen → f.bitlen ≢ 64 → IsValueOf f (array_val b)

-- What the decoder leaves in `val`: of an array, as many bytes as the field has.
unfoldable pub copied : IbField → Buf → Value → Value
copied f old (array_val b) = array_val (memcpy old 0 b (f.bitlen / 8))
copied f old v = v

-- For each field of the table other than IB_NO_FIELD, a value of the field that was encoded into
-- a buffer of bytes is what the decoder reads from it.
pub mad_decode_field-mad_encode_field :
    (buf old : Buf) (field : ℕ) (v : Value)
    → IsBytes buf
    → field ≢ 0
    → IsValueOf (mad_field field) v
    → mad_decode_field (mad_encode_field buf field v) field old ≡ copied (mad_field field) old v
unfolding mad_decode_field mad_encode_field copied as_u32 as_u64 as_bytes
mad_decode_field-mad_encode_field buf old field v is_bytes set (word n short fits) = ground (
  arith,
  get_field-set_field buf is_bytes 0 (mad_field field) (mad_field-IsField field short) n (inl fits),
  mod-eq_of_lt fits,
)
mad_decode_field-mad_encode_field buf old field v is_bytes set (dword n wide fits) =
    ground (arith, get_field64-set_field64 buf 0 (mad_field field) n fits)
mad_decode_field-mad_encode_field buf old field v is_bytes set (bytes b wide ne) =
    ground (arith, get_array-set_array buf 0 (mad_field field) b old)
