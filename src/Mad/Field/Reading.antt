-- ===== src/Mad/Field/Reading.antt =====
-- What each part of `_get_field` contributes to the bits of the value.
use infiniband_diags.Base.{
  ℕ, zero, suc, ◌+◌, ◌-◌, ◌*◌, ◌^◌, ◌<◌, ◌≡◌, bit_or, bit_xor, arith, ltb, if◌then◌else◌,
}
use infiniband_diags.Base.Bits.{
  testbit, testbit-or, testbit-and, testbit-le, testbit-shl, testbit-shr, testbit-mod, testbit-mask,
  testbit_of_lt,
}
use infiniband_diags.Mad.Field.{Buf, IsBytes, u32, get_bytes, get_prebits, get_postbits}
use infiniband_diags.Mad.Field.Stream.{bit_at}

module _ (p : Buf) (bytes : IsBytes p) where
  pub testbit-get_prebits :
      (pre idx i : ℕ)
      → pre < 8
      → testbit (get_prebits p pre idx) i
        ≡ (if ltb i pre then bit_at p (8 * idx + (8 - pre) + i) else 0)
  unfolding get_prebits
  testbit-get_prebits pre idx i h =
      let byte = p (bit_xor 3 idx) in
      ground (
        arith,
        testbit-shr (8 - pre) byte i,
        testbit_of_lt 8 byte (8 - pre + i) (bytes (bit_xor 3 idx)),
        testbit_of_lt 0 0 i,
      )

  pub testbit-get_postbits :
      (post idx i : ℕ)
      → post < 8
      → testbit (get_postbits p post idx) i ≡ (if ltb i post then bit_at p (8 * idx + i) else 0)
  unfolding get_postbits
  testbit-get_postbits post idx i h =
      let byte = p (bit_xor 3 idx) in
      ground (
        arith,
        testbit-and i byte (2 ^ post - 1),
        testbit-mask post i,
        testbit-le i byte,
        testbit_of_lt 0 0 i,
      )

  -- One round of the loop shifts the value up by a byte.
  testbit_round :
      (idx val i : ℕ)
      → i < 32
      → testbit (bit_or (u32 (val * 2 ^ 8)) (p (bit_xor 3 idx))) i
        ≡ (if ltb i 8 then bit_at p (8 * idx + i) else testbit val (i - 8))
  testbit_round idx val i h =
      let byte = p (bit_xor 3 idx) in
      ground (
        arith,
        testbit-or i (u32 (val * 2 ^ 8)) byte,
        testbit-mod 32 (val * 2 ^ 8) i,
        testbit-shl 8 val i,
        testbit-le i byte,
        testbit-le (i - 8) val,
        testbit_of_lt 8 byte i (bytes (bit_xor 3 idx)),
      )

  pub testbit-get_bytes :
      (n idx val i : ℕ)
      → i < 32
      → testbit (get_bytes p n (idx + n - 1) val) i
        ≡ (if ltb i (8 * n) then bit_at p (8 * idx + i) else testbit val (i - 8 * n))
  unfolding get_bytes
  testbit-get_bytes zero idx val i h = ground arith
  testbit-get_bytes (suc n) idx val i h =
      let top : idx + suc n - 1 ≡ idx + n = omega arith in
      let val' = bit_or (u32 (val * 2 ^ 8)) (p (bit_xor 3 (idx + n))) in
      rw top (
        ground (
          arith,
          testbit-get_bytes n idx val' i h,
          testbit_round (idx + n) val (i - 8 * n) (omega arith),
        ))

  -- The loop together with the bits of the last byte.
  pub testbit-get_tail :
      (n post idx i : ℕ)
      → post < 8
      → i < 32
      → testbit (get_bytes p n (idx + n - 1) (get_postbits p post (idx + n))) i
        ≡ (if ltb i (8 * n + post) then bit_at p (8 * idx + i) else 0)
  testbit-get_tail n post idx i hpost h = ground (
    arith,
    testbit-get_bytes n idx (get_postbits p post (idx + n)) i h,
    testbit-get_postbits post (idx + n) (i - 8 * n) hpost,
  )
