-- ===== src/Mad/Field.antt =====
-- libibmad/src/fields.c: reading and writing one bit field of a management datagram.
-- A buffer is a function from the byte's index to the byte. `int` and `unsigned` indices are
-- natural numbers: all are below the size of a datagram.
pub mod Stream
pub mod Writing
pub mod Reading
pub mod Laws
pub mod Lens
pub mod Frame
use infiniband_diags.Base.{
  ℕ, zero, suc, ◌+◌, ◌-◌, ◌*◌, ◌/◌, ◌%◌, ◌^◌, ◌<◌, bit_and, bit_or, bit_xor, Bool, ◌&&◌, ltb, ◌==◌,
  if◌then◌else◌,
}
use Prim.Native.String.{String}

abbrev pub Buf : Type 0
Buf = ℕ → ℕ

-- One byte is stored; `char` and `uint8_t` keep the low eight bits.
abbrev pub update : Buf → ℕ → ℕ → Buf
update p a v = λ x. if x == a then v else p x

abbrev pub IsBytes : Buf → Type 0
IsBytes p = (a : ℕ) → p a < 2 ^ 8

-- The `mad_dump_*` function of a field; `no_dump` is the null pointer of an empty entry.
pub data DumpFn : Type 0 where
  no_dump dump_hex dump_rhex dump_uint dump_array dump_string dump_node_type : DumpFn
  dump_mtu dump_portcapmask dump_portcapmask2 dump_linkwidth dump_linkwidthsup : DumpFn
  dump_linkwidthen dump_linkspeed dump_linkspeedsup dump_linkspeeden dump_linkspeedext : DumpFn
  dump_linkspeedextsup dump_linkspeedexten dump_portstate dump_physportstate : DumpFn
  dump_linkdowndefstate dump_vlcap dump_opervls : DumpFn

-- ib_field_t
pub record IbField : Type 0 where
  pub bitoffs : ℕ
  pub bitlen : ℕ
  pub name : String
  pub def_dump_fn : DumpFn

-- BITSOFFS's first component and BE_TO_BITSOFFS: the offset `o` of a field of `w` bits, counted
-- from the other end of its 32-bit word.
abbrev pub be_to_bitsoffs : ℕ → ℕ → ℕ
be_to_bitsoffs o w = bit_or (o / 32 * 32) (32 - bit_and o 31 - w)

-- The three ways in which the table writes an entry, and the entry `{}`.
abbrev pub bitsoffs : ℕ → ℕ → String → DumpFn → IbField
bitsoffs o w s dump = record {
  bitoffs = be_to_bitsoffs o w;
  bitlen = w;
  name = s;
  def_dump_fn = dump;
}

abbrev pub be_offs : ℕ → ℕ → String → DumpFn → IbField
be_offs o w s dump = record { bitoffs = o; bitlen = w; name = s; def_dump_fn = dump }

abbrev pub raw : ℕ → ℕ → String → DumpFn → IbField
raw o w s dump = record { bitoffs = o; bitlen = w; name = s; def_dump_fn = dump }

abbrev pub empty : IbField
empty = record { bitoffs = 0; bitlen = 0; name = ""; def_dump_fn = no_dump }

abbrev pub prebits : IbField → ℕ
prebits f = bit_and (8 - bit_and f.bitoffs 7) 7

abbrev pub postbits : IbField → ℕ
postbits f = bit_and (f.bitoffs + f.bitlen) 7

abbrev pub bytelen : IbField → ℕ
bytelen f = f.bitlen / 8

-- The field ends inside the byte where it starts.
abbrev pub within_byte : IbField → Bool
within_byte f = bytelen f == 0 && ltb (bit_and f.bitoffs 7 + f.bitlen) 8

-- `~m` stored into a byte
abbrev pub not8 : ℕ → ℕ
not8 m = 2 ^ 8 - 1 - m

abbrev pub u8 : ℕ → ℕ
u8 n = n % 2 ^ 8

abbrev pub u32 : ℕ → ℕ
u32 n = n % 2 ^ 32

-- The variables that `_set_field` carries along: the buffer, `idx` and `val`.
pub record Cursor : Type 0 where
  pub bytes : Buf
  pub idx : ℕ
  pub val : ℕ

-- p[3 ^ idx] &= keep; p[3 ^ idx] |= bits;
unfoldable pub merge_byte : Buf → ℕ → ℕ → ℕ → Buf
merge_byte p idx keep bits =
    update p (bit_xor 3 idx) (u8 (bit_or (bit_and (p (bit_xor 3 idx)) keep) bits))

-- val lsb in byte msb
unfoldable pub set_prebits : ℕ → Cursor → Cursor
set_prebits pre c = if pre == 0 then c else record {
  bytes =
      merge_byte c.bytes c.idx (2 ^ (8 - pre) - 1) (bit_and c.val (2 ^ pre - 1) * 2 ^ (8 - pre));
  idx = c.idx + 1;
  val = c.val / 2 ^ pre;
}

-- p[3 ^ idx++] = val & 0xff; val >>= 8;
unfoldable pub set_byte : Cursor → Cursor
set_byte c = record {
  bytes = update c.bytes (bit_xor 3 c.idx) (bit_and c.val 0xff);
  idx = c.idx + 1;
  val = c.val / 2 ^ 8;
}

-- BIG endian byte order
unfoldable pub set_bytes : ℕ → Cursor → Cursor
set_bytes zero c = c
set_bytes (suc n) c = set_bytes n (set_byte c)

-- val msb in byte lsb
unfoldable pub set_postbits : ℕ → Cursor → Buf
set_postbits post c =
    if post == 0 then c.bytes else merge_byte c.bytes c.idx (not8 (2 ^ post - 1)) c.val

unfoldable pub set_field_within : Buf → ℕ → IbField → ℕ → Buf
set_field_within p idx f val =
    let o = bit_and f.bitoffs 7 in
    let ones = 2 ^ f.bitlen - 1 in merge_byte p idx (not8 (ones * 2 ^ o)) (bit_and val ones * 2 ^ o)

-- _set_field
unfoldable pub set_field : Buf → ℕ → IbField → ℕ → Buf
set_field p base_offs f val =
    let idx = base_offs + f.bitoffs / 8 in
    if within_byte f
    then set_field_within p idx f val
    else set_postbits (postbits f) (
        set_bytes (bytelen f)
          (set_prebits (prebits f) (record { bytes = p; idx = idx; val = val })))

-- The loop of `_get_field`, with `n` bytes left, the highest at `idx`.
unfoldable pub get_bytes : Buf → ℕ → ℕ → ℕ → ℕ
get_bytes p zero idx val = val
get_bytes p (suc n) idx val =
    get_bytes p n (idx - 1) (bit_or (u32 (val * 2 ^ 8)) (p (bit_xor 3 idx)))

-- val lsb from byte msb
unfoldable pub get_prebits : Buf → ℕ → ℕ → ℕ
get_prebits p pre idx = if pre == 0 then 0 else p (bit_xor 3 idx) / 2 ^ (8 - pre)

-- val msb from byte lsb
unfoldable pub get_postbits : Buf → ℕ → ℕ → ℕ
get_postbits p post i = if post == 0 then 0 else bit_and (p (bit_xor 3 i)) (2 ^ post - 1)

-- _get_field
unfoldable pub get_field : Buf → ℕ → IbField → ℕ
get_field p base_offs f =
    let idx = base_offs + f.bitoffs / 8 in
    let pre = prebits f in
    let o = bit_and f.bitoffs 7 in
    if within_byte f
    then bit_and (p (bit_xor 3 idx) / 2 ^ o) (2 ^ f.bitlen - 1)
    else let idx' = if pre == 0 then idx else idx + 1 in
      let top = get_postbits p (postbits f) (base_offs + (f.bitoffs + f.bitlen) / 8) in
      let val = get_bytes p (bytelen f) (idx' + bytelen f - 1) top in
      bit_or (u32 (val * 2 ^ pre)) (get_prebits p pre idx)
