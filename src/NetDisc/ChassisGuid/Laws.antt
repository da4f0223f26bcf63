-- ===== src/NetDisc/ChassisGuid/Laws.antt =====
-- When two nodes have the GUID of one chassis, and the kinds of the Xsigo GUIDs.
use infiniband_diags.Base.Bits.{
  testbit, testbit-le, testbit-zero, lt-pow_of_bits, testbit_ext, testbit-and, testbit-or,
  testbit-shl, testbit-shr, testbit-mod, testbit-mask,
}
use infiniband_diags.Base.{
  ℕ, ◌+◌, ◌-◌, ◌*◌, ◌/◌, ◌%◌, ◌^◌, ◌≤◌, ◌<◌, bit_or, ◌≡◌, refl, ap, ◌⊎◌, inl, ◌↔◌, Option, none,
  some, Bool, true, false, not, ◌&&◌, ◌||◌, ltb, arith, if◌then◌else◌,
}
use infiniband_diags.Base.Masks.{high_index, bit_and_high}
use infiniband_diags.NetDisc.ChassisGuid.{
  topspin_chassisguid, ibnd_is_xsigo_guid, is_xsigo_leafone, ibnd_is_xsigo_hca, ibnd_is_xsigo_tca,
  is_xsigo_ca, is_xsigo_switch, GuidNode, system_guid, peer_chassisguid, xsigo_chassisguid,
  get_chassisguid,
}
use infiniband_diags.Mad.Field.{Buf}

topspin_bit :
    (g i : ℕ)
    → testbit (topspin_chassisguid g) i ≡ (
        if ltb i 24
        then testbit g i
        else if ltb i 32
        then 0
        else if ltb i 64
        then testbit g i
        else 0)
unfolding topspin_chassisguid
topspin_bit g i =
    let mask : bit_or ((2 ^ 32 - 1) * 2 ^ 32) (2 ^ 24 - 1) ≡ 0xffffffff00ffffff = refl in
    rw (← mask) (
      ground (
        arith,
        testbit-and i g (bit_or ((2 ^ 32 - 1) * 2 ^ 32) (2 ^ 24 - 1)),
        testbit-or i ((2 ^ 32 - 1) * 2 ^ 32) (2 ^ 24 - 1),
        testbit-shl 32 (2 ^ 32 - 1) i,
        testbit-mask 32 (i - 32),
        testbit-mask 24 i,
        testbit-le i g,
      ))

-- The bits of equal GUIDs of a chassis, above byte 4 and below it.
topspin_high :
    (a b : ℕ)
    → topspin_chassisguid a ≡ topspin_chassisguid b
    → (i : ℕ) → i < 32
    → testbit (a / 2 ^ 32 % 2 ^ 32) i ≡ testbit (b / 2 ^ 32 % 2 ^ 32) i
topspin_high a b h i lt =
    let same = ap (λ x. testbit x (32 + i)) h in
    ground (
      arith,
      same,
      topspin_bit a (32 + i),
      topspin_bit b (32 + i),
      testbit-mod 32 (a / 2 ^ 32) i,
      testbit-mod 32 (b / 2 ^ 32) i,
      testbit-shr 32 a i,
      testbit-shr 32 b i,
    )

topspin_low :
    (a b : ℕ)
    → topspin_chassisguid a ≡ topspin_chassisguid b
    → (i : ℕ) → i < 24
    → testbit (a % 2 ^ 24) i ≡ testbit (b % 2 ^ 24) i
topspin_low a b h i lt =
    let same = ap (λ x. testbit x i) h in
    ground (arith, same, topspin_bit a i, topspin_bit b i, testbit-mod 24 a i, testbit-mod 24 b i)

topspin_same :
    (a b : ℕ)
    → a / 2 ^ 32 % 2 ^ 32 ≡ b / 2 ^ 32 % 2 ^ 32
    → a % 2 ^ 24 ≡ b % 2 ^ 24
    → (i : ℕ) → testbit (topspin_chassisguid a) i ≡ testbit (topspin_chassisguid b) i
topspin_same a b high low i =
    let same_high = ap (λ x. testbit x (i - 32)) high in
    let same_low = ap (λ x. testbit x i) low in
    ground (
      arith,
      same_high,
      same_low,
      topspin_bit a i,
      topspin_bit b i,
      testbit-mod 24 a i,
      testbit-mod 24 b i,
      testbit-mod 32 (a / 2 ^ 32) (i - 32),
      testbit-mod 32 (b / 2 ^ 32) (i - 32),
      high_index a 32 i,
      high_index b 32 i,
    )

topspin-lt : (g : ℕ) → topspin_chassisguid g < 2 ^ 64
topspin-lt g = lt-pow_of_bits 64 _ λ i le. ground (arith, topspin_bit g i)

-- Two GUIDs are of one Topspin chassis exactly when their low 64 bits differ in byte 4 at most.
pub same_topspin :
    (a b : ℕ)
    → (topspin_chassisguid a ≡ topspin_chassisguid b)
      ↔ ((a / 2 ^ 32 % 2 ^ 32 ≡ b / 2 ^ 32 % 2 ^ 32) × (a % 2 ^ 24 ≡ b % 2 ^ 24))
same_topspin a b = (
  λ h. (
    testbit_ext 32 _ _ (omega arith) (omega arith) (topspin_high a b h),
    testbit_ext 24 _ _ (omega arith) (omega arith) (topspin_low a b h),
  ),
  λ h. testbit_ext 64 _ _ (topspin-lt a) (topspin-lt b) λ i lt. topspin_same a b h.0 h.1 i,
)

-- A channel adapter of Xsigo is not a switch, a host adapter is not a target adapter, a leaf is a
-- switch, and all of them have a Xsigo GUID.
pub xsigo_kinds :
    (g : ℕ)
    → ((is_xsigo_ca g && is_xsigo_switch g) ≡ false)
      × (((ibnd_is_xsigo_hca g && ibnd_is_xsigo_tca g) ≡ false)
          × (((is_xsigo_leafone g && not (is_xsigo_switch g)) ≡ false)
              × (((is_xsigo_ca g || is_xsigo_switch g) && not (ibnd_is_xsigo_guid g)) ≡ false)))
unfolding ibnd_is_xsigo_guid is_xsigo_leafone ibnd_is_xsigo_hca ibnd_is_xsigo_tca is_xsigo_switch
xsigo_kinds g =
    let wide = bit_and_high g 40 24 in
    let board = bit_and_high g 32 32 in
    let leaf = bit_and_high g 24 40 in
    (
      ground (arith, board),
      (ground (arith, board), (ground (arith, board, leaf), ground (arith, board, wide))),
    )

if_same : (b : Bool) (n : ℕ) → (if b then n else n) ≡ n
if_same true n = refl
if_same false n = refl

topspin_zero : (g i : ℕ) → 24 ≤ i → i < 32 → testbit (topspin_chassisguid g) i ≡ 0
topspin_zero g i above below = ground (arith, topspin_bit g i)

topspin_byte : (g : ℕ) → topspin_chassisguid g / 2 ^ 24 % 2 ^ 8 ≡ 0
topspin_byte g = testbit_ext 8 _ _ (omega arith) (omega arith) λ i lt.
    rw
      (
        testbit-mod 8 (topspin_chassisguid g / 2 ^ 24) i,
        testbit-shr 24 (topspin_chassisguid g) i,
        topspin_zero g (24 + i) (omega arith) (omega arith),
        testbit-zero i,
      )
      (if_same (ltb i 8) 0)

peer_byte :
    (g : ℕ) (peer : Option Buf)
    → (peer_chassisguid g peer ≡ g) ⊎ (peer_chassisguid g peer / 2 ^ 24 % 2 ^ 8 ≡ 0)
unfolding peer_chassisguid topspin_chassisguid
peer_byte g none = inl refl
peer_byte g (some peer) = ground (arith, topspin_byte (system_guid peer))

xsigo_byte :
    (node : GuidNode)
    → (xsigo_chassisguid node ≡ system_guid node.info)
      ⊎ (xsigo_chassisguid node / 2 ^ 24 % 2 ^ 8 ≡ 0)
unfolding xsigo_chassisguid topspin_chassisguid
xsigo_byte node =
    ground
      (arith, topspin_byte (system_guid node.info), peer_byte (system_guid node.info) node.peer)

-- The chassis GUID of a node is the system image GUID of its NodeInfo, or its byte 4 is 0.
pub get_chassisguid-byte :
    (node : GuidNode)
    → (get_chassisguid node ≡ system_guid node.info) ⊎ (get_chassisguid node / 2 ^ 24 % 2 ^ 8 ≡ 0)
unfolding get_chassisguid
get_chassisguid-byte node = ground (arith, topspin_byte (system_guid node.info), xsigo_byte node)
