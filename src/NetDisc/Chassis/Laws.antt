-- ===== src/NetDisc/Chassis/Laws.antt =====
-- The boards of a chassis: what the three placements agree on, and the range of their results.
use infiniband_diags.Base.{
  ℕ, zero, suc, ◌≤◌, ◌≡◌, ◌≢◌, refl, ◌⊎◌, Bool, true, false, ◌&&◌, List, [], ◌∷◌, leb, arith,
  if◌then◌else◌,
}
use infiniband_diags.Mad.Field.{Buf}
use infiniband_diags.NetDisc.Chassis.Slots.{
  line_slot_2_sfb4, anafa_line_slot_2_sfb4, line_slot_2_sfb12, anafa_line_slot_2_sfb12,
  line_slot_2_sfb18, anafa_line_slot_2_sfb18, line_slot_2_sfb18x2, anafa_line_slot_2_sfb18x2,
  line_slot_2_sfb4200, anafa_line_slot_2_sfb4200, spine12_slot_2_slb, anafa_spine12_slot_2_slb,
  spine4_slot_2_slb, anafa_spine4_slot_2_slb, spine18_slot_2_slb, anafa_spine18_slot_2_slb,
  anafa_spine18x2_slot_2_slb, sfb4200_slot_2_slb, anafa_sfb4200_slot_2_slb, ipr_slot_2_sfb4_port,
}
use infiniband_diags.NetDisc.Chassis.{
  is_router, is_spine, is_line, is_spine_9096, is_spine_9288, is_spine_2012, is_spine_2004,
  is_spine_4700, is_spine_4700x2, is_spine_4200, ChassisType, unresolved_ct, isr9096_ct, isr9288_ct,
  isr2012_ct, isr2004_ct, isr4700_ct, isr4200_ct, Placed, slot_at, place, guess, get_sfb_slot,
  get_slb_slot, get_router_slot,
}

-- A device is at most one of spine, line and router.
pub board_kinds :
    (info : Buf)
    → ((is_spine info && is_line info) ≡ false)
      × (((is_spine info && is_router info) ≡ false) × ((is_line info && is_router info) ≡ false))
board_kinds info = (ground arith, (ground arith, ground arith))

-- A spine, the line boards behind its ports, and, unless it is of an ISR4700 or ISR4200, the
-- routers behind its ports are placed in a chassis of one type, and that type is resolved.
pub same_chassis_type :
    (n n' n'' : Placed) (info : Buf) (guid p q r : ℕ)
    → is_spine info ≡ true
    → ((get_sfb_slot n info p).ch_type ≢ unresolved_ct)
      × (((get_slb_slot n' info q).ch_type ≡ (get_sfb_slot n info p).ch_type)
          × (((get_sfb_slot n info p).ch_type ≡ isr4700_ct)
              ⊎ (((get_sfb_slot n info p).ch_type ≡ isr4200_ct)
                  ⊎ ((get_router_slot n'' info guid r).ch_type ≡ (get_sfb_slot n info p).ch_type))))
unfolding get_slb_slot get_sfb_slot get_router_slot
same_chassis_type n n' n'' info guid p q r h =
    (ground (arith, h), (ground (arith, h), ground (arith, h)))

abbrev all_le : ℕ → List ℕ → Bool
all_le k [] = true
all_le k (x ∷ xs) = leb x k && all_le k xs

slot_at-le :
    (k : ℕ) (slots : List ℕ) (portnum : ℕ) → all_le k slots ≡ true → slot_at slots portnum ≤ k
slot_at-le k [] portnum h = omega arith
slot_at-le k (x ∷ xs) zero h = ground (arith, h)
slot_at-le k (x ∷ xs) (suc portnum) h = slot_at-le k xs portnum (ground (arith, h))

abbrev pub InRange : Placed → Type 0
InRange n = (n.ch_slotnum ≤ 18) × (n.ch_anafanum ≤ 3)

place-InRange :
    (n : Placed) (type : ChassisType) (slots chips : List ℕ) (portnum : ℕ)
    → all_le 18 slots ≡ true
    → all_le 3 chips ≡ true
    → InRange (place n type (slot_at slots portnum) (slot_at chips portnum))
place-InRange n type slots chips portnum hs hc =
    (slot_at-le 18 slots portnum hs, slot_at-le 3 chips portnum hc)

InRange-if : (b : Bool) (x y : Placed) → InRange x → InRange y → InRange (if b then x else y)
InRange-if true x y hx hy = hx
InRange-if false x y hx hy = hy

spine-InRange :
    (n : Placed) (info : Buf) (portnum : ℕ) → InRange n → InRange (get_sfb_slot n info portnum)
unfolding get_sfb_slot
spine-InRange n info portnum h =
    InRange-if (is_spine_9096 info) _ _
      (place-InRange n isr9096_ct spine4_slot_2_slb anafa_spine4_slot_2_slb portnum refl refl)
      (InRange-if (is_spine_9288 info) _ _
        (place-InRange n isr9288_ct spine12_slot_2_slb anafa_spine12_slot_2_slb portnum refl refl)
        (InRange-if (is_spine_2012 info) _ _
          (place-InRange n isr2012_ct spine12_slot_2_slb anafa_spine12_slot_2_slb portnum refl refl)
          (InRange-if (is_spine_2004 info) _ _
            (place-InRange n isr2004_ct spine4_slot_2_slb anafa_spine4_slot_2_slb portnum refl refl)
            (InRange-if (is_spine_4700 info) _ _
              (place-InRange n isr4700_ct spine18_slot_2_slb anafa_spine18_slot_2_slb portnum refl
                refl)
              (InRange-if (is_spine_4700x2 info) _ _
                (place-InRange n isr4700_ct spine18_slot_2_slb anafa_spine18x2_slot_2_slb portnum
                  refl refl)
                (InRange-if (is_spine_4200 info) _ _
                  (place-InRange n isr4200_ct sfb4200_slot_2_slb anafa_sfb4200_slot_2_slb portnum
                    refl refl)
                  (h)))))))

line-InRange :
    (n : Placed) (info : Buf) (portnum : ℕ) → InRange n → InRange (get_slb_slot n info portnum)
unfolding get_slb_slot
line-InRange n info portnum h =
    InRange-if (is_spine_9096 info) _ _
      (place-InRange n isr9096_ct line_slot_2_sfb4 anafa_line_slot_2_sfb4 portnum refl refl)
      (InRange-if (is_spine_9288 info) _ _
        (place-InRange n isr9288_ct line_slot_2_sfb12 anafa_line_slot_2_sfb12 portnum refl refl)
        (InRange-if (is_spine_2012 info) _ _
          (place-InRange n isr2012_ct line_slot_2_sfb12 anafa_line_slot_2_sfb12 portnum refl refl)
          (InRange-if (is_spine_2004 info) _ _
            (place-InRange n isr2004_ct line_slot_2_sfb4 anafa_line_slot_2_sfb4 portnum refl refl)
            (InRange-if (is_spine_4700 info) _ _
              (place-InRange n isr4700_ct line_slot_2_sfb18 anafa_line_slot_2_sfb18 portnum refl
                refl)
              (InRange-if (is_spine_4700x2 info) _ _
                (place-InRange n isr4700_ct line_slot_2_sfb18x2 anafa_line_slot_2_sfb18x2 portnum
                  refl refl)
                (InRange-if (is_spine_4200 info) _ _
                  (place-InRange n isr4200_ct line_slot_2_sfb4200 anafa_line_slot_2_sfb4200 portnum
                    refl refl)
                  (h)))))))

guess_le : (guid : ℕ) → guess guid ≤ 3
guess_le guid = ground arith

router-InRange :
    (n : Placed) (info : Buf) (guid : ℕ) (portnum : ℕ)
    → InRange n
    → InRange (get_router_slot n info guid portnum)
unfolding get_router_slot
router-InRange n info guid portnum h =
    InRange-if (is_spine_9096 info) _ _
      (place-InRange n isr9096_ct line_slot_2_sfb4 ipr_slot_2_sfb4_port portnum refl refl)
      (InRange-if (is_spine_9288 info) _ _
        (slot_at-le 18 line_slot_2_sfb12 portnum refl, guess_le guid)
        (InRange-if (is_spine_2012 info) _ _
          (slot_at-le 18 line_slot_2_sfb12 portnum refl, guess_le guid)
          (InRange-if (is_spine_2004 info) _ _
            (place-InRange n isr2004_ct line_slot_2_sfb4 ipr_slot_2_sfb4_port portnum refl refl)
            (h))))

-- Whatever the device and the port, a placement gives a slot of at most 18 and a chip of at most 3,
-- where the node had such values before.
pub placements-InRange :
    (n : Placed) (info : Buf) (guid portnum : ℕ)
    → InRange n
    → InRange (get_sfb_slot n info portnum)
      × (InRange (get_slb_slot n info portnum) × InRange (get_router_slot n info guid portnum))
unfolding get_slb_slot get_sfb_slot get_router_slot
placements-InRange n info guid portnum h = (
  spine-InRange n info portnum h,
  (line-InRange n info portnum h, router-InRange n info guid portnum h),
)
