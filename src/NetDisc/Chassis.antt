-- ===== src/NetDisc/Chassis.antt =====
-- libibnetdisc/src/chassis.c and chassis.h: which board of a Voltaire chassis a node is, by its
-- device, and in which slot, by the port of the board that it is linked to.
pub mod Slots
pub mod Laws
use infiniband_diags.Base.{ℕ, ◌%◌, Bool, true, List, [], ◌∷◌, ◌||◌, get_or, ◌==◌, if◌then◌else◌}
use infiniband_diags.NetDisc.Chassis.Slots.{
  line_slot_2_sfb4, anafa_line_slot_2_sfb4, line_slot_2_sfb12, anafa_line_slot_2_sfb12,
  line_slot_2_sfb18, anafa_line_slot_2_sfb18, line_slot_2_sfb18x2, anafa_line_slot_2_sfb18x2,
  line_slot_2_sfb4200, anafa_line_slot_2_sfb4200, ipr_slot_2_sfb4_port, spine12_slot_2_slb,
  anafa_spine12_slot_2_slb, spine4_slot_2_slb, anafa_spine4_slot_2_slb, spine18_slot_2_slb,
  anafa_spine18_slot_2_slb, anafa_spine18x2_slot_2_slb, sfb4200_slot_2_slb,
  anafa_sfb4200_slot_2_slb,
}
use infiniband_diags.Mad.Field.{Buf}
use infiniband_diags.Mad.Table.{mad_get_field}
use infiniband_diags.Mad.Numbers.{ib_node_devid_f}

abbrev pub vtr_devid_ib_fc_router : ℕ
vtr_devid_ib_fc_router = 0x5a00

abbrev pub vtr_devid_ib_ip_router : ℕ
vtr_devid_ib_ip_router = 0x5a01

abbrev pub vtr_devid_slb24 : ℕ
vtr_devid_slb24 = 0x5a09

abbrev pub vtr_devid_sfb12 : ℕ
vtr_devid_sfb12 = 0x5a08

abbrev pub vtr_devid_sfb4 : ℕ
vtr_devid_sfb4 = 0x5a0b

abbrev pub vtr_devid_slb8 : ℕ
vtr_devid_slb8 = 0x5a0d

abbrev pub vtr_devid_sfb12_ddr : ℕ
vtr_devid_sfb12_ddr = 0x5a32

abbrev pub vtr_devid_sfb4_ddr : ℕ
vtr_devid_sfb4_ddr = 0x5a33

abbrev pub vtr_devid_slb24_ddr : ℕ
vtr_devid_slb24_ddr = 0x5a34

abbrev pub vtr_devid_sfb2012 : ℕ
vtr_devid_sfb2012 = 0x5a37

abbrev pub vtr_devid_slb2024 : ℕ
vtr_devid_slb2024 = 0x5a38

abbrev pub vtr_devid_sfb2004 : ℕ
vtr_devid_sfb2004 = 0x5a40

abbrev pub vtr_devid_srb2004 : ℕ
vtr_devid_srb2004 = 0x5a42

abbrev pub vtr_devid_slb4018 : ℕ
vtr_devid_slb4018 = 0x5a5b

abbrev pub vtr_devid_sfb4700 : ℕ
vtr_devid_sfb4700 = 0x5a5c

abbrev pub vtr_devid_sfb4700x2 : ℕ
vtr_devid_sfb4700x2 = 0x5a5d

abbrev pub vtr_devid_sfb4200 : ℕ
vtr_devid_sfb4200 = 0x5a60

-- The device of a node, from its NodeInfo.
abbrev pub devid : Buf → ℕ
devid info = mad_get_field info 0 ib_node_devid_f

abbrev pub is_router : Buf → Bool
is_router info = devid info == vtr_devid_ib_fc_router || devid info == vtr_devid_ib_ip_router

abbrev pub is_spine_9096 : Buf → Bool
is_spine_9096 info = devid info == vtr_devid_sfb4 || devid info == vtr_devid_sfb4_ddr

abbrev pub is_spine_9288 : Buf → Bool
is_spine_9288 info = devid info == vtr_devid_sfb12 || devid info == vtr_devid_sfb12_ddr

abbrev pub is_spine_2004 : Buf → Bool
is_spine_2004 info = devid info == vtr_devid_sfb2004

abbrev pub is_spine_2012 : Buf → Bool
is_spine_2012 info = devid info == vtr_devid_sfb2012

abbrev pub is_spine_4700 : Buf → Bool
is_spine_4700 info = devid info == vtr_devid_sfb4700

abbrev pub is_spine_4700x2 : Buf → Bool
is_spine_4700x2 info = devid info == vtr_devid_sfb4700x2

abbrev pub is_spine_4200 : Buf → Bool
is_spine_4200 info = devid info == vtr_devid_sfb4200

abbrev pub is_line_24 : Buf → Bool
is_line_24 info =
    devid info == vtr_devid_slb24
    || (devid info == vtr_devid_slb24_ddr || devid info == vtr_devid_srb2004)

abbrev pub is_line_8 : Buf → Bool
is_line_8 info = devid info == vtr_devid_slb8

abbrev pub is_line_2024 : Buf → Bool
is_line_2024 info = devid info == vtr_devid_slb2024

abbrev pub is_line_4700 : Buf → Bool
is_line_4700 info = devid info == vtr_devid_slb4018

abbrev pub is_spine : Buf → Bool
is_spine info =
    is_spine_9096 info
    || (is_spine_9288 info
        || (is_spine_2004 info
            || (is_spine_2012 info
                || (is_spine_4700 info || (is_spine_4700x2 info || is_spine_4200 info)))))

abbrev pub is_line : Buf → Bool
is_line info = is_line_24 info || (is_line_8 info || (is_line_2024 info || is_line_4700 info))

-- enum ibnd_chassis_type
pub data ChassisType : Type 0 where
  unresolved_ct isr9288_ct isr9096_ct isr2012_ct isr2004_ct isr4700_ct isr4200_ct : ChassisType

-- enum ibnd_chassis_slot_type
pub data ChassisSlot : Type 0 where
  unresolved_cs line_cs spine_cs srbd_cs : ChassisSlot

-- The chassis fields of ibnd_node_t.
pub record Placed : Type 0 where
  pub ch_type : ChassisType
  pub ch_slot : ChassisSlot
  pub ch_slotnum : ℕ
  pub ch_anafanum : ℕ
  pub ch_found : Bool

-- A table read at a port. The tables end at port 36; a read behind them, which C leaves undefined,
-- is 0 here.
abbrev pub slot_at : List ℕ → ℕ → ℕ
slot_at slots portnum = get_or slots portnum 0

abbrev pub place : Placed → ChassisType → ℕ → ℕ → Placed
place n type slotnum anafanum = record n {
  ch_type = type;
  ch_slotnum = slotnum;
  ch_anafanum = anafanum;
}

-- A node of a spine board, linked to a port of a line board.
unfoldable pub get_sfb_slot : Placed → Buf → (portnum : ℕ) → Placed
get_sfb_slot n info portnum =
    let m = record n { ch_slot = spine_cs } in
    if is_spine_9096 info
    then place m isr9096_ct (slot_at spine4_slot_2_slb portnum)
        (slot_at anafa_spine4_slot_2_slb portnum)
    else if is_spine_9288 info
    then place m isr9288_ct (slot_at spine12_slot_2_slb portnum)
        (slot_at anafa_spine12_slot_2_slb portnum)
    else if is_spine_2012 info
    then place m isr2012_ct (slot_at spine12_slot_2_slb portnum)
        (slot_at anafa_spine12_slot_2_slb portnum)
    else if is_spine_2004 info
    then place m isr2004_ct (slot_at spine4_slot_2_slb portnum)
        (slot_at anafa_spine4_slot_2_slb portnum)
    else if is_spine_4700 info
    then place m isr4700_ct (slot_at spine18_slot_2_slb portnum)
        (slot_at anafa_spine18_slot_2_slb portnum)
    else if is_spine_4700x2 info
    then place m isr4700_ct (slot_at spine18_slot_2_slb portnum)
        (slot_at anafa_spine18x2_slot_2_slb portnum)
    else if is_spine_4200 info
    then place m isr4200_ct (slot_at sfb4200_slot_2_slb portnum)
        (slot_at anafa_sfb4200_slot_2_slb portnum)
    else m

-- guessnum == 3 ? 1 : (guessnum == 1 ? 3 : 2)
abbrev pub guess : ℕ → ℕ
guess guid = if guid % 4 == 3 then 1 else if guid % 4 == 1 then 3 else 2

-- A router, linked to a port of a spine board with this NodeInfo and this node GUID.
unfoldable pub get_router_slot : Placed → Buf → (guid : ℕ) → (portnum : ℕ) → Placed
get_router_slot n info guid portnum =
    let m = record n { ch_slot = srbd_cs; ch_found = true } in
    if is_spine_9096 info
    then place m isr9096_ct (slot_at line_slot_2_sfb4 portnum)
        (slot_at ipr_slot_2_sfb4_port portnum)
    else if is_spine_9288 info
    then place m isr9288_ct (slot_at line_slot_2_sfb12 portnum) (guess guid)
    else if is_spine_2012 info
    then place m isr2012_ct (slot_at line_slot_2_sfb12 portnum) (guess guid)
    else if is_spine_2004 info
    then place m isr2004_ct (slot_at line_slot_2_sfb4 portnum)
        (slot_at ipr_slot_2_sfb4_port portnum)
    else m

-- A node of a line board, linked to a port of a spine board with this NodeInfo.
unfoldable pub get_slb_slot : Placed → Buf → (portnum : ℕ) → Placed
get_slb_slot n info portnum =
    let m = record n { ch_slot = line_cs } in
    if is_spine_9096 info
    then place m isr9096_ct (slot_at line_slot_2_sfb4 portnum)
        (slot_at anafa_line_slot_2_sfb4 portnum)
    else if is_spine_9288 info
    then place m isr9288_ct (slot_at line_slot_2_sfb12 portnum)
        (slot_at anafa_line_slot_2_sfb12 portnum)
    else if is_spine_2012 info
    then place m isr2012_ct (slot_at line_slot_2_sfb12 portnum)
        (slot_at anafa_line_slot_2_sfb12 portnum)
    else if is_spine_2004 info
    then place m isr2004_ct (slot_at line_slot_2_sfb4 portnum)
        (slot_at anafa_line_slot_2_sfb4 portnum)
    else if is_spine_4700 info
    then place m isr4700_ct (slot_at line_slot_2_sfb18 portnum)
        (slot_at anafa_line_slot_2_sfb18 portnum)
    else if is_spine_4700x2 info
    then place m isr4700_ct (slot_at line_slot_2_sfb18x2 portnum)
        (slot_at anafa_line_slot_2_sfb18x2 portnum)
    else if is_spine_4200 info
    then place m isr4200_ct (slot_at line_slot_2_sfb4200 portnum)
        (slot_at anafa_line_slot_2_sfb4200 portnum)
    else m
