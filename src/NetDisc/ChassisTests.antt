-- ===== src/NetDisc/ChassisTests.antt =====
-- The boards and the GUIDs of a chassis at concrete nodes: instances of the theorems.
use infiniband_diags.Base.{
  ◌/◌, ◌%◌, ◌^◌, ◌≡◌, ◌≢◌, refl, ◌⊎◌, ℕ, inl, ◌↔◌, true, false, not, ◌&&◌, ◌||◌, some, arith, ◌==◌,
  if◌then◌else◌,
}
use infiniband_diags.Mad.Field.{Buf, get_prebits, get_bytes, get_postbits, get_field}
use infiniband_diags.Mad.Table.{ib_mad_f, mad_field, mad_get_field}
use infiniband_diags.NetDisc.Chassis.{
  is_router, is_spine, is_line, unresolved_ct, isr4700_ct, isr4200_ct, unresolved_cs, Placed,
  get_sfb_slot, get_slb_slot, get_router_slot,
}
use infiniband_diags.NetDisc.Chassis.Laws.{
  InRange, board_kinds, same_chassis_type, placements-InRange,
}
use infiniband_diags.NetDisc.ChassisGuid.{
  topspin_chassisguid, ibnd_is_xsigo_guid, is_xsigo_leafone, ibnd_is_xsigo_hca, ibnd_is_xsigo_tca,
  is_xsigo_ca, is_xsigo_switch, GuidNode, system_guid, get_chassisguid,
}
use infiniband_diags.NetDisc.ChassisGuid.Laws.{same_topspin, xsigo_kinds, get_chassisguid-byte}
use infiniband_diags.NetDisc.Chassis.{is_line_24, line_cs, isr9288_ct}
use infiniband_diags.NetDisc.Portmap.{voltaire_portmap}
use infiniband_diags.NetDisc.Portmap.Laws.{same_external_port}

-- The NodeInfo of an sFB-4 spine board.
abbrev sfb4_info : Buf
sfb4_info = λ a. if a == 30 then 0x5a else if a == 31 then 0x0b else 0

abbrev unplaced : Placed
unplaced = record {
  ch_type = unresolved_ct;
  ch_slot = unresolved_cs;
  ch_slotnum = 0;
  ch_anafanum = 0;
  ch_found = false;
}

sfb4_is_spine : is_spine sfb4_info ≡ true
unfolding ib_mad_f mad_field mad_get_field get_field get_prebits get_bytes get_postbits
sfb4_is_spine = refl

sfb4_kinds :
    ((is_spine sfb4_info && is_line sfb4_info) ≡ false)
    × (((is_spine sfb4_info && is_router sfb4_info) ≡ false)
        × ((is_line sfb4_info && is_router sfb4_info) ≡ false))
sfb4_kinds = board_kinds sfb4_info

same_chassis_type_example :
    ((get_sfb_slot unplaced sfb4_info 3).ch_type ≢ unresolved_ct)
    × (((get_slb_slot unplaced sfb4_info 5).ch_type ≡ (get_sfb_slot unplaced sfb4_info 3).ch_type)
        × (((get_sfb_slot unplaced sfb4_info 3).ch_type ≡ isr4700_ct)
            ⊎ (((get_sfb_slot unplaced sfb4_info 3).ch_type ≡ isr4200_ct)
                ⊎ ((get_router_slot unplaced sfb4_info 7 9).ch_type
                    ≡ (get_sfb_slot unplaced sfb4_info 3).ch_type))))
same_chassis_type_example =
    same_chassis_type unplaced unplaced unplaced sfb4_info 7 3 5 9 sfb4_is_spine

sfb-InRange :
    InRange (get_sfb_slot unplaced sfb4_info 3)
    × (InRange (get_slb_slot unplaced sfb4_info 3)
        × InRange (get_router_slot unplaced sfb4_info 7 3))
sfb-InRange = placements-InRange unplaced sfb4_info 7 3 (omega arith, omega arith)

same_topspin_example :
    (topspin_chassisguid 0x0005ad0001000001 ≡ topspin_chassisguid 0x0005ad0002000001) ↔ (
      (0x0005ad0001000001 / 2 ^ 32 % 2 ^ 32 ≡ 0x0005ad0002000001 / 2 ^ 32 % 2 ^ 32)
      × (0x0005ad0001000001 % 2 ^ 24 ≡ 0x0005ad0002000001 % 2 ^ 24))
same_topspin_example = same_topspin 0x0005ad0001000001 0x0005ad0002000001

leafone_kinds :
    ((is_xsigo_ca 0x0013970200000001 && is_xsigo_switch 0x0013970200000001) ≡ false)
    × (((ibnd_is_xsigo_hca 0x0013970200000001 && ibnd_is_xsigo_tca 0x0013970200000001) ≡ false)
        × (((is_xsigo_leafone 0x0013970200000001 && not (is_xsigo_switch 0x0013970200000001))
              ≡ false)
            × (((is_xsigo_ca 0x0013970200000001 || is_xsigo_switch 0x0013970200000001)
                  && not (ibnd_is_xsigo_guid 0x0013970200000001))
                ≡ false)))
leafone_kinds = xsigo_kinds 0x0013970200000001

-- A Cisco node at location 2.
abbrev topspin_node : GuidNode
topspin_node = record {
  info = λ a.
      if a == 5
      then 5
      else if a == 6
      then 0xad
      else if a == 8
      then 2
      else if a == 34
      then 5
      else if a == 35
      then 0xad
      else 0;
  has_port1 = true;
  peer = some sfb4_info;
}

topspin_byte :
    (get_chassisguid topspin_node ≡ system_guid topspin_node.info)
    ⊎ (get_chassisguid topspin_node / 2 ^ 24 % 2 ^ 8 ≡ 0)
topspin_byte = get_chassisguid-byte topspin_node

-- An sLB-24 line board, the first of its chips.
abbrev slb24_info : Buf
slb24_info = λ a. if a == 30 then 0x5a else if a == 31 then 0x09 else 0

abbrev first_chip : Placed
first_chip = record {
  ch_type = isr9288_ct;
  ch_slot = line_cs;
  ch_slotnum = 1;
  ch_anafanum = 1;
  ch_found = true;
}

port_13_outside : voltaire_portmap first_chip slb24_info 13 ≡ 6
unfolding voltaire_portmap ib_mad_f mad_field mad_get_field get_field get_prebits get_bytes
    get_postbits
port_13_outside = refl

slb24_is_line : is_line_24 slb24_info ≡ true
unfolding ib_mad_f mad_field mad_get_field get_field get_prebits get_bytes get_postbits
slb24_is_line = refl

abbrev port : ℕ
port = 13

-- The same chip of the board in the slot below.
abbrev next_board : Placed
next_board = record first_chip { ch_slotnum = 2 }

same_external_port_example : (first_chip.ch_anafanum ≡ next_board.ch_anafanum) × (port ≡ port)
unfolding voltaire_portmap
same_external_port_example =
    same_external_port first_chip next_board slb24_info port port (inl slb24_is_line)
      (λ z. omega (arith, port_13_outside, z)) refl
