-- ===== src/NetDisc/Portmap.antt =====
-- libibnetdisc/src/chassis.c: the number on the outside of a Voltaire board for a port of a chip.
pub mod Laws
use infiniband_diags.Base.{ℕ, ◌-◌, Bool, not, ◌&&◌, ◌||◌, List, [], ◌∷◌, ltb, ◌==◌, if◌then◌else◌}
use infiniband_diags.Mad.Field.{Buf}
use infiniband_diags.NetDisc.Chassis.{
  is_line, is_line_24, is_line_2024, is_line_4700, is_spine_4700x2, Placed, slot_at,
}

abbrev pub int2ext_map_slb24 : ℕ → List ℕ
int2ext_map_slb24 chipnum =
    if chipnum == 0
    then 0 ∷ 0 ∷ 0 ∷ 0 ∷ 0 ∷ 0 ∷ 0 ∷ 0 ∷ 0 ∷ 0 ∷ 0 ∷ 0 ∷ 0 ∷ 6 ∷ 5 ∷ 4 ∷ 18 ∷ 17 ∷ 16 ∷ 1 ∷ 2 ∷ 3
      ∷ 13 ∷ 14 ∷ 15 ∷ []
    else 0 ∷ 0 ∷ 0 ∷ 0 ∷ 0 ∷ 0 ∷ 0 ∷ 0 ∷ 0 ∷ 0 ∷ 0 ∷ 0 ∷ 0 ∷ 12 ∷ 11 ∷ 10 ∷ 24 ∷ 23 ∷ 22 ∷ 7 ∷ 8 ∷ 9
      ∷ 19 ∷ 20 ∷ 21 ∷ []

abbrev pub int2ext_map_slb8 : ℕ → List ℕ
int2ext_map_slb8 chipnum =
    if chipnum == 0
    then 0 ∷ 0 ∷ 0 ∷ 0 ∷ 0 ∷ 0 ∷ 0 ∷ 0 ∷ 0 ∷ 0 ∷ 0 ∷ 0 ∷ 0 ∷ 2 ∷ 2 ∷ 2 ∷ 6 ∷ 6 ∷ 6 ∷ 1 ∷ 1 ∷ 1 ∷ 5
      ∷ 5 ∷ 5 ∷ []
    else 0 ∷ 0 ∷ 0 ∷ 0 ∷ 0 ∷ 0 ∷ 0 ∷ 0 ∷ 0 ∷ 0 ∷ 0 ∷ 0 ∷ 0 ∷ 4 ∷ 4 ∷ 4 ∷ 8 ∷ 8 ∷ 8 ∷ 3 ∷ 3 ∷ 3 ∷ 7
      ∷ 7 ∷ 7 ∷ []

abbrev pub int2ext_map_slb2024 : ℕ → List ℕ
int2ext_map_slb2024 chipnum =
    if chipnum == 0
    then 0 ∷ 0 ∷ 0 ∷ 0 ∷ 0 ∷ 0 ∷ 0 ∷ 0 ∷ 0 ∷ 0 ∷ 0 ∷ 0 ∷ 0 ∷ 13 ∷ 14 ∷ 15 ∷ 16 ∷ 17 ∷ 18 ∷ 19 ∷ 20
      ∷ 21 ∷ 22 ∷ 23 ∷ 24 ∷ []
    else 0 ∷ 0 ∷ 0 ∷ 0 ∷ 0 ∷ 0 ∷ 0 ∷ 0 ∷ 0 ∷ 0 ∷ 0 ∷ 0 ∷ 0 ∷ 1 ∷ 2 ∷ 3 ∷ 4 ∷ 5 ∷ 6 ∷ 7 ∷ 8 ∷ 9 ∷ 10
      ∷ 11 ∷ 12 ∷ []

abbrev pub int2ext_map_slb4018 : List ℕ
int2ext_map_slb4018 =
    0 ∷ 0 ∷ 0 ∷ 0 ∷ 0 ∷ 0 ∷ 0 ∷ 0 ∷ 0 ∷ 0 ∷ 0 ∷ 0 ∷ 0 ∷ 0 ∷ 0 ∷ 0 ∷ 0 ∷ 0 ∷ 0 ∷ 1 ∷ 2 ∷ 3 ∷ 4 ∷ 5
    ∷ 6 ∷ 7 ∷ 8 ∷ 9 ∷ 10 ∷ 11 ∷ 12 ∷ 13 ∷ 14 ∷ 15 ∷ 16 ∷ 17 ∷ 18 ∷ []

abbrev pub int2ext_map_sfb4700x2 : ℕ → List ℕ
int2ext_map_sfb4700x2 chipnum =
    if chipnum == 0
    then 0 ∷ 0 ∷ 0 ∷ 0 ∷ 0 ∷ 0 ∷ 0 ∷ 0 ∷ 0 ∷ 0 ∷ 0 ∷ 0 ∷ 0 ∷ 0 ∷ 0 ∷ 0 ∷ 0 ∷ 0 ∷ 0 ∷ 7 ∷ 7 ∷ 7 ∷ 8
      ∷ 8 ∷ 8 ∷ 9 ∷ 9 ∷ 9 ∷ 10 ∷ 10 ∷ 10 ∷ 11 ∷ 11 ∷ 11 ∷ 12 ∷ 12 ∷ 12 ∷ []
    else 0 ∷ 0 ∷ 0 ∷ 0 ∷ 0 ∷ 0 ∷ 0 ∷ 0 ∷ 0 ∷ 0 ∷ 0 ∷ 0 ∷ 0 ∷ 0 ∷ 0 ∷ 0 ∷ 0 ∷ 0 ∷ 0 ∷ 1 ∷ 1 ∷ 1 ∷ 2
      ∷ 2 ∷ 2 ∷ 3 ∷ 3 ∷ 3 ∷ 4 ∷ 4 ∷ 4 ∷ 5 ∷ 5 ∷ 5 ∷ 6 ∷ 6 ∷ 6 ∷ []

-- Ports that have no place outside.
abbrev pub is_internal : Buf → (portnum : ℕ) → Bool
is_internal info portnum =
    ((is_line_4700 info || is_spine_4700x2 info) && (ltb portnum 19 || ltb 36 portnum))
    || ((not (is_line_4700 info) && not (is_spine_4700x2 info))
        && (ltb portnum 13 || ltb 24 portnum))

-- The external number of a port of a chip that passed the tests.
abbrev pub ext_port : Buf → (chipnum : ℕ) → (portnum : ℕ) → ℕ
ext_port info chipnum portnum =
    if is_line_24 info
    then slot_at (int2ext_map_slb24 chipnum) portnum
    else if is_line_2024 info
    then slot_at (int2ext_map_slb2024 chipnum) portnum
    else if is_line_4700 info
    then slot_at int2ext_map_slb4018 portnum
    else if is_spine_4700x2 info
    then slot_at (int2ext_map_sfb4700x2 chipnum) portnum
    else slot_at (int2ext_map_slb8 chipnum) portnum

-- The ext_portnum that a port of a node gets.
unfoldable pub voltaire_portmap : Placed → Buf → (portnum : ℕ) → ℕ
voltaire_portmap n info portnum =
    if not n.ch_found || (not (is_line info) && not (is_spine_4700x2 info))
    then 0
    else if is_internal info portnum
    then 0
    else if ltb n.ch_anafanum 1 || ltb 2 n.ch_anafanum
    then 0
    else ext_port info (n.ch_anafanum - 1) portnum
