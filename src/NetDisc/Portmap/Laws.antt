-- ===== src/NetDisc/Portmap/Laws.antt =====
-- The external numbers of a line board: no two of its ports have the same.
use infiniband_diags.Base.{
  ℕ, zero, suc, ◌+◌, ◌-◌, ◌*◌, ◌≤◌, ◌<◌, ◌≡◌, ◌≢◌, refl, sym, ap, ◌∙◌, ◌⊎◌, inl, inr, Bool, true,
  false, not, ◌&&◌, ◌||◌, List, [], ◌∷◌, ltb, leb, arith, ◌==◌, if◌then◌else◌,
}
use infiniband_diags.Mad.Field.{Buf}
use infiniband_diags.NetDisc.Chassis.{
  is_line, is_line_24, is_line_2024, is_spine_4700x2, Placed, slot_at,
}
use infiniband_diags.NetDisc.Portmap.{
  int2ext_map_slb24, int2ext_map_slb2024, is_internal, ext_port, voltaire_portmap,
}

-- The place of a number in a list, and the place in the tables of two chips: 100 more behind the
-- second chip.
abbrev index_of : ℕ → ℕ → List ℕ → ℕ
index_of x k [] = 200
index_of x k (y ∷ ys) = let rest = index_of x (suc k) ys in if x == y then k else rest

abbrev place_of : (ℕ → List ℕ) → ℕ → ℕ
place_of tables x =
    if leb 200 (index_of x 0 (tables 0)) then index_of x 100 (tables 1) else index_of x 0 (tables 0)

abbrev found_back : (ℕ → ℕ) → ℕ → List ℕ → Bool
found_back f k [] = true
found_back f k (x ∷ xs) = (x == 0 || f x == k) && found_back f (suc k) xs

slot_at-found :
    (f : ℕ → ℕ) (k : ℕ) (xs : List ℕ) (i : ℕ)
    → found_back f k xs ≡ true
    → slot_at xs i ≢ 0
    → f (slot_at xs i) ≡ k + i
slot_at-found f k [] i h out = absurd (out refl)
slot_at-found f k (x ∷ xs) zero h out = ground (arith, h, out)
slot_at-found f k (x ∷ xs) (suc i) h out =
    slot_at-found f (suc k) xs i (ground (arith, h)) out ∙ omega arith

IsBoard : (ℕ → List ℕ) → Type 0
IsBoard tables =
    (found_back (place_of tables) 0 (tables 0) ≡ true)
    × (found_back (place_of tables) 100 (tables 1) ≡ true)

chip_found :
    (tables : ℕ → List ℕ) (chip i : ℕ)
    → IsBoard tables
    → chip < 2
    → slot_at (tables chip) i ≢ 0
    → place_of tables (slot_at (tables chip) i) ≡ 100 * chip + i
unfolding IsBoard
chip_found tables zero i h lt out = slot_at-found (place_of tables) 0 (tables 0) i h.0 out
chip_found tables (suc zero) i h lt out = slot_at-found (place_of tables) 100 (tables 1) i h.1 out
chip_found tables (suc (suc chip)) i h lt out = absurd (omega arith)

same_place :
    (tables : ℕ → List ℕ) (chip chip' i i' : ℕ)
    → IsBoard tables
    → chip < 2
    → chip' < 2
    → i < 100
    → i' < 100
    → slot_at (tables chip) i ≢ 0
    → slot_at (tables chip) i ≡ slot_at (tables chip') i'
    → (chip ≡ chip') × (i ≡ i')
same_place tables chip chip' i i' h lt lt' small small' out same =
    let here = chip_found tables chip i h lt out in
    let there = chip_found tables chip' i' h lt' (λ e. out (same ∙ e)) in
    let both : 100 * chip + i ≡ 100 * chip' + i' = sym here ∙ (ap (place_of tables) same ∙ there) in
    (omega arith, omega arith)

-- What a port with an external number is.
Shown : Placed → ℕ → ℕ → ℕ → Type 0
Shown n portnum ext shown =
    (1 ≤ n.ch_anafanum) × ((n.ch_anafanum ≤ 2) × ((portnum ≤ 24) × (ext ≡ shown)))

if_zero : (b : Bool) (x : ℕ) → (if b then 0 else x) ≢ 0 → (b ≡ false) × ((if b then 0 else x) ≡ x)
if_zero true x out = absurd (out refl)
if_zero false x out = (refl, refl)

Passed : Placed → Buf → ℕ → ℕ → Type 0
Passed n info portnum ext =
    ((ltb n.ch_anafanum 1 || ltb 2 n.ch_anafanum) ≡ false)
    × ((is_internal info portnum ≡ false) × (ext ≡ ext_port info (n.ch_anafanum - 1) portnum))

voltaire_portmap-Passed :
    (n : Placed) (info : Buf) (portnum : ℕ)
    → voltaire_portmap n info portnum ≢ 0
    → Passed n info portnum (voltaire_portmap n info portnum)
unfolding Passed voltaire_portmap
voltaire_portmap-Passed n info portnum out =
    let (board, e) =
      if_zero (not n.ch_found || (not (is_line info) && not (is_spine_4700x2 info))) _ out in
    let (outside, e') = if_zero (is_internal info portnum) _ (λ z. out (e ∙ z)) in
    let (chip, e'') =
      if_zero (ltb n.ch_anafanum 1 || ltb 2 n.ch_anafanum) _ (λ z. out (e ∙ (e' ∙ z))) in
    (chip, (outside, e ∙ (e' ∙ e'')))

line_24_outside :
    (info : Buf) (portnum : ℕ)
    → is_line_24 info ≡ true
    → is_internal info portnum ≡ false
    → portnum ≤ 24
line_24_outside info portnum h out = ground (arith, h, out)

line_2024_outside :
    (info : Buf) (portnum : ℕ)
    → is_line_2024 info ≡ true
    → is_internal info portnum ≡ false
    → (is_line_24 info ≡ false) × (portnum ≤ 24)
line_2024_outside info portnum h out = (ground (arith, h), ground (arith, h, out))

line_24-Shown :
    (n : Placed) (info : Buf) (portnum : ℕ)
    → is_line_24 info ≡ true
    → voltaire_portmap n info portnum ≢ 0
    → Shown n portnum
        (voltaire_portmap n info portnum)
        (slot_at (int2ext_map_slb24 (n.ch_anafanum - 1)) portnum)
unfolding Shown Passed
line_24-Shown n info portnum h out =
    let (chip, (outside, e)) = voltaire_portmap-Passed n info portnum out in
    let here : ext_port info (n.ch_anafanum - 1) portnum
        ≡ slot_at (int2ext_map_slb24 (n.ch_anafanum - 1)) portnum =
      rw h refl in
    (
      ground (arith, chip),
      (ground (arith, chip), (line_24_outside info portnum h outside, e ∙ here)),
    )

line_2024-Shown :
    (n : Placed) (info : Buf) (portnum : ℕ)
    → is_line_2024 info ≡ true
    → voltaire_portmap n info portnum ≢ 0
    → Shown n portnum
        (voltaire_portmap n info portnum)
        (slot_at (int2ext_map_slb2024 (n.ch_anafanum - 1)) portnum)
unfolding Shown Passed
line_2024-Shown n info portnum h out =
    let (chip, (outside, e)) = voltaire_portmap-Passed n info portnum out in
    let (other, small) = line_2024_outside info portnum h outside in
    let here : ext_port info (n.ch_anafanum - 1) portnum
        ≡ slot_at (int2ext_map_slb2024 (n.ch_anafanum - 1)) portnum =
      rw (other, h) refl in
    (ground (arith, chip), (ground (arith, chip), (small, e ∙ here)))

SamePort : Placed → Placed → ℕ → ℕ → Type 0
SamePort n n' p p' = (n.ch_anafanum ≡ n'.ch_anafanum) × (p ≡ p')

Shown-SamePort :
    (tables : ℕ → List ℕ) (n n' : Placed) (p p' ext ext' : ℕ)
    → IsBoard tables
    → Shown n p ext (slot_at (tables (n.ch_anafanum - 1)) p)
    → Shown n' p' ext' (slot_at (tables (n'.ch_anafanum - 1)) p')
    → ext ≢ 0
    → ext ≡ ext'
    → SamePort n n' p p'
unfolding Shown SamePort
Shown-SamePort tables n n' p p' ext ext' h s s' out same =
    let (chip, port) =
      same_place tables (n.ch_anafanum - 1) (n'.ch_anafanum - 1) p p' h (omega (arith, s.0, s.1.0))
        (omega (arith, s'.0, s'.1.0)) (omega (arith, s.1.1.0)) (omega (arith, s'.1.1.0))
        (λ z. out (s.1.1.1 ∙ z)) (sym s.1.1.1 ∙ (same ∙ s'.1.1.1)) in
    (omega (arith, s.0, s'.0, chip), port)

slb24-IsBoard : IsBoard int2ext_map_slb24
unfolding IsBoard
slb24-IsBoard = (refl, refl)

slb2024-IsBoard : IsBoard int2ext_map_slb2024
unfolding IsBoard
slb2024-IsBoard = (refl, refl)

-- On a line board of 24 ports or an sLB-2024, two ports of its chips that have the same external
-- number, other than 0 for none, are the same port of the same chip.
pub same_external_port :
    (n n' : Placed) (info : Buf) (p p' : ℕ)
    → (is_line_24 info ≡ true) ⊎ (is_line_2024 info ≡ true)
    → voltaire_portmap n info p ≢ 0
    → voltaire_portmap n info p ≡ voltaire_portmap n' info p'
    → (n.ch_anafanum ≡ n'.ch_anafanum) × (p ≡ p')
unfolding SamePort
same_external_port n n' info p p' (inl h) out same =
    Shown-SamePort int2ext_map_slb24 n n' p p' _ _ slb24-IsBoard (line_24-Shown n info p h out)
      (line_24-Shown n' info p' h (λ z. out (same ∙ z))) out same
same_external_port n n' info p p' (inr h) out same =
    Shown-SamePort int2ext_map_slb2024 n n' p p' _ _ slb2024-IsBoard
      (line_2024-Shown n info p h out) (line_2024-Shown n' info p' h (λ z. out (same ∙ z))) out same
