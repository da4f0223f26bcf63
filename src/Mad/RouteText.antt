-- ===== src/Mad/RouteText.antt =====
-- libibmad/src/portid.c: the text of a directed route, read and written. Text is a list of bytes
-- without its final zero; `none` is a null pointer, or a copy that strdup could not make.
pub mod Reading
pub mod Laws
use infiniband_diags.Base.{
  ℕ, zero, suc, ◌+◌, ◌-◌, ◌*◌, ◌/◌, ◌%◌, ◌^◌, Bool, false, ◌&&◌, ◌||◌, Option, none, some, List, [],
  ◌∷◌, ◌++◌, length, leb, ◌==◌, if◌then◌else◌,
}
use infiniband_diags.Base.Int.{ℤ, pos, negsuc, is_positive}
use infiniband_diags.Mad.Types.{DrPath, PortId}

abbrev pub Text : Type 0
Text = List ℕ

abbrev pub comma : ℕ
comma = 44

abbrev pub is_digit : ℕ → Bool
is_digit c = leb 48 c && leb c 57

abbrev pub is_space : ℕ → Bool
is_space c = c == 32 || (leb 9 c && leb c 13)

-- atoi: spaces, a sign, and digits up to the first other byte. Past the bounds of an int, where C
-- defines nothing, the number goes on.
unfoldable pub digits_value : ℕ → Text → ℕ
digits_value n [] = n
digits_value n (c ∷ cs) =
    let rest = digits_value (n * 10 + (c - 48)) cs in if is_digit c then rest else n

unfoldable pub negated : ℕ → ℤ
negated zero = pos 0
negated (suc n) = negsuc n

unfoldable pub atoi : Text → ℤ
atoi [] = pos 0
atoi (c ∷ cs) =
    let rest = atoi cs in
    if is_space c
    then rest
    else if c == 45
    then negated (digits_value 0 cs)
    else if c == 43
    then pos (digits_value 0 cs)
    else pos (digits_value 0 (c ∷ cs))

-- (uint8_t)
unfoldable pub to_u8 : ℤ → ℕ
to_u8 (pos n) = n % 2 ^ 8
to_u8 (negsuc n) = 255 - n % 2 ^ 8

-- strchr(str, ','): the bytes before the comma, and those behind it.
unfoldable pub split : Text → Text × Option Text
split [] = ([], none)
split (c ∷ cs) =
    let later = split cs in if c == comma then ([], some cs) else (c ∷ later.0, later.1)

unfoldable pub increment : ℤ → ℤ
increment (pos n) = pos (suc n)
increment (negsuc zero) = pos 0
increment (negsuc (suc n)) = negsuc n

abbrev pub is_at : ℕ → ℤ → Bool
is_at a (pos n) = a == n
is_at a (negsuc n) = false

-- path->p[++path->cnt] = hop; the array has 64 entries, which the source does not check.
unfoldable pub push : DrPath → ℕ → DrPath
push path hop =
    let cnt = increment path.cnt in
    record path { cnt = cnt; p = λ a. if is_at a cnt then hop else path.p a }

-- while (str && *str), with a turn for each comma and one more
unfoldable pub read_hops : (fuel : ℕ) → Text → DrPath → DrPath
read_hops zero str path = path
read_hops (suc fuel) [] path = path
read_hops (suc fuel) (c ∷ cs) path =
    let (hop, behind) = split (c ∷ cs) in
    let path' = push path (to_u8 (atoi hop)) in
    elim behind [ none ↦ path' | some str ↦ read_hops fuel str path' ]

-- str2drpath, whose return is the count
unfoldable pub str2drpath : DrPath → Option Text → (drslid drdlid : ℕ) → DrPath
str2drpath path routepath drslid drdlid =
    let empty = record path { cnt = negsuc 0 } in
    let read : DrPath = elim routepath [
      | none ↦ empty
      | some str ↦ read_hops (suc (length str)) str empty
    ] in
    record read {
      drdlid = if drdlid == 0 then 0xffff else drdlid;
      drslid = if drslid == 0 then 0xffff else drslid;
    }

-- %u and %d of a number that is not negative: 20 digits are enough for 64 bits.
unfoldable pub decimal_digits : (fuel n : ℕ) → Text → Text
decimal_digits zero n behind = behind
decimal_digits (suc fuel) n behind =
    let text = (48 + n % 10) ∷ behind in
    let more = decimal_digits fuel (n / 10) text in if n / 10 == 0 then text else more

unfoldable pub decimal : ℕ → Text
decimal n = decimal_digits 20 n []

abbrev pub take : ℕ → Text → Text
take zero cs = []
take (suc n) [] = []
take (suc n) (c ∷ cs) = c ∷ take n cs

-- snprintf at the end of the text that is there: it keeps one byte for the final zero.
unfoldable pub snprintf : (dstr_size : ℕ) → (text piece : Text) → Text
snprintf dstr_size text piece = text ++ take (dstr_size - 1 - length text) piece

-- for (i = 1; i <= path->cnt; i++), with the hops that are left; `rc` counts what would be written.
unfoldable pub write_hops : (dstr_size left i rc : ℕ) → DrPath → Text → Text
write_hops dstr_size zero i rc path text = text
write_hops dstr_size (suc left) i rc path text =
    let piece = comma ∷ decimal (path.p i) in
    let text' = snprintf dstr_size text piece in
    let rc' = rc + length piece in
    let rest = write_hops dstr_size left (suc i) rc' path text' in
    if leb dstr_size rc' then text' else rest

-- "slid %u; dlid %u; "
unfoldable pub route_head : DrPath → Text
route_head path =
    (115 ∷ 108 ∷ 105 ∷ 100 ∷ 32 ∷ [])
    ++ (decimal path.drslid
        ++ ((59 ∷ 32 ∷ 100 ∷ 108 ∷ 105 ∷ 100 ∷ 32 ∷ []) ++ (decimal path.drdlid ++ (59 ∷ 32 ∷ []))))

abbrev pub hops_left : ℤ → ℕ
hops_left (pos n) = n
hops_left (negsuc n) = 0

-- drpath2str: the text in `dstr`
unfoldable pub drpath2str : DrPath → (dstr_size : ℕ) → Text
drpath2str path dstr_size =
    let piece = route_head path ++ decimal (path.p 0) in
    let text = snprintf dstr_size [] piece in
    let rest = write_hops dstr_size (hops_left path.cnt) 1 (length piece) path text in
    if leb dstr_size (length piece) then text else rest

-- portid2portnum
unfoldable pub portid2portnum : PortId → ℤ
portid2portnum portid =
    let last : ℤ = elim portid.drpath.cnt [
      | pos zero ↦ pos 0
      | pos (suc n) ↦ pos (portid.drpath.p n)
      | negsuc n ↦ pos 0
    ] in
    if is_positive portid.lid then negsuc 0 else last
