-- ===== src/Mad/RouteTests.antt =====
-- Routes as text: tests, and an instance of the theorem.
use infiniband_diags.Base.{◌≡◌, refl, some, [], ◌∷◌, ◌++◌, arith, ◌==◌, if◌then◌else◌}
use infiniband_diags.Base.Int.{pos}
use infiniband_diags.Mad.Types.{DrPath, no_portid}
use infiniband_diags.Mad.RouteText.{
  Text, str2drpath, read_hops, push, increment, split, atoi, digits_value, to_u8, negated, decimal,
  decimal_digits, drpath2str, route_head, snprintf, write_hops, portid2portnum,
}
use infiniband_diags.Mad.RouteText.Laws.{route, SameRoute, str2drpath-drpath2str}

abbrev two_hops : DrPath
two_hops = record {
  cnt = pos 2;
  p = λ a. if a == 1 then 7 else if a == 2 then 200 else 0;
  drslid = 0xffff;
  drdlid = 12;
}

abbrev fresh : DrPath
fresh = no_portid.drpath

-- "0,7,200"
written : route two_hops.p 2 ≡ 48 ∷ 44 ∷ 55 ∷ 44 ∷ 50 ∷ 48 ∷ 48 ∷ []
unfolding decimal decimal_digits
written = refl

-- A buffer of 22 bytes keeps "slid 65535; dlid 12; ".
cut_off : drpath2str two_hops 22 ≡ route_head two_hops
unfolding drpath2str route_head snprintf write_hops decimal decimal_digits
cut_off = refl

-- " -1,,3,": a space, a sign, no digits, and nothing behind the last comma
loose_text : Text
loose_text = 32 ∷ 45 ∷ 49 ∷ 44 ∷ 44 ∷ 51 ∷ 44 ∷ []

loose_count : (str2drpath fresh (some loose_text) 0 0).cnt ≡ pos 2
unfolding loose_text str2drpath read_hops push increment split atoi digits_value to_u8 negated
loose_count = refl

loose_hop : (str2drpath fresh (some loose_text) 0 0).p 0 ≡ 255
unfolding loose_text str2drpath read_hops push increment split atoi digits_value to_u8 negated
loose_hop = refl

last_hop : portid2portnum (record no_portid { drpath = two_hops }) ≡ pos 7
unfolding portid2portnum
last_hop = refl

str2drpath-drpath2str_example :
    (text : Text) × (drpath2str two_hops 1024 ≡ route_head two_hops ++ text)
    × SameRoute two_hops (str2drpath fresh (some text) 3 0) 2
unfolding route_head decimal decimal_digits
str2drpath-drpath2str_example =
    str2drpath-drpath2str two_hops fresh 2 1024 3 0 (λ a. ground arith) refl (omega arith)
