-- ===== src/Mad/RouteText/Laws.antt =====
-- libibmad/src/portid.c: a route that is written is read again.
use infiniband_diags.Base.{
  ℕ, zero, suc, ◌+◌, ◌-◌, ◌^◌, ◌≤◌, ◌<◌, ◌≡◌, refl, sym, ap, ◌∙◌, inl, inr, ◌⊎◌, Bool-cases, false,
  some, [], ◌∷◌, ◌++◌, length, length-append, leb, arith,
}
use infiniband_diags.Base.Int.{pos, negsuc}
use infiniband_diags.Mad.Types.{DrPath}
use infiniband_diags.Mad.RouteText.{
  Text, comma, str2drpath, decimal, take, snprintf, write_hops, route_head, hops_left, drpath2str,
}
use infiniband_diags.Mad.RouteText.Reading.{tail, read_hops-Reads}

-- What is written when all of it fits.
take_all : (n : ℕ) (cs : Text) → length cs ≤ n → take n cs ≡ cs
take_all zero [] h = refl
take_all zero (c ∷ cs) h = absurd (omega (arith, h))
take_all (suc n) [] h = refl
take_all (suc n) (c ∷ cs) h = ap (λ t. c ∷ t) (take_all n cs (omega (arith, h)))

snprintf_fits :
    (size : ℕ) (text piece : Text)
    → length text + length piece < size
    → snprintf size text piece ≡ text ++ piece
unfolding snprintf
snprintf_fits size text piece h =
    ap (λ t. text ++ t) (take_all (size - 1 - length text) piece (omega (arith, h)))

append_assoc : (a b c : Text) → (a ++ b) ++ c ≡ a ++ (b ++ c)
append_assoc [] b c = refl
append_assoc (x ∷ xs) b c = ap (λ t. x ∷ t) (append_assoc xs b c)

append_nil : (a : Text) → a ++ [] ≡ a
append_nil [] = refl
append_nil (x ∷ xs) = ap (λ t. x ∷ t) (append_nil xs)

write_hops_lem :
    (path : DrPath) (size k i : ℕ) (text : Text)
    → length text + length (tail path.p i k) < size
    → write_hops size k i (length text) path text ≡ text ++ tail path.p i k
unfolding write_hops
write_hops_lem path size zero i text h = sym (append_nil text)
write_hops_lem path size (suc k) i text h =
    let piece : Text = comma ∷ decimal (path.p i) in
    let rest = tail path.p (suc i) k in
    let long = length-append (decimal (path.p i)) rest in
    let joined = length-append text piece in
    let fits : leb size (length text + length piece) ≡ false = ground (arith, h, long) in
    let shown = snprintf_fits size text piece (omega (arith, h, long)) in
    let later =
      write_hops_lem path size k (suc i) (text ++ piece) (omega (arith, h, long, joined)) in
    rw (write_hops, fits, shown, sym joined) (later ∙ append_assoc text piece rest)

tail_long : (p : ℕ → ℕ) (i k : ℕ) → k ≤ length (tail p i k)
tail_long p i zero = omega arith
tail_long p i (suc k) =
    omega (arith, tail_long p (suc i) k, length-append (decimal (p i)) (tail p (suc i) k))

-- The hops of a path that has n hops behind its first entry.
abbrev pub route : (ℕ → ℕ) → ℕ → Text
route p n = decimal (p 0) ++ tail p 1 n

-- `out` has the count of the path and, up to it, the hops.
pub record SameRoute (path out : DrPath) (n : ℕ) : Type 0 where
  pub count : out.cnt ≡ path.cnt
  pub hops : (a : ℕ) → (n < a) ⊎ (out.p a ≡ path.p a)

drpath2str_fits :
    (path : DrPath) (n size : ℕ)
    → path.cnt ≡ pos n
    → length (route_head path ++ route path.p n) < size
    → drpath2str path size ≡ route_head path ++ route path.p n
unfolding drpath2str
drpath2str_fits path n size h fits =
    let piece = route_head path ++ decimal (path.p 0) in
    let rest = tail path.p 1 n in
    let joined : piece ++ rest ≡ route_head path ++ route path.p n =
      append_assoc (route_head path) (decimal (path.p 0)) rest in
    let long = ap length joined in
    let sum = length-append piece rest in
    let short : leb size (length piece) ≡ false = ground (arith, fits, long, sum) in
    let shown = snprintf_fits size [] piece (omega (arith, fits, long, sum)) in
    let left : hops_left path.cnt ≡ n = rw h refl in
    rw (drpath2str, short, shown, left)
      (write_hops_lem path size n 1 piece (omega (arith, fits, long, sum)) ∙ joined)

-- A route of bytes that is written into a buffer of more bytes than its text ends in the list of its
-- hops, and a path that is read from that list has the same count and the same hops.
pub str2drpath-drpath2str :
    (path start : DrPath) (n size drslid drdlid : ℕ)
    → ((a : ℕ) → path.p a < 2 ^ 8)
    → path.cnt ≡ pos n
    → length (route_head path ++ route path.p n) < size
    → (text : Text) × (drpath2str path size ≡ route_head path ++ text)
      × SameRoute path (str2drpath start (some text) drslid drdlid) n
unfolding str2drpath
str2drpath-drpath2str path start n size drslid drdlid bytes h fits =
    let text = route path.p n in
    let long = length-append (decimal (path.p 0)) (tail path.p 1 n) in
    let read =
      read_hops-Reads path.p bytes n 0 (suc (length text)) (record start { cnt = negsuc 0 })
        (omega (arith, tail_long path.p 1 n, long)) refl in
    (
      text,
      drpath2str_fits path n size h fits,
      record {
        count = read.count ∙ (ap pos (omega arith) ∙ sym h);
        hops = λ a. elim (Bool-cases (leb a n)) [
          | inl le ↦ inr (read.hops a (omega arith) (ground (arith, le)))
          | inr above ↦ inl (ground (arith, above))
        ];
      },
    )
