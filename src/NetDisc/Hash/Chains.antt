-- ===== src/NetDisc/Hash/Chains.antt =====
-- A chain as a list: what a walk along it finds.
use infiniband_diags.Base.{
  Misses, ℕ, zero, suc, ◌<◌, ◌≡◌, refl, inl, inr, Bool, Bool-cases, Option, none, some, List, [],
  ◌∷◌, length, arith, ◌==◌, if◌then◌else◌,
}
use infiniband_diags.NetDisc.Hash.{walk, set}

abbrev pub IsChain : (ℕ → Option ℕ) → Option ℕ → List ℕ → Type 0
IsChain htnext head [] = head ≡ none
IsChain htnext head (x ∷ xs) = (head ≡ some x) × IsChain htnext (htnext x) xs

-- The first element that the test holds of.
abbrev pub find : (ℕ → Bool) → List ℕ → Option ℕ
find test [] = none
find test (x ∷ xs) = if test x then some x else find test xs

pub walk-find :
    (htnext : ℕ → Option ℕ) (test : ℕ → Bool) (fuel : ℕ) (head : Option ℕ) (xs : List ℕ)
    → IsChain htnext head xs
    → length xs < fuel
    → walk htnext test fuel head ≡ some (find test xs)
unfolding walk
walk-find htnext test zero head xs chain lt = absurd (omega (arith, lt))
walk-find htnext test (suc fuel) head [] chain lt = rw chain refl
walk-find htnext test (suc fuel) head (x ∷ xs) (at, chain) lt =
    let rest = walk-find htnext test fuel (htnext x) xs chain (omega (arith, lt)) in
    elim (Bool-cases (test x)) [
      | inl hit ↦ rw (at, walk, hit) refl
      | inr miss ↦ rw (at, walk, miss) rest
    ]

pub find_missing : (a : ℕ) (xs : List ℕ) → Misses a xs → find (λ x. x == a) xs ≡ none
find_missing a [] misses = refl
find_missing a (x ∷ xs) misses = ground (arith, misses.0, find_missing a xs misses.1)

pub IsChain-set :
    (htnext : ℕ → Option ℕ) (a : ℕ) (v : Option ℕ) (head : Option ℕ) (xs : List ℕ)
    → Misses a xs
    → IsChain htnext head xs
    → IsChain (set htnext a v) head xs
IsChain-set htnext a v head [] misses chain = chain
IsChain-set htnext a v head (x ∷ xs) misses chain =
    let same : set htnext a v x ≡ htnext x = ground (arith, misses.0) in
    (chain.0, rw same (IsChain-set htnext a v (htnext x) xs misses.1 chain.1))
