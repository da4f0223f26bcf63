-- ===== src/NetDisc/Hash/Laws.antt =====
-- The table of nodes against its chains: insertion, lookup, and both together.
use infiniband_diags.Base.{
  ==_iff, Misses, ℕ, suc, ◌≤◌, ◌<◌, ◌≡◌, refl, sym, ap, ◌⊎◌, inl, inr, Bool, Bool-cases, true,
  false, Option, some, List, ◌∷◌, length, arith, ◌==◌, if◌then◌else◌,
}
use infiniband_diags.NetDisc.Hash.{
  Table, hash_index, set, ibnd_find_node_guid, push_node, add_to_nodeguid_hash,
}
use infiniband_diags.NetDisc.Hash.Chains.{IsChain, find, walk-find, find_missing, IsChain-set}

-- Every bucket is a chain, of at most `size` nodes.
pub record IsTable (size : ℕ) (table : Table) (chains : ℕ → List ℕ) : Type 0 where
  pub chained : (i : ℕ) → IsChain table.htnext (table.nodestbl i) (chains i)
  pub bounded : (i : ℕ) → length (chains i) ≤ size

abbrev pub put : Table → ℕ → (ℕ → List ℕ) → ℕ → List ℕ
put table node chains i = if i == hash_index (table.guid node) then node ∷ chains i else chains i

find-put :
    (table : Table) (chains : ℕ → List ℕ) (node guid : ℕ)
    → find (λ other. table.guid other == guid) (put table node chains (hash_index guid)) ≡ (
        if table.guid node == guid
        then some node
        else find (λ other. table.guid other == guid) (chains (hash_index guid)))
find-put table chains node guid = elim (Bool-cases (table.guid node == guid)) [
  | inl hit ↦
      let same : table.guid node ≡ guid = ground (arith, hit) in
      let here : (hash_index guid == hash_index (table.guid node)) ≡ true =
        (==_iff _ _).1 (ap hash_index (sym same)) in
      rw (here, hit) refl
  | inr miss ↦ elim (Bool-cases (hash_index guid == hash_index (table.guid node))) [
    | inl here ↦ rw (here, miss) refl
    | inr away ↦ rw (away, miss) refl
  ]
]

some_if :
    (b : Bool) (node : ℕ) (found other : Option ℕ)
    → found ≡ (if b then some node else other)
    → some found ≡ (if b then some (some node) else some other)
some_if true node found other e = ap some e
some_if false node found other e = ap some e

module _ (size fuel : ℕ) (table : Table) (chains : ℕ → List ℕ) (ok : IsTable size table chains)
    (enough : size < fuel) where
  -- A lookup gives the first node of its chain that has the GUID.
  pub ibnd_find_node_guid-find :
      (guid : ℕ)
      → ibnd_find_node_guid fuel table guid
        ≡ some (find (λ node. table.guid node == guid) (chains (hash_index guid)))
  unfolding ibnd_find_node_guid
  ibnd_find_node_guid-find guid =
      walk-find table.htnext _ fuel _ (chains (hash_index guid)) (ok.chained (hash_index guid))
        (omega (arith, ok.bounded (hash_index guid), enough))

  -- The insertion of a node that is in no chain.
  pub added :
      (node : ℕ)
      → Misses node (chains (hash_index (table.guid node)))
      → add_to_nodeguid_hash fuel table node ≡ (some 0, push_node table node)
  unfolding add_to_nodeguid_hash
  added node misses =
      let index = hash_index (table.guid node) in
      let found =
        walk-find table.htnext (λ other. other == node) fuel _ (chains index) (ok.chained index)
          (omega (arith, ok.bounded index, enough)) in
      rw (add_to_nodeguid_hash, found, find_missing node (chains index) misses) refl

  chained_here :
      (node i : ℕ)
      → Misses node (chains i)
      → IsChain (set table.htnext node (table.nodestbl i)) (some node) (node ∷ chains i)
  chained_here node i misses =
      let next : set table.htnext node (table.nodestbl i) node ≡ table.nodestbl i = ground arith in
      (refl, rw next (IsChain-set table.htnext node _ _ (chains i) misses (ok.chained i)))

  push_chained :
      (node : ℕ)
      → ((i : ℕ) → Misses node (chains i))
      → (i index : ℕ) → index ≡ hash_index (table.guid node)
      → IsChain
          (set table.htnext node (table.nodestbl index))
          (set table.nodestbl index (some node) i)
          (if i == index then node ∷ chains i else chains i)
  push_chained node misses i index e = elim (Bool-cases (i == index)) [
    | inl here ↦
        let same : i ≡ index = ground (arith, here) in
        rw (here, same) (chained_here node index (misses index))
    | inr away ↦ rw away (IsChain-set table.htnext node _ _ (chains i) (misses i) (ok.chained i))
  ]

  push_bounded :
      (node i : ℕ)
      → ((i == hash_index (table.guid node)) ≡ true) ⊎ ((i == hash_index (table.guid node)) ≡ false)
      → length (put table node chains i) ≤ suc size
  push_bounded node i (inl here) = rw here (omega (arith, ok.bounded i))
  push_bounded node i (inr away) = rw away (omega (arith, ok.bounded i))

  push-IsTable :
      (node : ℕ)
      → ((i : ℕ) → Misses node (chains i))
      → IsTable (suc size) (push_node table node) (put table node chains)
  unfolding push_node
  push-IsTable node misses = record {
    chained = λ i. push_chained node misses i (hash_index (table.guid node)) refl;
    bounded = λ i. push_bounded node i (Bool-cases (i == hash_index (table.guid node)));
  }

  -- A node that is in no chain is put at the head of the chain of its GUID; the return is 0, and
  -- the other chains are what they were.
  pub add_to_nodeguid_hash-IsTable :
      (node : ℕ)
      → ((i : ℕ) → Misses node (chains i))
      → ((add_to_nodeguid_hash fuel table node).0 ≡ some 0)
        × IsTable (suc size) (add_to_nodeguid_hash fuel table node).1 (put table node chains)
  add_to_nodeguid_hash-IsTable node misses =
      rw (added node (misses (hash_index (table.guid node)))) (refl, push-IsTable node misses)

module _ (size fuel : ℕ) (table : Table) (chains : ℕ → List ℕ) (ok : IsTable size table chains)
    (enough : suc size < fuel) where
  -- After a node that is in no chain was added, a lookup of its GUID gives that node, and a lookup
  -- of any other GUID gives what it gave before.
  pub ibnd_find_node_guid-add_to_nodeguid_hash :
      (node guid : ℕ)
      → ((i : ℕ) → Misses node (chains i))
      → ibnd_find_node_guid fuel (add_to_nodeguid_hash fuel table node).1 guid ≡ (
          if table.guid node == guid then some (some node) else ibnd_find_node_guid fuel table guid)
  unfolding push_node
  ibnd_find_node_guid-add_to_nodeguid_hash node guid misses =
      let before =
        ibnd_find_node_guid-find size fuel table chains ok (omega (arith, enough)) guid in
      let pushed = push-IsTable size fuel table chains ok (omega (arith, enough)) node misses in
      let after =
        ibnd_find_node_guid-find (suc size) fuel (push_node table node) (put table node chains)
          pushed enough guid in
      rw (added size fuel table chains ok (omega (arith, enough)) node (misses _), after, before)
        (some_if (table.guid node == guid) node _ _ (find-put table chains node guid))
