-- ===== src/NetDisc/Fabric/Invariant/Nodes.antt =====
-- A new node: the table of nodes keeps one node for each GUID.
use infiniband_diags.Base.{
  ==_iff, Misses, ℕ, suc, ◌<◌, ◌≡◌, ◌≢◌, refl, sym, ap, ◌∙◌, ◌⊎◌, inl, inr, Bool, Bool-cases, true,
  false, none, some, List, [], ◌∷◌, ◌==◌, arith,
}
use infiniband_diags.NetDisc.Hash.{
  Table, hash_index, ibnd_find_node_guid, add_to_nodeguid_hash, push_node,
}
use infiniband_diags.NetDisc.Hash.Chains.{find, IsChain-set}
use infiniband_diags.NetDisc.Hash.Laws.{
  IsTable, put, ibnd_find_node_guid-find, added, add_to_nodeguid_hash-IsTable,
}
use infiniband_diags.NetDisc.Query.Well.{AllBelow, below-Misses}
use infiniband_diags.NetDisc.Fabric.{with_guid}
use infiniband_diags.NetDisc.Fabric.Invariant.{Has, IsCatalog}

-- A test that finds nothing fails at every element.
find_nothing :
    (test : ℕ → Bool) (a : ℕ) (xs : List ℕ) → find test xs ≡ none → Has a xs → test a ≡ false
find_nothing test a [] h at = elim at [ ]
find_nothing test a (x ∷ xs) h at = elim (Bool-cases (test x)) [
  | inl hit ↦ let found : find test (x ∷ xs) ≡ some x = rw hit refl in absurd (cc)
  | inr miss ↦
      let rest : find test xs ≡ none = sym (rw miss refl) ∙ h in
      elim at [ inl e ↦ rw e miss | inr later ↦ find_nothing test a xs rest later ]
]

AllBelow-mono : (k : ℕ) (xs : List ℕ) → AllBelow k xs → AllBelow (suc k) xs
AllBelow-mono k [] h = tt
AllBelow-mono k (x ∷ xs) h = (omega (arith, h.0), AllBelow-mono k xs h.1)

module _ (size : ℕ) (table : Table) (cat : IsCatalog size table) (guid : ℕ) where
  abbrev named : Table
  named = with_guid table size guid

  named_self : named.guid size ≡ guid
  named_self = ground arith

  named_other : (nd : ℕ) → nd < size → named.guid nd ≡ table.guid nd
  named_other nd lt = ground arith

  missed : (i : ℕ) → Misses size (cat.chains i)
  missed i = below-Misses size (cat.chains i) (cat.allocated i)

  named-IsTable : IsTable size named cat.chains
  named-IsTable = record {
    chained = λ i.
        IsChain-set table.htnext size none (table.nodestbl i) (cat.chains i) (missed i)
          (cat.tabled.chained i);
    bounded = cat.tabled.bounded;
  }

  abbrev grown : ℕ → List ℕ
  grown = put named size cat.chains

  Has-grown : (nd i : ℕ) → Has nd (cat.chains i) → Has nd (grown i)
  Has-grown nd i at = elim (Bool-cases (i == hash_index (named.guid size))) [
    | inl here ↦ rw here (inr at)
    | inr away ↦ rw away at
  ]

  AllBelow-grown : (i : ℕ) → AllBelow (suc size) (grown i)
  AllBelow-grown i = elim (Bool-cases (i == hash_index (named.guid size))) [
    | inl here ↦ rw here (omega arith, AllBelow-mono size (cat.chains i) (cat.allocated i))
    | inr away ↦ rw away (AllBelow-mono size (cat.chains i) (cat.allocated i))
  ]

  Has-new : (i : ℕ) → i ≡ hash_index (named.guid size) → Has size (grown i)
  Has-new i e =
      let here : (i == hash_index (named.guid size)) ≡ true = (==_iff _ _).1 e in rw here (inl refl)

  split_last : (nd : ℕ) → nd < suc size → (nd ≡ size) ⊎ (nd < size)
  split_last nd lt = ground arith

  grown-listed : (nd : ℕ) → nd < suc size → Has nd (grown (hash_index (named.guid nd)))
  grown-listed nd lt = elim (split_last nd lt) [
    | inl e ↦ rw e (Has-new (hash_index (named.guid size)) refl)
    | inr below ↦
        let same = named_other nd below in
        Has-grown nd (hash_index (named.guid nd)) (rw same (cat.listed nd below))
  ]

  module _ (unknown : ibnd_find_node_guid (suc size) table guid ≡ some none) where
    not_known : (nd : ℕ) → nd < size → table.guid nd ≢ guid
    not_known nd lt e =
        let found =
          ibnd_find_node_guid-find size (suc size) table cat.chains cat.tabled (omega arith) guid in
        let nothing : find (λ other. table.guid other == guid) (cat.chains (hash_index guid))
            ≡ none =
          cc in
        let at : Has nd (cat.chains (hash_index guid)) = rw (← e) (cat.listed nd lt) in
        let other =
          find_nothing (λ other. table.guid other == guid) nd (cat.chains (hash_index guid)) nothing
            at in
        absurd (ground (arith, other, e))

    grown_unique : (m n : ℕ) → m < suc size → n < suc size → named.guid m ≡ named.guid n → m ≡ n
    grown_unique m n lm ln e = elim (split_last m lm) [
      | inl em ↦ elim (split_last n ln) [
        | inl en ↦ em ∙ sym en
        | inr bn ↦
            absurd
              (not_known n bn (sym (named_other n bn) ∙ (sym e ∙ (ap named.guid em ∙ named_self))))
      ]
      | inr bm ↦ elim (split_last n ln) [
        | inl en ↦
            absurd (not_known m bm (sym (named_other m bm) ∙ (e ∙ (ap named.guid en ∙ named_self))))
        | inr bn ↦ cat.unique m n bm bn (sym (named_other m bm) ∙ (e ∙ named_other n bn))
      ]
    ]

    -- A node whose GUID no node has is added.
    pub added-IsCatalog : IsCatalog (suc size) (add_to_nodeguid_hash (suc size) named size).1
    unfolding push_node
    added-IsCatalog =
        let tabled =
          add_to_nodeguid_hash-IsTable size (suc size) named cat.chains named-IsTable (omega arith)
            size missed in
        let same =
          added size (suc size) named cat.chains named-IsTable (omega arith) size
            (missed (hash_index (named.guid size))) in
        let pushed : IsCatalog (suc size) (push_node named size) = record {
          chains = grown;
          tabled =
              let at : (add_to_nodeguid_hash (suc size) named size).1 ≡ push_node named size =
                ap (λ p. p.1) same in
              rw (← at) tabled.1;
          allocated = AllBelow-grown;
          listed = grown-listed;
          unique = grown_unique;
        } in
        rw same pushed
