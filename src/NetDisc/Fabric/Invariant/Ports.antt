-- ===== src/NetDisc/Fabric/Invariant/Ports.antt =====
-- The operations on ports keep the well-formedness of a fabric.
use infiniband_diags.Base.{
  ℕ, ◌≤◌, ◌<◌, ◌≡◌, refl, inl, inr, Bool, true, false, ◌&&◌, Option, Option-cases, none, some, ltb,
  leb, if◌then◌else◌,
}
use infiniband_diags.Mad.Field.{Buf}
use infiniband_diags.NetDisc.Engine.{QMap}
use infiniband_diags.NetDisc.Fabric.Heap.{Fabric}
use infiniband_diags.NetDisc.Fabric.{
  name_port, port_of, calloc_port, claim_port, port_for_info, fill_port, add_to_portlid_hash,
  take_port_info, place_port,
}
use infiniband_diags.NetDisc.Fabric.Invariant.{IsFabric}
use infiniband_diags.NetDisc.Fabric.Invariant.Shape.{SameShape-IsFabric}
use infiniband_diags.NetDisc.Fabric.Invariant.Claims.{
  IsClaimed, IsFabric-IsClaimed, calloc_port-IsClaimed, named-IsFabric, set_guid-SameShape,
  set_guid-IsClaimed, add_to_portguid_hash-SameShape, link_in-IsFabric, IsFabric-if,
  fill_port-IsFabric, Each,
}

Each-if :
    {L : Type 0} (P : ℕ → Fabric L → Type 0) (b : Bool) (port : ℕ) (fab : Fabric L)
    → P port fab
    → Each P (if b then none else some (port, fab))
Each-if P true port fab h = tt
Each-if P false port fab h = h

abbrev pub InSlot : {L : Type 0} → ℕ → ℕ → ℕ → Fabric L → Type 0
InSlot nd num port fab = IsFabric fab × (port_of fab nd num ≡ some port)

module _ {L : Type 0} (fab : Fabric L) (ok : IsFabric fab) where
  pub claim_port-InSlot :
      (room nd num guid : ℕ)
      → num ≤ (fab.node_at nd).numports
      → Each (InSlot nd num) (claim_port room fab nd num guid)
  unfolding claim_port
  claim_port-InSlot room nd num guid fits = elim (Option-cases (port_of fab nd num)) [
    | inr (port, at) ↦
        rw (claim_port, at) (SameShape-IsFabric fab _ (set_guid-SameShape fab port guid) ok, at)
    | inl empty ↦
        let port = fab.next_port in
        let claimed = calloc_port-IsClaimed fab nd num fits ok in
        let named = name_port (calloc_port fab nd num) port nd num in
        rw (claim_port, empty)
          (Each-if (InSlot nd num) (leb room port) port _ (
            SameShape-IsFabric named _ (set_guid-SameShape named port guid)
                (named-IsFabric (calloc_port fab nd num) nd num port _ claimed refl refl),
            claimed.slot,
          ))
  ]

  port_for_info-IsClaimed :
      (room nd num : ℕ)
      → num ≤ (fab.node_at nd).numports
      → Each (λ port claimed. IsClaimed claimed nd num port) (port_for_info room fab nd num)
  unfolding port_for_info
  port_for_info-IsClaimed room nd num fits = elim (Option-cases (port_of fab nd num)) [
    | inr (port, at) ↦ rw (port_for_info, at) (IsFabric-IsClaimed fab nd num port ok at)
    | inl empty ↦
        let port = fab.next_port in
        rw (port_for_info, empty)
          (Each-if (λ port claimed. IsClaimed claimed nd num port) (leb room port) port _
            (set_guid-IsClaimed (calloc_port fab nd num) nd num port port _
              (calloc_port-IsClaimed fab nd num fits ok)))
  ]

  module _ (lids : QMap L) where
    add_to_portlid_hash-IsFabric :
        (filled : Fabric L) (port : ℕ)
        → IsFabric filled
        → IsFabric (add_to_portlid_hash lids filled port)
    unfolding add_to_portlid_hash
    add_to_portlid_hash-IsFabric filled port good =
        IsFabric-if fab _ _
          (ltb 0 (filled.port_at port).base_lid && leb (filled.port_at port).base_lid 0xbfff)
          (SameShape-IsFabric filled _
            (record {
              nodes = refl;
              next_node = refl;
              remotes = refl;
              next_port = refl;
              numports = λ nd. refl;
              ports = λ nd num. refl;
              owner = λ a. refl;
              portnum = λ a. refl;
            })
            good)
          good

    pub take_port_info-IsFabric :
        (room nd num : ℕ) (info : Buf)
        → num ≤ (fab.node_at nd).numports
        → Each (λ port taken. IsFabric taken) (take_port_info lids room fab nd num info)
    unfolding take_port_info
    take_port_info-IsFabric room nd num info fits =
        let each = port_for_info-IsClaimed room nd num fits in
        elim (Option-cases (port_for_info room fab nd num)) [
          | inl oom ↦ rw (take_port_info, oom) tt
          | inr ((port, claimed), at) ↦
              let c : IsClaimed claimed nd num port = rw at at each in
              let filled = fill_port claimed nd port num info in
              rw (take_port_info, at)
                (add_to_portlid_hash-IsFabric _ port (
                  SameShape-IsFabric filled _ (add_to_portguid_hash-SameShape filled port)
                    (fill_port-IsFabric claimed nd num port info c)))
        ]

  pub place_port-IsFabric :
      (from : Option (ℕ × ℕ)) (nd port num : ℕ)
      → port < fab.next_port
      → IsFabric (place_port fab from nd port num).1
  unfolding place_port
  place_port-IsFabric none nd port num lt =
      SameShape-IsFabric fab _
        (record {
          nodes = refl;
          next_node = refl;
          remotes = refl;
          next_port = refl;
          numports = λ nd. refl;
          ports = λ nd num. refl;
          owner = λ a. refl;
          portnum = λ a. refl;
        })
        ok
  place_port-IsFabric (some (rem_node, rem_num)) nd port num lt =
      elim (Option-cases (port_of fab rem_node rem_num)) [
        | inl missing ↦ rw (place_port, missing) ok
        | inr (remoteport, at) ↦
            rw (place_port, at)
              (link_in-IsFabric fab port remoteport lt (ok.placed rem_node rem_num remoteport at).0
                ok)
      ]
