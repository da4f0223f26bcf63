-- ===== src/NetDisc/Fabric/Invariant/Claims.antt =====
-- libibnetdisc/src/ibnetdisc.c: a port that is created or filled, between the steps of its callback.
use infiniband_diags.Base.{
  ◌≤◌, ==_iff, ℕ, ◌<◌, ◌≡◌, ◌≢◌, refl, sym, ap, ◌∙◌, ◌⊎◌, inl, inr, Bool, Bool-cases, true, false,
  Option-cases, none, some, arith, ◌==◌, if◌then◌else◌,
}
use infiniband_diags.Mad.Field.{Buf}
use infiniband_diags.NetDisc.Ports.{Remotes, set_remote, unlink, link_ports}
use infiniband_diags.NetDisc.Ports.Links.{IsMutual, link_ports-IsMutual}
use infiniband_diags.NetDisc.Fabric.Heap.{Node, Port, Fabric, ib_node_switch}
use infiniband_diags.NetDisc.Fabric.{
  set_port, set_guid, port_of, calloc_port, with_port, fill_port, add_to_portguid_hash, link_in,
  Claim,
}
use infiniband_diags.NetDisc.Fabric.Invariant.{IsUnlinked, IsWithin, IsCatalog, IsFabric}
use infiniband_diags.NetDisc.Fabric.Invariant.Shape.{
  SameShape, SameShape-IsFabric, store-here, store-away, set_node-SameShape,
}

-- The port `port` stands in the slot `num` of `nd` and in no other, and all other ports know their
-- place: what holds between the claim of a port and the naming of it.
pub record IsClaimed {L : Type 0} (fab : Fabric L) (nd num port : ℕ) : Type 0 where
  pub mutual_links : IsMutual fab.remotes
  pub unlinked : IsUnlinked fab.next_port fab.remotes
  pub catalog : IsCatalog fab.next_node fab.nodes
  pub slot : port_of fab nd num ≡ some port
  pub within : IsWithin fab
  pub rest :
      (nd' num' p : ℕ)
      → port_of fab nd' num' ≡ some p
      → (p < fab.next_port)
        × (((p ≡ port) × ((nd' ≡ nd) × (num' ≡ num)))
            ⊎ ((p ≢ port)
                × (((fab.port_at p).owner ≡ some nd') × ((fab.port_at p).portnum ≡ num'))))

module _ {L : Type 0} (fab : Fabric L) where
  -- A port of a well-formed fabric is claimed as it is.
  pub IsFabric-IsClaimed :
      (nd num port : ℕ) → IsFabric fab → port_of fab nd num ≡ some port → IsClaimed fab nd num port
  IsFabric-IsClaimed nd num port ok at = record {
    mutual_links = ok.mutual_links;
    unlinked = ok.unlinked;
    catalog = ok.catalog;
    slot = at;
    within = ok.within;
    rest = λ nd' num' p at'.
        let (below, (owner, portnum)) = ok.placed nd' num' p at' in
        let (below', (owner', portnum')) = ok.placed nd num port at in
        elim (Bool-cases (p == port)) [
          | inl same ↦
              let e : p ≡ port = (==_iff _ _).0 same in
              let who : some nd' ≡ some nd =
                sym owner ∙ (ap (λ a. (fab.port_at a).owner) e ∙ owner') in
              (below, inl (e, (cc, sym portnum ∙ (ap (λ a. (fab.port_at a).portnum) e ∙ portnum'))))
          | inr other ↦ (below, inr ((λ e. absurd (ground (arith, other, e))), (owner, portnum)))
        ];
  }

  calloc_port-of :
      (nd num nd' num' : ℕ)
      → ((port_of (calloc_port fab nd num) nd' num' ≡ some fab.next_port)
          × ((nd' ≡ nd) × (num' ≡ num)))
        ⊎ (port_of (calloc_port fab nd num) nd' num' ≡ port_of fab nd' num')
  unfolding calloc_port
  calloc_port-of nd num nd' num' = elim (Bool-cases (nd' == nd)) [
    | inl here ↦
        let e : nd' ≡ nd = (==_iff _ _).0 here in
        let row =
          ap (λ (m : Node). m.ports num')
            (store-here fab.node_at nd (with_port (fab.node_at nd) num fab.next_port) nd' here) in
        elim (Bool-cases (num' == num)) [
          | inl slot ↦
              let e' : num' ≡ num = (==_iff _ _).0 slot in
              inl (
                row ∙ store-here (fab.node_at nd).ports num (some fab.next_port) num' slot,
                (e, e'),
              )
          | inr slot ↦ inr (
              row
              ∙ (store-away (fab.node_at nd).ports num (some fab.next_port) num' slot
                  ∙ ap (λ b. port_of fab b num') (sym e)))
        ]
    | inr away ↦ inr (
        ap (λ (m : Node). m.ports num')
          (store-away fab.node_at nd (with_port (fab.node_at nd) num fab.next_port) nd' away))
  ]

  calloc_port-numports :
      (nd num nd' : ℕ)
      → ((calloc_port fab nd num).node_at nd').numports ≡ (fab.node_at nd').numports
  unfolding calloc_port
  calloc_port-numports nd num nd' = elim (Bool-cases (nd' == nd)) [
    | inl here ↦
        let e : nd' ≡ nd = (==_iff _ _).0 here in
        ap (λ (m : Node). m.numports)
          (store-here fab.node_at nd (with_port (fab.node_at nd) num fab.next_port) nd' here)
        ∙ ap (λ b. (fab.node_at b).numports) (sym e)
    | inr away ↦
        ap (λ (m : Node). m.numports)
          (store-away fab.node_at nd (with_port (fab.node_at nd) num fab.next_port) nd' away)
  ]

  pub calloc_port-IsClaimed :
      (nd num : ℕ)
      → num ≤ (fab.node_at nd).numports
      → IsFabric fab
      → IsClaimed (calloc_port fab nd num) nd num fab.next_port
  unfolding calloc_port
  calloc_port-IsClaimed nd num fits ok = record {
    mutual_links = λ a b h.
        let none_new = ok.unlinked fab.next_port (omega arith) in
        elim (Bool-cases (a == fab.next_port)) [
          | inl here ↦
              let gone : set_remote fab.remotes fab.next_port none a ≡ none = rw here refl in
              absurd (cc)
          | inr away ↦
              let old : fab.remotes a ≡ some b = sym (rw away refl) ∙ h in
              let back = ok.mutual_links a b old in
              elim (Bool-cases (b == fab.next_port)) [
                | inl new ↦
                    let e : b ≡ fab.next_port = (==_iff _ _).0 new in
                    let gone : fab.remotes b ≡ none = ap fab.remotes e ∙ none_new in absurd (cc)
                | inr other ↦ rw other back
              ]
        ];
    unlinked = λ p le. let old = ok.unlinked p (omega (arith, le)) in ground (arith, old);
    catalog = ok.catalog;
    slot = ground arith;
    within = λ nd' num' p at. elim (calloc_port-of nd num nd' num') [
      | inl (new, (e, e')) ↦
          let small : num ≤ (fab.node_at nd').numports = rw e fits in
          rw (calloc_port-numports nd num nd', e') small
      | inr old ↦ rw (calloc_port-numports nd num nd') (ok.within nd' num' p (sym old ∙ at))
    ];
    rest = λ nd' num' p at. elim (calloc_port-of nd num nd' num') [
      | inl (new, place) ↦ let e : p ≡ fab.next_port = cc in (omega (arith, e), inl (e, place))
      | inr old ↦
          let (below, (owner, portnum)) = ok.placed nd' num' p (sym old ∙ at) in
          let away : (p == fab.next_port) ≡ false = ground (arith, below) in
          (
            omega (arith, below),
            inr ((λ e. absurd (omega (arith, below, e))), rw away (owner, portnum)),
          )
    ];
  }

  -- A claimed port that is named is in its place.
  pub named-IsFabric :
      (nd num port : ℕ) (p : Port)
      → IsClaimed fab nd num port
      → p.owner ≡ some nd
      → p.portnum ≡ num
      → IsFabric (set_port fab port p)
  named-IsFabric nd num port p c owner portnum = record {
    mutual_links = c.mutual_links;
    unlinked = c.unlinked;
    catalog = c.catalog;
    within = c.within;
    placed = λ nd' num' q at.
        let (below, which) = c.rest nd' num' q at in
        elim which [
          | inl (e, (en, em)) ↦
              let here : (q == port) ≡ true = (==_iff _ _).1 e in
              (below, (rw (here, en) owner, rw (here, em) portnum))
          | inr (ne, kept) ↦
              let away : (q == port) ≡ false = ground (arith, ne) in (below, rw away kept)
        ];
  }

  pub set_guid-SameShape : (port guid : ℕ) → SameShape fab (set_guid fab port guid)
  set_guid-SameShape port guid = record {
    nodes = refl;
    next_node = refl;
    remotes = refl;
    next_port = refl;
    numports = λ nd. refl;
    ports = λ nd num. refl;
    owner = λ a. refl;
    portnum = λ a. refl;
  }

  pub set_guid-IsClaimed :
      (nd num port a guid : ℕ)
      → IsClaimed fab nd num port
      → IsClaimed (set_guid fab a guid) nd num port
  set_guid-IsClaimed nd num port a guid c = record {
    mutual_links = c.mutual_links;
    unlinked = c.unlinked;
    catalog = c.catalog;
    slot = c.slot;
    within = c.within;
    rest = c.rest;
  }

  pub add_to_portguid_hash-SameShape : (port : ℕ) → SameShape fab (add_to_portguid_hash fab port)
  unfolding add_to_portguid_hash
  add_to_portguid_hash-SameShape port = record {
    nodes = refl;
    next_node = refl;
    remotes = refl;
    next_port = refl;
    numports = λ nd. refl;
    ports = λ nd num. refl;
    owner = λ a. refl;
    portnum = λ a. refl;
  }

  unlink-none : (remotes : Remotes) (port a : ℕ) → remotes a ≡ none → unlink remotes port a ≡ none
  unfolding unlink
  unlink-none remotes port a h = elim (Option-cases (remotes port)) [
    | inl free ↦ rw (unlink, free) h
    | inr (peer, linked) ↦ elim (Bool-cases (a == peer)) [
      | inl hit ↦ rw (unlink, linked, hit) refl
      | inr miss ↦ rw (unlink, linked, miss) h
    ]
  ]

  -- Linking two ports that were given out.
  pub link_in-IsFabric :
      (port remoteport : ℕ)
      → port < fab.next_port
      → remoteport < fab.next_port
      → IsFabric fab
      → IsFabric (link_in fab port remoteport)
  unfolding link_ports
  link_in-IsFabric port remoteport lt lt' ok = record {
    mutual_links = (link_ports-IsMutual fab.remotes port remoteport ok.mutual_links).0;
    unlinked = λ a le.
        let one = unlink-none fab.remotes port a (ok.unlinked a le) in
        let two = unlink-none (unlink fab.remotes port) remoteport a one in
        let ne : (a == remoteport) ≡ false = ground (arith, le, lt') in
        let ne' : (a == port) ≡ false = ground (arith, le, lt) in rw (ne, ne') two;
    placed = ok.placed;
    within = ok.within;
    catalog = ok.catalog;
  }

  pub IsFabric-if :
      (p q : Fabric L) (b : Bool) → IsFabric p → IsFabric q → IsFabric (if b then p else q)
  IsFabric-if p q true hp hq = hp
  IsFabric-if p q false hp hq = hq

  -- The fields of a PortInfo put a claimed port in its place.
  pub fill_port-IsFabric :
      (nd num port : ℕ) (info : Buf)
      → IsClaimed fab nd num port
      → IsFabric (fill_port fab nd port num info)
  unfolding fill_port
  fill_port-IsFabric nd num port info c =
      IsFabric-if _ _ (num == 0)
        (SameShape-IsFabric _ _ (set_node-SameShape _ nd _ refl refl)
          (named-IsFabric nd num port _ c refl refl))
        (IsFabric-if _ _ ((fab.node_at nd).type == ib_node_switch)
          (named-IsFabric nd num port _ c refl refl) (named-IsFabric nd num port _ c refl refl))

-- What holds of the port and the fabric of a claim, if there is memory for it.
abbrev pub Each : {L : Type 0} → (ℕ → Fabric L → Type 0) → Claim L → Type 0
Each P none = Unit
Each P (some (port, fab)) = P port fab
