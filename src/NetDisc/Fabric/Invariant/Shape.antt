-- ===== src/NetDisc/Fabric/Invariant/Shape.antt =====
-- What the well-formedness of a fabric reads, and changes that leave it.
use infiniband_diags.Base.{
  ==_iff, ℕ, ◌≡◌, refl, sym, ap, ◌∙◌, inl, inr, Bool-cases, true, false, Option, ◌==◌,
}
use infiniband_diags.NetDisc.Engine.{store}
use infiniband_diags.NetDisc.Fabric.Heap.{Node, Port, Fabric}
use infiniband_diags.NetDisc.Fabric.{set_node, set_port, port_of}
use infiniband_diags.NetDisc.Fabric.Invariant.{IsFabric}

-- The fields that the well-formedness reads are the same.
pub record SameShape {L : Type 0} (p q : Fabric L) : Type 0 where
  pub nodes : q.nodes ≡ p.nodes
  pub next_node : q.next_node ≡ p.next_node
  pub remotes : q.remotes ≡ p.remotes
  pub next_port : q.next_port ≡ p.next_port
  pub numports : (nd : ℕ) → (q.node_at nd).numports ≡ (p.node_at nd).numports
  pub ports : (nd num : ℕ) → port_of q nd num ≡ port_of p nd num
  pub owner : (a : ℕ) → (q.port_at a).owner ≡ (p.port_at a).owner
  pub portnum : (a : ℕ) → (q.port_at a).portnum ≡ (p.port_at a).portnum

pub SameShape-IsFabric : {L : Type 0} (p q : Fabric L) → SameShape p q → IsFabric p → IsFabric q
SameShape-IsFabric p q same ok = record {
  mutual_links = rw same.remotes ok.mutual_links;
  unlinked = rw (same.remotes, same.next_port) ok.unlinked;
  placed = λ nd num port at.
      let (below, (owner, portnum)) = ok.placed nd num port (sym (same.ports nd num) ∙ at) in
      (rw same.next_port below, (same.owner port ∙ owner, same.portnum port ∙ portnum));
  within = λ nd num port at.
      rw (same.numports nd) (ok.within nd num port (sym (same.ports nd num) ∙ at));
  catalog = rw (same.next_node, same.nodes) ok.catalog;
}

pub store-here :
    {A : Type 0} (heap : ℕ → A) (a : ℕ) (x : A) (b : ℕ) → (b == a) ≡ true → store heap a x b ≡ x
store-here heap a x b here = rw here refl

pub store-away :
    {A : Type 0} (heap : ℕ → A) (a : ℕ) (x : A) (b : ℕ)
    → (b == a) ≡ false
    → store heap a x b ≡ heap b
store-away heap a x b away = rw away refl

-- A node that keeps its ports.
pub set_node-SameShape :
    {L : Type 0} (fab : Fabric L) (a : ℕ) (n : Node)
    → n.ports ≡ (fab.node_at a).ports
    → n.numports ≡ (fab.node_at a).numports
    → SameShape fab (set_node fab a n)
set_node-SameShape fab a n same count = record {
  nodes = refl;
  next_node = refl;
  remotes = refl;
  next_port = refl;
  numports = λ nd. elim (Bool-cases (nd == a)) [
    | inl here ↦
        let e : nd ≡ a = (==_iff _ _).0 here in
        ap (λ (m : Node). m.numports) (store-here fab.node_at a n nd here)
        ∙ (count ∙ ap (λ b. (fab.node_at b).numports) (sym e))
    | inr away ↦ ap (λ (m : Node). m.numports) (store-away fab.node_at a n nd away)
  ];
  ports = λ nd num. elim (Bool-cases (nd == a)) [
    | inl here ↦
        let e : nd ≡ a = (==_iff _ _).0 here in
        ap (λ (m : Node). m.ports num) (store-here fab.node_at a n nd here)
        ∙ (ap (λ (f : ℕ → Option ℕ). f num) same ∙ ap (λ b. port_of fab b num) (sym e))
    | inr away ↦ ap (λ (m : Node). m.ports num) (store-away fab.node_at a n nd away)
  ];
  owner = λ p. refl;
  portnum = λ p. refl;
}

-- A port that keeps its node and its number.
pub set_port-SameShape :
    {L : Type 0} (fab : Fabric L) (a : ℕ) (p : Port)
    → p.owner ≡ (fab.port_at a).owner
    → p.portnum ≡ (fab.port_at a).portnum
    → SameShape fab (set_port fab a p)
set_port-SameShape fab a p owner portnum = record {
  nodes = refl;
  next_node = refl;
  remotes = refl;
  next_port = refl;
  numports = λ nd. refl;
  ports = λ nd num. refl;
  owner = λ b. elim (Bool-cases (b == a)) [
    | inl here ↦ let e : b ≡ a = (==_iff _ _).0 here in rw (here, e, owner) refl
    | inr away ↦ rw away refl
  ];
  portnum = λ b. elim (Bool-cases (b == a)) [
    | inl here ↦ let e : b ≡ a = (==_iff _ _).0 here in rw (here, e, portnum) refl
    | inr away ↦ rw away refl
  ];
}
