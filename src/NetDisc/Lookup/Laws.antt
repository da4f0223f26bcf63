-- ===== src/NetDisc/Lookup/Laws.antt =====
-- libibnetdisc/src/ibnetdisc.c: the port that a route leads to.
use infiniband_diags.Base.{ℕ, ◌≤◌, ◌≡◌, Option, some, List, [], ◌∷◌}
use infiniband_diags.NetDisc.Fabric.Heap.{Fabric}
use infiniband_diags.NetDisc.Fabric.{port_of}

module _ {L : Type 0} (fab : Fabric L) where
  -- One hop: over the link of the port in a slot of the node, to the port at its other end. The
  -- link leads back, and the near port names the node and the slot.
  pub record Crosses (node hop far : ℕ) : Type 0 where
    pub near : ℕ
    pub within : hop ≤ (fab.node_at node).numports
    pub in_slot : port_of fab node hop ≡ some near
    pub there : fab.remotes near ≡ some far
    pub back : fab.remotes far ≡ some near
    pub owner : (fab.port_at near).owner ≡ some node
    pub number : (fab.port_at near).portnum ≡ hop

  -- A walk over all the hops, from the node at `cur_node`, which was entered at the port `rc`: it
  -- ends at `port`. A hop with the number 0 stays where it is.
  pub data Leads : List ℕ → (cur_node rc : Option ℕ) → (port : ℕ) → Type 0 where
    arrived : (cur_node rc : Option ℕ) (port : ℕ) → rc ≡ some port → Leads [] cur_node rc port
    stays :
        (hop : ℕ) (hops : List ℕ) (cur_node rc : Option ℕ) (port : ℕ)
        → hop ≡ 0
        → Leads hops cur_node rc port
        → Leads (hop ∷ hops) cur_node rc port
    crosses :
        (hop : ℕ) (hops : List ℕ) (cur_node rc : Option ℕ) (port node far : ℕ)
        → 1 ≤ hop
        → cur_node ≡ some node
        → Crosses node hop far
        → Leads hops (fab.port_at far).owner (some far) port
        → Leads (hop ∷ hops) cur_node rc port
