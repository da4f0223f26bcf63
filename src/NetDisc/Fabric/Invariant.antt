-- ===== src/NetDisc/Fabric/Invariant.antt =====
-- The well-formedness of a fabric: mutual links, ports that know their place, and a table of nodes
-- with one node for each GUID.
pub mod Shape
pub mod Claims
pub mod Ports
pub mod Nodes
pub mod Created
use infiniband_diags.Base.{ℕ, ◌≤◌, ◌<◌, ◌≡◌, ◌⊎◌, Option, none, some, List, [], ◌∷◌}
use infiniband_diags.NetDisc.Hash.{Table, hash_index}
use infiniband_diags.NetDisc.Hash.Laws.{IsTable}
use infiniband_diags.NetDisc.Ports.{Remotes}
use infiniband_diags.NetDisc.Ports.Links.{IsMutual}
use infiniband_diags.NetDisc.Query.Well.{AllBelow}
use infiniband_diags.NetDisc.Fabric.Heap.{Fabric}
use infiniband_diags.NetDisc.Fabric.{port_of}

abbrev pub Has : ℕ → List ℕ → Type 0
Has a [] = ⊥
Has a (x ∷ xs) = (a ≡ x) ⊎ Has a xs

-- Each slot of a node has a port that was given out, which names this node and this number.
abbrev pub IsPlaced : {L : Type 0} → Fabric L → Type 0
IsPlaced fab =
    (nd num port : ℕ)
    → port_of fab nd num ≡ some port
    → (port < fab.next_port)
      × (((fab.port_at port).owner ≡ some nd) × ((fab.port_at port).portnum ≡ num))

-- The slots that have a port are within the arrays of their nodes.
abbrev pub IsWithin : {L : Type 0} → Fabric L → Type 0
IsWithin fab = (nd num port : ℕ) → port_of fab nd num ≡ some port → num ≤ (fab.node_at nd).numports

-- Ports that were not given out have no link.
abbrev pub IsUnlinked : (next_port : ℕ) → Remotes → Type 0
IsUnlinked next_port remotes = (port : ℕ) → next_port ≤ port → remotes port ≡ none

-- The nodes below `size` stand in the chains of their GUIDs, and no two of them have one GUID.
pub record IsCatalog (size : ℕ) (table : Table) : Type 0 where
  pub chains : ℕ → List ℕ
  pub tabled : IsTable size table chains
  pub allocated : (i : ℕ) → AllBelow size (chains i)
  pub listed : (nd : ℕ) → nd < size → Has nd (chains (hash_index (table.guid nd)))
  pub unique : (m n : ℕ) → m < size → n < size → table.guid m ≡ table.guid n → m ≡ n

pub record IsFabric {L : Type 0} (fab : Fabric L) : Type 0 where
  pub mutual_links : IsMutual fab.remotes
  pub unlinked : IsUnlinked fab.next_port fab.remotes
  pub placed : IsPlaced fab
  pub within : IsWithin fab
  pub catalog : IsCatalog fab.next_node fab.nodes
