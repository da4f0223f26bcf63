-- ===== src/NetDisc/Lookup.antt =====
-- libibnetdisc/src/ibnetdisc.c: the port at the end of a route, and the nodes and ports that an
-- iterator calls its function on, in their order.
pub mod Laws
use infiniband_diags.Base.{
  ℕ, zero, suc, ◌+◌, Option, none, some, List, [], ◌∷◌, ◌++◌, ltb, ◌==◌, if◌then◌else◌,
}
use infiniband_diags.Base.Int.{ℤ, pos, negsuc}
use infiniband_diags.Mad.Types.{DrPath, no_portid}
use infiniband_diags.Mad.RouteText.{Text, str2drpath}
use infiniband_diags.NetDisc.Hash.{Table, walk, hash_index, htsz}
use infiniband_diags.NetDisc.Fabric.Heap.{Fabric, ib_node_switch, ib_node_ca, ib_node_router}
use infiniband_diags.NetDisc.Fabric.{port_of}

-- What a lookup does: it returns an address or NULL, it reads through a null pointer, or it reads
-- behind the array of a node's ports.
pub data Found : Type 0 where
  found : Option ℕ → Found
  null_read : Found
  outside : Found

-- path.p[i], path.p[i + 1], ...
abbrev pub hops_from : (ℕ → ℕ) → (i left : ℕ) → List ℕ
hops_from p i zero = []
hops_from p i (suc left) = p i ∷ hops_from p (suc i) left

-- for (i = 0; i <= path.cnt; i++)
abbrev pub hops_of : DrPath → List ℕ
hops_of path = elim path.cnt [ pos n ↦ hops_from path.p 0 (suc n) | negsuc n ↦ [] ]

module _ {L : Type 0} (fab : Fabric L) where
  -- The loop of ibnd_find_port_dr; `rc` is the port that was crossed to last.
  unfoldable pub follow : (hops : List ℕ) (cur_node : Option ℕ) (rc : Option ℕ) → Found
  follow [] cur_node rc = found rc
  follow (hop ∷ hops) cur_node rc =
      let stay = follow hops cur_node rc in
      let cross : Found = elim cur_node [
        | none ↦ null_read
        | some nd ↦
            let crossed : Found = elim (port_of fab nd hop) [
              | none ↦ null_read
              | some port ↦ elim (fab.remotes port) [
                | none ↦ found none
                | some remote_port ↦ follow hops (fab.port_at remote_port).owner (some remote_port)
              ]
            ] in
            if ltb (fab.node_at nd).numports hop then outside else crossed
      ] in
      if hop == 0 then stay else cross

  -- ibnd_find_port_dr; a null string gives NULL.
  unfoldable pub ibnd_find_port_dr : Option Text → Found
  ibnd_find_port_dr none = found none
  ibnd_find_port_dr (some dr_str) =
      follow (hops_of (str2drpath no_portid.drpath (some dr_str) 0 0)) fab.from_node none

  -- rc->node
  unfoldable pub ibnd_find_node_dr : Option Text → Found
  ibnd_find_node_dr dr_str = elim (ibnd_find_port_dr dr_str) [
    | null_read ↦ null_read
    | found none ↦ null_read
    | outside ↦ outside
    | found (some port) ↦ found (fab.port_at port).owner
  ]

  unfoldable pub ibnd_find_port_guid : (fuel guid : ℕ) → Option (Option ℕ)
  ibnd_find_port_guid fuel guid =
      walk fab.portstbl.htnext (λ port. fab.portstbl.guid port == guid) fuel
        (fab.portstbl.nodestbl (hash_index guid))

  -- for (cur = list; cur; cur = next(cur)), until the fuel is gone
  unfoldable pub visited : (ℕ → Option ℕ) → (fuel : ℕ) → Option ℕ → List ℕ
  visited next zero list = []
  visited next (suc fuel) none = []
  visited next (suc fuel) (some cur) = cur ∷ visited next fuel (next cur)

  unfoldable pub ibnd_iter_nodes : (fuel : ℕ) → List ℕ
  ibnd_iter_nodes fuel = visited (λ nd. (fab.node_at nd).next_all) fuel fab.all_nodes

  unfoldable pub ibnd_iter_nodes_type : (fuel node_type : ℕ) → List ℕ
  ibnd_iter_nodes_type fuel node_type =
      let list =
        (if node_type == ib_node_switch
          then fab.switches
          else if node_type == ib_node_ca
          then fab.ch_adapters
          else if node_type == ib_node_router
          then fab.routers
          else none) in
      visited (λ nd. (fab.node_at nd).type_next) fuel list

  -- for (i = 0; i < HTSZ; i++), with the chains that are left
  unfoldable pub port_chains : (fuel left i : ℕ) → List ℕ
  port_chains fuel zero i = []
  port_chains fuel (suc left) i =
      visited fab.portstbl.htnext fuel (fab.portstbl.nodestbl i) ++ port_chains fuel left (suc i)

  unfoldable pub ibnd_iter_ports : (fuel : ℕ) → List ℕ
  ibnd_iter_ports fuel = port_chains fuel htsz 0
