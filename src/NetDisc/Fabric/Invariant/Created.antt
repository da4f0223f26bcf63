-- ===== src/NetDisc/Fabric/Invariant/Created.antt =====
-- A node that is created keeps the well-formedness of a fabric.
use infiniband_diags.Base.{
  ℕ, suc, ◌≡◌, refl, sym, ap, ◌∙◌, inl, inr, Bool-cases, Option, none, some, ◌==◌,
}
use infiniband_diags.Mad.Field.{Buf}
use infiniband_diags.Mad.Types.{PortId}
use infiniband_diags.Mad.Wide.{mad_decode_field, as_u64}
use infiniband_diags.Mad.Numbers.{ib_node_guid_f}
use infiniband_diags.NetDisc.Hash.{ibnd_find_node_guid}
use infiniband_diags.NetDisc.Fabric.Heap.{Node, Fabric, ib_node_ca, ib_node_switch, ib_node_router}
use infiniband_diags.NetDisc.Fabric.{set_node, fresh_node, add_to_type_list, create_node}
use infiniband_diags.NetDisc.Fabric.Invariant.{IsFabric}
use infiniband_diags.NetDisc.Fabric.Invariant.Nodes.{added-IsCatalog}
use infiniband_diags.NetDisc.Fabric.Invariant.Shape.{
  SameShape-IsFabric, set_node-SameShape, store-here, store-away,
}
use infiniband_diags.NetDisc.Fabric.Invariant.Claims.{IsFabric-if}

module _ {L : Type 0} (fab : Fabric L) (ok : IsFabric fab) where
  abbrev heads : Fabric L → Option ℕ → Option ℕ → Option ℕ → Fabric L
  heads f cas switches routers = record f {
    ch_adapters = cas;
    switches = switches;
    routers = routers;
  }

  heads-IsFabric :
      (f : Fabric L) (cas switches routers : Option ℕ)
      → IsFabric f
      → IsFabric (heads f cas switches routers)
  heads-IsFabric f cas switches routers good = record {
    mutual_links = good.mutual_links;
    unlinked = good.unlinked;
    placed = good.placed;
    within = good.within;
    catalog = good.catalog;
  }

  typed-IsFabric :
      (nd : ℕ) (next cas switches routers : Option ℕ)
      → IsFabric (
          heads
            (set_node fab nd (record (fab.node_at nd) { type_next = next }))
            cas
            switches
            routers)
  typed-IsFabric nd next cas switches routers =
      let n : Node = record (fab.node_at nd) { type_next = next } in
      heads-IsFabric (set_node fab nd n) cas switches routers
        (SameShape-IsFabric fab _ (set_node-SameShape fab nd n refl refl) ok)

  add_to_type_list-IsFabric : (nd : ℕ) → IsFabric (add_to_type_list fab nd)
  unfolding add_to_type_list
  add_to_type_list-IsFabric nd =
      let n = fab.node_at nd in
      IsFabric-if fab _ _ (n.type == ib_node_ca)
        (typed-IsFabric nd fab.ch_adapters (some nd) fab.switches fab.routers)
        (IsFabric-if fab _ _ (n.type == ib_node_switch)
          (typed-IsFabric nd fab.switches fab.ch_adapters (some nd) fab.routers)
          (IsFabric-if fab _ _ (n.type == ib_node_router)
            (typed-IsFabric nd fab.routers fab.ch_adapters fab.switches (some nd)) ok))

module _ {L : Type 0} (fab : Fabric L) (ok : IsFabric fab) (path : PortId) (node_info : Buf) where
  abbrev guid : ℕ
  guid = as_u64 (mad_decode_field node_info ib_node_guid_f (λ a. 0))

  -- The node that is created has the GUID of its NodeInfo, which no node had.
  pub create_node-IsFabric :
      ibnd_find_node_guid (suc fab.next_node) fab.nodes guid ≡ some none
      → IsFabric (create_node fab path node_info)
  unfolding create_node
  create_node-IsFabric unknown =
      let nd = fab.next_node in
      let n = fresh_node path node_info fab.all_nodes in
      add_to_type_list-IsFabric _
        (record {
          mutual_links = ok.mutual_links;
          unlinked = ok.unlinked;
          placed = λ nd' num port at. elim (Bool-cases (nd' == nd)) [
            | inl here ↦
                let row = ap (λ (m : Node). m.ports num) (store-here fab.node_at nd n nd' here) in
                let gone : none ≡ some port = sym row ∙ at in absurd (cc)
            | inr away ↦
                let row = ap (λ (m : Node). m.ports num) (store-away fab.node_at nd n nd' away) in
                ok.placed nd' num port (sym row ∙ at)
          ];
          within = λ nd' num port at. elim (Bool-cases (nd' == nd)) [
            | inl here ↦
                let row = ap (λ (m : Node). m.ports num) (store-here fab.node_at nd n nd' here) in
                let gone : none ≡ some port = sym row ∙ at in absurd (cc)
            | inr away ↦
                let same = store-away fab.node_at nd n nd' away in
                rw (ap (λ (m : Node). m.numports) same)
                  (ok.within nd' num port (sym (ap (λ (m : Node). m.ports num) same) ∙ at))
          ];
          catalog = added-IsCatalog fab.next_node fab.nodes ok.catalog guid unknown;
        })
        nd
