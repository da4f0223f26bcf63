-- ===== src/NetDisc/Discovery/Laws.antt =====
-- The discovery as a whole: every handler keeps the engine and the fabric well-formed, so the
-- discovery ends, in a well-formed fabric.
use infiniband_diags.Base.{
  ℕ, suc, ◌<◌, ◌≡◌, refl, ap, ◌∙◌, ◌⊎◌, inl, inr, Bool, Bool-cases, true, false, Option,
  Option-cases, some, none, arith, leb, ◌||◌, ◌==◌,
}
use infiniband_diags.Base.Int.{ℤ, pos, negsuc, is_zero}
use infiniband_diags.Mad.Field.{Buf}
use infiniband_diags.Mad.Table.{mad_get_field, mad_field, ib_mad_f}
use infiniband_diags.Mad.Wide.{mad_get_field64, mad_decode_field, as_u64}
use infiniband_diags.Mad.Numbers.{ib_node_guid_f, ib_node_port_guid_f, ib_node_local_port_f}
use infiniband_diags.Mad.Types.{PortId}
use infiniband_diags.Mad.Rpc.{Umad}
use infiniband_diags.Mad.Rpc.Receive.{IsFinite}
use infiniband_diags.NetDisc.Engine.{QMap, Config}
use infiniband_diags.NetDisc.Engine.Serving.{IsQMap}
use infiniband_diags.NetDisc.Query.{process_mads}
use infiniband_diags.NetDisc.Query.Well.{IsWell}
use infiniband_diags.NetDisc.Query.Ends.{process_mads-Emptied}
use infiniband_diags.NetDisc.Hash.{hash_index, ibnd_find_node_guid}
use infiniband_diags.NetDisc.Hash.Laws.{ibnd_find_node_guid-find}
use infiniband_diags.NetDisc.Hash.Chains.{find}
use infiniband_diags.NetDisc.Fabric.Heap.{Node, Fabric, ib_node_switch}
use infiniband_diags.NetDisc.Fabric.{
  smp_data, set_node, is_behind, comes_from_behind, claim_port, place_port, recv_node_desc,
  recv_switch_info,
}
use infiniband_diags.NetDisc.Fabric.Invariant.{IsFabric}
use infiniband_diags.NetDisc.Fabric.Invariant.Created.{create_node-IsFabric}
use infiniband_diags.NetDisc.Fabric.Invariant.Ports.{InSlot, claim_port-InSlot, place_port-IsFabric}
use infiniband_diags.NetDisc.Discovery.{
  Callback, on_node_desc, on_switch_info, on_port_info, on_port0_info, on_mlnx_ext_port_info,
  on_node_info, with_fabric, query, mlnx_ext_port_info_err, query_node, arrive, recv_node_info,
  call, discover, ib_attr_node_desc, ib_attr_node_info, ib_attr_switch_info,
}
use infiniband_diags.NetDisc.Discovery.Routes.{IbTypes}
use infiniband_diags.NetDisc.Discovery.Steps.{
  Scans, Out, Good, Goes, ends-Goes, with_fabric-Good, with_fabric-Goes, if-Goes, then_do-Goes,
  query-Goes, query_at-Goes, fault-Goes,
}
use infiniband_diags.NetDisc.Discovery.Handlers.{
  query_port_info-Works, recv_port_info-Works, recv_port0_info-Works, mlnx_ext_port_info_err-Works,
  recv_mlnx_ext_port_info-Works, set_node-Fine,
}

-- The two readings of the GUID of a NodeInfo are the same.
guid_read :
    (node_info : Buf)
    → as_u64 (mad_decode_field node_info ib_node_guid_f (λ a. 0))
      ≡ mad_get_field64 node_info 0 ib_node_guid_f
unfolding as_u64 mad_decode_field mad_get_field64 mad_field ib_mad_f
guid_read node_info = refl

module _ {W M L : Type 0} (umad : Umad W) (qmap : QMap M) (lids : QMap L) (cfg : Config)
    (types : IbTypes) (mlx_epi : Bool) (seed room : ℕ) (laws : IsQMap qmap) (size : W → ℕ)
    (finite : IsFinite umad size) where
  abbrev S : Type 0
  S = Scans umad qmap lids cfg types mlx_epi seed room laws size finite

  abbrev R : Type 0
  R = Out umad qmap lids cfg types mlx_epi seed room laws size finite

  abbrev Fine : S → Type 0
  Fine engine = Good umad qmap lids cfg types mlx_epi seed room laws size finite engine

  abbrev Works : S → R → Type 0
  Works engine out = Goes umad qmap lids cfg types mlx_epi seed room laws size finite engine out

  query_node-Works :
      (engine : S) (smp nd port_num : ℕ) (is_new : Bool)
      → Fine engine
      → Works engine
          (query_node umad qmap lids cfg types mlx_epi seed room engine smp nd port_num is_new)
  unfolding query_node
  query_node-Works engine smp nd port_num is_new good =
      let is_switch = (engine.user_data.node_at nd).type == ib_node_switch in
      then_do-Goes umad qmap lids cfg types mlx_epi seed room laws size finite engine _ _
        (if-Goes umad qmap lids cfg types mlx_epi seed room laws size finite engine _ _ is_new
          (then_do-Goes umad qmap lids cfg types mlx_epi seed room laws size finite engine _ _
            (query_at-Goes umad qmap lids cfg types mlx_epi seed room laws size finite engine smp
              ib_attr_node_desc 0 (on_node_desc nd) good)
            (λ after ok.
              if-Goes umad qmap lids cfg types mlx_epi seed room laws size finite after _ _
                is_switch
                (let n : Node = record (after.user_data.node_at nd) { smaenhsp0 = 0 } in
                  let base =
                    with_fabric umad qmap lids cfg types mlx_epi seed room after
                      (set_node after.user_data nd n) in
                  with_fabric-Goes umad qmap lids cfg types mlx_epi seed room laws size finite after
                    (set_node after.user_data nd n) _
                    (then_do-Goes umad qmap lids cfg types mlx_epi seed room laws size finite base _
                      _
                      (query_at-Goes umad qmap lids cfg types mlx_epi seed room laws size finite
                        base smp ib_attr_switch_info 0 (on_switch_info nd)
                        (set_node-Fine umad qmap lids cfg types mlx_epi seed room laws size finite
                          after nd n refl refl ok))
                      (λ last ok'.
                        query_port_info-Works umad qmap lids cfg types mlx_epi seed room laws size
                          finite last smp nd 0 ok')))
                (ends-Goes umad qmap lids cfg types mlx_epi seed room laws size finite after (pos 0)
                  ok)))
          (ends-Goes umad qmap lids cfg types mlx_epi seed room laws size finite engine (pos 0)
            good))
        (λ after ok.
          then_do-Goes umad qmap lids cfg types mlx_epi seed room laws size finite after _ _
            (if-Goes umad qmap lids cfg types mlx_epi seed room laws size finite after _ _ is_switch
              (ends-Goes umad qmap lids cfg types mlx_epi seed room laws size finite after (pos 0)
                ok)
              (query_port_info-Works umad qmap lids cfg types mlx_epi seed room laws size finite
                after smp nd port_num ok))
            (λ last ok'.
              ends-Goes umad qmap lids cfg types mlx_epi seed room laws size finite last (pos 0)
                ok'))

  arrive-Works :
      (engine : S) (fab : Fabric L) (smp nd : ℕ) (is_new : Bool) (from : Option (ℕ × ℕ))
      (node_info : Buf)
      → Fine engine
      → IsFabric fab
      → Works engine (
          arrive umad qmap lids cfg types mlx_epi seed room engine fab smp nd is_new from node_info)
  unfolding arrive
  arrive-Works engine fab smp nd is_new from node_info good ok =
      let port_num = mad_get_field node_info 0 ib_node_local_port_f in
      let port_guid = mad_get_field64 node_info 0 ib_node_port_guid_f in
      let base = with_fabric umad qmap lids cfg types mlx_epi seed room engine fab in
      let stood =
        with_fabric-Good umad qmap lids cfg types mlx_epi seed room laws size finite engine fab good
          ok in
      elim (Bool-cases (is_behind fab nd port_num || comes_from_behind fab from)) [
        | inl behind ↦
            rw (arrive, behind)
              (with_fabric-Goes umad qmap lids cfg types mlx_epi seed room laws size finite engine
                fab _
                (fault-Goes umad qmap lids cfg types mlx_epi seed room laws size finite base stood))
        | inr inside ↦
            let each =
              claim_port-InSlot fab ok room nd port_num port_guid (ground (arith, inside)) in
            elim (Option-cases (claim_port room fab nd port_num port_guid)) [
              | inl oom ↦
                  rw (arrive, inside, oom)
                    (with_fabric-Goes umad qmap lids cfg types mlx_epi seed room laws size finite
                      engine fab _
                      (ends-Goes umad qmap lids cfg types mlx_epi seed room laws size finite base
                        (negsuc 0) stood))
              | inr ((port, claimed), at) ↦
                  let slot : InSlot nd port_num port claimed = rw at at each in
                  let below = (slot.0.placed nd port_num port slot.1).0 in
                  let placed = place_port claimed from nd port port_num in
                  let good' =
                    with_fabric-Good umad qmap lids cfg types mlx_epi seed room laws size finite
                      engine placed.1 good
                      (place_port-IsFabric claimed slot.0 from nd port port_num below) in
                  let next =
                    with_fabric umad qmap lids cfg types mlx_epi seed room engine placed.1 in
                  rw (arrive, inside, at)
                    (with_fabric-Goes umad qmap lids cfg types mlx_epi seed room laws size finite
                      engine placed.1 _
                      (if-Goes umad qmap lids cfg types mlx_epi seed room laws size finite next _ _
                        placed.0 (query_node-Works next smp nd port_num is_new good')
                        (ends-Goes umad qmap lids cfg types mlx_epi seed room laws size finite next
                          (negsuc 0) good')))
            ]
      ]

  recv_node_info-Works :
      (engine : S) (smp : ℕ) (from : Option (ℕ × ℕ)) (mad : Buf)
      → Fine engine
      → Works engine (recv_node_info umad qmap lids cfg types mlx_epi seed room engine smp from mad)
  unfolding recv_node_info
  recv_node_info-Works engine smp from mad good =
      let fab = engine.user_data in
      let info = smp_data mad in
      let guid = mad_get_field64 info 0 ib_node_guid_f in
      let cat = good.1.catalog in
      let looked =
        ibnd_find_node_guid-find fab.next_node (suc fab.next_node) fab.nodes cat.chains cat.tabled
          (omega arith) guid in
      elim (Option-cases (find (λ nd. fab.nodes.guid nd == guid) (cat.chains (hash_index guid)))) [
        | inr (nd, known) ↦
            let found : ibnd_find_node_guid (suc fab.next_node) fab.nodes guid ≡ some (some nd) =
              looked ∙ ap some known in
            rw (recv_node_info, found) (arrive-Works engine fab smp nd false from info good good.1)
        | inl new ↦
            let unknown : ibnd_find_node_guid (suc fab.next_node) fab.nodes guid ≡ some none =
              looked ∙ ap some new in
            let unknown' : ibnd_find_node_guid (suc fab.next_node) fab.nodes
                  (as_u64 (mad_decode_field info ib_node_guid_f (λ a. 0)))
                ≡ some none =
              rw (guid_read info) unknown in
            rw (recv_node_info, unknown)
              (if-Goes umad qmap lids cfg types mlx_epi seed room laws size finite engine _ _
                (leb room fab.next_node)
                (ends-Goes umad qmap lids cfg types mlx_epi seed room laws size finite engine
                  (negsuc 0) good)
                (arrive-Works engine _ smp fab.next_node true from info good
                  (create_node-IsFabric fab good.1 (engine.heap smp).path info unknown')))
      ]

  call-Works :
      (cb : Callback) (engine : S) (smp : ℕ) (mad : Buf)
      → Fine engine
      → Works engine (call umad qmap lids cfg types mlx_epi seed room cb engine smp mad)
  unfolding call recv_node_desc recv_switch_info
  call-Works (on_node_desc nd) engine smp mad good =
      with_fabric-Goes umad qmap lids cfg types mlx_epi seed room laws size finite engine _ _ (
        ends-Goes umad qmap lids cfg types mlx_epi seed room laws size finite _ (pos 0) (
          set_node-Fine umad qmap lids cfg types mlx_epi seed room laws size finite engine nd _ refl
            refl good))
  call-Works (on_switch_info nd) engine smp mad good =
      with_fabric-Goes umad qmap lids cfg types mlx_epi seed room laws size finite engine _ _ (
        ends-Goes umad qmap lids cfg types mlx_epi seed room laws size finite _ (pos 0) (
          set_node-Fine umad qmap lids cfg types mlx_epi seed room laws size finite engine nd _ refl
            refl good))
  call-Works (on_port_info nd) engine smp mad good =
      recv_port_info-Works umad qmap lids cfg types mlx_epi seed room laws size finite engine smp nd
        mad good
  call-Works (on_port0_info nd) engine smp mad good =
      recv_port0_info-Works umad qmap lids cfg types mlx_epi seed room laws size finite engine smp
        nd mad good
  call-Works (on_mlnx_ext_port_info nd) engine smp mad good =
      recv_mlnx_ext_port_info-Works umad qmap lids cfg types mlx_epi seed room laws size finite
        engine smp nd mad good
  call-Works (on_node_info from) engine smp mad good = recv_node_info-Works engine smp from mad good

  -- The end of the loop over the replies: its return, a well-formed engine and fabric, and an empty
  -- wire unless it failed.
  pub record Drained (out : R) : Type 0 where
    pub rc : ℤ
    pub returned : out.0 ≡ some rc
    pub well : IsWell qmap cfg out.1
    pub fabric : IsFabric out.1.user_data
    pub drained : (is_zero rc ≡ false) ⊎ (qmap.count out.1.smps_on_wire ≡ 0)

  -- The loop over the replies with the callbacks of the discovery, from a well engine and a
  -- well-formed fabric: with more turns than datagrams are to come it ends by itself, keeps the
  -- engine well and the fabric well-formed, and unless it fails no SMP is left on the wire.
  pub process_mads-Drained :
      (turns : ℕ) (engine : S)
      → IsWell qmap cfg engine
      → IsFabric engine.user_data
      → size engine.world < turns
      → Drained (
          process_mads umad qmap cfg seed
            (call umad qmap lids cfg types mlx_epi seed room)
            (mlnx_ext_port_info_err umad qmap lids cfg types mlx_epi seed room)
            turns
            engine)
  process_mads-Drained turns engine well ok lt =
      let (run, drained) =
        process_mads-Emptied umad qmap cfg seed laws size finite IsFabric
          (call umad qmap lids cfg types mlx_epi seed room)
          (mlnx_ext_port_info_err umad qmap lids cfg types mlx_epi seed room)
          (λ cb e smp mad w i. call-Works cb e smp mad (w, i))
          (λ cb e smp mad w i.
            mlnx_ext_port_info_err-Works umad qmap lids cfg types mlx_epi seed room laws size finite
              cb e smp mad (w, i))
          turns engine well ok lt in
      record {
        rc = run.rc;
        returned = run.returned;
        well = run.well;
        fabric = run.holds;
        drained = drained;
      }

  -- The end of a discovery: its return, and a well-formed engine and fabric.
  pub record Discovered (out : R) : Type 0 where
    pub rc : ℤ
    pub returned : out.0 ≡ some rc
    pub well : IsWell qmap cfg out.1
    pub fabric : IsFabric out.1.user_data

  -- When finitely many datagrams are to come, the discovery ends by itself, from a well engine and
  -- a well-formed fabric, with more turns than there are datagrams; an access that C leaves
  -- undefined also ends it. In the fabric that it leaves, the link of a port is mutual, each slot
  -- of a node that has a port is within the array of the node, and its port names the node and the
  -- number, no two nodes have the same GUID, and each node is in the chain of its GUID.
  pub discover-Discovered :
      (turns : ℕ) (engine : S) (from : PortId)
      → IsWell qmap cfg engine
      → IsFabric engine.user_data
      → size engine.world < turns
      → Discovered (discover umad qmap lids cfg types mlx_epi seed room turns engine from)
  unfolding discover
  discover-Discovered turns engine from well ok lt =
      let asked =
        query-Goes umad qmap lids cfg types mlx_epi seed room laws size finite engine from
          ib_attr_node_info 0 (on_node_info none) (well, ok) in
      let start =
        (query umad qmap lids cfg types mlx_epi seed room engine from ib_attr_node_info 0
          (on_node_info none)).1 in
      elim (Bool-cases (is_zero asked.rc)) [
        | inr failed ↦
            rw (discover, asked.returned, failed)
              (record { rc = pos 0; returned = refl; well = asked.well; fabric = asked.holds })
        | inl sent ↦
            let run =
              process_mads-Drained turns start asked.well asked.holds
                (omega (arith, asked.fewer, lt)) in
            rw (discover, asked.returned, sent)
              (record {
                rc = run.rc;
                returned = run.returned;
                well = run.well;
                fabric = run.fabric;
              })
      ]
