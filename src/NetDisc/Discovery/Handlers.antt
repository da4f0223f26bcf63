-- ===== src/NetDisc/Discovery/Handlers.antt =====
-- The handlers of a PortInfo keep the engine and the fabric well-formed.
use infiniband_diags.Base.{
  ℕ, zero, suc, ◌%◌, ◌^◌, ◌≡◌, refl, inl, inr, Bool, Bool-cases, ◌&&◌, Option-cases, some, arith,
  if◌then◌else◌,
}
use infiniband_diags.Base.Int.{pos, negsuc}
use infiniband_diags.Mad.Field.{Buf}
use infiniband_diags.Mad.Table.{mad_get_field}
use infiniband_diags.Mad.Numbers.{ib_mad_attrmod_f, ib_port_local_port_f}
use infiniband_diags.Mad.Rpc.{Umad}
use infiniband_diags.Mad.Rpc.Receive.{IsFinite}
use infiniband_diags.NetDisc.Engine.{QMap, Config}
use infiniband_diags.NetDisc.Engine.Serving.{IsQMap}
use infiniband_diags.NetDisc.Query.{ib_attr_mlnx_ext_port_info}
use infiniband_diags.NetDisc.Query.Ends.{Lasting-trans}
use infiniband_diags.NetDisc.Fabric.Heap.{Node, Port}
use infiniband_diags.NetDisc.Fabric.{
  smp_data, copy_data, set_node, set_port, port_of, is_behind, take_port_info,
}
use infiniband_diags.NetDisc.Fabric.Invariant.{IsFabric}
use infiniband_diags.NetDisc.Fabric.Invariant.Shape.{
  SameShape-IsFabric, set_node-SameShape, set_port-SameShape,
}
use infiniband_diags.NetDisc.Fabric.Invariant.Ports.{take_port_info-IsFabric}
use infiniband_diags.NetDisc.Discovery.{
  Callback, on_mlnx_ext_port_info, unless, then_do, query_at, proceed, with_fabric, query_port_info,
  recv_port_info, query_ports, recv_port0_info, recv_mlnx_ext_port_info, mlnx_ext_port_info_err,
  node_of, ib_attr_port_info,
}
use infiniband_diags.NetDisc.Discovery.Routes.{
  IbTypes, lacks_port0, is_qdr, is_mlnx_ext_port_info_supported,
}
use infiniband_diags.NetDisc.Discovery.Steps.{
  Scans, Out, Good, Goes, ends-Goes, with_fabric-Good, with_fabric-Goes, if-Goes, then_do-Goes,
  query_at-Goes, fault-Goes, unless-Goes, proceed-Goes,
}

module _ {W M L : Type 0} (umad : Umad W) (qmap : QMap M) (lids : QMap L) (cfg : Config)
    (types : IbTypes) (mlx_epi : Bool) (seed room : ℕ) (laws : IsQMap qmap) (size : W → ℕ)
    (finite : IsFinite umad size) where
  abbrev S : Type 0
  S = Scans umad qmap lids cfg types mlx_epi seed room laws size finite

  abbrev R : Type 0
  R = Out umad qmap lids cfg types mlx_epi seed room laws size finite

  abbrev Fine : S → Type 0
  Fine engine = Good umad qmap lids cfg types mlx_epi seed room laws size finite engine

  abbrev Works : S → R → Type 0
  Works engine out = Goes umad qmap lids cfg types mlx_epi seed room laws size finite engine out

  pub query_port_info-Works :
      (engine : S) (smp nd portnum : ℕ)
      → Fine engine
      → Works engine
          (query_port_info umad qmap lids cfg types mlx_epi seed room engine smp nd portnum)
  query_port_info-Works engine smp nd portnum good =
      query_at-Goes umad qmap lids cfg types mlx_epi seed room laws size finite engine smp
        ib_attr_port_info portnum _ good

  -- What recv_port_info does when the port has its fields.
  taken-Works :
      (taken : S) (smp nd port port_num local_port : ℕ)
      → Fine taken
      → Works taken (
          let fab = taken.user_data in
          let extended = mlx_epi && is_mlnx_ext_port_info_supported (fab.node_at nd).info in
          unless umad qmap lids cfg types mlx_epi seed room (extended && lacks_port0 fab nd) taken (
            if extended && is_qdr types fab nd port
            then then_do
                (query_at umad qmap lids cfg types mlx_epi seed room taken smp
                  ib_attr_mlnx_ext_port_info port_num
                  (on_mlnx_ext_port_info nd))
                (λ engine. (some (pos 0), engine))
            else proceed umad qmap lids cfg types mlx_epi seed room taken smp nd port port_num
                local_port))
  taken-Works taken smp nd port port_num local_port ready =
      unless-Goes umad qmap lids cfg types mlx_epi seed room laws size finite _ taken _ ready (
        if-Goes umad qmap lids cfg types mlx_epi seed room laws size finite taken _ _ _
          (then_do-Goes umad qmap lids cfg types mlx_epi seed room laws size finite taken _ _
            (query_at-Goes umad qmap lids cfg types mlx_epi seed room laws size finite taken smp
              ib_attr_mlnx_ext_port_info port_num (on_mlnx_ext_port_info nd) ready)
            (λ after ok.
              ends-Goes umad qmap lids cfg types mlx_epi seed room laws size finite after (pos 0)
                ok))
          (proceed-Goes umad qmap lids cfg types mlx_epi seed room laws size finite taken smp nd
            port port_num local_port ready))

  pub recv_port_info-Works :
      (engine : S) (smp nd : ℕ) (mad : Buf)
      → Fine engine
      → Works engine (recv_port_info umad qmap lids cfg types mlx_epi seed room engine smp nd mad)
  unfolding recv_port_info
  recv_port_info-Works engine smp nd mad good =
      let port_num = mad_get_field mad 0 ib_mad_attrmod_f % 2 ^ 8 in
      let local_port = mad_get_field (smp_data mad) 0 ib_port_local_port_f % 2 ^ 8 in
      let fab₀ = engine.user_data in
      elim (Bool-cases (is_behind fab₀ nd port_num)) [
        | inl behind ↦
            rw (recv_port_info, behind)
              (fault-Goes umad qmap lids cfg types mlx_epi seed room laws size finite engine good)
        | inr inside ↦
            let each =
              take_port_info-IsFabric fab₀ good.1 lids room nd port_num (smp_data mad)
                (ground (arith, inside)) in
            elim (Option-cases (take_port_info lids room fab₀ nd port_num (smp_data mad))) [
              | inl oom ↦
                  rw (recv_port_info, inside, oom)
                    (ends-Goes umad qmap lids cfg types mlx_epi seed room laws size finite engine
                      (negsuc 0) good)
              | inr ((port, fab), at) ↦
                  let ok : IsFabric fab = rw at at each in
                  rw (recv_port_info, inside, at)
                    (with_fabric-Goes umad qmap lids cfg types mlx_epi seed room laws size finite
                      engine fab _
                      (taken-Works
                        (with_fabric umad qmap lids cfg types mlx_epi seed room engine fab) smp nd
                        port port_num local_port
                        (with_fabric-Good umad qmap lids cfg types mlx_epi seed room laws size
                          finite engine fab good ok)))
            ]
      ]

  query_ports-Works :
      (left portnum : ℕ) (engine : S) (smp nd : ℕ)
      → Fine engine
      → Works engine
          (query_ports umad qmap lids cfg types mlx_epi seed room left portnum engine smp nd)
  unfolding query_ports
  query_ports-Works zero portnum engine smp nd good =
      ends-Goes umad qmap lids cfg types mlx_epi seed room laws size finite engine (pos 0) good
  query_ports-Works (suc left) portnum engine smp nd good =
      then_do-Goes umad qmap lids cfg types mlx_epi seed room laws size finite engine _ _
        (query_port_info-Works engine smp nd portnum good)
        (λ after ok. query_ports-Works left (suc portnum) after smp nd ok)

  pub recv_port0_info-Works :
      (engine : S) (smp nd : ℕ) (mad : Buf)
      → Fine engine
      → Works engine (recv_port0_info umad qmap lids cfg types mlx_epi seed room engine smp nd mad)
  unfolding recv_port0_info
  recv_port0_info-Works engine smp nd mad good =
      let goes = recv_port_info-Works engine smp nd mad good in
      let received =
        (recv_port_info umad qmap lids cfg types mlx_epi seed room engine smp nd mad).1 in
      rw (recv_port0_info, goes.returned)
        (Lasting-trans umad qmap cfg seed laws size finite IsFabric engine received _ goes.fewer (
          then_do-Goes umad qmap lids cfg types mlx_epi seed room laws size finite received _ _
            (query_ports-Works (received.user_data.node_at nd).numports 1 received smp nd
              (goes.well, goes.holds))
            (λ after ok.
              ends-Goes umad qmap lids cfg types mlx_epi seed room laws size finite after goes.rc
                ok)))

  pub mlnx_ext_port_info_err-Works :
      (cb : Callback) (engine : S) (smp : ℕ) (mad : Buf)
      → Fine engine
      → Works engine
          (mlnx_ext_port_info_err umad qmap lids cfg types mlx_epi seed room cb engine smp mad)
  unfolding mlnx_ext_port_info_err
  mlnx_ext_port_info_err-Works cb engine smp mad good =
      let port_num = mad_get_field mad 0 ib_mad_attrmod_f % 2 ^ 8 in
      elim (Option-cases (port_of engine.user_data (node_of cb) port_num)) [
        | inl missing ↦
            rw (mlnx_ext_port_info_err, missing)
              (unless-Goes umad qmap lids cfg types mlx_epi seed room laws size finite _ engine _
                good
                (ends-Goes umad qmap lids cfg types mlx_epi seed room laws size finite engine
                  (negsuc 0) good))
        | inr (port, at) ↦
            rw (mlnx_ext_port_info_err, at)
              (unless-Goes umad qmap lids cfg types mlx_epi seed room laws size finite _ engine _
                good
                (proceed-Goes umad qmap lids cfg types mlx_epi seed room laws size finite engine smp
                  (node_of cb) port port_num _ good))
      ]

  pub recv_mlnx_ext_port_info-Works :
      (engine : S) (smp nd : ℕ) (mad : Buf)
      → Fine engine
      → Works engine
          (recv_mlnx_ext_port_info umad qmap lids cfg types mlx_epi seed room engine smp nd mad)
  unfolding recv_mlnx_ext_port_info
  recv_mlnx_ext_port_info-Works engine smp nd mad good =
      let fab = engine.user_data in
      let port_num = mad_get_field mad 0 ib_mad_attrmod_f % 2 ^ 8 in
      elim (Option-cases (port_of fab nd port_num)) [
        | inl missing ↦
            rw (recv_mlnx_ext_port_info, missing)
              (unless-Goes umad qmap lids cfg types mlx_epi seed room laws size finite _ engine _
                good
                (ends-Goes umad qmap lids cfg types mlx_epi seed room laws size finite engine
                  (negsuc 0) good))
        | inr (port, at) ↦
            let p : Port = record (fab.port_at port) {
              ext_info = copy_data (fab.port_at port).ext_info (smp_data mad);
            } in
            let ok = SameShape-IsFabric fab _ (set_port-SameShape fab port p refl refl) good.1 in
            let next =
              with_fabric umad qmap lids cfg types mlx_epi seed room engine (set_port fab port p) in
            rw (recv_mlnx_ext_port_info, at)
              (unless-Goes umad qmap lids cfg types mlx_epi seed room laws size finite _ engine _
                good
                (with_fabric-Goes umad qmap lids cfg types mlx_epi seed room laws size finite engine
                  (set_port fab port p) _
                  (proceed-Goes umad qmap lids cfg types mlx_epi seed room laws size finite next smp
                    nd port port_num _
                    (with_fabric-Good umad qmap lids cfg types mlx_epi seed room laws size finite
                      engine _ good ok))))
      ]

  pub set_node-Fine :
      (engine : S) (nd : ℕ) (n : Node)
      → n.ports ≡ (engine.user_data.node_at nd).ports
      → n.numports ≡ (engine.user_data.node_at nd).numports
      → Fine engine
      → Fine (
          with_fabric umad qmap lids cfg types mlx_epi seed room engine
            (set_node engine.user_data nd n))
  set_node-Fine engine nd n same count good =
      with_fabric-Good umad qmap lids cfg types mlx_epi seed room laws size finite engine _ good (
        SameShape-IsFabric engine.user_data _ (set_node-SameShape engine.user_data nd n same count)
          good.1)
