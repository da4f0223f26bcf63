-- ===== src/NetDisc/Discovery.antt =====
-- libibnetdisc/src/ibnetdisc.c: the callbacks of the discovery, as callbacks of the engine of
-- NetDisc.Query, and the discovery from its first query to the end of the loop over the replies.
-- Debug output and progress messages are left out.
pub mod Routes
pub mod Steps
pub mod Handlers
pub mod Laws
use infiniband_diags.Base.{
  ℕ, zero, suc, ◌+◌, ◌-◌, ◌%◌, ◌^◌, bit_and, Bool, true, false, not, ◌&&◌, ◌||◌, Option, none, some,
  List, [], ◌∷◌, ltb, leb, ◌==◌, if◌then◌else◌,
}
use infiniband_diags.Base.Int.{ℤ, pos, negsuc, is_positive, is_zero, at_least}
use infiniband_diags.Mad.Field.{Buf}
use infiniband_diags.Mad.Table.{mad_get_field}
use infiniband_diags.Mad.Wide.{mad_get_field64}
use infiniband_diags.Mad.Types.{PortId}
use infiniband_diags.Mad.Rpc.{Umad}
use infiniband_diags.Mad.Numbers.{
  ib_mad_attrmod_f, ib_node_guid_f, ib_node_port_guid_f, ib_node_local_port_f, ib_node_devid_f,
  ib_node_vendorid_f, ib_port_local_port_f, ib_port_phys_state_f, ib_port_link_speed_active_f,
  ib_port_link_speed_ext_active_f, ib_port_capmask_f,
}
use infiniband_diags.NetDisc.Engine.{QMap, Config, Engine, store, minus_enomem}
use infiniband_diags.NetDisc.Query.{Step, issue_smp, process_mads, ib_attr_mlnx_ext_port_info}
use infiniband_diags.NetDisc.Path.{Hop, extend_dpath, retract_dpath}
use infiniband_diags.NetDisc.Hash.{ibnd_find_node_guid}
use infiniband_diags.NetDisc.Fabric.Heap.{Node, Port, Fabric, ib_node_switch}
use infiniband_diags.NetDisc.Fabric.{
  smp_data, copy_data, set_node, set_port, port_of, is_behind, comes_from_behind, create_node,
  claim_port, place_port, recv_node_desc, recv_switch_info, take_port_info,
}
use infiniband_diags.NetDisc.Discovery.Routes.{
  IbTypes, is_mlnx_ext_port_info_supported, is_at, route_on, lacks_port0, leads_on, is_qdr,
}

-- A callback with its data: a node, or where the route of a NodeInfo came from.
pub data Callback : Type 0 where
  on_node_desc on_switch_info on_port_info on_port0_info on_mlnx_ext_port_info : ℕ → Callback
  on_node_info : Option (ℕ × ℕ) → Callback

abbrev pub ib_attr_node_desc : ℕ
ib_attr_node_desc = 0x10

abbrev pub ib_attr_node_info : ℕ
ib_attr_node_info = 0x11

abbrev pub ib_attr_switch_info : ℕ
ib_attr_switch_info = 0x12

abbrev pub ib_attr_port_info : ℕ
ib_attr_port_info = 0x15

-- The node that a callback has; the callback of a NodeInfo has none, and is not asked for it.
abbrev pub node_of : Callback → ℕ
node_of (on_node_desc nd) = nd
node_of (on_switch_info nd) = nd
node_of (on_port_info nd) = nd
node_of (on_port0_info nd) = nd
node_of (on_mlnx_ext_port_info nd) = nd
node_of (on_node_info from) = 0

-- A step whose return is not looked at, and what follows; a run without fuel stops.
abbrev pub then_do :
    {W M U : Type 0}
    → Step W M Callback U
    → (Engine W M Callback U → Step W M Callback U)
    → Step W M Callback U
then_do (none, engine) next = (none, engine)
then_do (some rc, engine) next = next engine

module _ {W M L : Type 0} (umad : Umad W) (qmap : QMap M) (lids : QMap L) (cfg : Config)
    (types : IbTypes) (mlx_epi : Bool) (seed room : ℕ) where
  abbrev pub Scanner : Type 0
  Scanner = Engine W M Callback (Fabric L)

  abbrev pub Result : Type 0
  Result = Step W M Callback (Fabric L)

  abbrev pub with_fabric : Scanner → Fabric L → Scanner
  with_fabric engine fab = record engine { user_data = fab }

  -- An access that the source makes and C leaves undefined: the model marks the fabric and fails.
  abbrev pub fault : Scanner → Result
  fault engine = (some (negsuc 0), with_fabric engine (record engine.user_data { faulted = true }))

  -- What follows, unless it starts with such an access.
  abbrev pub unless : Bool → Scanner → Result → Result
  unless undefined engine next = if undefined then fault engine else next

  -- A query along a route of the handler's own.
  abbrev pub query : Scanner → PortId → (attrid modifier : ℕ) → Callback → Result
  query engine path attrid modifier cb =
      (issue_smp umad qmap cfg seed room engine path attrid modifier cb).0

  -- A query along the route of an SMP, which issue_smp changes.
  unfoldable pub query_at : Scanner → (smp : ℕ) → (attrid modifier : ℕ) → Callback → Result
  query_at engine smp attrid modifier cb =
      let ((rc, sent), path) =
        issue_smp umad qmap cfg seed room engine (engine.heap smp).path attrid modifier cb in
      (rc, record sent { heap = store sent.heap smp (record (sent.heap smp) { path = path }) })

  -- The end that three of the handlers share: debug_port, which reads ports[0] of a switch, and a
  -- query of the node behind the port.
  unfoldable pub proceed : Scanner → (smp nd port port_num local_port : ℕ) → Result
  proceed engine smp nd port port_num local_port =
      let fab = engine.user_data in
      let (rc, (scan, path)) = route_on fab (engine.heap smp).path nd port_num in
      let routed = with_fabric engine (record fab { scan = scan }) in
      let asked =
        (if is_positive rc
          then query routed path ib_attr_node_info 0 (on_node_info (some (nd, port_num)))
          else (some (pos 0), routed)) in
      unless (lacks_port0 fab nd) engine (
        if leads_on types fab nd port port_num local_port
        then then_do asked (λ engine. (some (pos 0), engine))
        else (some (pos 0), engine))

  -- PORT_INFO of port 0 is received by recv_port0_info.
  abbrev pub query_port_info : Scanner → (smp nd portnum : ℕ) → Result
  query_port_info engine smp nd portnum =
      query_at engine smp ib_attr_port_info portnum
        (if portnum == 0 then on_port0_info nd else on_port_info nd)

  unfoldable pub recv_port_info : Scanner → (smp nd : ℕ) → Buf → Result
  recv_port_info engine smp nd mad =
      let port_info = smp_data mad in
      let port_num = mad_get_field mad 0 ib_mad_attrmod_f % 2 ^ 8 in
      let local_port = mad_get_field port_info 0 ib_port_local_port_f % 2 ^ 8 in
      let next : Result = elim (take_port_info lids room engine.user_data nd port_num port_info) [
        | none ↦ (some (negsuc 0), engine)
        | some (port, fab) ↦
            let taken = with_fabric engine fab in
            let extended = mlx_epi && is_mlnx_ext_port_info_supported (fab.node_at nd).info in
            unless (extended && lacks_port0 fab nd) taken (
              if extended && is_qdr types fab nd port
              then then_do
                  (query_at taken smp ib_attr_mlnx_ext_port_info port_num
                    (on_mlnx_ext_port_info nd))
                  (λ engine. (some (pos 0), engine))
              else proceed taken smp nd port port_num local_port)
      ] in
      unless (is_behind engine.user_data nd port_num) engine next

  -- Query PortInfo on switch external/physical ports: the ports that are left, from `portnum` on.
  unfoldable pub query_ports : (left portnum : ℕ) → Scanner → (smp nd : ℕ) → Result
  query_ports zero portnum engine smp nd = (some (pos 0), engine)
  query_ports (suc left) portnum engine smp nd =
      then_do (query_port_info engine smp nd portnum)
        (λ engine. query_ports left (suc portnum) engine smp nd)

  unfoldable pub recv_port0_info : Scanner → (smp nd : ℕ) → Buf → Result
  recv_port0_info engine smp nd mad =
      let (status, received) = recv_port_info engine smp nd mad in
      elim status [
        | none ↦ (none, received)
        | some rc ↦
            then_do (query_ports (received.user_data.node_at nd).numports 1 received smp nd)
              (λ engine. (some rc, engine))
      ]

  -- mlnx_ext_port_info_err: the reply failed, and the discovery goes on without it.
  unfoldable pub mlnx_ext_port_info_err : Callback → Scanner → (smp : ℕ) → Buf → Result
  mlnx_ext_port_info_err cb engine smp mad =
      let nd = node_of cb in
      let port_num = mad_get_field mad 0 ib_mad_attrmod_f % 2 ^ 8 in
      let next : Result = elim (port_of engine.user_data nd port_num) [
        | none ↦ (some (negsuc 0), engine)
        | some port ↦
            let info = (engine.user_data.port_at port).info in
            proceed engine smp nd port port_num (mad_get_field info 0 ib_port_local_port_f % 2 ^ 8)
      ] in
      unless (is_behind engine.user_data nd port_num) engine next

  unfoldable pub recv_mlnx_ext_port_info : Scanner → (smp nd : ℕ) → Buf → Result
  recv_mlnx_ext_port_info engine smp nd mad =
      let fab = engine.user_data in
      let port_num = mad_get_field mad 0 ib_mad_attrmod_f % 2 ^ 8 in
      let next : Result = elim (port_of fab nd port_num) [
        | none ↦ (some (negsuc 0), engine)
        | some port ↦
            let p = fab.port_at port in
            let stored =
              set_port fab port (record p { ext_info = copy_data p.ext_info (smp_data mad) }) in
            proceed (with_fabric engine stored) smp nd port port_num
              (mad_get_field p.info 0 ib_port_local_port_f % 2 ^ 8)
      ] in
      unless (is_behind fab nd port_num) engine next

  -- The queries of a node: those that only a new node gets, and the PortInfo of a port that is not
  -- of a switch.
  unfoldable pub query_node : Scanner → (smp nd port_num : ℕ) → (is_new : Bool) → Result
  query_node engine smp nd port_num is_new =
      let n = engine.user_data.node_at nd in
      let is_switch = n.type == ib_node_switch in
      let base_sp0 = λ (engine : Scanner).
        (let fab = engine.user_data in
          with_fabric engine (set_node fab nd (record (fab.node_at nd) { smaenhsp0 = 0 }))) in
      let switch_queries = λ (engine : Scanner).
        (then_do (query_at (base_sp0 engine) smp ib_attr_switch_info 0 (on_switch_info nd))
          (λ engine. query_port_info engine smp nd 0)) in
      let new_queries =
        (then_do (query_at engine smp ib_attr_node_desc 0 (on_node_desc nd))
          (λ engine. if is_switch then switch_queries engine else (some (pos 0), engine))) in
      then_do (if is_new then new_queries else (some (pos 0), engine)) (λ engine.
        then_do
          (if is_switch then (some (pos 0), engine) else query_port_info engine smp nd port_num)
          (λ engine. (some (pos 0), engine)))

  -- The node with this NodeInfo is in `fab`, at `nd`: its port is claimed and linked.
  unfoldable pub arrive :
      Scanner
      → Fabric L
      → (smp nd : ℕ) → (is_new : Bool) → Option (ℕ × ℕ)
      → (node_info : Buf) → Result
  arrive engine fab smp nd is_new from node_info =
      let port_num = mad_get_field node_info 0 ib_node_local_port_f in
      let port_guid = mad_get_field64 node_info 0 ib_node_port_guid_f in
      let next : Result = elim (claim_port room fab nd port_num port_guid) [
        | none ↦ (some (negsuc 0), with_fabric engine fab)
        | some (port, claimed) ↦
            let (linked, placed) = place_port claimed from nd port port_num in
            if linked
            then query_node (with_fabric engine placed) smp nd port_num is_new
            else (some (negsuc 0), with_fabric engine placed)
      ] in
      unless (is_behind fab nd port_num || comes_from_behind fab from) (with_fabric engine fab) next

  unfoldable pub recv_node_info : Scanner → (smp : ℕ) → Option (ℕ × ℕ) → Buf → Result
  recv_node_info engine smp from mad =
      let fab = engine.user_data in
      let node_info = smp_data mad in
      let new = create_node fab (engine.heap smp).path node_info in
      elim (ibnd_find_node_guid (suc fab.next_node) fab.nodes
        (mad_get_field64 node_info 0 ib_node_guid_f)) [
          | none ↦ (none, engine)
          | some found ↦ elim found [
            | some nd ↦ arrive engine fab smp nd false from node_info
            | none ↦
                if leb room fab.next_node
                then (some (negsuc 0), engine)
                else arrive engine new smp fab.next_node true from node_info
          ]
        ]

  -- smp->cb
  unfoldable pub call : Callback → Scanner → (smp : ℕ) → Buf → Result
  call (on_node_desc nd) engine smp mad =
      (some (pos 0), with_fabric engine (recv_node_desc engine.user_data nd mad))
  call (on_switch_info nd) engine smp mad =
      (some (pos 0), with_fabric engine (recv_switch_info engine.user_data nd mad))
  call (on_port_info nd) engine smp mad = recv_port_info engine smp nd mad
  call (on_port0_info nd) engine smp mad = recv_port0_info engine smp nd mad
  call (on_mlnx_ext_port_info nd) engine smp mad = recv_mlnx_ext_port_info engine smp nd mad
  call (on_node_info from) engine smp mad = recv_node_info engine smp from mad

  -- The middle of ibnd_discover_fabric: the first query, and the loop if that was sent.
  unfoldable pub discover : (turns : ℕ) → Scanner → (from : PortId) → Result
  discover turns engine from =
      let (rc, asked) = query engine from ib_attr_node_info 0 (on_node_info none) in
      let run = process_mads umad qmap cfg seed call mlnx_ext_port_info_err turns asked in
      elim rc [ none ↦ (none, asked) | some rc ↦ if is_zero rc then run else (some (pos 0), asked) ]
