-- ===== src/NetDisc/Fabric.antt =====
-- libibnetdisc/src/ibnetdisc.c and include/infiniband/ibnetdisc.h: the fabric that is discovered, on
-- a heap of nodes and ports, and the operations that build it. Nodes and ports are addresses; the
-- fields that the hash tables and the links read are those of NetDisc.Hash and NetDisc.Ports.
pub mod Heap
pub mod Invariant
use infiniband_diags.Base.{
  ℕ, zero, suc, ◌+◌, ◌-◌, ◌%◌, ◌^◌, Bool, true, false, ◌&&◌, Option, none, some, ltb, leb, ◌==◌,
  if◌then◌else◌,
}
use infiniband_diags.Mad.Field.{Buf}
use infiniband_diags.Mad.Table.{mad_get_field}
use infiniband_diags.Mad.Wide.{memcpy, mad_get_field64, mad_decode_field, as_u32, as_u64}
use infiniband_diags.Mad.Types.{PortId}
use infiniband_diags.Mad.Numbers.{
  ib_node_type_f, ib_node_nports_f, ib_node_guid_f, ib_node_port_guid_f, ib_port_lid_f,
  ib_port_lmc_f, ib_sw_enhanced_port0_f,
}
use infiniband_diags.NetDisc.Engine.{QMap, store}
use infiniband_diags.NetDisc.Query.{ib_smp_data_offs, ib_smp_data_size}
use infiniband_diags.NetDisc.Path.{Scan}
use infiniband_diags.NetDisc.Ports.{Remotes, set_remote, link_ports}
use infiniband_diags.NetDisc.Hash.{Table, add_to_nodeguid_hash, ibnd_find_node_guid}
use infiniband_diags.NetDisc.Fabric.Heap.{
  ib_node_ca, ib_node_switch, ib_node_router, Node, Port, Fabric,
}

-- mad + IB_SMP_DATA_OFFS
abbrev pub smp_data : Buf → Buf
smp_data mad = λ k. mad (ib_smp_data_offs + k)

-- A buffer of IB_SMP_DATA_SIZE bytes, filled.
abbrev pub copy_data : Buf → Buf → Buf
copy_data old source = memcpy old 0 source ib_smp_data_size

-- What calloc gives.
abbrev pub zero_port : Port
zero_port = record {
  owner = none;
  portnum = 0;
  ext_portnum = 0;
  base_lid = 0;
  lmc = 0;
  info = λ a. 0;
  ext_info = λ a. 0;
}

-- The new node, with the fields that are decoded from its NodeInfo.
abbrev pub fresh_node : PortId → Buf → Option ℕ → Node
fresh_node path node_info next_all = record {
  type = as_u32 (mad_decode_field node_info ib_node_type_f (λ a. 0));
  numports = as_u32 (mad_decode_field node_info ib_node_nports_f (λ a. 0));
  path_portid = path;
  info = copy_data (λ a. 0) node_info;
  switchinfo = λ a. 0;
  nodedesc = λ a. 0;
  smaenhsp0 = 0;
  smalid = 0;
  smalmc = 0;
  ports = λ i. none;
  next_all = next_all;
  type_next = none;
}

-- The table with the new node's fields, before it is inserted.
abbrev pub with_guid : Table → ℕ → ℕ → Table
with_guid table a guid = record table {
  guid = store table.guid a guid;
  htnext = store table.htnext a none;
}

abbrev pub with_port : Node → ℕ → ℕ → Node
with_port n num port = record n { ports = store n.ports num (some port) }

-- A port and the fabric that it stands in; `none` without memory.
abbrev pub Claim : Type 0 → Type 0
Claim L = Option (ℕ × Fabric L)

module _ {L : Type 0} where
  abbrev pub set_node : Fabric L → ℕ → Node → Fabric L
  set_node fab a n = record fab { node_at = store fab.node_at a n }

  abbrev pub set_port : Fabric L → ℕ → Port → Fabric L
  set_port fab a p = record fab { port_at = store fab.port_at a p }

  -- node->ports[num], for a number that is not behind the array
  abbrev pub port_of : Fabric L → ℕ → ℕ → Option ℕ
  port_of fab nd num = (fab.node_at nd).ports num

  -- node->ports has numports + 1 slots.
  abbrev pub is_behind : Fabric L → (nd num : ℕ) → Bool
  is_behind fab nd num = ltb (fab.node_at nd).numports num

  abbrev pub comes_from_behind : Fabric L → Option (ℕ × ℕ) → Bool
  comes_from_behind fab none = false
  comes_from_behind fab (some (rem_node, rem_port_num)) = is_behind fab rem_node rem_port_num

  unfoldable pub add_to_type_list : Fabric L → ℕ → Fabric L
  add_to_type_list fab nd =
      let n = fab.node_at nd in
      if n.type == ib_node_ca
      then record (set_node fab nd (record n { type_next = fab.ch_adapters })) {
        ch_adapters = some nd;
      }
      else if n.type == ib_node_switch
      then record (set_node fab nd (record n { type_next = fab.switches })) { switches = some nd }
      else if n.type == ib_node_router
      then record (set_node fab nd (record n { type_next = fab.routers })) { routers = some nd }
      else fab

  -- The new node's address is `next_node`; one turn more than there are nodes walks every chain.
  unfoldable pub create_node : Fabric L → PortId → (node_info : Buf) → Fabric L
  create_node fab path node_info =
      let nd = fab.next_node in
      let guid = as_u64 (mad_decode_field node_info ib_node_guid_f (λ a. 0)) in
      let (rc, nodes) = add_to_nodeguid_hash (suc nd) (with_guid fab.nodes nd guid) nd in
      let listed = record fab {
        nodes = nodes;
        node_at = store fab.node_at nd (fresh_node path node_info fab.all_nodes);
        all_nodes = some nd;
        next_node = suc nd;
      } in
      add_to_type_list listed nd

  -- node->ports[num] = calloc(1, sizeof(*port)), at the address `next_port`; the callers stop before
  -- a number that is behind the array.
  unfoldable pub calloc_port : Fabric L → ℕ → ℕ → Fabric L
  calloc_port fab nd num =
      let port = fab.next_port in
      let n = fab.node_at nd in
      record fab {
        node_at = store fab.node_at nd (with_port n num port);
        port_at = store fab.port_at port zero_port;
        portstbl = with_guid fab.portstbl port 0;
        remotes = set_remote fab.remotes port none;
        next_port = suc port;
      }

  abbrev pub set_guid : Fabric L → ℕ → ℕ → Fabric L
  set_guid fab port guid = record fab {
    portstbl = record fab.portstbl { guid = store fab.portstbl.guid port guid };
  }

  -- port->node = node; port->portnum = num
  abbrev pub name_port : Fabric L → ℕ → ℕ → ℕ → Fabric L
  name_port fab port nd num =
      set_port fab port (record (fab.port_at port) { owner = some nd; portnum = num })

  -- recv_node_info: the port with the local number, or a shell for it; then its GUID.
  unfoldable pub claim_port : (room : ℕ) → Fabric L → ℕ → (port_num port_guid : ℕ) → Claim L
  claim_port room fab nd port_num port_guid = elim (port_of fab nd port_num) [
    | some port ↦ some (port, set_guid fab port port_guid)
    | none ↦
        let port = fab.next_port in
        if leb room port
        then none
        else some (
          port,
          set_guid (name_port (calloc_port fab nd port_num) port nd port_num) port port_guid,
        )
  ]

  -- recv_port_info: the port of the attribute modifier, or a new one with the GUID of the NodeInfo.
  unfoldable pub port_for_info : (room : ℕ) → Fabric L → ℕ → (port_num : ℕ) → Claim L
  port_for_info room fab nd port_num = elim (port_of fab nd port_num) [
    | some port ↦ some (port, fab)
    | none ↦
        let port = fab.next_port in
        if leb room port
        then none
        else some (
          port,
          set_guid (calloc_port fab nd port_num) port
              (mad_get_field64 (fab.node_at nd).info 0 ib_node_port_guid_f),
        )
  ]

  -- The fields that a PortInfo gives; port 0 gives the node its LID, and the other ports of a
  -- switch have the LID of the node.
  unfoldable pub fill_port : Fabric L → ℕ → ℕ → (port_num : ℕ) → (port_info : Buf) → Fabric L
  fill_port fab nd port port_num port_info =
      let n = fab.node_at nd in
      let old = fab.port_at port in
      let info = copy_data old.info port_info in
      let lid = mad_get_field info 0 ib_port_lid_f % 2 ^ 16 in
      let lmc = mad_get_field info 0 ib_port_lmc_f % 2 ^ 8 in
      let filled = record old {
        info = info;
        owner = some nd;
        portnum = port_num;
        ext_portnum = 0;
        base_lid = lid;
        lmc = lmc;
      } in
      if port_num == 0
      then set_node (set_port fab port filled) nd (record n { smalid = lid; smalmc = lmc })
      else if n.type == ib_node_switch
      then set_port fab port (record filled { base_lid = n.smalid; lmc = n.smalmc })
      else set_port fab port filled

  -- The walk is that of add_to_nodeguid_hash; its return of 1, for a port that is there, is printed.
  unfoldable pub add_to_portguid_hash : Fabric L → ℕ → Fabric L
  add_to_portguid_hash fab port = record fab {
    portstbl = (add_to_nodeguid_hash (suc fab.next_port) fab.portstbl port).1;
  }

  -- link_ports of two ports of the fabric
  abbrev pub link_in : Fabric L → ℕ → ℕ → Fabric L
  link_in fab port remoteport = record fab { remotes = link_ports fab.remotes port remoteport }

  -- The start node, or the link to the port that the route came from; -1 when that was not created.
  unfoldable pub place_port : Fabric L → Option (ℕ × ℕ) → (nd port port_num : ℕ) → Bool × Fabric L
  place_port fab none nd port port_num =
      (true, record fab { from_node = some nd; from_portnum = port_num })
  place_port fab (some (rem_node, rem_port_num)) nd port port_num =
      elim (port_of fab rem_node rem_port_num) [
        | none ↦ (false, fab)
        | some remoteport ↦ (true, link_in fab port remoteport)
      ]

  unfoldable pub recv_node_desc : Fabric L → ℕ → (mad : Buf) → Fabric L
  recv_node_desc fab nd mad =
      let n = fab.node_at nd in
      set_node fab nd (record n { nodedesc = copy_data n.nodedesc (smp_data mad) })

  unfoldable pub recv_switch_info : Fabric L → ℕ → (mad : Buf) → Fabric L
  recv_switch_info fab nd mad =
      let n = fab.node_at nd in
      let info = copy_data n.switchinfo (smp_data mad) in
      set_node fab nd (record n {
        switchinfo = info;
        smaenhsp0 = as_u32 (mad_decode_field info ib_sw_enhanced_port0_f (λ a. 0));
      })

  module _ (lids : QMap L) where
    -- for (lid = base_lid; lid <= base_lid + lid_mask; lid++), on the LIDs that are left. A LID of
    -- 16 bits does not wrap here: base_lid is at most 0xbfff, and lmc has three bits.
    unfoldable pub insert_lids : (left : ℕ) → (lid : ℕ) → (port : ℕ) → L → L
    insert_lids zero lid port map = map
    insert_lids (suc left) lid port map = insert_lids left (suc lid) port (lids.insert lid port map)

    unfoldable pub add_to_portlid_hash : Fabric L → ℕ → Fabric L
    add_to_portlid_hash fab port =
        let p = fab.port_at port in
        let lid_mask = (2 ^ p.lmc - 1) % 2 ^ 16 in
        if ltb 0 p.base_lid && leb p.base_lid 0xbfff
        then record fab { lid2guid = insert_lids (suc lid_mask) p.base_lid port fab.lid2guid }
        else fab

    -- What recv_port_info does to the fabric: the port's address, and `none` without memory.
    unfoldable pub take_port_info :
        (room : ℕ) → Fabric L → ℕ → (port_num : ℕ) → (port_info : Buf) → Claim L
    take_port_info room fab nd port_num port_info = elim (port_for_info room fab nd port_num) [
      | none ↦ none
      | some (port, claimed) ↦
          let filled = fill_port claimed nd port port_num port_info in
          some (port, add_to_portlid_hash (add_to_portguid_hash filled port) port)
    ]
