-- ===== src/NetDisc/DiscoveryTests.antt =====
-- The discovery of two channel adapters that are linked to each other: a test, and instances of the
-- theorems.
use infiniband_diags.Base.{
  ℕ, ◌+◌, ◌≡◌, refl, none, some, [], ◌∷◌, length, arith, ◌==◌, if◌then◌else◌, false, true,
}
use infiniband_diags.Base.Int.{pos}
use infiniband_diags.Mad.Field.{
  merge_byte, set_prebits, set_byte, set_bytes, set_postbits, set_field_within, set_field,
  get_bytes, get_prebits, get_postbits, get_field,
}
use infiniband_diags.Mad.Encode.{
  mad_trid, encode_first, encode_second_direct, encode_second, encode_ids, encode_path_direct,
  encode_path, encode_class, encode_data, encode_vendor, number_request, encode_rest, mad_encode,
}
use infiniband_diags.Mad.Packet.{packet_addr, packet_grh, packet_pkey, set_rmpp, mad_build_pkt}
use infiniband_diags.Mad.Table.{ib_mad_f, mad_field, mad_get_field, mad_set_field}
use infiniband_diags.Mad.Wide.{
  memcpy, htonll, ntohll, set_field64, get_field64, array_offs, set_array, get_array,
  mad_get_field64, mad_set_field64, mad_set_array, mad_get_array, mad_decode_field, as_u32, as_u64,
  as_bytes, mad_encode_field,
}
use infiniband_diags.NetDisc.Path.{
  add_port_to_dpath, from_lid, count_hop, extend_dpath, drop_hop, retract_dpath,
}
use infiniband_diags.NetDisc.Ports.{unlink, link_ports}
use infiniband_diags.Mad.Rpc.{Reply}
use infiniband_diags.Mad.Script.{Script, scripted, scripted-IsFinite}
use infiniband_diags.NetDisc.Engine.{
  Engine, queue_smp, get_smp, send_by, send_smp, put_on_wire, process_smp_queue,
}
use infiniband_diags.NetDisc.Query.{
  Step, smp_rpc, alloc_smp, issue_smp, dispatch, answer, process_one_recv, process_mads,
}
use infiniband_diags.NetDisc.Query.Well.{IsWell}
use infiniband_diags.NetDisc.Tests.{Wire, wires, wires-IsQMap, limits, target}
use infiniband_diags.NetDisc.Hash.{
  Table, walk, ibnd_find_node_guid, push_node, add_to_nodeguid_hash,
}
use infiniband_diags.NetDisc.Fabric.Heap.{Fabric}
use infiniband_diags.NetDisc.Fabric.{
  fresh_node, zero_port, add_to_type_list, create_node, calloc_port, claim_port, port_for_info,
  fill_port, add_to_portguid_hash, place_port, recv_node_desc, recv_switch_info, insert_lids,
  add_to_portlid_hash, take_port_info,
}
use infiniband_diags.NetDisc.Fabric.Invariant.{IsFabric}
use infiniband_diags.NetDisc.Discovery.{
  Callback, on_node_info, query, discover, query_at, proceed, recv_port_info, query_ports,
  recv_port0_info, mlnx_ext_port_info_err, recv_mlnx_ext_port_info, query_node, arrive,
  recv_node_info, call,
}
use infiniband_diags.NetDisc.Discovery.Routes.{
  IbTypes, is_mlnx_ext_port_info_supported, route_on, capmask_info, leads_on, is_qdr,
}
use infiniband_diags.Mad.RouteText.{
  Text, str2drpath, read_hops, push, increment, split, atoi, digits_value, to_u8, negated,
}
use infiniband_diags.NetDisc.Lookup.{found, ibnd_find_port_dr, follow}
use infiniband_diags.NetDisc.Discovery.Laws.{
  Discovered, discover-Discovered, Drained, process_mads-Drained,
}
use infiniband_diags.NetDisc.Discovery.Steps.{query-Goes}
use infiniband_diags.NetDisc.Query.Ends.{Lasting}

abbrev ib_types : IbTypes
ib_types = record {
  phys_state_linkup = 5;
  link_speed_active_10 = 4;
  link_speed_ext_active_none = 0;
  cap_has_ext_speeds = 0x4000;
}

abbrev no_table : Table
no_table = record { nodestbl = λ i. none; htnext = λ a. none; guid = λ a. 0 }

abbrev empty_fabric : Fabric Wire
empty_fabric = record {
  scan = record { max_hops = 0; initial_hops = 0; self_lid = pos 1; maxhops_discovered = 0 };
  nodes = no_table;
  node_at = λ a. fresh_node target (λ b. 0) none;
  next_node = 0;
  portstbl = no_table;
  port_at = λ a. zero_port;
  remotes = λ a. none;
  next_port = 0;
  lid2guid = [];
  all_nodes = none;
  ch_adapters = none;
  switches = none;
  routers = none;
  from_node = none;
  from_portnum = 0;
  faulted = false;
}

empty_fabric-IsFabric : IsFabric empty_fabric
empty_fabric-IsFabric = record {
  mutual_links = λ a b h. absurd (cc);
  unlinked = λ p le. refl;
  placed = λ nd num port h. absurd (cc);
  within = λ nd num port h. absurd (cc);
  catalog = record {
    chains = λ i. [];
    tabled = record { chained = λ i. refl; bounded = λ i. omega arith };
    allocated = λ i. tt;
    listed = λ nd lt. absurd (omega (arith, lt));
    unique = λ m n lt lt' e. absurd (omega (arith, lt));
  };
}

-- A reply with this number: its attribute modifier is 1, and its data begin at byte 64.
abbrev answered : ℕ → (ℕ → ℕ) → Reply
answered n info = record {
  mad = λ a. if a == 15 then n else if a == 23 then 1 else info a;
  length = 256;
  status = 0;
}

-- NodeInfo of a channel adapter with one port, port 1; its GUID is `g`, that of the port `g + 16`.
abbrev adapter : ℕ → ℕ → ℕ
adapter g a =
    if a == 66
    then 1
    else if a == 67
    then 1
    else if a == 83
    then g
    else if a == 91
    then 16 + g
    else if a == 100
    then 1
    else 0

-- PortInfo of port 1, with its link up and a LID.
abbrev link_up : ℕ → ℕ → ℕ
link_up lid a = if a == 81 then lid else if a == 92 then 1 else if a == 97 then 0x52 else 0

abbrev replies : Script
replies =
    answered 11 (adapter 1)
    ∷ answered 12 (λ a. 0)
    ∷ answered 13 (link_up 7)
    ∷ answered 14 (adapter 2)
    ∷ answered 15 (λ a. 0)
    ∷ answered 16 (link_up 9)
    ∷ []

abbrev scanner : Engine Script Wire Callback (Fabric Wire)
scanner = record {
  smi_agent = pos 0;
  smi_dir_agent = pos 1;
  smp_queue_head = none;
  smp_queue_tail = none;
  user_data = empty_fabric;
  smps_on_wire = [];
  total_smps = 0;
  heap = λ a. record {
    qnext = none;
    cb = on_node_info none;
    path = target;
    rpc = smp_rpc (limits 2) target 0 0 0;
  };
  fresh = 0;
  static_trid = 10;
  world = replies;
}

abbrev run : Step Script Wire Callback (Fabric Wire)
run = discover scripted wires wires (limits 2) ib_types false 5 100 7 scanner target

scanner-IsWell : IsWell wires (limits 2) scanner
scanner-IsWell = record {
  waiting = [];
  queue = (refl, refl);
  distinct = tt;
  allocated = tt;
  short = omega arith;
  bounded = omega arith;
}

discover-Discovered_example :
    Discovered scripted wires wires
      (limits 2)
      ib_types
      false
      5
      100
      wires-IsQMap
      length
      scripted-IsFinite
      run
discover-Discovered_example =
    discover-Discovered scripted wires wires (limits 2) ib_types false 5 100 wires-IsQMap length
      scripted-IsFinite 7 scanner target scanner-IsWell empty_fabric-IsFabric (omega arith)

-- The engine when the first query is on the wire.
abbrev asked : Step Script Wire Callback (Fabric Wire)
asked =
    query scripted wires wires (limits 2) ib_types false 5 100 scanner target 0x11 0
      (on_node_info none)

asked-Lasting :
    Lasting scripted wires (limits 2) 5 wires-IsQMap length scripted-IsFinite IsFabric scanner asked
asked-Lasting =
    query-Goes scripted wires wires (limits 2) ib_types false 5 100 wires-IsQMap length
      scripted-IsFinite scanner target 0x11 0 (on_node_info none)
      (scanner-IsWell, empty_fabric-IsFabric)

process_mads-Drained_example :
    Drained scripted wires wires
      (limits 2)
      ib_types
      false
      5
      100
      wires-IsQMap
      length
      scripted-IsFinite
      (process_mads scripted wires
        (limits 2)
        5
        (call scripted wires wires (limits 2) ib_types false 5 100)
        (mlnx_ext_port_info_err scripted wires wires (limits 2) ib_types false 5 100)
        7
        asked.1)
process_mads-Drained_example =
    process_mads-Drained scripted wires wires (limits 2) ib_types false 5 100 wires-IsQMap length
      scripted-IsFinite 7 asked.1 asked-Lasting.well asked-Lasting.holds
      (omega (arith, asked-Lasting.fewer))

-- A NodeInfo with the local port 1, for a node without external ports: the slot would be behind the
-- array, and the model stops.
behind_array :
    (arrive scripted wires wires
      (limits 2)
      ib_types
      false
      5
      100
      scanner
      empty_fabric
      0
      0
      false
      none
      (λ a. if a == 36 then 1 else 0)).1.user_data.faulted
    ≡ true
unfolding arrive mad_get_field mad_field ib_mad_f get_field get_bytes get_postbits get_prebits
    mad_decode_field as_u32
behind_array = refl

-- The discovery ends with 0, after six replies, with the two ports linked to each other.
two_adapters :
    (run.0 ≡ some (pos 0))
    × ((run.1.user_data.remotes 0 ≡ some 1) × (run.1.user_data.remotes 1 ≡ some 0))
unfolding mad_trid encode_first encode_second_direct encode_second encode_ids encode_path_direct
    encode_path encode_class encode_data encode_vendor number_request encode_rest mad_encode
    packet_addr packet_grh packet_pkey set_rmpp mad_build_pkt ib_mad_f mad_field mad_get_field
    mad_set_field merge_byte set_prebits set_byte set_bytes set_postbits set_field_within set_field
    get_bytes get_prebits get_postbits get_field memcpy htonll ntohll set_field64 get_field64
    array_offs set_array get_array mad_get_field64 mad_set_field64 mad_set_array mad_get_array
    mad_decode_field as_u32 as_u64 as_bytes mad_encode_field walk ibnd_find_node_guid push_node
    add_to_nodeguid_hash add_port_to_dpath from_lid count_hop extend_dpath drop_hop retract_dpath
    unlink link_ports smp_rpc alloc_smp issue_smp dispatch answer process_one_recv process_mads
    queue_smp get_smp send_by send_smp put_on_wire process_smp_queue add_to_type_list create_node
    calloc_port claim_port port_for_info fill_port add_to_portguid_hash place_port recv_node_desc
    recv_switch_info insert_lids add_to_portlid_hash take_port_info is_mlnx_ext_port_info_supported
    route_on capmask_info leads_on is_qdr query_at proceed recv_port_info query_ports
    recv_port0_info mlnx_ext_port_info_err recv_mlnx_ext_port_info query_node arrive recv_node_info
    call discover
two_adapters = (refl, (refl, refl))

-- "0,1": the own port, then out of port 1
abbrev route_text : Text
route_text = 48 ∷ 44 ∷ 49 ∷ []

route_found : ibnd_find_port_dr run.1.user_data (some route_text) ≡ found (some 1)
unfolding mad_trid encode_first encode_second_direct encode_second encode_ids encode_path_direct
    encode_path encode_class encode_data encode_vendor number_request encode_rest mad_encode
    packet_addr packet_grh packet_pkey set_rmpp mad_build_pkt ib_mad_f mad_field mad_get_field
    mad_set_field merge_byte set_prebits set_byte set_bytes set_postbits set_field_within set_field
    get_bytes get_prebits get_postbits get_field memcpy htonll ntohll set_field64 get_field64
    array_offs set_array get_array mad_get_field64 mad_set_field64 mad_set_array mad_get_array
    mad_decode_field as_u32 as_u64 as_bytes mad_encode_field walk ibnd_find_node_guid push_node
    add_to_nodeguid_hash add_port_to_dpath from_lid count_hop extend_dpath drop_hop retract_dpath
    unlink link_ports smp_rpc alloc_smp issue_smp dispatch answer process_one_recv process_mads
    queue_smp get_smp send_by send_smp put_on_wire process_smp_queue add_to_type_list create_node
    calloc_port claim_port port_for_info fill_port add_to_portguid_hash place_port recv_node_desc
    recv_switch_info insert_lids add_to_portlid_hash take_port_info is_mlnx_ext_port_info_supported
    route_on capmask_info leads_on is_qdr query_at proceed recv_port_info query_ports
    recv_port0_info mlnx_ext_port_info_err recv_mlnx_ext_port_info query_node arrive recv_node_info
    call discover str2drpath read_hops push increment split atoi digits_value to_u8 negated follow
    ibnd_find_port_dr
route_found = refl
