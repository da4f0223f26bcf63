-- ===== src/NetDisc/CacheTests.antt =====
-- The file of a switch and an adapter, linked to each other: a test, and an instance of the theorem.
use infiniband_diags.Base.{
  false, ℕ, ◌≡◌, refl, none, some, [], ◌∷◌, ◌++◌, get_or, arith, ◌==◌, if◌then◌else◌,
}
use infiniband_diags.Base.Int.{pos}
use infiniband_diags.NetDisc.Tests.{target}
use infiniband_diags.NetDisc.Fabric.Heap.{Node, Port, Fabric}
use infiniband_diags.NetDisc.Cache.{cache_header_info, cache_fabric}
use infiniband_diags.NetDisc.Cache.Reading.{load_entries}
use infiniband_diags.NetDisc.Cache.Words.{marshall32}
use infiniband_diags.NetDisc.Cache.Entries.{IsStorable, node_entry, port_entry}
use infiniband_diags.NetDisc.Cache.Laws.{header_of, onto, load_entries-cache_fabric}

-- Node 0 is a switch with its port 0 in slot 3, node 1 an adapter with port 1 in slot 1.
abbrev stored_node : ℕ → Node
stored_node a = record {
  type = if a == 0 then 2 else 1;
  numports = if a == 0 then 36 else 1;
  path_portid = target;
  info = λ k. k;
  switchinfo = λ k. 0;
  nodedesc = λ k. 65;
  smaenhsp0 = 1;
  smalid = 0x102;
  smalmc = 0;
  ports = λ i. if i == (if a == 0 then 3 else 1) then some a else none;
  next_all = none;
  type_next = none;
}

abbrev stored_port : ℕ → Port
stored_port a = record {
  owner = some a;
  portnum = if a == 0 then 3 else 1;
  ext_portnum = 0;
  base_lid = 0x300;
  lmc = 0;
  info = λ k. 1;
  ext_info = λ k. 0;
}

abbrev stored : Fabric Unit
stored = record {
  scan = record { max_hops = 0; initial_hops = 0; self_lid = pos 1; maxhops_discovered = 2 };
  nodes = record {
    nodestbl = λ i. none;
    htnext = λ a. none;
    guid = λ a. if a == 0 then 0x1122 else 0x3344;
  };
  node_at = stored_node;
  next_node = 2;
  portstbl = record {
    nodestbl = λ i. none;
    htnext = λ a. none;
    guid = λ a. if a == 0 then 0x1122 else 0x3345;
  };
  port_at = stored_port;
  remotes = λ a. if a == 0 then some 1 else if a == 1 then some 0 else none;
  next_port = 2;
  lid2guid = tt;
  all_nodes = some 0;
  ch_adapters = some 1;
  switches = some 0;
  routers = none;
  from_node = some 1;
  from_portnum = 1;
  faulted = false;
}

stored-IsStorable : IsStorable stored
stored-IsStorable = record {
  node_guid = λ nd. ground arith;
  port_guid = λ port. ground arith;
  smalid = λ nd. omega arith;
  base_lid = λ port. omega arith;
  numports = λ nd. ground arith;
  maxhops = omega arith;
}

-- The file begins with the magic number, its lowest byte first.
magic_first : get_or (cache_header_info stored 2 2) 0 0 ≡ 0x2b
unfolding cache_header_info marshall32
magic_first = refl

load_entries-cache_fabric_example :
    load_entries (cache_fabric stored (0 ∷ 1 ∷ []) (1 ∷ 0 ∷ []) ++ [])
    ≡ some (record {
      header = header_of stored stored-IsStorable (0 ∷ 1 ∷ []) (1 ∷ 0 ∷ []);
      nodes_cache = onto (node_entry stored) (0 ∷ 1 ∷ []) [];
      ports_cache = onto (port_entry stored) (1 ∷ 0 ∷ []) [];
    })
load_entries-cache_fabric_example =
    load_entries-cache_fabric stored stored-IsStorable (0 ∷ 1 ∷ []) (1 ∷ 0 ∷ []) [] (omega arith)
      (omega arith)
