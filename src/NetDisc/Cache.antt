-- ===== src/NetDisc/Cache.antt =====
-- libibnetdisc/src/ibnetdisc_cache.c: the file in which a fabric is kept. A file is the list of its
-- bytes; a read or a write of a part of it is taken as one call that fails or is complete.
pub mod Words
pub mod Reading
pub mod Records
pub mod Entries
pub mod Laws
use infiniband_diags.Base.{
  ℕ, zero, suc, ◌+◌, ◌*◌, ◌%◌, ◌^◌, Bool, not, ◌&&◌, Option, none, some, List, [], ◌∷◌, ◌++◌,
  length, leb, ◌==◌, if◌then◌else◌,
}
use infiniband_diags.Mad.Field.{Buf}
use infiniband_diags.NetDisc.Query.{ib_smp_data_size}
use infiniband_diags.NetDisc.Fabric.Heap.{Fabric}
use infiniband_diags.NetDisc.Fabric.{port_of}
use infiniband_diags.NetDisc.Cache.Words.{
  marshall8, marshall16, marshall32, marshall64, marshall_buf, unmarshall8, unmarshall16,
  unmarshall32, unmarshall64, unmarshall_buf,
}
use infiniband_diags.NetDisc.Cache.Reading.{
  ibnd_fabric_cache_magic, ibnd_fabric_cache_version, Key, zeros, marshall_keys,
}

module _ {L : Type 0} (fab : Fabric L) where
  abbrev pub key_of : ℕ → Key
  key_of port = record {
    guid = fab.portstbl.guid port;
    portnum = (fab.port_at port).portnum % 2 ^ 8;
  }

  -- for (i = 0; i <= node->numports; i++): the keys of the ports that are there, from `i` on.
  unfoldable pub stored_keys : (nd : ℕ) → (left i : ℕ) → List Key
  stored_keys nd zero i = []
  stored_keys nd (suc left) i =
      let rest = stored_keys nd left (suc i) in
      elim (port_of fab nd i) [ none ↦ rest | some port ↦ key_of port ∷ rest ]

  -- _cache_node: the bytes that are written. The count of the keys has 8 bits.
  unfoldable pub cache_node : ℕ → List ℕ
  cache_node nd =
      let n = fab.node_at nd in
      let keys = stored_keys nd (suc n.numports) 0 in
      marshall16 n.smalid
      ++ (marshall8 n.smalmc
          ++ (marshall8 (n.smaenhsp0 % 2 ^ 8)
              ++ (marshall_buf n.switchinfo ib_smp_data_size
                  ++ (marshall64 (fab.nodes.guid nd)
                      ++ (marshall8 (n.type % 2 ^ 8)
                          ++ (marshall8 (n.numports % 2 ^ 8)
                              ++ (marshall_buf n.info ib_smp_data_size
                                  ++ (marshall_buf n.nodedesc ib_smp_data_size
                                      ++ (marshall8 (length keys % 2 ^ 8)
                                          ++ marshall_keys keys)))))))))

  -- port->node->guid; a port of a fabric has a node.
  abbrev pub owner_guid : ℕ → ℕ
  owner_guid port = elim (fab.port_at port).owner [ none ↦ 0 | some nd ↦ fab.nodes.guid nd ]

  -- The flag, and the key of the other end of a link.
  abbrev pub remote_flag : ℕ → ℕ
  remote_flag port = elim (fab.remotes port) [ none ↦ 0 | some remoteport ↦ 1 ]

  abbrev pub remote_key : ℕ → Key
  remote_key port = elim (fab.remotes port) [
    | none ↦ record { guid = 0; portnum = 0 }
    | some remoteport ↦ key_of remoteport
  ]

  -- _cache_port
  unfoldable pub cache_port : ℕ → List ℕ
  cache_port port =
      let p = fab.port_at port in
      let remote = remote_key port in
      marshall64 (fab.portstbl.guid port)
      ++ (marshall8 (p.portnum % 2 ^ 8)
          ++ (marshall8 (p.ext_portnum % 2 ^ 8)
              ++ (marshall16 p.base_lid
                  ++ (marshall8 p.lmc
                      ++ (marshall_buf p.info ib_smp_data_size
                          ++ (marshall64 (owner_guid port)
                              ++ (marshall8 (remote_flag port)
                                  ++ (marshall64 remote.guid ++ marshall8 remote.portnum))))))))

  -- port->node->guid of the node that the discovery began at
  abbrev pub from_guid : ℕ
  from_guid = elim fab.from_node [ none ↦ 0 | some nd ↦ fab.nodes.guid nd ]

  -- _cache_header_info, with the counts that _cache_header_counts writes over its zeros at
  -- IBND_FABRIC_CACHE_COUNT_OFFSET when all entries are written.
  unfoldable pub cache_header_info : (node_count port_count : ℕ) → List ℕ
  cache_header_info node_count port_count =
      marshall32 ibnd_fabric_cache_magic
      ++ (marshall32 ibnd_fabric_cache_version
          ++ (marshall32 node_count
              ++ (marshall32 port_count
                  ++ (marshall64 from_guid ++ marshall32 fab.scan.maxhops_discovered))))

  unfoldable pub cache_nodes : List ℕ → List ℕ
  cache_nodes [] = []
  cache_nodes (nd ∷ nds) = cache_node nd ++ cache_nodes nds

  unfoldable pub cache_ports : List ℕ → List ℕ
  cache_ports [] = []
  cache_ports (port ∷ ports) = cache_port port ++ cache_ports ports

  -- ibnd_cache_fabric: the file, for the nodes of the list of all nodes and the ports of the chains
  -- of their table, in the order in which the two loops come to them.
  unfoldable pub cache_fabric : (nodes ports : List ℕ) → List ℕ
  cache_fabric nodes ports =
      cache_header_info (length nodes % 2 ^ 32) (length ports % 2 ^ 32)
      ++ (cache_nodes nodes ++ cache_ports ports)
