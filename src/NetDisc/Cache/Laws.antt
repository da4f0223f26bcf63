-- ===== src/NetDisc/Cache/Laws.antt =====
-- The file of a fabric that was written is read back.
use infiniband_diags.Base.{
  ℕ, ◌%◌, ◌^◌, ◌<◌, ◌≡◌, refl, inl, inr, Option-cases, some, List, [], ◌∷◌, ◌++◌, length, arith,
}
use mathlib.Core.List.{append_assoc}
use infiniband_diags.NetDisc.Fabric.Heap.{Fabric}
use infiniband_diags.NetDisc.Cache.{
  from_guid, cache_header_info, cache_nodes, cache_ports, cache_fabric,
}
use infiniband_diags.NetDisc.Cache.Reading.{
  NodeCache, PortCache, Header, unmarshall_header, load_node, load_port, load_header_info, load_all,
  load_entries, ibnd_fabric_cache_magic, ibnd_fabric_cache_version,
}
use infiniband_diags.NetDisc.Cache.Words.{
  marshall32, marshall64, unmarshall32, unmarshall32-marshall32, unmarshall64-marshall64,
}
use infiniband_diags.NetDisc.Cache.Records.{read_exactly}
use infiniband_diags.NetDisc.Cache.Entries.{
  IsStorable, node_entry, port_entry, load_node-cache_node, load_port-cache_port,
}

-- Entries in the reverse of their order, before those that were read.
abbrev pub onto {ℓ κ} : {A : Type ℓ} {B : Type κ} → (A → B) → List A → List B → List B
onto f [] done = done
onto f (x ∷ xs) done = onto f xs (f x ∷ done)

module _ {L : Type 0} (fab : Fabric L) (ok : IsStorable fab) where
  abbrev pub header_of : (nodes ports : List ℕ) → Header
  header_of nodes ports = record {
    node_count = length nodes;
    port_count = length ports;
    from_node_guid = from_guid fab;
    maxhops_discovered = fab.scan.maxhops_discovered;
  }

  from_guid-lt : from_guid fab < 2 ^ 64
  from_guid-lt = elim (Option-cases fab.from_node) [
    | inl lone ↦ rw (from_guid, lone) (omega arith)
    | inr (nd, at) ↦ rw (from_guid, at) (ok.node_guid nd)
  ]

  hops_back :
      unmarshall32 (marshall32 fab.scan.maxhops_discovered) ≡ (fab.scan.maxhops_discovered, [])
  unfolding marshall32
  hops_back = unmarshall32-marshall32 fab.scan.maxhops_discovered [] ok.maxhops

  header_back :
      (n p : ℕ)
      → n < 2 ^ 32
      → p < 2 ^ 32
      → unmarshall_header (cache_header_info fab n p)
        ≡ some (record {
          node_count = n;
          port_count = p;
          from_node_guid = from_guid fab;
          maxhops_discovered = fab.scan.maxhops_discovered;
        })
  unfolding unmarshall_header cache_header_info
  header_back n p lt lt' =
      rw
        (
          unmarshall32-marshall32 ibnd_fabric_cache_magic _ (omega arith),
          unmarshall32-marshall32 ibnd_fabric_cache_version _ (omega arith),
          unmarshall32-marshall32 n _ lt,
          unmarshall32-marshall32 p _ lt',
          unmarshall64-marshall64 (from_guid fab) _ from_guid-lt,
          hops_back,
        )
        refl

  length-cache_header_info : (n p : ℕ) → length (cache_header_info fab n p) ≡ 28
  unfolding cache_header_info marshall32 marshall64
  length-cache_header_info n p = refl

  nodes_back :
      (nodes : List ℕ) (done : List NodeCache) (rest : List ℕ)
      → load_all load_node (length nodes) done (cache_nodes fab nodes ++ rest)
        ≡ some (onto (node_entry fab) nodes done, rest)
  unfolding load_all cache_nodes
  nodes_back [] done rest = refl
  nodes_back (nd ∷ nds) done rest =
      rw (append_assoc, load_all, load_node-cache_node fab ok nd (cache_nodes fab nds ++ rest))
        (nodes_back nds (node_entry fab nd ∷ done) rest)

  ports_back :
      (ports : List ℕ) (done : List PortCache) (rest : List ℕ)
      → load_all load_port (length ports) done (cache_ports fab ports ++ rest)
        ≡ some (onto (port_entry fab) ports done, rest)
  unfolding load_all cache_ports
  ports_back [] done rest = refl
  ports_back (port ∷ ports) done rest =
      rw (append_assoc, load_all, load_port-cache_port fab ok port (cache_ports fab ports ++ rest))
        (ports_back ports (port_entry fab port ∷ done) rest)

  -- From the file of a fabric whose fields fit their types, with fewer than 2^32 nodes and ports
  -- and fewer than 255 ports on each node, the loader reads the counts, the GUID of the start node,
  -- the hops, and one entry for each node and each port, with all the fields that the file has;
  -- the last entry of the file comes first. Bytes behind the entries are not read.
  pub load_entries-cache_fabric :
      (nodes ports rest : List ℕ)
      → length nodes < 2 ^ 32
      → length ports < 2 ^ 32
      → load_entries (cache_fabric fab nodes ports ++ rest)
        ≡ some (record {
          header = header_of nodes ports;
          nodes_cache = onto (node_entry fab) nodes [];
          ports_cache = onto (port_entry fab) ports [];
        })
  unfolding cache_fabric load_entries load_header_info
  load_entries-cache_fabric nodes ports rest lt lt' =
      let n : length nodes % 2 ^ 32 ≡ length nodes = omega (arith, lt) in
      let p : length ports % 2 ^ 32 ≡ length ports = omega (arith, lt') in
      let tail = cache_nodes fab nodes ++ (cache_ports fab ports ++ rest) in
      let file : cache_fabric fab nodes ports ++ rest
          ≡ cache_header_info fab (length nodes) (length ports) ++ tail =
        rw (n, p) (simp append_assoc) in
      let read =
        read_exactly 28 (cache_header_info fab (length nodes) (length ports)) tail
          (length-cache_header_info (length nodes) (length ports)) in
      let start : load_header_info (cache_header_info fab (length nodes) (length ports) ++ tail)
          ≡ some (header_of nodes ports, tail) =
        rw (load_header_info, read, header_back (length nodes) (length ports) lt lt') refl in
      rw
        (
          file,
          load_entries,
          start,
          nodes_back nodes [] (cache_ports fab ports ++ rest),
          ports_back ports [] rest,
        )
        refl
