-- ===== src/NetDisc/FabricTests.antt =====
-- Routes, links and the table of nodes at concrete values: tests, and instances of the theorems.
use infiniband_diags.Base.{
  inl, inr, Bool-cases, Misses, ℕ, ◌+◌, ◌≡◌, ◌≢◌, refl, none, some, List, [], ◌∷◌, arith, ◌==◌,
  if◌then◌else◌,
}
use infiniband_diags.Base.Int.{pos}
use infiniband_diags.Mad.Types.{PortId, Rpc}
use infiniband_diags.Mad.Packet.{mad_build_pkt}
use infiniband_diags.NetDisc.Query.{smp_rpc}
use infiniband_diags.NetDisc.Path.{Scan, from_lid, add_port_to_dpath, extend_dpath, retract_dpath}
use infiniband_diags.NetDisc.Path.Laws.{
  Extends, SameRoute, IsBounded, extend_dpath-Extends, extend_dpath-mad_build_pkt,
  retract_dpath-extend_dpath, hops-IsBounded,
}
use infiniband_diags.NetDisc.Ports.{Remotes, link_ports}
use infiniband_diags.NetDisc.Ports.Links.{IsMutual, link_ports-IsMutual}
use infiniband_diags.NetDisc.Hash.{Table, add_to_nodeguid_hash, ibnd_find_node_guid, hash_index}
use infiniband_diags.NetDisc.Hash.Laws.{
  IsTable, put, ibnd_find_node_guid-find, add_to_nodeguid_hash-IsTable,
  ibnd_find_node_guid-add_to_nodeguid_hash,
}

abbrev scan : Scan
scan = record { max_hops = 8; initial_hops = 0; self_lid = pos 4; maxhops_discovered = 2 }

-- Two hops away: out of port 1, then out of port 7.
abbrev two_hops : PortId
two_hops = record {
  lid = pos 0;
  drpath = record {
    cnt = pos 2;
    p = λ a. if a == 1 then 1 else if a == 2 then 7 else 0;
    drslid = 0;
    drdlid = 0;
  };
  grh_present = 0;
  gid = λ a. 0;
  qp = 0;
  qkey = 0;
  sl = 0;
  pkey_idx = 0;
}

extended : (extend_dpath scan two_hops 36).0 ≡ pos 1
unfolding extend_dpath from_lid add_port_to_dpath
extended = refl

extend_dpath-Extends_example :
    Extends (from_lid scan two_hops).drpath 36 (extend_dpath scan two_hops 36).1.1.drpath
extend_dpath-Extends_example = extend_dpath-Extends scan two_hops 36 extended

abbrev node_info : Rpc
node_info =
    smp_rpc (record { max_smps = 2; timeout_ms = 1000; retries = 3; mkey = 0 }) two_hops 0x11 0 9

extend_dpath-mad_build_pkt_example :
    mad_build_pkt 5 0 (λ a. 0) node_info (extend_dpath scan two_hops 36).1.1 none none ≢ none
extend_dpath-mad_build_pkt_example =
    extend_dpath-mad_build_pkt scan two_hops 36 5 0 (λ a. 0) node_info none none extended

retract_dpath-extend_dpath_example :
    SameRoute
      (from_lid scan two_hops).drpath
      (retract_dpath scan (extend_dpath scan two_hops 36).1.1).1.1.drpath
unfolding retract_dpath
retract_dpath-extend_dpath_example = retract_dpath-extend_dpath scan scan two_hops 36 extended refl

two_hops-IsBounded :
    IsBounded (extend_dpath scan two_hops 36).1.0 × IsBounded (retract_dpath scan two_hops).1.0
two_hops-IsBounded = hops-IsBounded scan two_hops 36 (omega arith) (omega arith) (omega arith)

-- Ports 1 and 2 are linked.
abbrev pair : Remotes
pair a = if a == 1 then some 2 else if a == 2 then some 1 else none

pair-IsMutual : IsMutual pair
pair-IsMutual a b h = ground (arith, h)

link_ports-IsMutual_example :
    IsMutual (link_ports pair 1 3)
    × ((link_ports pair 1 3 1 ≡ some 3) × (link_ports pair 1 3 3 ≡ some 1))
link_ports-IsMutual_example = link_ports-IsMutual pair 1 3 pair-IsMutual

-- Node 0, with GUID 0x10; nodes 1 and 2 are in no chain yet.
abbrev table : Table
table = record {
  nodestbl = λ i. if i == hash_index 0x10 then some 0 else none;
  htnext = λ a. none;
  guid = λ a. 0x10 + a;
}

abbrev chains : ℕ → List ℕ
chains i = if i == hash_index 0x10 then 0 ∷ [] else []

table-IsTable : IsTable 1 table chains
table-IsTable = record {
  chained = λ i. elim (Bool-cases (i == hash_index 0x10)) [
    | inl here ↦ rw here (refl, refl)
    | inr away ↦ rw away refl
  ];
  bounded = λ i. elim (Bool-cases (i == hash_index 0x10)) [
    | inl here ↦ rw here (omega arith)
    | inr away ↦ rw away (omega arith)
  ];
}

ibnd_find_node_guid-find_example : ibnd_find_node_guid 2 table 0x10 ≡ some (some 0)
ibnd_find_node_guid-find_example =
    ibnd_find_node_guid-find 1 2 table chains table-IsTable (omega arith) 0x10

one-Misses : (i : ℕ) → Misses 1 (chains i)
one-Misses i = elim (Bool-cases (i == hash_index 0x10)) [
  | inl here ↦ rw here ((λ h. omega (arith, h)), tt)
  | inr away ↦ rw away tt
]

add_to_nodeguid_hash-IsTable_example :
    ((add_to_nodeguid_hash 2 table 1).0 ≡ some 0)
    × IsTable 2 (add_to_nodeguid_hash 2 table 1).1 (put table 1 chains)
add_to_nodeguid_hash-IsTable_example =
    add_to_nodeguid_hash-IsTable 1 2 table chains table-IsTable (omega arith) 1 one-Misses

ibnd_find_node_guid-add_to_nodeguid_hash_example :
    ibnd_find_node_guid 3 (add_to_nodeguid_hash 3 table 1).1 0x11 ≡ some (some 1)
ibnd_find_node_guid-add_to_nodeguid_hash_example =
    ibnd_find_node_guid-add_to_nodeguid_hash 1 3 table chains table-IsTable (omega arith) 1 0x11
      one-Misses
