-- ===== src/NetDisc/Hash.antt =====
-- libibnetdisc/src/ibnetdisc.c: the hash table of the nodes by GUID, chained through `htnext`.
pub mod Chains
pub mod Laws
use infiniband_diags.Base.{
  ℕ, zero, suc, ◌+◌, ◌*◌, ◌/◌, ◌%◌, ◌^◌, bit_xor, Bool, Option, none, some, ◌==◌, if◌then◌else◌,
}

-- HTSZ
abbrev pub htsz : ℕ
htsz = 137

-- HASHGUID
abbrev pub hashguid : ℕ → ℕ
hashguid guid =
    bit_xor (guid % 2 ^ 32 * 101 % 2 ^ 32) (guid / 2 ^ 32 % 2 ^ 32 * 103 % 2 ^ 32) % 2 ^ 32

abbrev pub hash_index : ℕ → ℕ
hash_index guid = hashguid guid % htsz

-- nodestbl, and the fields `htnext` and `guid` of the nodes by their addresses
pub record Table : Type 0 where
  pub nodestbl : ℕ → Option ℕ
  pub htnext : ℕ → Option ℕ
  pub guid : ℕ → ℕ

-- for (node = nodestbl[hash]; node; node = node->htnext): the first node that the test holds of.
-- The outer `none` is the run that has no fuel left.
unfoldable pub walk : (ℕ → Option ℕ) → (ℕ → Bool) → (fuel : ℕ) → Option ℕ → Option (Option ℕ)
walk htnext test zero head = none
walk htnext test (suc fuel) none = some none
walk htnext test (suc fuel) (some node) =
    let rest = walk htnext test fuel (htnext node) in if test node then some (some node) else rest

unfoldable pub ibnd_find_node_guid : (fuel : ℕ) → Table → (guid : ℕ) → Option (Option ℕ)
ibnd_find_node_guid fuel table guid =
    walk table.htnext (λ node. table.guid node == guid) fuel (table.nodestbl (hash_index guid))

abbrev pub set : (ℕ → Option ℕ) → ℕ → Option ℕ → ℕ → Option ℕ
set f a v b = if b == a then v else f b

-- The insertion at the head of a chain.
unfoldable pub push_node : Table → ℕ → Table
push_node table node =
    let index = hash_index (table.guid node) in
    record table {
      htnext = set table.htnext node (table.nodestbl index);
      nodestbl = set table.nodestbl index (some node);
    }

-- The return, 1 for a node that is there already, and the table.
unfoldable pub add_to_nodeguid_hash : (fuel : ℕ) → Table → ℕ → Option ℕ × Table
add_to_nodeguid_hash fuel table node =
    elim (walk table.htnext (λ other. other == node) fuel
      (table.nodestbl (hash_index (table.guid node)))) [
        | none ↦ (none, table)
        | some found ↦ elim found [
          | none ↦ (some 0, push_node table node)
          | some other ↦ (some 1, table)
        ]
      ]
