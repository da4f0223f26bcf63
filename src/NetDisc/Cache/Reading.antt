-- ===== src/NetDisc/Cache/Reading.antt =====
-- libibnetdisc/src/ibnetdisc_cache.c: the entries of the file, and how they are read.
use infiniband_diags.Base.{
  ℕ, zero, suc, ◌*◌, not, Option, none, some, List, [], ◌∷◌, ◌++◌, ◌==◌, if◌then◌else◌,
}
use infiniband_diags.Mad.Field.{Buf}
use infiniband_diags.NetDisc.Query.{ib_smp_data_size}
use infiniband_diags.NetDisc.Cache.Words.{
  marshall8, marshall64, unmarshall8, unmarshall16, unmarshall32, unmarshall64, unmarshall_buf,
}

abbrev pub ibnd_fabric_cache_magic : ℕ
ibnd_fabric_cache_magic = 0x8fe7832b

abbrev pub ibnd_fabric_cache_version : ℕ
ibnd_fabric_cache_version = 1

abbrev pub ibnd_fabric_cache_header_len : ℕ
ibnd_fabric_cache_header_len = 28

abbrev pub ibnd_node_cache_header_len : ℕ
ibnd_node_cache_header_len = 207

abbrev pub ibnd_port_cache_key_len : ℕ
ibnd_port_cache_key_len = 9

abbrev pub ibnd_port_cache_len : ℕ
ibnd_port_cache_len = 95

-- ibnd_port_cache_key_t
pub record Key : Type 0 where
  pub guid : ℕ
  pub portnum : ℕ

-- ibnd_node_cache_t, with the fields of its node that the file has
pub record NodeCache : Type 0 where
  pub smalid : ℕ
  pub smalmc : ℕ
  pub smaenhsp0 : ℕ
  pub switchinfo : Buf
  pub guid : ℕ
  pub type : ℕ
  pub numports : ℕ
  pub info : Buf
  pub nodedesc : Buf
  pub port_cache_keys : List Key

-- ibnd_port_cache_t, with the fields of its port that the file has
pub record PortCache : Type 0 where
  pub guid : ℕ
  pub portnum : ℕ
  pub ext_portnum : ℕ
  pub base_lid : ℕ
  pub lmc : ℕ
  pub info : Buf
  pub node_guid : ℕ
  pub remoteport_flag : ℕ
  pub remoteport_cache_key : Key

-- What _load_header_info takes from the file.
pub record Header : Type 0 where
  pub node_count : ℕ
  pub port_count : ℕ
  pub from_node_guid : ℕ
  pub maxhops_discovered : ℕ

-- ibnd_fabric_cache_t, the part that the file fills: the last entry that was read comes first.
pub record FabricCache : Type 0 where
  pub header : Header
  pub nodes_cache : List NodeCache
  pub ports_cache : List PortCache

abbrev pub zeros : Buf
zeros = λ a. 0

-- ibnd_read: so many bytes, and the rest of the file; `none` when the file is shorter.
unfoldable pub ibnd_read : (count : ℕ) → List ℕ → Option (List ℕ × List ℕ)
ibnd_read zero file = some ([], file)
ibnd_read (suc count) [] = none
ibnd_read (suc count) (b ∷ file) = elim (ibnd_read count file) [
  | none ↦ none
  | some (buf, rest) ↦ some (b ∷ buf, rest)
]

unfoldable pub marshall_keys : List Key → List ℕ
marshall_keys [] = []
marshall_keys (key ∷ keys) = marshall64 key.guid ++ (marshall8 key.portnum ++ marshall_keys keys)

unfoldable pub unmarshall_keys : (left : ℕ) → List ℕ → List Key
unmarshall_keys zero buf = []
unmarshall_keys (suc left) buf =
    let (guid, buf₁) = unmarshall64 buf in
    let (portnum, buf₂) = unmarshall8 buf₁ in
    record { guid = guid; portnum = portnum } ∷ unmarshall_keys left buf₂

unfoldable pub unmarshall_node : List ℕ → ℕ × NodeCache
unmarshall_node buf =
    let (smalid, buf) = unmarshall16 buf in
    let (smalmc, buf) = unmarshall8 buf in
    let (smaenhsp0, buf) = unmarshall8 buf in
    let (switchinfo, buf) = unmarshall_buf zeros ib_smp_data_size buf in
    let (guid, buf) = unmarshall64 buf in
    let (type, buf) = unmarshall8 buf in
    let (numports, buf) = unmarshall8 buf in
    let (info, buf) = unmarshall_buf zeros ib_smp_data_size buf in
    let (nodedesc, buf) = unmarshall_buf zeros ib_smp_data_size buf in
    let (ports_stored_count, buf) = unmarshall8 buf in
    (
      ports_stored_count,
      record {
        smalid = smalid;
        smalmc = smalmc;
        smaenhsp0 = smaenhsp0;
        switchinfo = switchinfo;
        guid = guid;
        type = type;
        numports = numports;
        info = info;
        nodedesc = nodedesc;
        port_cache_keys = [];
      },
    )

-- if (node_cache->ports_stored_count) ...: the keys of an entry, if it has any.
unfoldable pub load_keys : NodeCache → (count : ℕ) → List ℕ → Option (NodeCache × List ℕ)
load_keys entry count file =
    if count == 0
    then some (entry, file)
    else elim (ibnd_read (ibnd_port_cache_key_len * count) file) [
      | none ↦ none
      | some (buf, rest) ↦ some (record entry { port_cache_keys = unmarshall_keys count buf }, rest)
    ]

-- _load_node: the entry, and the rest of the file.
unfoldable pub load_node : List ℕ → Option (NodeCache × List ℕ)
load_node file = elim (ibnd_read ibnd_node_cache_header_len file) [
  | none ↦ none
  | some (buf, rest) ↦ let (count, entry) = unmarshall_node buf in load_keys entry count rest
]

unfoldable pub unmarshall_port : List ℕ → PortCache
unmarshall_port buf =
    let (guid, buf) = unmarshall64 buf in
    let (portnum, buf) = unmarshall8 buf in
    let (ext_portnum, buf) = unmarshall8 buf in
    let (base_lid, buf) = unmarshall16 buf in
    let (lmc, buf) = unmarshall8 buf in
    let (info, buf) = unmarshall_buf zeros ib_smp_data_size buf in
    let (node_guid, buf) = unmarshall64 buf in
    let (remoteport_flag, buf) = unmarshall8 buf in
    let (remote_guid, buf) = unmarshall64 buf in
    let (remote_portnum, buf) = unmarshall8 buf in
    record {
      guid = guid;
      portnum = portnum;
      ext_portnum = ext_portnum;
      base_lid = base_lid;
      lmc = lmc;
      info = info;
      node_guid = node_guid;
      remoteport_flag = remoteport_flag;
      remoteport_cache_key = record { guid = remote_guid; portnum = remote_portnum };
    }

-- _load_port
unfoldable pub load_port : List ℕ → Option (PortCache × List ℕ)
load_port file = elim (ibnd_read ibnd_port_cache_len file) [
  | none ↦ none
  | some (buf, rest) ↦ some (unmarshall_port buf, rest)
]

unfoldable pub unmarshall_header : List ℕ → Option Header
unmarshall_header buf =
    let (magic, buf) = unmarshall32 buf in
    let (version, buf) = unmarshall32 buf in
    let (node_count, buf) = unmarshall32 buf in
    let (port_count, buf) = unmarshall32 buf in
    let (from_node_guid, buf) = unmarshall64 buf in
    let (maxhops_discovered, buf) = unmarshall32 buf in
    if not (magic == ibnd_fabric_cache_magic)
    then none
    else if not (version == ibnd_fabric_cache_version)
    then none
    else some (record {
      node_count = node_count;
      port_count = port_count;
      from_node_guid = from_node_guid;
      maxhops_discovered = maxhops_discovered;
    })

-- _load_header_info
unfoldable pub load_header_info : List ℕ → Option (Header × List ℕ)
load_header_info file = elim (ibnd_read ibnd_fabric_cache_header_len file) [
  | none ↦ none
  | some (buf, rest) ↦ elim (unmarshall_header buf) [
    | none ↦ none
    | some header ↦ some (header, rest)
  ]
]

-- The loops over the entries: each is put before those that were read.
unfoldable pub load_all :
    {A : Type 0}
    → (List ℕ → Option (A × List ℕ))
    → (left : ℕ) → List A
    → List ℕ
    → Option (List A × List ℕ)
load_all load zero done file = some (done, file)
load_all load (suc left) done file = elim (load file) [
  | none ↦ none
  | some (entry, rest) ↦ load_all load left (entry ∷ done) rest
]

-- ibnd_load_fabric, up to the rebuilding of the fabric
unfoldable pub load_entries : List ℕ → Option FabricCache
load_entries file = elim (load_header_info file) [
  | none ↦ none
  | some (header, file) ↦ elim (load_all load_node header.node_count [] file) [
    | none ↦ none
    | some (nodes, file) ↦ elim (load_all load_port header.port_count [] file) [
      | none ↦ none
      | some (ports, file) ↦
          some (record { header = header; nodes_cache = nodes; ports_cache = ports })
    ]
  ]
]
