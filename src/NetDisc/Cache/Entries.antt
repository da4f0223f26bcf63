-- ===== src/NetDisc/Cache/Entries.antt =====
-- The entry of a node and of a port that was written is read back.
use infiniband_diags.Base.{
  ℕ, zero, suc, ◌*◌, ◌%◌, ◌^◌, ◌≤◌, ◌<◌, ◌≡◌, refl, inl, inr, false, Option-cases, some, List, [],
  ◌∷◌, ◌++◌, length, arith, ◌==◌,
}
use mathlib.Core.List.{append_assoc}
use infiniband_diags.NetDisc.Fabric.Heap.{Fabric}
use infiniband_diags.NetDisc.Fabric.{port_of}
use infiniband_diags.NetDisc.Cache.{
  stored_keys, cache_node, owner_guid, remote_flag, remote_key, cache_port,
}
use infiniband_diags.NetDisc.Cache.Reading.{
  Key, NodeCache, PortCache, zeros, marshall_keys, load_keys, load_node, load_port,
}
use infiniband_diags.NetDisc.Cache.Words.{over}
use infiniband_diags.NetDisc.Cache.Records.{
  read_exactly, FitKeys, keys_back, length-marshall_keys, node_head, length-node_head, head_back,
  length-port_bytes, port_back,
}

pub record IsStorable {L : Type 0} (fab : Fabric L) : Type 0 where
  pub node_guid : (nd : ℕ) → fab.nodes.guid nd < 2 ^ 64
  pub port_guid : (port : ℕ) → fab.portstbl.guid port < 2 ^ 64
  pub smalid : (nd : ℕ) → (fab.node_at nd).smalid < 2 ^ 16
  pub base_lid : (port : ℕ) → (fab.port_at port).base_lid < 2 ^ 16
  pub numports : (nd : ℕ) → (fab.node_at nd).numports < 255
  pub maxhops : fab.scan.maxhops_discovered < 2 ^ 32

load_keys-marshall_keys :
    (e : NodeCache) (keys : List Key) (rest : List ℕ)
    → FitKeys keys
    → e.port_cache_keys ≡ []
    → load_keys e (length keys) (marshall_keys keys ++ rest)
      ≡ some (record e { port_cache_keys = keys }, rest)
unfolding load_keys marshall_keys
load_keys-marshall_keys e [] rest fit empty =
    λ i. some (record e { port_cache_keys = empty i }, rest)
load_keys-marshall_keys e (key ∷ keys) rest fit empty =
    let all = key ∷ keys in
    let read = read_exactly (9 * length all) (marshall_keys all) rest (length-marshall_keys all) in
    let more : (length all == 0) ≡ false = ground arith in
    rw (load_keys, more, read, keys_back all fit) refl

module _ {L : Type 0} (fab : Fabric L) where
  -- What the entry of a node holds: the stored ports by their keys, in the order of their slots.
  abbrev pub node_entry : ℕ → NodeCache
  node_entry nd =
      let n = fab.node_at nd in
      record {
        smalid = n.smalid;
        smalmc = n.smalmc;
        smaenhsp0 = n.smaenhsp0 % 2 ^ 8;
        switchinfo = over zeros 64 n.switchinfo;
        guid = fab.nodes.guid nd;
        type = n.type % 2 ^ 8;
        numports = n.numports % 2 ^ 8;
        info = over zeros 64 n.info;
        nodedesc = over zeros 64 n.nodedesc;
        port_cache_keys = stored_keys fab nd (suc n.numports) 0;
      }

  abbrev pub port_entry : ℕ → PortCache
  port_entry port =
      let p = fab.port_at port in
      record {
        guid = fab.portstbl.guid port;
        portnum = p.portnum % 2 ^ 8;
        ext_portnum = p.ext_portnum % 2 ^ 8;
        base_lid = p.base_lid;
        lmc = p.lmc;
        info = over zeros 64 p.info;
        node_guid = owner_guid fab port;
        remoteport_flag = remote_flag fab port;
        remoteport_cache_key = remote_key fab port;
      }

  module _ (ok : IsStorable fab) where
    length-stored_keys : (nd left i : ℕ) → length (stored_keys fab nd left i) ≤ left
    unfolding stored_keys
    length-stored_keys nd zero i = omega arith
    length-stored_keys nd (suc left) i = elim (Option-cases (port_of fab nd i)) [
      | inl empty ↦ rw (stored_keys, empty) (omega (arith, length-stored_keys nd left (suc i)))
      | inr (port, at) ↦ rw (stored_keys, at) (omega (arith, length-stored_keys nd left (suc i)))
    ]

    stored_keys-FitKeys : (nd left i : ℕ) → FitKeys (stored_keys fab nd left i)
    unfolding stored_keys
    stored_keys-FitKeys nd zero i = tt
    stored_keys-FitKeys nd (suc left) i = elim (Option-cases (port_of fab nd i)) [
      | inl empty ↦ rw (stored_keys, empty) (stored_keys-FitKeys nd left (suc i))
      | inr (port, at) ↦
          rw (stored_keys, at) (ok.port_guid port, stored_keys-FitKeys nd left (suc i))
    ]

    cache_node-head :
        (nd : ℕ) (rest : List ℕ)
        → cache_node fab nd ++ rest
          ≡ node_head
              (fab.node_at nd).smalid
              (fab.node_at nd).smalmc
              ((fab.node_at nd).smaenhsp0 % 2 ^ 8)
              (fab.node_at nd).switchinfo
              (fab.nodes.guid nd)
              ((fab.node_at nd).type % 2 ^ 8)
              ((fab.node_at nd).numports % 2 ^ 8)
              (fab.node_at nd).info
              (fab.node_at nd).nodedesc
              (length (stored_keys fab nd (suc (fab.node_at nd).numports) 0))
            ++ (marshall_keys (stored_keys fab nd (suc (fab.node_at nd).numports) 0) ++ rest)
    unfolding cache_node node_head
    cache_node-head nd rest =
        let keys = stored_keys fab nd (suc (fab.node_at nd).numports) 0 in
        let few : length keys % 2 ^ 8 ≡ length keys =
          omega (arith, length-stored_keys nd (suc (fab.node_at nd).numports) 0, ok.numports nd) in
        rw few (simp append_assoc)

    -- A node's entry that was written is read back, whatever stands behind it.
    pub load_node-cache_node :
        (nd : ℕ) (rest : List ℕ)
        → load_node (cache_node fab nd ++ rest) ≡ some (node_entry nd, rest)
    unfolding load_node
    load_node-cache_node nd rest =
        let n = fab.node_at nd in
        let keys = stored_keys fab nd (suc n.numports) 0 in
        let bytes =
          node_head n.smalid n.smalmc (n.smaenhsp0 % 2 ^ 8) n.switchinfo (fab.nodes.guid nd)
            (n.type % 2 ^ 8) (n.numports % 2 ^ 8) n.info n.nodedesc (length keys) in
        let size =
          length-node_head n.smalid n.smalmc (n.smaenhsp0 % 2 ^ 8) n.switchinfo (fab.nodes.guid nd)
            (n.type % 2 ^ 8) (n.numports % 2 ^ 8) n.info n.nodedesc (length keys) in
        let back =
          head_back n.smalid n.smalmc (n.smaenhsp0 % 2 ^ 8) n.switchinfo (fab.nodes.guid nd)
            (n.type % 2 ^ 8) (n.numports % 2 ^ 8) n.info n.nodedesc (length keys) (ok.smalid nd)
            (ok.node_guid nd) in
        rw
          (
            cache_node-head nd rest,
            load_node,
            read_exactly 207 bytes (marshall_keys keys ++ rest) size,
            back,
          )
          (load_keys-marshall_keys _ keys rest (stored_keys-FitKeys nd (suc n.numports) 0) refl)

    owner_guid-lt : (port : ℕ) → owner_guid fab port < 2 ^ 64
    owner_guid-lt port = elim (Option-cases (fab.port_at port).owner) [
      | inl lone ↦ rw (owner_guid, lone) (omega arith)
      | inr (nd, of) ↦ rw (owner_guid, of) (ok.node_guid nd)
    ]

    remote_key-lt : (port : ℕ) → (remote_key fab port).guid < 2 ^ 64
    remote_key-lt port = elim (Option-cases (fab.remotes port)) [
      | inl free ↦ rw (remote_key, free) (omega arith)
      | inr (remoteport, linked) ↦ rw (remote_key, linked) (ok.port_guid remoteport)
    ]

    -- A port's entry that was written is read back, whatever stands behind it.
    pub load_port-cache_port :
        (port : ℕ) (rest : List ℕ)
        → load_port (cache_port fab port ++ rest) ≡ some (port_entry port, rest)
    unfolding load_port cache_port
    load_port-cache_port port rest =
        let p = fab.port_at port in
        let remote = remote_key fab port in
        let size =
          length-port_bytes (fab.portstbl.guid port) (p.portnum % 2 ^ 8) (p.ext_portnum % 2 ^ 8)
            p.base_lid p.lmc p.info (owner_guid fab port) (remote_flag fab port) remote.guid
            remote.portnum in
        let back =
          port_back (fab.portstbl.guid port) (p.portnum % 2 ^ 8) (p.ext_portnum % 2 ^ 8) p.base_lid
            p.lmc p.info (owner_guid fab port) (remote_flag fab port) remote.guid remote.portnum
            (ok.port_guid port) (ok.base_lid port) (owner_guid-lt port) (remote_key-lt port) in
        rw (load_port, read_exactly 95 (cache_port fab port) rest size, back) refl
