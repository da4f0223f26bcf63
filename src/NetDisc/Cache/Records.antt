-- ===== src/NetDisc/Cache/Records.antt =====
-- libibnetdisc/src/ibnetdisc_cache.c: the bytes of a node and of a port, which are read back.
use infiniband_diags.Base.{
  ℕ, ◌*◌, ◌^◌, ◌<◌, ◌≡◌, refl, some, List, [], ◌∷◌, ◌++◌, length, length-append, arith,
}
use infiniband_diags.Mad.Field.{Buf}
use infiniband_diags.NetDisc.Query.{ib_smp_data_size}
use infiniband_diags.NetDisc.Cache.Reading.{
  Key, zeros, ibnd_read, marshall_keys, unmarshall_keys, unmarshall_node, unmarshall_port,
}
use infiniband_diags.NetDisc.Cache.Words.{
  marshall8, marshall16, marshall64, marshall_buf, unmarshall8, over, unmarshall8-marshall8,
  unmarshall16-marshall16, unmarshall64-marshall64, unmarshall_buf-marshall_buf,
  length-marshall_buf,
}

read_all : (xs rest : List ℕ) → ibnd_read (length xs) (xs ++ rest) ≡ some (xs, rest)
unfolding ibnd_read
read_all [] rest = refl
read_all (x ∷ xs) rest = rw (ibnd_read, read_all xs rest) refl

pub read_exactly :
    (count : ℕ) (xs rest : List ℕ)
    → length xs ≡ count
    → ibnd_read count (xs ++ rest) ≡ some (xs, rest)
read_exactly count xs rest e = rw (← e) (read_all xs rest)

abbrev pub FitKeys : List Key → Type 0
FitKeys [] = Unit
FitKeys (key ∷ keys) = (key.guid < 2 ^ 64) × FitKeys keys

pub keys_back :
    (keys : List Key) → FitKeys keys → unmarshall_keys (length keys) (marshall_keys keys) ≡ keys
unfolding unmarshall_keys marshall_keys
keys_back [] fit = refl
keys_back (key ∷ keys) fit =
    let word =
      unmarshall64-marshall64 key.guid (marshall8 key.portnum ++ marshall_keys keys) fit.0 in
    let byte = unmarshall8-marshall8 key.portnum (marshall_keys keys) in
    rw (word, byte, keys_back keys fit.1) refl

pub length-marshall_keys : (keys : List Key) → length (marshall_keys keys) ≡ 9 * length keys
unfolding marshall_keys marshall64 marshall8
length-marshall_keys [] = refl
length-marshall_keys (key ∷ keys) = omega (arith, length-marshall_keys keys)

-- The bytes of a node before its keys.
unfoldable pub node_head :
    (smalid smalmc enhanced : ℕ) → Buf → (guid type numports : ℕ) → Buf → Buf → (count : ℕ) → List ℕ
node_head smalid smalmc enhanced switchinfo guid type numports info nodedesc count =
    marshall16 smalid
    ++ (marshall8 smalmc
        ++ (marshall8 enhanced
            ++ (marshall_buf switchinfo ib_smp_data_size
                ++ (marshall64 guid
                    ++ (marshall8 type
                        ++ (marshall8 numports
                            ++ (marshall_buf info ib_smp_data_size
                                ++ (marshall_buf nodedesc ib_smp_data_size
                                    ++ marshall8 count))))))))

module _ (smalid smalmc enhanced : ℕ) (switchinfo : Buf) (guid type numports : ℕ)
    (info nodedesc : Buf) (count : ℕ) where
  abbrev head : List ℕ
  head = node_head smalid smalmc enhanced switchinfo guid type numports info nodedesc count

  pub length-node_head : length head ≡ 207
  unfolding node_head marshall8 marshall16 marshall64
  length-node_head = omega (
    arith,
    length-append (marshall_buf switchinfo 64) (
        marshall64 guid
        ++ (type
            ∷ numports
            ∷ (marshall_buf info 64 ++ (marshall_buf nodedesc 64 ++ (count ∷ []))))),
    length-append (marshall_buf info 64) (marshall_buf nodedesc 64 ++ (count ∷ [])),
    length-append (marshall_buf nodedesc 64) (count ∷ []),
    length-marshall_buf 64 switchinfo,
    length-marshall_buf 64 info,
    length-marshall_buf 64 nodedesc,
  )

  pub head_back :
      smalid < 2 ^ 16
      → guid < 2 ^ 64
      → unmarshall_node head ≡ (
        count,
        record {
          smalid = smalid;
          smalmc = smalmc;
          smaenhsp0 = enhanced;
          switchinfo = over zeros 64 switchinfo;
          guid = guid;
          type = type;
          numports = numports;
          info = over zeros 64 info;
          nodedesc = over zeros 64 nodedesc;
          port_cache_keys = [];
        },
      )
  unfolding node_head unmarshall_node marshall8 unmarshall8
  head_back fit fit' =
      rw
        (
          unmarshall16-marshall16 smalid _ fit,
          unmarshall_buf-marshall_buf 64 zeros switchinfo _,
          unmarshall64-marshall64 guid _ fit',
          unmarshall_buf-marshall_buf 64 zeros info _,
          unmarshall_buf-marshall_buf 64 zeros nodedesc _,
        )
        refl

-- The bytes of a port's entry.
module _ (guid portnum ext_portnum base_lid lmc : ℕ) (info : Buf) (node_guid flag : ℕ)
    (remote_guid remote_portnum : ℕ) where
  abbrev port_bytes : List ℕ
  port_bytes =
      marshall64 guid
      ++ (marshall8 portnum
          ++ (marshall8 ext_portnum
              ++ (marshall16 base_lid
                  ++ (marshall8 lmc
                      ++ (marshall_buf info ib_smp_data_size
                          ++ (marshall64 node_guid
                              ++ (marshall8 flag
                                  ++ (marshall64 remote_guid ++ marshall8 remote_portnum))))))))

  pub length-port_bytes : length port_bytes ≡ 95
  unfolding marshall8 marshall16 marshall64
  length-port_bytes = omega (
    arith,
    length-append (marshall_buf info 64)
        (marshall64 node_guid ++ (flag ∷ (marshall64 remote_guid ++ (remote_portnum ∷ [])))),
    length-marshall_buf 64 info,
  )

  pub port_back :
      guid < 2 ^ 64
      → base_lid < 2 ^ 16
      → node_guid < 2 ^ 64
      → remote_guid < 2 ^ 64
      → unmarshall_port port_bytes ≡ (record {
        guid = guid;
        portnum = portnum;
        ext_portnum = ext_portnum;
        base_lid = base_lid;
        lmc = lmc;
        info = over zeros 64 info;
        node_guid = node_guid;
        remoteport_flag = flag;
        remoteport_cache_key = record { guid = remote_guid; portnum = remote_portnum };
      })
  unfolding unmarshall_port marshall8 unmarshall8
  port_back g l n r =
      rw
        (
          unmarshall64-marshall64 guid _ g,
          unmarshall16-marshall16 base_lid _ l,
          unmarshall_buf-marshall_buf 64 zeros info _,
          unmarshall64-marshall64 node_guid _ n,
          unmarshall64-marshall64 remote_guid _ r,
        )
        refl

-- The fields of a fabric fit the types that they have in C, and no node has 255 ports or more.
