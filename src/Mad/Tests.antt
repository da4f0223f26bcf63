-- ===== src/Mad/Tests.antt =====
-- The field codec at concrete buffers: tests, and instances of the theorems.
use infiniband_diags.Base.{◌%◌, ◌^◌, ◌≡◌, ◌↔◌, refl, inl, ◌⊎◌, true, Option, none, some, arith}
use infiniband_diags.Base.Bits.{testbit}
use infiniband_diags.Mad.Field.{
  Buf, IsBytes, merge_byte, set_prebits, set_byte, set_bytes, set_postbits, set_field_within,
  set_field,
}
use infiniband_diags.Mad.Field.Stream.{bit_at}
use infiniband_diags.Mad.Table.{ib_mad_f, mad_field, mad_get_field, mad_set_field}
use infiniband_diags.Mad.Table.Laws.{
  bit_at-mad_set_field, testbit-mad_get_field, mad_get_field-mad_set_field, mad_set_field_lens,
  mad_set_field_disjoint,
}
use infiniband_diags.Mad.Table.Overlap.{overlapping_fields}
use infiniband_diags.Mad.Wide.{u32_val, mad_decode_field, mad_encode_field}
use infiniband_diags.Mad.Wide.Codec.{word, copied, mad_decode_field-mad_encode_field}
use infiniband_diags.Mad.Types.{DrPath, Rpc, ib_subnet_path_hops_max}
use infiniband_diags.Base.Int.{pos, at_least}
use infiniband_diags.Mad.Encode.{
  is_direct, mad_encode, encode_rest, encode_first, encode_second, Encoded,
}
use infiniband_diags.Mad.Encode.Header.{Header, IsRequest, mad_encode-Header, mad_encode-none_iff}
use infiniband_diags.Mad.Numbers.{
  ib_mad_status_f, ib_node_vendorid_f, ib_node_local_port_f, ib_node_devid_f, ib_pc_vl15_dropped_f,
  ib_pc_qp1_drop_f, ib_port_ext_edr_fec_mode_enabled_f, ib_port_ext_hdr_fec_mode_supported_f,
}

abbrev counting : Buf
counting = λ a. a % 2 ^ 8

counting-IsBytes : IsBytes counting
counting-IsBytes a = omega arith

-- Bytes 4 and 5 of a datagram are its status.
status_in_place : mad_set_field counting 0 ib_mad_status_f 0x1c2d 4 ≡ 0x1c
unfolding mad_set_field mad_field ib_mad_f set_field merge_byte set_prebits set_byte set_bytes
    set_postbits set_field_within
status_in_place = refl

bit_at-mad_set_field_example : bit_at (mad_set_field counting 0 ib_mad_status_f 0x1c2d) 48 ≡ 1
unfolding mad_field ib_mad_f
bit_at-mad_set_field_example =
    bit_at-mad_set_field counting 0 ib_mad_status_f 0x1c2d 48 (omega arith) (inl (omega arith))

testbit-mad_get_field_example : testbit (mad_get_field counting 0 ib_mad_status_f) 0 ≡ 1
unfolding mad_field ib_mad_f
testbit-mad_get_field_example =
    testbit-mad_get_field counting 0 ib_mad_status_f 0 counting-IsBytes (omega arith)

mad_get_field-mad_set_field_example :
    mad_get_field (mad_set_field counting 64 ib_node_vendorid_f 0x2c9) 64 ib_node_vendorid_f ≡ 0x2c9
unfolding mad_field ib_mad_f
mad_get_field-mad_set_field_example =
    mad_get_field-mad_set_field counting 64 ib_node_vendorid_f counting-IsBytes (omega arith) 0x2c9
      (inl (omega arith))

mad_set_field_lens_example :
    (mad_set_field counting 64 ib_node_vendorid_f (mad_get_field counting 64 ib_node_vendorid_f)
      ≡ counting)
    × (mad_set_field (mad_set_field counting 64 ib_node_vendorid_f 5) 64 ib_node_vendorid_f 6
        ≡ mad_set_field counting 64 ib_node_vendorid_f 6)
unfolding mad_field ib_mad_f
mad_set_field_lens_example =
    mad_set_field_lens counting 64 ib_node_vendorid_f counting-IsBytes (omega arith) 5 6
      (inl (omega arith)) (inl (omega arith))

-- The vendor and the local port share a word.
mad_set_field_disjoint_example :
    (mad_get_field (mad_set_field counting 64 ib_node_vendorid_f 0x2c9) 64 ib_node_local_port_f
      ≡ mad_get_field counting 64 ib_node_local_port_f)
    × (mad_set_field (mad_set_field counting 64 ib_node_vendorid_f 0x2c9) 64 ib_node_local_port_f 3
        ≡ mad_set_field
            (mad_set_field counting 64 ib_node_local_port_f 3)
            64
            ib_node_vendorid_f
            0x2c9)
unfolding mad_field ib_mad_f
mad_set_field_disjoint_example =
    mad_set_field_disjoint counting 64 ib_node_vendorid_f counting-IsBytes (omega arith) 64
      ib_node_local_port_f 0x2c9 3 (omega arith) (inl (omega arith)) (inl (omega arith))
      (inl (omega arith))

mad_decode_field-mad_encode_field_example :
    mad_decode_field
      (mad_encode_field counting ib_node_devid_f (u32_val 0x5a5b))
      ib_node_devid_f
      counting
    ≡ u32_val 0x5a5b
unfolding mad_field ib_mad_f copied
mad_decode_field-mad_encode_field_example =
    mad_decode_field-mad_encode_field counting counting ib_node_devid_f (u32_val 0x5a5b)
      counting-IsBytes (omega arith) (word 0x5a5b (omega arith) (omega arith))

-- Get(NodeInfo), by a local identifier.
abbrev node_info_request : Rpc
node_info_request = record {
  mgtclass = 0x1;
  method = 0x1;
  attr_id = 0x11;
  attr_mod = 0;
  rstatus = 0;
  dataoffs = 64;
  datasz = 64;
  mkey = 0;
  trid = 0x1234;
  mask = 0;
  recsz = 0;
  timeout = pos 0;
  oui = 0;
  error = 0;
  cckey = 0;
}

abbrev asked : Encoded
asked =
    encode_rest 7 0 node_info_request none none
      (mad_set_field (encode_first node_info_request counting) 0 ib_mad_status_f 0)

node_info-IsRequest : IsRequest node_info_request none none
node_info-IsRequest = record {
  path_bytes = λ d h. absurd (cc);
  data_bytes = λ d h. absurd (cc);
  data_behind = λ d h. absurd (cc);
  status_fits = omega arith;
}

mad_encode-Header_example : Header node_info_request asked.rpc.trid asked.buf
unfolding mad_encode encode_second
mad_encode-Header_example =
    mad_encode-Header 7 0 counting node_info_request none none asked counting-IsBytes
      node_info-IsRequest (omega arith) refl

-- The same request, routed directly and without a path.
abbrev direct_request : Rpc
direct_request = record node_info_request { mgtclass = 0x81 }

abbrev no_path : Option DrPath
no_path = none

long_route_refused : (mad_encode 7 0 counting direct_request no_path none ≡ none) ↔ (
    (is_direct direct_request ≡ true)
    × ((no_path ≡ none)
        ⊎ ((d : DrPath) × (no_path ≡ some d) × (at_least ib_subnet_path_hops_max d.cnt ≡ true))))
long_route_refused = mad_encode-none_iff 7 0 counting direct_request no_path none

overlapping_fields_example :
    ((mad_get_field counting 64 ib_pc_qp1_drop_f ≡ mad_get_field counting 64 ib_pc_vl15_dropped_f)
      × (mad_set_field counting 64 ib_pc_qp1_drop_f 7
          ≡ mad_set_field counting 64 ib_pc_vl15_dropped_f 7))
    × ((mad_get_field counting 64 ib_port_ext_hdr_fec_mode_supported_f
          ≡ mad_get_field counting 64 ib_port_ext_edr_fec_mode_enabled_f)
        × (mad_set_field counting 64 ib_port_ext_hdr_fec_mode_supported_f 7
            ≡ mad_set_field counting 64 ib_port_ext_edr_fec_mode_enabled_f 7))
overlapping_fields_example = overlapping_fields counting 64 7
