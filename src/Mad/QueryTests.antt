-- ===== src/Mad/QueryTests.antt =====
-- Queries of subnet management and of counters: tests, and instances of the theorems.
use infiniband_diags.Base.{◌≡◌, refl, Option, some, [], ◌∷◌, ◌+◌, arith}
use infiniband_diags.Base.Int.{pos, negsuc}
use infiniband_diags.Mad.Field.{
  Buf, get_field, get_bytes, get_postbits, get_prebits, set_field, merge_byte, set_prebits,
  set_byte, set_bytes, set_postbits, set_field_within,
}
use infiniband_diags.Mad.Table.{ib_mad_f, mad_field, mad_get_field, mad_set_field}
use infiniband_diags.Mad.Wide.{
  mad_get_field64, get_field64, mad_set_field64, set_field64, ntohll, htonll, memcpy,
  mad_decode_field, as_u32, mad_set_array, set_array, array_offs,
}
use infiniband_diags.Mad.Types.{PortId, no_portid}
use infiniband_diags.Mad.Encode.{
  mad_encode, encode_path_direct, encode_first, encode_second, encode_rest, encode_ids, encode_path,
  encode_class, encode_data, encode_vendor, number_request, mad_trid,
}
use infiniband_diags.Mad.Packet.{mad_build_pkt, packet_addr, packet_grh, packet_pkey, set_rmpp}
use infiniband_diags.Mad.Rpc.{
  IbmadPort, mad_get_timeout, mad_get_retries, attempts, receive, do_madrpc,
}
use infiniband_diags.Mad.Script.{Script, scripted, numbered, reply}
use infiniband_diags.Mad.Call.{Run, mad_rpc, rpc_loop, set_error, conclude, zeroed}
use infiniband_diags.Mad.Smp.{smp_query_status_via, smp_rpc, smp_class, smp_port}
use infiniband_diags.Mad.Gmp.{reset_buffer}
use infiniband_diags.Mad.Gmp.Laws.{Selects, reset_buffer-Selects}
use infiniband_diags.Mad.Resolve.{ib_resolve_smlid_via, ib_lid_valid, sm_port, ib_portid_set}
use infiniband_diags.Mad.Resolve.Laws.{Searched, ib_resolve_smlid_via-Searched}

abbrev smi : IbmadPort
smi = record {
  port_id = 3;
  class_agents = λ class. pos 0;
  timeout = pos 0;
  retries = pos 0;
  smp_mkey = 0;
}

abbrev peer : PortId
peer = record no_portid { lid = pos 4 }

-- The generator starts at 1, so the request has number 2.
abbrev answers : Script
answers = reply 2 0 ∷ []

abbrev run : Run Script
run =
    smp_query_status_via scripted smi 1 (pos 1000) (pos 3) 4 4 zeroed peer 0x15 1 (pos 0) 0 answers

abbrev payload : Option Buf
payload = some (memcpy zeroed 0 (λ a. numbered 2 (64 + a)) 64)

abbrev ones : Buf
ones a = 255

reset_buffer-Selects_example : Selects 3 0xff0f 0x12 (reset_buffer ones 3 0xff0f 0x12)
reset_buffer-Selects_example =
    reset_buffer-Selects ones (λ a. omega arith) 3 0xff0f (omega arith) (omega arith) 0x12

ib_resolve_smlid_via-Searched_example :
    Searched scripted smi 1
      (pos 1000)
      (pos 3)
      4
      4
      zeroed
      0
      answers
      (ib_resolve_smlid_via scripted smi 1 (pos 1000) (pos 3) 4 4 zeroed 0 answers)
ib_resolve_smlid_via-Searched_example =
    ib_resolve_smlid_via-Searched scripted smi 1 (pos 1000) (pos 3) 4 4 zeroed 0 answers
      (λ a. omega arith)

-- The PortInfo of the answer has a unicast LID of the subnet manager, 0x5253.
smlid_found :
    (ib_resolve_smlid_via scripted smi 1 (pos 1000) (pos 3) 4 4 zeroed 0 answers).portid.lid
    ≡ pos 0x5253
unfolding ib_resolve_smlid_via sm_port ib_lid_valid ib_portid_set mad_decode_field
    smp_query_status_via smp_rpc smp_class smp_port mad_rpc rpc_loop set_error conclude
    mad_build_pkt packet_addr packet_grh packet_pkey set_rmpp mad_encode encode_first encode_second
    encode_rest encode_ids encode_path encode_class encode_data encode_vendor number_request
    mad_trid mad_get_timeout mad_get_retries do_madrpc attempts receive mad_get_field64
    mad_set_field64 mad_get_field mad_set_field get_field set_field set_field64 get_field64
    mad_field ib_mad_f ntohll htonll memcpy merge_byte set_prebits set_byte set_bytes set_postbits
    set_field_within get_bytes get_postbits get_prebits as_u32 encode_path_direct mad_set_array
    set_array array_offs
smlid_found = refl

-- The first multicast LID is not the LID of a port.
multicast_refused : ib_lid_valid (pos 0xc000) ≡ ib_lid_valid (negsuc 0)
unfolding ib_lid_valid
multicast_refused = refl
