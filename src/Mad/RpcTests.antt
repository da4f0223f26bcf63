-- ===== src/Mad/RpcTests.antt =====
-- Exchanges with a umad that follows a script: tests, and instances of the theorems.
use infiniband_diags.Base.{
  ◌+◌, Option, ◌≡◌, ◌≢◌, refl, ◌↔◌, none, some, true, [], ◌∷◌, length, arith,
}
use infiniband_diags.Base.Int.{ℤ, pos, at_least}
use infiniband_diags.Mad.Table.{ib_mad_f, mad_field, mad_get_field, mad_set_field}
use infiniband_diags.Mad.Wide.{
  mad_get_field64, get_field64, mad_set_field64, set_field64, ntohll, htonll, memcpy,
}
use infiniband_diags.Mad.Numbers.{ib_mad_status_f, ib_mad_mgmtclass_f}
use infiniband_diags.Mad.Types.{PortId, Rpc, RmppHdr, ib_subnet_path_hops_max}
use infiniband_diags.Mad.Encode.{
  is_direct, Encoded, mad_encode, encode_first, encode_second, encode_rest, encode_ids, encode_path,
  encode_class, encode_data, encode_vendor, number_request, mad_trid,
}
use infiniband_diags.Mad.Field.{
  Buf, get_field, get_bytes, get_postbits, get_prebits, set_field, merge_byte, set_prebits,
  set_byte, set_bytes, set_postbits, set_field_within,
}
use infiniband_diags.Mad.Packet.{
  Packet, Built, mad_build_pkt, packet_addr, packet_grh, packet_pkey, set_rmpp,
}
use infiniband_diags.Mad.Packet.Laws.{mad_build_pkt-none_iff}
use infiniband_diags.Mad.Packet.Delivery.{Delivered, mad_build_pkt-Delivered}
use infiniband_diags.Mad.Rpc.{
  IbmadPort, mad_get_timeout, mad_get_retries, done, no_fuel, attempts, receive, do_madrpc,
}
use infiniband_diags.Mad.Script.{Script, scripted, scripted-IsFinite, numbered, reply}
use infiniband_diags.Mad.Rpc.Attempts.{IsAnswer}
use infiniband_diags.Mad.Rpc.Laws.{do_madrpc-done, do_madrpc-ends}
use infiniband_diags.Mad.Rpc.Sends.{Sent, logged, do_madrpc-Sent}
use infiniband_diags.Mad.Call.{replied, Run, mad_rpc, rpc_loop, set_error, conclude, zeroed}
use infiniband_diags.Mad.Rmpp.{RmppRun, mad_rpc_rmpp}
use infiniband_diags.Mad.Call.Laws.{Answered, Ends, mad_rpc-Answered, mad_rpc-Ends}

abbrev ping : Packet
ping = record {
  addr = record { lid = pos 4; qp = 1; sl = 0; qkey = 0 };
  grh = none;
  pkey = 0;
  mad = numbered 9;
}

-- A stale datagram, a failure that leads to a retry, and the answer.
abbrev script : Script
script = reply 8 0 ∷ reply 9 110 ∷ reply 9 0 ∷ []

stale_is_skipped : (do_madrpc scripted (pos 0) (pos 100) (pos 3) ping 4 script).0 ≡ done (reply 9 0)
unfolding do_madrpc attempts receive mad_get_field64 get_field64 mad_field ib_mad_f ntohll memcpy
stale_is_skipped = refl

do_madrpc-done_example : IsAnswer ping (reply 9 0)
unfolding do_madrpc attempts receive mad_get_field64 get_field64 mad_field ib_mad_f ntohll memcpy
do_madrpc-done_example =
    do_madrpc-done scripted (pos 0) (pos 100) ping 4 (pos 3) script (reply 9 0) refl

do_madrpc-ends_example : (do_madrpc scripted (pos 0) (pos 100) (pos 3) ping 4 script).0 ≢ no_fuel
do_madrpc-ends_example =
    do_madrpc-ends scripted (pos 0) (pos 100) ping 4 length (pos 3) script scripted-IsFinite
      (omega arith)

do_madrpc-Sent_example :
    Sent ping 2 []
      (do_madrpc (logged scripted) (pos 0) (pos 100) (pos 2) ping 4 (script, [])).0
      (do_madrpc (logged scripted) (pos 0) (pos 100) (pos 2) ping 4 (script, [])).1.1
do_madrpc-Sent_example = do_madrpc-Sent scripted (pos 0) (pos 100) ping 4 2 (script, [])

-- Get(PortCounters), whose request is numbered already.
abbrev request : Rpc
request = record {
  mgtclass = 0x104;
  method = 0x1;
  attr_id = 0x12;
  attr_mod = 0;
  rstatus = 0;
  dataoffs = 64;
  datasz = 192;
  mkey = 0;
  trid = 9;
  mask = 0;
  recsz = 0;
  timeout = pos 0;
  oui = 0;
  error = 0;
  cckey = 0;
}

abbrev port : IbmadPort
port = record {
  port_id = 3;
  class_agents = λ class. pos 0;
  timeout = pos 0;
  retries = pos 0;
  smp_mkey = 0;
}

abbrev target : ℤ → PortId
target cnt = record {
  lid = pos 4;
  drpath = record { cnt = cnt; p = zeroed; drslid = 0; drdlid = 0 };
  grh_present = 0;
  gid = zeroed;
  qp = 1;
  qkey = 0x80010000;
  sl = 0;
  pkey_idx = 0;
}

abbrev run : Run Script
run =
    mad_rpc scripted port 1 (pos 1000) (pos 3) none (some zeroed) 4 4 request (target (pos 0)) 0
      script

mad_rpc-Ends_example : Ends scripted port 1 (pos 1000) (pos 3) none (some zeroed) 4 run
mad_rpc-Ends_example =
    mad_rpc-Ends scripted port 1 (pos 1000) (pos 3) none (some zeroed) 4 length 4 request
      (target (pos 0)) 0 script scripted-IsFinite (omega arith) (omega arith)

-- The 192 bytes of data of the answer.
abbrev answer_data : Option Buf
answer_data = some (memcpy zeroed 0 (λ a. numbered 9 (64 + a)) 192)

run_value : run.value ≡ replied answer_data
unfolding mad_rpc rpc_loop set_error conclude mad_build_pkt packet_addr packet_grh packet_pkey
    set_rmpp mad_encode encode_first encode_second encode_rest encode_ids encode_path encode_class
    encode_data encode_vendor number_request mad_trid mad_get_timeout mad_get_retries do_madrpc
    attempts receive mad_get_field64 mad_set_field64 mad_get_field mad_set_field get_field set_field
    set_field64 get_field64 mad_field ib_mad_f ntohll htonll memcpy merge_byte set_prebits set_byte
    set_bytes set_postbits set_field_within get_bytes get_postbits get_prebits
run_value = refl

-- A request that is routed directly over 64 hops.
abbrev direct_request : Rpc
direct_request = record request { mgtclass = 0x81 }

mad_build_pkt-none_iff_example :
    (mad_build_pkt 1 0 zeroed direct_request (target (pos 64)) none none ≡ none) ↔ (
      (is_direct direct_request ≡ true)
      × (at_least ib_subnet_path_hops_max (target (pos 64)).drpath.cnt ≡ true))
mad_build_pkt-none_iff_example =
    mad_build_pkt-none_iff 1 0 zeroed direct_request (target (pos 64)) none none

mad_rpc-Answered_example :
    Answered scripted port 1
      (pos 1000)
      (pos 3)
      none
      (some zeroed)
      4
      request
      (target (pos 0))
      answer_data
      run
mad_rpc-Answered_example =
    mad_rpc-Answered scripted port 1 (pos 1000) (pos 3) none (some zeroed) 4 4 request
      (target (pos 0)) 0 script answer_data run_value

-- Get(PortInfo) over a local identifier.
abbrev smp_request : Rpc
smp_request = record request { mgtclass = 0x1; attr_id = 0x15 }

abbrev smp_encoded : Encoded
smp_encoded =
    encode_rest 1 0 smp_request none none
      (mad_set_field (encode_first smp_request zeroed) 0 ib_mad_status_f 0)

abbrev smp_packet : Built
smp_packet = record {
  packet = record {
    addr = packet_addr smp_request (target (pos 0));
    grh = packet_grh smp_request (target (pos 0));
    pkey = packet_pkey smp_request (target (pos 0));
    mad = smp_encoded.buf;
  };
  rpc = smp_encoded.rpc;
  static_trid = smp_encoded.static_trid;
}

mad_build_pkt-Delivered_example :
    Delivered
      (mad_get_field smp_packet.packet.mad 0 ib_mad_mgmtclass_f)
      (target (pos 0))
      smp_packet.packet
unfolding mad_build_pkt mad_encode encode_second set_rmpp
mad_build_pkt-Delivered_example =
    mad_build_pkt-Delivered 1 0 zeroed smp_request (target (pos 0)) none smp_packet
      (λ a. omega arith)
      (record {
        path_bytes = λ d h. absurd (cc);
        data_bytes = λ d h. absurd (cc);
        data_behind = λ d h. absurd (cc);
        status_fits = omega arith;
      })
      (omega arith) refl

-- A request to the subnet administration, with an RMPP header.
abbrev sa_request : Rpc
sa_request = record request { mgtclass = 0x103; attr_id = 0x35 }

abbrev rmpp_header : RmppHdr
rmpp_header = record { type = 0; flags = 0; status = 0; d1 = 0; d2 = 62 }

abbrev sa_run : RmppRun Script
sa_run =
    mad_rpc_rmpp scripted port 1 (pos 1000) (pos 3) 4 sa_request (target (pos 0)) (some rmpp_header)
      (some zeroed) 0 script
