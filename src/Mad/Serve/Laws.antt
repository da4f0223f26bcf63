-- ===== src/Mad/Serve/Laws.antt =====
-- libibmad/src/serv.c: what a response says, and where it goes.
use infiniband_diags.Base.{
  ℕ, ◌+◌, ◌*◌, ◌/◌, ◌%◌, ◌^◌, bit_or, bit_and, ◌<◌, ◌≡◌, ◌≢◌, refl, sym, ap, ◌∙◌, inl, inr,
  Option-cases, Bool, true, false, none, some, ◌∷◌, ◌==◌, if◌then◌else◌, arith, not, ◌⊎◌,
  Bool-cases,
}
use infiniband_diags.Base.Int.{ℤ}
use infiniband_diags.Base.Masks.{bit_and_high, or_split}
use infiniband_diags.Base.Bits.{bit_and_mask}
use infiniband_diags.Mad.Field.{Buf, IsBytes}
use infiniband_diags.Mad.Table.{ib_mad_f, mad_field, mad_get_field}
use infiniband_diags.Mad.Table.Laws.{mad_get_field-lt}
use infiniband_diags.Mad.Wide.{mad_get_field64}
use infiniband_diags.Mad.Wide.Laws.{mad_get_field64-lt}
use infiniband_diags.Mad.Types.{
  PortId, DrPath, ib_mad_response, ib_mad_method_set, ib_mad_method_get, ib_mad_method_send,
  ib_smi_direct_class,
}
use infiniband_diags.Mad.Encode.{mgtclass8}
use infiniband_diags.Mad.Encode.Header.{Header, IsRequest, mad_encode-Header, mad_encode-trid}
use infiniband_diags.Mad.Packet.{UmadAddr, Packet, Built, mad_build_pkt, packet_addr, lid_routed}
use infiniband_diags.Mad.Packet.Laws.{mad_build_pkt-none_iff, mad_build_pkt-mad_encode}
use infiniband_diags.Mad.Numbers.{
  ib_mad_method_f, ib_mad_response_f, ib_mad_mgmtclass_f, ib_mad_trid_f, ib_mad_attrid_f,
  ib_mad_attrmod_f,
}
use infiniband_diags.Mad.Rpc.{IbmadPort, Umad}
use infiniband_diags.Mad.Rpc.Sends.{Log, logged}
use infiniband_diags.Mad.Serve.{
  port_of_addr, response_method, response_rpc, response_port, response_dest, Served, build_and_send,
  mad_respond_via,
}

-- `out` answers `mad`: the same number, class and attribute; a Set is answered as a Get, and all but
-- a Send with the response bit.
pub record Answers (mad out : Buf) : Type 0 where
  pub number : mad_get_field64 out 0 ib_mad_trid_f ≡ mad_get_field64 mad 0 ib_mad_trid_f
  pub mgmt_class : mad_get_field out 0 ib_mad_mgmtclass_f ≡ mad_get_field mad 0 ib_mad_mgmtclass_f
  pub attr_id : mad_get_field out 0 ib_mad_attrid_f ≡ mad_get_field mad 0 ib_mad_attrid_f
  pub attr_mod : mad_get_field out 0 ib_mad_attrmod_f ≡ mad_get_field mad 0 ib_mad_attrmod_f
  pub method : mad_get_field out 0 ib_mad_method_f ≡ (
      if mad_get_field mad 0 ib_mad_method_f == ib_mad_method_set
      then ib_mad_method_get
      else mad_get_field mad 0 ib_mad_method_f)
  pub response :
      mad_get_field out 0 ib_mad_response_f
      ≡ (if mad_get_field mad 0 ib_mad_method_f == ib_mad_method_send then 0 else 1)

with_response : (m : ℕ) → m < 2 ^ 7 → bit_or m 0x80 ≡ m + 2 ^ 7
with_response m lt =
    let low : (m + 2 ^ 7) % 2 ^ 7 ≡ m = omega (arith, lt) in
    let high : (m + 2 ^ 7) / 2 ^ 7 * 2 ^ 7 ≡ 0x80 = omega (arith, lt) in
    sym (ap (λ a. bit_or a ((m + 2 ^ 7) / 2 ^ 7 * 2 ^ 7)) low ∙ ap (bit_or m) high)
    ∙ or_split 7 (m + 2 ^ 7)

abbrev answered : ℕ → ℕ
answered m = if m == ib_mad_method_set then ib_mad_method_get else m

response_method_lem :
    (m : ℕ)
    → m < 2 ^ 7
    → response_method m ≡ (if m == ib_mad_method_send then m else answered m + 2 ^ 7)
unfolding response_method
response_method_lem m lt = ground (arith, with_response m lt, with_response 1 (omega arith))

response_bit_lem :
    (m : ℕ)
    → m < 2 ^ 7
    → ◌≡◌ {A = ℕ}
        (if not (bit_and (response_method m) ib_mad_response == 0) then 1 else 0)
        (if m == ib_mad_method_send then 0 else 1)
response_bit_lem m lt =
    ground (arith, bit_and_high (response_method m) 7 1, response_method_lem m lt)

routed_bytes :
    (b : Bool) (path d : DrPath)
    → IsBytes path.p
    → (if b then none else some path) ≡ some d
    → IsBytes d.p
routed_bytes true path d bytes h = absurd (cc)
routed_bytes false path d bytes h = let same : path ≡ d = cc in rw (sym same) bytes

response_rpc-IsRequest :
    (mad : Buf) (rstatus : ℕ) (dest : PortId)
    → rstatus < 2 ^ 15
    → IsBytes dest.drpath.p
    → IsRequest
        (response_rpc mad rstatus)
        (if lid_routed (response_rpc mad rstatus) then none else some dest.drpath)
        none
unfolding response_rpc
response_rpc-IsRequest mad rstatus dest fits bytes = record {
  path_bytes = λ d h. routed_bytes (lid_routed (response_rpc mad rstatus)) dest.drpath d bytes h;
  data_bytes = λ d h. absurd (cc);
  data_behind = λ d h. absurd (cc);
  status_fits = fits;
}

no_path :
    (mgtclass : ℕ) (addr : UmadAddr) → IsBytes (response_port mgtclass (port_of_addr addr)).drpath.p
unfolding response_port port_of_addr
no_path mgtclass addr k = omega arith

same_lid :
    (mgtclass : ℕ) (addr : UmadAddr) → (response_port mgtclass (port_of_addr addr)).lid ≡ addr.lid
unfolding response_port port_of_addr
same_lid mgtclass addr = refl

module _ (mad : Buf) (rstatus : ℕ) (bytes : IsBytes mad) where
  class_of : mgtclass8 (response_rpc mad rstatus) ≡ mad_get_field mad 0 ib_mad_mgmtclass_f
  unfolding response_rpc mad_field ib_mad_f
  class_of =
      bit_and_mask 8 _
      ∙ omega (arith, mad_get_field-lt mad 0 ib_mad_mgmtclass_f bytes (omega arith))

  Header-Answers :
      (out : Buf) (trid : ℕ)
      → trid ≡ mad_get_field64 mad 0 ib_mad_trid_f
      → Header (response_rpc mad rstatus) trid out
      → Answers mad out
  unfolding response_rpc response_method mad_field ib_mad_f
  Header-Answers out trid given h =
      let fits = mad_get_field-lt mad 0 ib_mad_method_f bytes (omega arith) in
      record {
        number = h.number ∙ given;
        mgmt_class = h.mgmt_class ∙ class_of;
        attr_id =
            h.attr_id ∙ omega (arith, mad_get_field-lt mad 0 ib_mad_attrid_f bytes (omega arith));
        attr_mod =
            h.attr_mod ∙ omega (arith, mad_get_field-lt mad 0 ib_mad_attrmod_f bytes (omega arith));
        method = h.method ∙ ground (arith, response_method_lem _ fits, fits);
        response = h.response ∙ response_bit_lem _ fits;
      }

  -- The response of a run: its packet answers the datagram, was the one packet sent, and goes to
  -- the LID of the sender unless the class is routed directly.
  pub record Responded {W : Type 0} (addr : UmadAddr) (log : Log) (run : Served (W × Log))
      : Type 0 where
    pub pkt : Packet
    pub built : run.packet ≡ some pkt
    pub answers : Answers mad pkt.mad
    pub logged_once : run.world.1 ≡ pkt ∷ log
    pub returned :
        (mad_get_field mad 0 ib_mad_mgmtclass_f ≡ ib_smi_direct_class) ⊎ (pkt.addr.lid ≡ addr.lid)

  module _ {W : Type 0} (umad : Umad W) (srcport : IbmadPort) (seed static_trid : ℕ)
      (madrpc_timeout : ℤ) (fits : rstatus < 2 ^ 15)
      (given : mad_get_field64 mad 0 ib_mad_trid_f ≢ 0) where
    Built-Answers :
        (dest : PortId) (b : Built)
        → IsBytes dest.drpath.p
        → mad_build_pkt seed static_trid mad (response_rpc mad rstatus) dest none none ≡ some b
        → Answers mad b.packet.mad × (b.packet.addr ≡ packet_addr (response_rpc mad rstatus) dest)
    unfolding response_rpc
    Built-Answers dest b routed h =
        let rpc = response_rpc mad rstatus in
        let (e, reached, same, addr) =
          mad_build_pkt-mad_encode seed static_trid mad rpc dest none none b h refl in
        let header =
          mad_encode-Header seed static_trid mad rpc _ none e bytes
            (response_rpc-IsRequest mad rstatus dest fits routed)
            (mad_get_field64-lt mad 0 ib_mad_trid_f bytes) reached in
        let numbered : e.rpc.trid ≡ mad_get_field64 mad 0 ib_mad_trid_f =
          mad_encode-trid seed static_trid mad rpc _ none e (ground (arith, given)) reached in
        (rw same (Header-Answers e.buf e.rpc.trid numbered header), addr)

    lid_back :
        (dest : PortId)
        → (mad_get_field mad 0 ib_mad_mgmtclass_f == ib_smi_direct_class) ≡ false
        → (packet_addr (response_rpc mad rstatus) dest).lid ≡ dest.lid
    unfolding packet_addr
    lid_back dest other = ground (arith, class_of, other)

    sent_back :
        (addr : UmadAddr) (w : W × Log) (b : Built)
        → mad_build_pkt seed static_trid mad
            (response_rpc mad rstatus)
            (response_port (response_rpc mad rstatus).mgtclass (port_of_addr addr))
            none
            none
          ≡ some b
        → Responded addr w.1 (
            mad_respond_via
              (logged umad)
              srcport
              seed
              madrpc_timeout
              (some addr)
              mad
              none
              rstatus
              static_trid
              w)
    unfolding mad_respond_via response_dest build_and_send logged
    sent_back addr w b h =
        let dest = response_port (response_rpc mad rstatus).mgtclass (port_of_addr addr) in
        let (answers, to) =
          Built-Answers dest b (no_path (response_rpc mad rstatus).mgtclass addr) h in
        rw (mad_respond_via, build_and_send, h)
          (record {
            pkt = b.packet;
            built = refl;
            answers = answers;
            logged_once = refl;
            returned =
                elim (Bool-cases (mad_get_field mad 0 ib_mad_mgmtclass_f == ib_smi_direct_class)) [
                  | inl direct ↦ inl (ground (arith, direct))
                  | inr other ↦ inr (
                      ap (λ a. a.lid) to
                      ∙ (lid_back dest other ∙ same_lid (response_rpc mad rstatus).mgtclass addr))
                ];
          })

    -- A datagram of bytes whose number is not 0 is always answered when the status of the response
    -- is below 2^15: one packet is sent, with the same number, class, attribute and modifier, with
    -- the method Get for Set and the response bit for all but Send; it goes to the LID of the
    -- sender, unless the class is routed directly.
    pub mad_respond_via-Responded :
        (addr : UmadAddr) (w : W × Log)
        → Responded addr w.1 (
            mad_respond_via
              (logged umad)
              srcport
              seed
              madrpc_timeout
              (some addr)
              mad
              none
              rstatus
              static_trid
              w)
    unfolding response_port port_of_addr
    mad_respond_via-Responded addr w =
        let rpc = response_rpc mad rstatus in
        let dest = response_port rpc.mgtclass (port_of_addr addr) in
        elim (Option-cases (mad_build_pkt seed static_trid mad rpc dest none none)) [
          | inr (b, h) ↦ sent_back addr w b h
          | inl h ↦
              let (direct, long) =
                (mad_build_pkt-none_iff seed static_trid mad rpc dest none none).0 h in
              absurd (cc)
        ]
