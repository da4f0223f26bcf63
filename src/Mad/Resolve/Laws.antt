-- ===== src/Mad/Resolve/Laws.antt =====
-- libibmad/src/resolve.c: the subnet manager that a resolution finds.
use infiniband_diags.Base.{
  ℕ, ◌%◌, ◌^◌, ◌≤◌, ◌<◌, ◌≡◌, refl, sym, ap, inl, inr, Bool-cases, Option-cases, true, false,
  Option, none, some, arith,
}
use infiniband_diags.Base.Int.{ℤ, pos}
use infiniband_diags.Mad.Field.{Buf, IsBytes}
use infiniband_diags.Mad.Table.{ib_mad_f, mad_field, mad_get_field}
use infiniband_diags.Mad.Wide.{as_u32, mad_decode_field}
use infiniband_diags.Mad.Types.{PortId, no_portid, ib_mad_method_get}
use infiniband_diags.Mad.Numbers.{ib_port_smlid_f, ib_port_smsl_f}
use infiniband_diags.Mad.Rpc.{IbmadPort, Umad}
use infiniband_diags.Mad.Call.{Returned, replied, unbuilt, unanswered, bad_status, unfinished}
use infiniband_diags.Mad.Smp.Laws.{Fetched, smp_query_status_via-Fetched}
use infiniband_diags.Mad.Resolve.{
  ib_lid_valid, ib_portid_set, data_of, decode_u32, Resolved, sm_port, query_self,
  ib_resolve_smlid_via, ib_attr_port_info,
}

-- The port of the subnet manager that a PortInfo names.
pub record Names (portinfo : Buf) (sm_id : PortId) : Type 0 where
  pub lid : sm_id.lid ≡ pos (mad_get_field portinfo 0 ib_port_smlid_f)
  pub unicast : 1 ≤ mad_get_field portinfo 0 ib_port_smlid_f
  pub not_multicast : mad_get_field portinfo 0 ib_port_smlid_f < 0xc000
  pub sl : sm_id.sl ≡ mad_get_field portinfo 0 ib_port_smsl_f % 2 ^ 8
  pub qp : sm_id.qp ≡ 0

decoded : (buf : Buf) → decode_u32 buf ib_port_smlid_f ≡ mad_get_field buf 0 ib_port_smlid_f
unfolding mad_decode_field mad_get_field mad_field ib_mad_f as_u32
decoded buf = refl

decoded_sl : (buf : Buf) → decode_u32 buf ib_port_smsl_f ≡ mad_get_field buf 0 ib_port_smsl_f
unfolding mad_decode_field mad_get_field mad_field ib_mad_f as_u32
decoded_sl buf = refl

sm_port-Names :
    (portinfo : Buf) (sm_id : PortId) → sm_port portinfo ≡ some sm_id → Names portinfo sm_id
unfolding sm_port ib_lid_valid ib_portid_set
sm_port-Names portinfo sm_id h =
    let lid = decode_u32 portinfo ib_port_smlid_f in
    let sl = decode_u32 portinfo ib_port_smsl_f % 2 ^ 8 in
    elim (Bool-cases (ib_lid_valid (pos lid))) [
      | inl valid ↦
          let e : sm_port portinfo
              ≡ some (ib_portid_set (record no_portid { sl = sl }) (pos lid) 0 0) =
            rw (sm_port, valid) refl in
          let same : ib_portid_set (record no_portid { sl = sl }) (pos lid) 0 0 ≡ sm_id = cc in
          rw (sym same) (record {
            lid = ap pos (decoded portinfo);
            unicast = ground (arith, valid, decoded portinfo);
            not_multicast = ground (arith, valid, decoded portinfo);
            sl = ap (λ v. v % 2 ^ 8) (decoded_sl portinfo);
            qp = refl;
          })
      | inr invalid ↦ let e : sm_port portinfo ≡ none = rw (sm_port, invalid) refl in absurd (cc)
    ]

value_of :
    (value : Returned) (d : Buf)
    → elim value as (λ v. Option Buf) [ replied answer ↦ answer | _ ↦ none ] ≡ some d
    → value ≡ replied (some d)
value_of (replied answer) d h = ap replied h
value_of unbuilt d h = absurd (cc)
value_of (unanswered o) d h = absurd (cc)
value_of (bad_status status) d h = absurd (cc)
value_of unfinished d h = absurd (cc)

module _ {W : Type 0} (umad : Umad W) (srcport : IbmadPort) (seed : ℕ)
    (madrpc_timeout madrpc_retries : ℤ) (recv_fuel fuel : ℕ) (stack : Buf) where
  -- The ends of the search for the subnet manager: none, with a port that is cleared, or the one
  -- that the answer to a query of the own PortInfo names.
  pub data Searched (static_trid : ℕ) (w : W) (found : Resolved W) : Type 0 where
    missing : found.ok ≡ false → found.portid ≡ no_portid → Searched static_trid w found
    named :
        (portinfo : Buf)
        → found.ok ≡ true
        → Fetched umad srcport madrpc_timeout madrpc_retries recv_fuel ib_mad_method_get no_portid
            ib_attr_port_info 0 stack
            (some portinfo)
            (query_self umad srcport seed madrpc_timeout madrpc_retries recv_fuel fuel stack
              ib_attr_port_info static_trid w)
        → Names portinfo found.portid
        → Searched static_trid w found

  -- ib_resolve_smlid_via either fails and leaves a cleared port, or it leaves the LID and the service
  -- level of the PortInfo that a reply carries, which umad_recv gave in the exchange of a Get of the
  -- own port; that LID is a unicast one. The buffer on its stack holds bytes.
  pub ib_resolve_smlid_via-Searched :
      (static_trid : ℕ) (w : W)
      → IsBytes stack
      → Searched static_trid w (
          ib_resolve_smlid_via umad srcport seed madrpc_timeout madrpc_retries recv_fuel fuel stack
            static_trid w)
  unfolding ib_resolve_smlid_via
  ib_resolve_smlid_via-Searched static_trid w bytes =
      let run =
        query_self umad srcport seed madrpc_timeout madrpc_retries recv_fuel fuel stack
          ib_attr_port_info static_trid w in
      elim (Option-cases (data_of run)) [
        | inl lost ↦ rw (ib_resolve_smlid_via, lost) (missing refl refl)
        | inr (portinfo, e) ↦
            let fetched =
              smp_query_status_via-Fetched umad srcport seed madrpc_timeout madrpc_retries recv_fuel
                fuel stack no_portid ib_attr_port_info 0 (pos 0) static_trid w (some portinfo)
                (omega arith) (omega arith) bytes (λ a. omega arith)
                (value_of run.value portinfo e) in
            elim (Option-cases (sm_port portinfo)) [
              | inl invalid ↦ rw (ib_resolve_smlid_via, e, invalid) (missing refl refl)
              | inr (sm_id, valid) ↦
                  rw (ib_resolve_smlid_via, e, valid)
                    (named portinfo refl fetched (sm_port-Names portinfo sm_id valid))
            ]
      ]
