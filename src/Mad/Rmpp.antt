-- ===== src/Mad/Rmpp.antt =====
-- libibmad/src/rpc.c: `mad_rpc_rmpp`, the exchange of a request with an RMPP header.
pub mod Laws
use infiniband_diags.Base.{
  ℕ, ◌+◌, ◌%◌, ◌^◌, bit_and, Bool, true, false, not, ◌&&◌, Option, none, some, ◌==◌, if◌then◌else◌,
}
use infiniband_diags.Base.Int.{ℤ}
use infiniband_diags.Mad.Field.{Buf}
use infiniband_diags.Mad.Table.{mad_get_field}
use infiniband_diags.Mad.Types.{PortId, Rpc, RmppHdr}
use infiniband_diags.Mad.Packet.{Packet, Built, mad_build_pkt}
use infiniband_diags.Mad.Rpc.{
  Umad, IbmadPort, Outcome, done, invalid, send_failed, recv_failed, timed_out, no_fuel, error_of,
}
use infiniband_diags.Mad.Call.{set_error, zeroed, copy_out, exchange}
use infiniband_diags.Mad.Numbers.{
  ib_mad_status_f, ib_sa_attroffs_f, ib_sa_rmpp_vers_f, ib_sa_rmpp_type_f, ib_sa_rmpp_flags_f,
  ib_sa_rmpp_status_f, ib_sa_rmpp_d1_f, ib_sa_rmpp_d2_f,
}

-- The ends of `mad_rpc_rmpp`: the data that it returns, or what made it return NULL.
pub data RmppReturned : Type 0 where
  transferred : Option Buf → RmppReturned
  unmade : RmppReturned
  unheard : Outcome → RmppReturned
  wrong_status : (status : ℕ) → RmppReturned
  wrong_version : RmppReturned

-- The state that `mad_rpc_rmpp` leaves.
pub record RmppRun (W : Type 0) : Type 0 where
  pub value : RmppReturned
  pub rpc : Rpc
  pub rmpp : Option RmppHdr
  pub static_trid : ℕ
  pub world : W

-- (rmpp->flags & 0x3) && version != 1
abbrev pub is_bad_version : Buf → Bool
is_bad_version mad =
    not (bit_and (mad_get_field mad 0 ib_sa_rmpp_flags_f) 0x3 == 0)
    && not (mad_get_field mad 0 ib_sa_rmpp_vers_f == 1)

-- The header of a reply; of one with a bad version only the flags are read.
unfoldable pub read_rmpp : Buf → RmppHdr → RmppHdr
read_rmpp mad rmpp =
    let flagged = record rmpp { flags = mad_get_field mad 0 ib_sa_rmpp_flags_f } in
    if is_bad_version mad then flagged else record flagged {
      type = mad_get_field mad 0 ib_sa_rmpp_type_f;
      status = mad_get_field mad 0 ib_sa_rmpp_status_f;
      d1 = mad_get_field mad 0 ib_sa_rmpp_d1_f;
      d2 = mad_get_field mad 0 ib_sa_rmpp_d2_f;
    }

module _ {W : Type 0} where
  -- if (data) memcpy; rpc->recsz = ...
  abbrev pub transfer : Rpc → Option RmppHdr → (static_trid : ℕ) → Buf → Option Buf → W → RmppRun W
  transfer rpc rmpp static_trid mad payload w = record {
    value = transferred (copy_out rpc mad payload);
    rpc = record rpc { recsz = mad_get_field mad 0 ib_sa_attroffs_f };
    rmpp = rmpp;
    static_trid = static_trid;
    world = w;
  }

  abbrev pub refused : RmppReturned → Rpc → Option RmppHdr → (static_trid : ℕ) → W → RmppRun W
  refused value rpc rmpp static_trid w = record {
    value = value;
    rpc = rpc;
    rmpp = rmpp;
    static_trid = static_trid;
    world = w;
  }

  -- if (rmpp) { ... }
  unfoldable pub take_rmpp :
      Rpc → Option RmppHdr → (static_trid : ℕ) → Buf → Option Buf → W → RmppRun W
  take_rmpp rpc none static_trid mad payload w = transfer rpc none static_trid mad payload w
  take_rmpp rpc (some rmpp) static_trid mad payload w =
      let read = some (read_rmpp mad rmpp) in
      if is_bad_version mad
      then refused wrong_version rpc read static_trid w
      else transfer rpc read static_trid mad payload w

  -- The status of the reply, then its RMPP header.
  unfoldable pub accept :
      Rpc → Option RmppHdr → (static_trid : ℕ) → Buf → Option Buf → W → RmppRun W
  accept rpc rmpp static_trid mad payload w =
      let status = mad_get_field mad 0 ib_mad_status_f in
      if status == 0
      then take_rmpp rpc rmpp static_trid mad payload w
      else refused (wrong_status status) rpc rmpp static_trid w

module _ {W : Type 0} (umad : Umad W) (port : IbmadPort) (seed : ℕ)
    (madrpc_timeout madrpc_retries : ℤ) (recv_fuel : ℕ) where
  unfoldable pub mad_rpc_rmpp :
      Rpc → PortId → Option RmppHdr → Option Buf → (static_trid : ℕ) → W → RmppRun W
  mad_rpc_rmpp rpc dport rmpp payload static_trid w =
      let rpc₀ = set_error rpc 0 in
      elim (mad_build_pkt seed static_trid zeroed rpc₀ dport rmpp payload) [
        | none ↦ refused unmade rpc₀ rmpp static_trid w
        | some b ↦
            let (outcome, w') =
              exchange umad port madrpc_timeout madrpc_retries recv_fuel b.rpc b.packet w in
            elim outcome [
              | done r ↦ accept (set_error b.rpc 0) rmpp b.static_trid r.mad payload w'
              | other ↦
                  refused (unheard other) (set_error b.rpc (error_of other)) rmpp b.static_trid w'
            ]
      ]
