-- ===== src/Mad/Call.antt =====
-- libibmad/src/rpc.c: `mad_rpc`, which builds the packet of a request and follows redirections.
pub mod Requests
pub mod Laws
use infiniband_diags.Base.{
  ℕ, zero, suc, ◌+◌, ◌%◌, ◌^◌, bit_and, Bool, true, false, not, ◌||◌, Option, none, some, ◌==◌,
  if◌then◌else◌,
}
use infiniband_diags.Base.Int.{ℤ, pos, negsuc, is_positive}
use infiniband_diags.Mad.Field.{Buf}
use infiniband_diags.Mad.Table.{mad_get_field}
use infiniband_diags.Mad.Wide.{memcpy, mad_get_field64}
use infiniband_diags.Mad.Types.{PortId, Rpc}
use infiniband_diags.Mad.Encode.{mgtclass8}
use infiniband_diags.Mad.Packet.{Packet, Built, mad_build_pkt}
use infiniband_diags.Mad.Numbers.{
  ib_mad_trid_f, ib_drsmp_status_f, ib_cpi_redirect_lid_f, ib_cpi_redirect_qp_f,
  ib_cpi_redirect_qkey_f, ib_cpi_redirect_sl_f,
}
use infiniband_diags.Mad.Rpc.{
  Reply, Umad, IbmadPort, Outcome, done, invalid, send_failed, recv_failed, timed_out, no_fuel,
  error_of, do_madrpc, mad_get_timeout, mad_get_retries,
}

-- The redirection of a reply, read behind its common header: false for the return of -1.
unfoldable pub redirect_port : PortId → Buf → Bool × PortId
redirect_port port mad =
    let lid = mad_get_field mad 64 ib_cpi_redirect_lid_f in
    if lid == 0 then (false, record port { lid = pos 0 }) else (
      true,
      record port {
        lid = pos lid;
        qp = mad_get_field mad 64 ib_cpi_redirect_qp_f;
        qkey = mad_get_field mad 64 ib_cpi_redirect_qkey_f;
        sl = mad_get_field mad 64 ib_cpi_redirect_sl_f % 2 ^ 8;
      },
    )

-- IB_MAD_RPC_VERSION_MASK and IB_MAD_RPC_VERSION1; rpcv1->error
unfoldable pub set_error : Rpc → ℕ → Rpc
set_error rpc error =
    if bit_and rpc.mgtclass 0x0f00 == 0x0100 then record rpc { error = error } else rpc

-- The ends of `mad_rpc`: the data that it returns, or what made it return NULL.
pub data Returned : Type 0 where
  replied : Option Buf → Returned
  unbuilt : Returned
  unanswered : Outcome → Returned
  bad_status : (status : ℕ) → Returned
  unfinished : Returned

-- The state that `mad_rpc` leaves.
pub record Run (W : Type 0) : Type 0 where
  pub value : Returned
  pub rpc : Rpc
  pub dport : PortId
  pub static_trid : ℕ
  pub world : W

abbrev pub ib_mad_sts_redirect : ℕ
ib_mad_sts_redirect = 2

abbrev pub zeroed : Buf
zeroed = λ a. 0

-- if (rcvdata) memcpy(rcvdata, mad + rpc->dataoffs, rpc->datasz)
abbrev pub copy_out : Rpc → Buf → Option Buf → Option Buf
copy_out rpc mad none = none
copy_out rpc mad (some rcvdata) = some (memcpy rcvdata 0 (λ a. mad (rpc.dataoffs + a)) rpc.datasz)

module _ {W : Type 0} where
  -- A return of NULL.
  abbrev pub failed_run : Returned → ℕ → Rpc → PortId → ℕ → W → Run W
  failed_run value error rpc dport static_trid w = record {
    value = value;
    rpc = set_error rpc error;
    dport = dport;
    static_trid = static_trid;
    world = w;
  }

  -- After the loop of `mad_rpc`: the status decides.
  unfoldable pub conclude : Rpc → PortId → (static_trid : ℕ) → Buf → Option Buf → W → Run W
  conclude rpc dport static_trid mad rcvdata w =
      let status = mad_get_field mad 0 ib_drsmp_status_f in
      record {
        value = if status == 0 then replied (copy_out rpc mad rcvdata) else bad_status status;
        rpc = record (set_error rpc 0) { rstatus = status };
        dport = dport;
        static_trid = static_trid;
        world = w;
      }

module _ {W : Type 0} (umad : Umad W) (port : IbmadPort) (madrpc_timeout madrpc_retries : ℤ)
    (recv_fuel : ℕ) where
  -- The call of `_do_madrpc` in `mad_rpc`.
  abbrev pub exchange : Rpc → Packet → W → Outcome × W
  exchange rpc pkt w =
      do_madrpc umad (port.class_agents (mgtclass8 rpc))
        (mad_get_timeout port rpc.timeout madrpc_timeout) (mad_get_retries port madrpc_retries) pkt
        recv_fuel w

module _ {W : Type 0} (umad : Umad W) (port : IbmadPort) (seed : ℕ)
    (madrpc_timeout madrpc_retries : ℤ) (payload rcvdata : Option Buf) (recv_fuel : ℕ) where
  -- do { ... } while (1)
  unfoldable pub rpc_loop : (fuel : ℕ) → Rpc → PortId → (static_trid : ℕ) → W → Run W
  rpc_loop zero rpc dport static_trid w = failed_run unfinished 0 rpc dport static_trid w
  rpc_loop (suc fuel) rpc dport static_trid w =
      elim (mad_build_pkt seed static_trid zeroed rpc dport none payload) [
        | none ↦ failed_run unbuilt 0 rpc dport static_trid w
        | some b ↦
            let (outcome, w') =
              exchange umad port madrpc_timeout madrpc_retries recv_fuel b.rpc b.packet w in
            elim outcome [
              | done r ↦
                  let status = mad_get_field r.mad 0 ib_drsmp_status_f in
                  let (moved, dport') = redirect_port dport r.mad in
                  let again = rpc_loop fuel b.rpc dport' b.static_trid w' in
                  if not (status == ib_mad_sts_redirect)
                  then conclude b.rpc dport b.static_trid r.mad rcvdata w'
                  else if moved
                  then again
                  else conclude b.rpc dport' b.static_trid r.mad rcvdata w'
              | other ↦ failed_run (unanswered other) (error_of other) b.rpc dport b.static_trid w'
            ]
      ]

  unfoldable pub mad_rpc : (fuel : ℕ) → Rpc → PortId → (static_trid : ℕ) → W → Run W
  mad_rpc fuel rpc dport static_trid w = rpc_loop fuel (set_error rpc 0) dport static_trid w
