-- ===== src/Mad/Rpc.antt =====
-- libibmad/src/rpc.c: `_do_madrpc`, which sends a packet, sends it again, and matches the reply.
-- libibumad is the parameter `Umad`: it owns a world of type `W`, and its calls change that world.
pub mod Receive
pub mod Attempts
pub mod Laws
pub mod Sends
use infiniband_diags.Base.{
  ℕ, zero, suc, ◌+◌, ◌%◌, ◌^◌, bit_and, Bool, true, false, not, ◌||◌, Option, none, some, ◌==◌,
  if◌then◌else◌,
}
use infiniband_diags.Base.Int.{is_negative, is_zero, ℤ, pos, negsuc, is_positive}
use infiniband_diags.Mad.Field.{Buf}
use infiniband_diags.Mad.Table.{mad_get_field}
use infiniband_diags.Mad.Wide.{memcpy, mad_get_field64}
use infiniband_diags.Mad.Types.{PortId, Rpc}
use infiniband_diags.Mad.Encode.{mgtclass8}
use infiniband_diags.Mad.Packet.{Packet, Built, mad_build_pkt}
use infiniband_diags.Mad.Numbers.{
  ib_mad_trid_f, ib_drsmp_status_f, ib_cpi_redirect_lid_f, ib_cpi_redirect_qp_f,
  ib_cpi_redirect_qkey_f, ib_cpi_redirect_sl_f,
}

-- struct ibmad_port, with the file descriptor and the agents
pub record IbmadPort : Type 0 where
  pub port_id : ℕ
  pub class_agents : ℕ → ℤ
  pub timeout : ℤ
  pub retries : ℤ
  pub smp_mkey : ℕ

-- What umad_recv fills in: the datagram, its length and its status.
pub record Reply : Type 0 where
  pub mad : Buf
  pub length : ℕ
  pub status : ℕ

-- umad_send, with its return, and umad_recv (none for a negative return)
pub record Umad (W : Type 0) : Type 0 where
  pub send : (agentid timeout retries : ℤ) → Packet → W → ℤ × W
  pub recv : (timeout : ℤ) → W → Option Reply × W

-- mad_get_timeout and mad_get_retries; the last argument is the global default.
unfoldable pub mad_get_timeout : IbmadPort → ℤ → ℤ → ℤ
mad_get_timeout port override_ms madrpc_timeout =
    if not (is_zero override_ms)
    then override_ms
    else if not (is_zero port.timeout)
    then port.timeout
    else madrpc_timeout

unfoldable pub mad_get_retries : IbmadPort → ℤ → ℤ
mad_get_retries port madrpc_retries =
    if not (is_zero port.retries) then port.retries else madrpc_retries

-- Only the low 32 bits of a transaction number are compared.
abbrev pub low_trid : Buf → ℕ
low_trid mad = mad_get_field64 mad 0 ib_mad_trid_f % 2 ^ 32

-- The ends of `_do_madrpc`: its returns, and the run that has no fuel left.
pub data Outcome : Type 0 where
  done : Reply → Outcome
  invalid : Outcome
  send_failed : Outcome
  recv_failed : Outcome
  timed_out : (status : ℕ) → Outcome
  no_fuel : Outcome

pub data Received : Type 0 where
  got : Reply → Received
  lost : Received
  starved : Received

abbrev pub enomem : ℕ
enomem = 12

abbrev pub etimedout : ℕ
etimedout = 110

abbrev pub einval : ℕ
einval = 22

-- *p_error, which mad_rpc starts at 0
abbrev pub error_of : Outcome → ℕ
error_of invalid = einval
error_of (timed_out status) = etimedout
error_of _ = 0

-- umad_status is 0, or it is ENOMEM
abbrev pub is_done : Reply → Bool
is_done r = r.status == 0 || r.status == enomem

module _ {W : Type 0} (umad : Umad W) where
  -- do { umad_recv } while the numbers differ
  unfoldable pub receive : (trid : ℕ) (timeout : ℤ) (fuel : ℕ) → W → Received × W
  receive trid timeout zero w = (starved, w)
  receive trid timeout (suc fuel) w =
      let (reply, w') = umad.recv timeout w in
      elim reply [
        | none ↦ (lost, w')
        | some r ↦
            let rest = receive trid timeout fuel w' in
            if low_trid r.mad == trid then (got r, w') else rest
      ]

  -- for (retries = 0; retries < max_retries; retries++), with the retries that are left
  unfoldable pub attempts :
      (agentid timeout : ℤ) → Packet → (fuel left status : ℕ) → W → Outcome × W
  attempts agentid timeout pkt fuel zero status w = (timed_out status, w)
  attempts agentid timeout pkt fuel (suc left) status w =
      let (rc, w₁) = umad.send agentid timeout (pos 0) pkt w in
      let (received, w₂) = receive (low_trid pkt.mad) timeout fuel w₁ in
      let answer : Outcome × W = elim received [
        | got r ↦
            let again = attempts agentid timeout pkt fuel left r.status w₂ in
            if is_done r then (done r, w₂) else again
        | lost ↦ (recv_failed, w₂)
        | starved ↦ (no_fuel, w₂)
      ] in
      if is_negative rc then (send_failed, w₁) else answer

  unfoldable pub do_madrpc :
      (agentid timeout max_retries : ℤ) → Packet → (fuel : ℕ) → W → Outcome × W
  do_madrpc agentid timeout (pos (suc n)) pkt fuel w = attempts agentid timeout pkt fuel (suc n) 0 w
  do_madrpc agentid timeout (pos zero) pkt fuel w = (invalid, w)
  do_madrpc agentid timeout (negsuc n) pkt fuel w = (invalid, w)
