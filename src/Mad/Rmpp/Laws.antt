-- ===== src/Mad/Rmpp/Laws.antt =====
-- What `mad_rpc_rmpp` promises: its end, and the reply behind the data that it returns.
use infiniband_diags.Base.{ℕ, ◌≡◌, false, Option, none, some}
use infiniband_diags.Base.Int.{ℤ}
use infiniband_diags.Mad.Field.{Buf}
use infiniband_diags.Mad.Table.{mad_get_field}
use infiniband_diags.Mad.Types.{PortId, Rpc, RmppHdr}
use infiniband_diags.Mad.Packet.{Built, mad_build_pkt}
use infiniband_diags.Mad.Numbers.{ib_mad_status_f, ib_sa_attroffs_f}
use infiniband_diags.Mad.Rpc.{Reply, Umad, IbmadPort, Outcome, done, mad_get_timeout}
use infiniband_diags.Mad.Rpc.Attempts.{IsAnswer}
use infiniband_diags.Mad.Call.{set_error, zeroed, copy_out, exchange}
use infiniband_diags.Mad.Rmpp.{RmppRun, is_bad_version, read_rmpp, mad_rpc_rmpp}

-- The header that is left: none when none was given, else the one of the reply, whose version is 1
-- where its flags ask for one.
abbrev pub IsHeaderOf : Buf → Option RmppHdr → Option RmppHdr → Type 0
IsHeaderOf mad none after = after ≡ none
IsHeaderOf mad (some rmpp) after =
    (after ≡ some (read_rmpp mad rmpp)) × (is_bad_version mad ≡ false)

module _ {W : Type 0} (umad : Umad W) (port : IbmadPort) (seed : ℕ)
    (madrpc_timeout madrpc_retries : ℤ) (recv_fuel : ℕ) where
  abbrev asked : Built → W → Outcome × W
  asked b w = exchange umad port madrpc_timeout madrpc_retries recv_fuel b.rpc b.packet w

  -- The packet and the reply behind the data of a run.
  pub record Transfer (rpc : Rpc) (dport : PortId) (rmpp : Option RmppHdr) (payload : Option Buf)
      (trid : ℕ) (data' : Option Buf) (run : RmppRun W) : Type 0 where
    pub built : Built
    pub built_of : mad_build_pkt seed trid zeroed (set_error rpc 0) dport rmpp payload ≡ some built
    pub reply : Reply
    pub before : W
    pub exchanged : asked built before ≡ (done reply, run.world)
    pub heard :
        (w' : W) × (umad.recv (mad_get_timeout port built.rpc.timeout madrpc_timeout) w'
          ≡ (some reply, run.world))
    pub matches : IsAnswer built.packet reply
    pub no_error : mad_get_field reply.mad 0 ib_mad_status_f ≡ 0
    pub header : IsHeaderOf reply.mad rmpp run.rmpp
    pub copied : data' ≡ copy_out (set_error built.rpc 0) reply.mad payload
    pub record_size : run.rpc.recsz ≡ mad_get_field reply.mad 0 ib_sa_attroffs_f

  abbrev Accepted : Rpc → Option RmppHdr → Buf → Option Buf → Option Buf → RmppRun W → Type 0
  Accepted rpc rmpp mad payload data' run =
      (mad_get_field mad 0 ib_mad_status_f ≡ 0)
      × (IsHeaderOf mad rmpp run.rmpp
          × ((data' ≡ copy_out rpc mad payload)
              × (run.rpc.recsz ≡ mad_get_field mad 0 ib_sa_attroffs_f)))

  abbrev rmpp_run : Rpc → PortId → Option RmppHdr → Option Buf → ℕ → W → RmppRun W
  rmpp_run rpc dport rmpp payload trid w =
      mad_rpc_rmpp umad port seed madrpc_timeout madrpc_retries recv_fuel rpc dport rmpp payload
        trid w
