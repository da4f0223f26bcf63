-- ===== src/Mad/Smp.antt =====
-- libibmad/src/smp.c: Get and Set of an attribute of subnet management.
pub mod Laws
use infiniband_diags.Base.{ℕ, Bool, not, ◌||◌, Option, some, ◌==◌, if◌then◌else◌}
use infiniband_diags.Base.Int.{ℤ, is_positive}
use infiniband_diags.Mad.Field.{Buf}
use infiniband_diags.Mad.Types.{
  PortId, Rpc, no_rpc, ib_smi_class, ib_smi_direct_class, ib_mad_method_get, ib_mad_method_set,
}
use infiniband_diags.Mad.Rpc.{IbmadPort, Umad}
use infiniband_diags.Mad.Call.{Run, mad_rpc}

abbrev pub ib_smp_data_size : ℕ
ib_smp_data_size = 64

abbrev pub ib_smp_data_offs : ℕ
ib_smp_data_offs = 64

unfoldable pub smp_mkey_set : IbmadPort → ℕ → IbmadPort
smp_mkey_set srcport mkey = record srcport { smp_mkey = mkey }

unfoldable pub smp_mkey_get : IbmadPort → ℕ
smp_mkey_get srcport = srcport.smp_mkey

-- direct SMI or Lid routed SMI
unfoldable pub smp_class : PortId → ℕ
smp_class portid =
    if not (is_positive portid.lid)
      || portid.drpath.drslid == 0xffff
      || portid.drpath.drdlid == 0xffff
    then ib_smi_direct_class
    else ib_smi_class

-- The request of smp_set_status_via and of smp_query_status_via, by its method.
unfoldable pub smp_rpc :
    (method : ℕ) → PortId → (attrid attr_mod : ℕ) (timeout : ℤ) → IbmadPort → Rpc
smp_rpc method portid attrid attr_mod timeout srcport = record no_rpc {
  mgtclass = smp_class portid;
  method = method;
  attr_id = attrid;
  attr_mod = attr_mod;
  timeout = timeout;
  datasz = ib_smp_data_size;
  dataoffs = ib_smp_data_offs;
  mkey = srcport.smp_mkey;
}

-- portid->sl = 0; portid->qp = 0;
unfoldable pub smp_port : PortId → PortId
smp_port portid = record portid { sl = 0; qp = 0 }

-- The status that *rstatus receives is that of the request in the run.
module _ {W : Type 0} (umad : Umad W) (srcport : IbmadPort) (seed : ℕ)
    (madrpc_timeout madrpc_retries : ℤ) (recv_fuel fuel : ℕ) where
  unfoldable pub smp_set_status_via :
      Buf → PortId → (attrid attr_mod : ℕ) (timeout : ℤ) (static_trid : ℕ) → W → Run W
  smp_set_status_via buf portid attrid attr_mod timeout static_trid w =
      mad_rpc umad srcport seed madrpc_timeout madrpc_retries (some buf) (some buf) recv_fuel fuel
        (smp_rpc ib_mad_method_set portid attrid attr_mod timeout srcport) (smp_port portid)
        static_trid w

  unfoldable pub smp_query_status_via :
      Buf → PortId → (attrid attr_mod : ℕ) (timeout : ℤ) (static_trid : ℕ) → W → Run W
  smp_query_status_via rcvbuf portid attrid attr_mod timeout static_trid w =
      mad_rpc umad srcport seed madrpc_timeout madrpc_retries (some rcvbuf) (some rcvbuf) recv_fuel
        fuel (smp_rpc ib_mad_method_get portid attrid attr_mod timeout srcport) (smp_port portid)
        static_trid w
