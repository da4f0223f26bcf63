-- ===== src/Mad/Call/Requests.antt =====
-- What the steps of `mad_rpc` leave of a request and of a port.
use infiniband_diags.Base.{ℕ, ◌<◌, ◌^◌, bit_and, ◌≡◌, refl, ◌∙◌, ◌⊎◌, inl, inr, Bool-cases, ◌==◌}
use infiniband_diags.Mad.Field.{Buf}
use infiniband_diags.Mad.Table.{mad_get_field}
use infiniband_diags.Mad.Types.{PortId, Rpc}
use infiniband_diags.Mad.Encode.{number_request}
use infiniband_diags.Mad.Encode.Header.{mad_trid-lt}
use infiniband_diags.Mad.Numbers.{ib_cpi_redirect_lid_f}
use infiniband_diags.Mad.Call.{redirect_port, set_error}

-- A request without its number and without what a call writes into it.
abbrev pub unnumbered : Rpc → Rpc
unnumbered rpc = record rpc { trid = 0; error = 0 }

pub set_error-unnumbered :
    (rpc : Rpc) (error : ℕ) → unnumbered (set_error rpc error) ≡ unnumbered rpc
unfolding set_error
set_error-unnumbered rpc error = elim (Bool-cases (bit_and rpc.mgtclass 0x0f00 == 0x0100)) [
  | inl version1 ↦ rw version1 refl
  | inr other ↦ rw other refl
]

pub set_error-trid : (rpc : Rpc) (error : ℕ) → (set_error rpc error).trid ≡ rpc.trid
unfolding set_error
set_error-trid rpc error = elim (Bool-cases (bit_and rpc.mgtclass 0x0f00 == 0x0100)) [
  | inl version1 ↦ rw version1 refl
  | inr other ↦ rw other refl
]

pub number_request-unnumbered :
    (seed trid : ℕ) (rpc : Rpc) → unnumbered (number_request seed trid rpc).0 ≡ unnumbered rpc
unfolding number_request
number_request-unnumbered seed trid rpc = elim (Bool-cases (rpc.trid == 0)) [
  | inl fresh ↦ rw fresh refl
  | inr given ↦ rw given refl
]

-- The number of `rpc'` is that of `rpc`, or a fresh one.
abbrev pub Fits : Rpc → Rpc → Type 0
Fits rpc' rpc = (rpc'.trid < 2 ^ 64) ⊎ (rpc'.trid ≡ rpc.trid)

pub Fits-trans : (a b c : Rpc) → Fits a b → Fits b c → Fits a c
Fits-trans a b c (inl small) second = inl small
Fits-trans a b c (inr same) (inl small) = inl (rw same small)
Fits-trans a b c (inr same) (inr same') = inr (same ∙ same')

pub number_request-Fits : (seed trid : ℕ) (rpc : Rpc) → Fits (number_request seed trid rpc).0 rpc
unfolding number_request
number_request-Fits seed trid rpc = elim (Bool-cases (rpc.trid == 0)) [
  | inl fresh ↦ rw fresh (inl (mad_trid-lt seed trid))
  | inr given ↦ rw given (inr refl)
]

pub redirect_port-drpath :
    (port : PortId) (mad : Buf) → (redirect_port port mad).1.drpath ≡ port.drpath
unfolding redirect_port
redirect_port-drpath port mad =
    elim (Bool-cases (mad_get_field mad 64 ib_cpi_redirect_lid_f == 0)) [
      | inl stuck ↦ rw stuck refl
      | inr moved ↦ rw moved refl
    ]
