-- ===== src/Mad/Register/Turns.antt =====
-- libibmad/src/register.c and rpc.c: how a registration ends, and how the loop over classes goes on.
use infiniband_diags.Base.{ℕ, ◌≡◌, refl, inl, inr, ◌⊎◌, Bool-cases, true, false, List, ◌∷◌, ◌==◌}
use infiniband_diags.Base.Int.{ℤ, pos, negsuc, is_negative}
use infiniband_diags.Mad.Rpc.{IbmadPort}
use infiniband_diags.Mad.Register.{
  System, mad_register_port_client, mad_register_client_via, register_classes, in_range,
  rmpp_version_of, set_agent, mgmt_class_vers,
}

pub set_agent-port_id :
    (p : IbmadPort) (mgmt agent : ℤ) → (set_agent p mgmt agent).port_id ≡ p.port_id
unfolding set_agent
set_agent-port_id p (pos mgmt) agent = refl
set_agent-port_id p (negsuc mgmt) agent = refl

pub sign_cases : (z : ℤ) → ((n : ℕ) × (z ≡ pos n)) ⊎ ((n : ℕ) × (z ≡ negsuc n))
sign_cases (pos n) = inl (n, refl)
sign_cases (negsuc n) = inr (n, refl)

module _ {W : Type 0} (sys : System W) where
  abbrev pub tried : ℤ → ℕ → IbmadPort → W → ℤ × W
  tried mgmt rmpp_version p w = mad_register_port_client sys p.port_id mgmt rmpp_version w

  known :
      (mgmt : ℤ) (rmpp_version : ℕ) (p : IbmadPort) (w : W)
      → is_negative (tried mgmt rmpp_version p w).0 ≡ false
      → (mgmt_class_vers mgmt == 0) ≡ false
  unfolding mad_register_port_client
  known mgmt rmpp_version p w ok = elim (Bool-cases (mgmt_class_vers mgmt == 0)) [
    | inr vers ↦ vers
    | inl unknown ↦
        let untried : tried mgmt rmpp_version p w ≡ (negsuc 0, w) =
          rw (mad_register_port_client, unknown) refl in
        absurd (cc)
  ]

  -- How a registration of a client ends.
  pub data Client (mgmt : ℤ) (rmpp_version : ℕ) (p : IbmadPort) (w : W) : Type 0 where
    refused :
        (agent : ℤ)
        → is_negative agent ≡ true
        → mad_register_client_via sys mgmt rmpp_version p w
          ≡ ((agent, p), (tried mgmt rmpp_version p w).1)
        → Client mgmt rmpp_version p w
    granted :
        (agent : ℤ)
        → is_negative agent ≡ false
        → (mgmt_class_vers mgmt == 0) ≡ false
        → mad_register_client_via sys mgmt rmpp_version p w
          ≡ ((pos 0, set_agent p mgmt agent), (tried mgmt rmpp_version p w).1)
        → Client mgmt rmpp_version p w

  pub client : (mgmt : ℤ) (rmpp_version : ℕ) (p : IbmadPort) (w : W) → Client mgmt rmpp_version p w
  unfolding mad_register_client_via
  client mgmt rmpp_version p w = elim (Bool-cases (is_negative (tried mgmt rmpp_version p w).0)) [
    | inl bad ↦ refused (tried mgmt rmpp_version p w).0 bad (rw (mad_register_client_via, bad) refl)
    | inr ok ↦
        granted (tried mgmt rmpp_version p w).0 ok (known mgmt rmpp_version p w ok)
          (rw (mad_register_client_via, ok) refl)
  ]

  -- How the loop over the classes goes on.
  pub data Turn (mgmt : ℤ) (rest : List ℤ) (p : IbmadPort) (w : W) : Type 0 where
    outside : register_classes sys (mgmt ∷ rest) p w ≡ ((false, p), w) → Turn mgmt rest p w
    stopped :
        register_classes sys (mgmt ∷ rest) p w
          ≡ ((false, p), (tried mgmt (rmpp_version_of mgmt) p w).1)
        → Turn mgmt rest p w
    onward :
        (agent : ℤ)
        → in_range mgmt ≡ true
        → is_negative agent ≡ false
        → (mgmt_class_vers mgmt == 0) ≡ false
        → register_classes sys (mgmt ∷ rest) p w
          ≡ register_classes sys rest
              (set_agent p mgmt agent)
              (tried mgmt (rmpp_version_of mgmt) p w).1
        → Turn mgmt rest p w

  pub turn : (mgmt : ℤ) (rest : List ℤ) (p : IbmadPort) (w : W) → Turn mgmt rest p w
  unfolding register_classes
  turn mgmt rest p w = elim (Bool-cases (in_range mgmt)) [
    | inr out ↦ outside (rw (register_classes, out) refl)
    | inl ok ↦ elim (client mgmt (rmpp_version_of mgmt) p w) [
      | refused agent bad e ↦ stopped (rw (register_classes, ok, e, bad) refl)
      | granted agent good vers e ↦ onward agent ok good vers (rw (register_classes, ok, e) refl)
    ]
  ]
