-- ===== src/Mad/Register/Opening.antt =====
-- What `mad_rpc_open_port` holds when it returns: a system that keeps a ledger, and its entries.
use infiniband_diags.Base.{
  ℕ, suc, ◌-◌, ◌≡◌, ◌≢◌, refl, sym, ap, ◌∙◌, inl, inr, Bool-cases, Bool, Option, none, some, List,
  [], ◌∷◌, length, leb, ◌==◌, if◌then◌else◌, arith,
}
use infiniband_diags.Base.Int.{ℤ, pos, negsuc, is_negative}
use infiniband_diags.Mad.Field.{Buf}
use infiniband_diags.Mad.Rpc.{IbmadPort, einval, enomem}
use infiniband_diags.Mad.Register.{
  System, mad_register_port_client, register_classes, default_errno, mad_rpc_close_port,
  register_or_close, mad_rpc_open_port, max_class, eio, enodev, rmpp_version_of, set_agent,
  fresh_port, mgmt_class_vers,
}
use infiniband_diags.Mad.Register.Turns.{
  sign_cases, tried, turn, outside, stopped, onward, set_agent-port_id,
}

-- The descriptors that are open, the last one first, and the blocks that are allocated.
pub record Ledger : Type 0 where
  pub ports : List ℕ
  pub blocks : ℕ

abbrev pub remove : ℕ → List ℕ → List ℕ
remove a [] = []
remove a (x ∷ xs) = let rest = remove a xs in if x == a then xs else x ∷ rest

abbrev opened_by : ℤ → Ledger → Ledger
opened_by (pos port_id) l = record l { ports = port_id ∷ l.ports }
opened_by (negsuc n) l = l

abbrev allocated_by : Bool → Ledger → Ledger
allocated_by ok l = if ok then record l { blocks = suc l.blocks } else l

unfoldable pub accounted : {W : Type 0} → System W → System (W × Ledger)
accounted sys = record {
  init = λ w. let (rc, w') = sys.init w.0 in (rc, (w', w.1));
  open_port = λ dev_name dev_port w.
      let (fd, w') = sys.open_port dev_name dev_port w.0 in (fd, (w', opened_by fd w.1));
  close_port =
      λ port_id w. (sys.close_port port_id w.0, record w.1 { ports = remove port_id w.1.ports });
  register = λ port_id mgmt vers rmpp_version method_mask w.
      let (agent, w') = sys.register port_id mgmt vers rmpp_version method_mask w.0 in
      (agent, (w', w.1));
  register_oui = λ port_id mgmt rmpp_version oui method_mask w.
      let (agent, w') = sys.register_oui port_id mgmt rmpp_version oui method_mask w.0 in
      (agent, (w', w.1));
  malloc = λ w. let (ok, w') = sys.malloc w.0 in (ok, (w', allocated_by ok w.1));
  free = λ w. (sys.free w.0, record w.1 { blocks = w.1.blocks - 1 });
  errno = λ w. sys.errno w.0;
  set_errno = λ e w. (sys.set_errno e w.0, w.1);
}

-- errno holds what was stored, and closing and freeing do not set it to zero.
pub record IsSystem {W : Type 0} (sys : System W) : Type 0 where
  pub stored : (e : ℕ) (w : W) → sys.errno (sys.set_errno e w) ≡ e
  pub closed : (port_id : ℕ) (w : W) → sys.errno w ≢ 0 → sys.errno (sys.close_port port_id w) ≢ 0
  pub freed : (w : W) → sys.errno w ≢ 0 → sys.errno (sys.free w) ≢ 0

abbrev held : IbmadPort → Ledger → Ledger
held p l = record { ports = p.port_id ∷ l.ports; blocks = suc l.blocks }

module _ {W : Type 0} (sys : System W) where
  -- What is held at the end of an opening that started with the ledger `l`.
  abbrev pub Settled : Ledger → Option IbmadPort × (W × Ledger) → Type 0
  Settled l (none, w) = (sys.errno w.0 ≢ 0) × (w.1 ≡ l)
  Settled l (some p, w) = (w.1 ≡ held p l) × ((mad_rpc_close_port (accounted sys) p w).1 ≡ l)

  tried-Ledger :
      (mgmt : ℤ) (rmpp_version : ℕ) (p : IbmadPort) (w : W × Ledger)
      → (tried (accounted sys) mgmt rmpp_version p w).1.1 ≡ w.1
  unfolding mad_register_port_client accounted
  tried-Ledger mgmt rmpp_version p w = elim (Bool-cases (mgmt_class_vers mgmt == 0)) [
    | inl unknown ↦ rw (mad_register_port_client, unknown) refl
    | inr known ↦ rw (mad_register_port_client, known) refl
  ]

  -- Registrations leave the ledger and the descriptor alone.
  classes-Ledger :
      (mgmt_classes : List ℤ) (p : IbmadPort) (w : W × Ledger)
      → ((register_classes (accounted sys) mgmt_classes p w).1.1 ≡ w.1)
        × ((register_classes (accounted sys) mgmt_classes p w).0.1.port_id ≡ p.port_id)
  unfolding register_classes
  classes-Ledger [] p w = (refl, refl)
  classes-Ledger (mgmt ∷ rest) p w =
      let kept = tried-Ledger mgmt (rmpp_version_of mgmt) p w in
      elim (turn (accounted sys) mgmt rest p w) [
        | outside e ↦ rw e (refl, refl)
        | stopped e ↦ rw e (kept, refl)
        | onward agent inside good vers e ↦
            let later = classes-Ledger rest (set_agent p mgmt agent) _ in
            rw e (later.0 ∙ kept, later.1 ∙ set_agent-port_id p mgmt agent)
      ]

  default_errno-Ledger : (e : ℕ) (w : W × Ledger) → (default_errno (accounted sys) e w).1 ≡ w.1
  unfolding default_errno accounted
  default_errno-Ledger e w = elim (Bool-cases (sys.errno w.0 == 0)) [
    | inl unset ↦ rw (default_errno, unset) refl
    | inr kept ↦ rw (default_errno, kept) refl
  ]

  unblocked :
      (w : W × Ledger) (l : Ledger)
      → w.1 ≡ record l { blocks = suc l.blocks }
      → ((accounted sys).free w).1 ≡ l
  unfolding accounted
  unblocked w l h = rw h (ground arith)

  released :
      (port_id : ℕ) (w : W × Ledger) (l : Ledger)
      → w.1 ≡ record { ports = port_id ∷ l.ports; blocks = suc l.blocks }
      → ((accounted sys).free ((accounted sys).close_port port_id w)).1 ≡ l
  unfolding accounted
  released port_id w l h = rw h (ground arith)

  close-Ledger :
      (p : IbmadPort) (w : W × Ledger) (l : Ledger)
      → w.1 ≡ held p l
      → (mad_rpc_close_port (accounted sys) p w).1 ≡ l
  unfolding mad_rpc_close_port
  close-Ledger p w l h = released p.port_id w l h

  module _ (ok : IsSystem sys) where
    default_errno-set :
        (e : ℕ) (w : W × Ledger) → e ≢ 0 → sys.errno (default_errno (accounted sys) e w).0 ≢ 0
    unfolding default_errno accounted
    default_errno-set e w ne = elim (Bool-cases (sys.errno w.0 == 0)) [
      | inl unset ↦ rw (default_errno, unset, ok.stored e w.0) ne
      | inr kept ↦ rw (default_errno, kept) (ground (arith, kept))
    ]

    marked : (e : ℕ) (w : W) → e ≢ 0 → sys.errno (sys.set_errno e w) ≢ 0
    marked e w ne = rw (ok.stored e w) ne

    classes-Settled :
        (port_id : ℕ) (mgmt_classes : List ℤ) (w : W) (l : Ledger)
        → Settled l (
            register_or_close
              (accounted sys)
              port_id
              mgmt_classes
              (w, record { ports = port_id ∷ l.ports; blocks = suc l.blocks }))
    unfolding register_or_close fresh_port accounted
    classes-Settled port_id mgmt_classes w l =
        let start : Ledger = record { ports = port_id ∷ l.ports; blocks = suc l.blocks } in
        let run = register_classes (accounted sys) mgmt_classes (fresh_port port_id) (w, start) in
        let (kept, same_id) = classes-Ledger mgmt_classes (fresh_port port_id) (w, start) in
        elim (Bool-cases run.0.0) [
          | inl done ↦
              let entered : run.1.1 ≡ held run.0.1 l =
                kept
                ∙ ap (λ i. record { ports = i ∷ l.ports; blocks = suc l.blocks }) (sym same_id) in
              rw (register_or_close, done) (entered, close-Ledger run.0.1 run.1 l entered)
          | inr failed ↦
              rw (register_or_close, failed)
                (
                  ok.freed _ (
                      ok.closed port_id _
                        (default_errno-set einval run.1 (λ h. absurd (omega arith)))),
                  released port_id (default_errno (accounted sys) einval run.1) l
                      (default_errno-Ledger einval run.1 ∙ kept),
                )
        ]

    -- When `mad_rpc_open_port` returns NULL, errno is set and every descriptor and block that it
    -- took is given back; otherwise it holds one of each, which `mad_rpc_close_port` gives back.
    pub mad_rpc_open_port-Settled :
        (dev_name : Option Buf) (dev_port : ℤ) (mgmt_classes : List ℤ) (w : W) (l : Ledger)
        → Settled l (mad_rpc_open_port (accounted sys) dev_name dev_port mgmt_classes (w, l))
    unfolding mad_rpc_open_port accounted
    mad_rpc_open_port-Settled dev_name dev_port mgmt_classes w l =
        elim (Bool-cases (leb max_class (length mgmt_classes))) [
          | inl many ↦
              rw (mad_rpc_open_port, many) (marked einval w (λ h. absurd (omega arith)), refl)
          | inr few ↦ elim (Bool-cases (is_negative (sys.init w).0)) [
            | inl absent ↦
                rw (mad_rpc_open_port, few, absent)
                  (marked enodev _ (λ h. absurd (omega arith)), refl)
            | inr ready ↦ elim (Bool-cases (sys.malloc (sys.init w).1).0) [
              | inr full ↦
                  rw (mad_rpc_open_port, few, ready, full)
                    (marked enomem _ (λ h. absurd (omega arith)), refl)
              | inl got ↦
                  elim (sign_cases
                    (sys.open_port dev_name dev_port (sys.malloc (sys.init w).1).1).0) [
                      | inl (port_id, e) ↦
                          rw (mad_rpc_open_port, few, ready, got, e)
                            (rw (e, got) (classes-Settled port_id mgmt_classes _ l))
                      | inr (n, e) ↦
                          let w₃ : W × Ledger = (
                            (sys.open_port dev_name dev_port (sys.malloc (sys.init w).1).1).1,
                            opened_by
                                (sys.open_port dev_name dev_port (sys.malloc (sys.init w).1).1).0
                                (allocated_by (sys.malloc (sys.init w).1).0 l),
                          ) in
                          rw (mad_rpc_open_port, few, ready, got, e)
                            (
                              ok.freed _ (default_errno-set eio _ (λ h. absurd (omega arith))),
                              unblocked (default_errno (accounted sys) eio w₃) l
                                  (default_errno-Ledger eio w₃ ∙ rw (e, got) refl),
                            )
                    ]
            ]
          ]
        ]
