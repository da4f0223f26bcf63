-- ===== src/Mad/Register/Agents.antt =====
-- libibmad/src/register.c: the agents that a port has after registrations.
use infiniband_diags.Base.{
  ℕ, zero, suc, ◌≤◌, ◌<◌, ◌≡◌, refl, sym, ◌∙◌, inl, inr, ◌⊎◌, Bool-cases, Bool, true, false, not,
  ◌||◌, Option, none, some, List, [], ◌∷◌, length, leb, ◌==◌, arith,
}
use infiniband_diags.Base.Int.{ℤ, pos, negsuc, is_negative}
use infiniband_diags.Mad.Field.{Buf}
use infiniband_diags.Mad.Rpc.{IbmadPort, mad_get_retries, mad_get_timeout}
use infiniband_diags.Mad.Register.{
  System, register_classes, register_or_close, mad_rpc_open_port, max_class, in_range, set_agent,
  fresh_port, mgmt_class_vers, is_vendor, mad_rpc_class_agent,
}
use infiniband_diags.Mad.Register.Turns.{sign_cases, turn, outside, stopped, onward}

-- The class is one of the list.
abbrev pub asks : List ℤ → ℕ → Bool
asks [] class = false
asks (pos mgmt ∷ rest) class = let later = asks rest class in class == mgmt || later
asks (negsuc mgmt ∷ rest) class = asks rest class

-- The port after a loop that registered every class: those of the list have an agent, the others
-- have what they had before, and nothing else has changed.
pub record Granted (mgmt_classes : List ℤ) (p p' : IbmadPort) : Type 0 where
  pub agents :
      (class : ℕ) → asks mgmt_classes class ≡ true → is_negative (p'.class_agents class) ≡ false
  pub others :
      (class : ℕ) → asks mgmt_classes class ≡ false → p'.class_agents class ≡ p.class_agents class
  pub indexed : (class : ℕ) → asks mgmt_classes class ≡ true → (1 ≤ class) × (class < max_class)
  pub same_id : p'.port_id ≡ p.port_id
  pub same_timeout : p'.timeout ≡ p.timeout
  pub same_retries : p'.retries ≡ p.retries

class_positive : (class : ℕ) → (mgmt_class_vers (pos class) == 0) ≡ false → 1 ≤ class
unfolding mgmt_class_vers is_vendor
class_positive zero h = absurd (cc)
class_positive (suc class) h = omega arith

or_true : (a b : Bool) → (a || b) ≡ true → (a ≡ true) ⊎ (b ≡ true)
or_true true b h = inl refl
or_true false b h = inr h

or_false : (a b : Bool) → (a || b) ≡ false → (a ≡ false) × (b ≡ false)
or_false true b h = absurd (cc)
or_false false b h = (refl, h)

Granted-cons :
    (mgmt : ℕ) (rest : List ℤ) (agent : ℤ) (p p' : IbmadPort)
    → in_range (pos mgmt) ≡ true
    → is_negative agent ≡ false
    → (mgmt_class_vers (pos mgmt) == 0) ≡ false
    → Granted rest (set_agent p (pos mgmt) agent) p'
    → Granted (pos mgmt ∷ rest) p p'
unfolding set_agent
Granted-cons mgmt rest agent p p' inside good vers later = record {
  agents = λ class asked. elim (Bool-cases (asks rest class)) [
    | inl again ↦ later.agents class again
    | inr absent ↦ rw (later.others class absent) (ground (arith, asked, absent, good))
  ];
  others = λ class not_asked.
      let (other, absent) = or_false (class == mgmt) (asks rest class) not_asked in
      later.others class absent ∙ rw other refl;
  indexed = λ class asked. elim (or_true (class == mgmt) (asks rest class) asked) [
    | inl here ↦
        let same : class ≡ mgmt = ground (arith, here) in
        rw same (class_positive mgmt vers, ground (arith, inside))
    | inr again ↦ later.indexed class again
  ];
  same_id = later.same_id;
  same_timeout = later.same_timeout;
  same_retries = later.same_retries;
}

module _ {W : Type 0} (sys : System W) where
  pub register_classes-Granted :
      (mgmt_classes : List ℤ) (p : IbmadPort) (w : W)
      → (register_classes sys mgmt_classes p w).0.0 ≡ true
      → Granted mgmt_classes p (register_classes sys mgmt_classes p w).0.1
  unfolding register_classes
  register_classes-Granted [] p w h = record {
    agents = λ class asked. absurd (cc);
    others = λ class not_asked. refl;
    indexed = λ class asked. absurd (cc);
    same_id = refl;
    same_timeout = refl;
    same_retries = refl;
  }
  register_classes-Granted (pos mgmt ∷ rest) p w h = elim (turn sys (pos mgmt) rest p w) [
    | outside e ↦ absurd (cc)
    | stopped e ↦ absurd (cc)
    | onward agent inside good vers e ↦
        let later = register_classes-Granted rest (set_agent p (pos mgmt) agent) _ (cc) in
        rw e (Granted-cons mgmt rest agent p _ inside good vers later)
  ]
  register_classes-Granted (negsuc mgmt ∷ rest) p w h = elim (turn sys (negsuc mgmt) rest p w) [
    | outside e ↦ absurd (cc)
    | stopped e ↦ absurd (cc)
    | onward agent inside good vers e ↦ absurd (cc)
  ]

  reached :
      (dev_name : Option Buf) (dev_port : ℤ) (mgmt_classes : List ℤ) (w : W) (p : IbmadPort)
      → (mad_rpc_open_port sys dev_name dev_port mgmt_classes w).0 ≡ some p
      → (port_id : ℕ) × (w' : W) × ((register_or_close sys port_id mgmt_classes w').0 ≡ some p)
  unfolding mad_rpc_open_port
  reached dev_name dev_port mgmt_classes w p h =
      let w₂ = (sys.malloc (sys.init w).1).1 in
      let fd = sys.open_port dev_name dev_port w₂ in
      let end = (mad_rpc_open_port sys dev_name dev_port mgmt_classes w).0 in
      elim (Bool-cases (leb max_class (length mgmt_classes))) [
        | inl many ↦ let e : end ≡ none = rw (mad_rpc_open_port, many) refl in absurd (cc)
        | inr few ↦ elim (Bool-cases (is_negative (sys.init w).0)) [
          | inl missing ↦
              let e : end ≡ none = rw (mad_rpc_open_port, few, missing) refl in absurd (cc)
          | inr ready ↦ elim (Bool-cases (sys.malloc (sys.init w).1).0) [
            | inr full ↦
                let e : end ≡ none = rw (mad_rpc_open_port, few, ready, full) refl in absurd (cc)
            | inl got ↦ elim (sign_cases fd.0) [
              | inl (port_id, e) ↦
                  (port_id, fd.1, sym (rw (mad_rpc_open_port, few, ready, got, e) refl) ∙ h)
              | inr (n, e) ↦
                  let unopened : end ≡ none = rw (mad_rpc_open_port, few, ready, got, e) refl in
                  absurd (cc)
            ]
          ]
        ]
      ]

  opened-Granted :
      (port_id : ℕ) (mgmt_classes : List ℤ) (w : W) (p : IbmadPort)
      → (register_or_close sys port_id mgmt_classes w).0 ≡ some p
      → Granted mgmt_classes (fresh_port port_id) p
  unfolding register_or_close
  opened-Granted port_id mgmt_classes w p h =
      let run = register_classes sys mgmt_classes (fresh_port port_id) w in
      elim (Bool-cases run.0.0) [
        | inl done ↦
            let e : (register_or_close sys port_id mgmt_classes w).0 ≡ some run.0.1 =
              rw (register_or_close, done) refl in
            let same : run.0.1 ≡ p = cc in
            rw (sym same) (register_classes-Granted mgmt_classes (fresh_port port_id) w done)
        | inr failed ↦
            let e : (register_or_close sys port_id mgmt_classes w).0 ≡ none =
              rw (register_or_close, failed) refl in
            absurd (cc)
      ]

  -- A port that was opened has an agent for every class that was asked for and for no other class,
  -- and its timeout and its retries are those of the library.
  pub mad_rpc_open_port-Agents :
      (dev_name : Option Buf) (dev_port : ℤ) (mgmt_classes : List ℤ) (w : W) (p : IbmadPort)
      → (mad_rpc_open_port sys dev_name dev_port mgmt_classes w).0 ≡ some p
      → ((class : ℕ)
          → is_negative (mad_rpc_class_agent p (pos class)) ≡ not (asks mgmt_classes class))
        × ((retries : ℤ) → mad_get_retries p retries ≡ retries)
        × ((timeout : ℤ) → mad_get_timeout p (pos 0) timeout ≡ timeout)
  unfolding mad_rpc_class_agent fresh_port mad_get_retries mad_get_timeout
  mad_rpc_open_port-Agents dev_name dev_port mgmt_classes w p h =
      let (port_id, w', e) = reached dev_name dev_port mgmt_classes w p h in
      let granted = opened-Granted port_id mgmt_classes w' p e in
      (
        λ class. elim (Bool-cases (asks mgmt_classes class)) [
          | inl asked ↦
              ground (arith, asked, granted.agents class asked, granted.indexed class asked)
          | inr absent ↦ ground (arith, absent, granted.others class absent)
        ],
        λ retries. rw granted.same_retries refl,
        λ timeout. rw granted.same_timeout refl,
      )
