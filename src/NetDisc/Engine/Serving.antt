-- ===== src/NetDisc/Engine/Serving.antt =====
-- Serving the queue: what is left of it, how much is on the wire, and that the loop ends.
use infiniband_diags.Base.{
  ℕ, zero, suc, ◌%◌, ◌^◌, ◌≤◌, ◌<◌, ◌≡◌, refl, ap, ◌∙◌, ◌⊎◌, inl, inr, Bool-cases, true, false,
  Option, Option-cases, none, some, List, [], ◌∷◌, ◌++◌, length, arith, ltb,
}
use infiniband_diags.Base.Int.{ℤ, pos, is_zero}
use infiniband_diags.Mad.Rpc.{Umad}
use infiniband_diags.NetDisc.Engine.{
  QMap, Config, Engine, get_smp, send_smp, put_on_wire, process_smp_queue,
}
use infiniband_diags.NetDisc.Engine.Queue.{IsDistinct, IsQueue, get_smp-IsQueue}
use infiniband_diags.NetDisc.Engine.Sending.{IsQueue-cong, send_smp-SameQueue}

-- What is relied on: an insertion adds at most one entry, and a removal adds none.
pub record IsQMap {M : Type 0} (qmap : QMap M) : Type 0 where
  pub count_init : qmap.count qmap.init ≡ 0
  pub count_insert :
      (key value : ℕ) (m : M) → qmap.count (qmap.insert key value m) ≤ suc (qmap.count m)
  pub count_remove : (key : ℕ) (m : M) → qmap.count (qmap.remove key m).1 ≤ qmap.count m

module _ {W M C U : Type 0} (umad : Umad W) (qmap : QMap M) (cfg : Config) (seed : ℕ) where
  -- At the end of a service of the queue `xs`: what is left is an end of it, the bound of the wire
  -- holds, and after a success nothing is left or the wire is full.
  pub record Served (xs : List ℕ) (out : Option ℤ × Engine W M C U) : Type 0 where
    pub rc : ℤ
    pub returned : out.0 ≡ some rc
    pub taken : List ℕ
    pub left : List ℕ
    pub split : xs ≡ taken ++ left
    pub queue : IsQueue out.1 left
    pub bounded : qmap.count out.1.smps_on_wire ≤ cfg.max_smps
    pub idle : (is_zero rc ≡ false) ⊎ ((left ≡ []) ⊎ (cfg.max_smps ≤ qmap.count out.1.smps_on_wire))

  abbrev pub served : ℕ → Engine W M C U → Option ℤ × Engine W M C U
  served fuel engine = process_smp_queue umad qmap cfg seed fuel engine

  abbrev pub sent : Engine W M C U → ℕ → ℤ × Engine W M C U
  sent engine smp = send_smp umad qmap cfg seed (get_smp engine).1 smp

  pub full :
      (fuel : ℕ) (engine : Engine W M C U)
      → ltb (qmap.count engine.smps_on_wire) cfg.max_smps ≡ false
      → served (suc fuel) engine ≡ (some (pos 0), engine)
  unfolding process_smp_queue
  full fuel engine at = rw (process_smp_queue, at) refl

  pub empty :
      (fuel : ℕ) (engine : Engine W M C U)
      → ltb (qmap.count engine.smps_on_wire) cfg.max_smps ≡ true
      → (get_smp engine).0 ≡ none
      → served (suc fuel) engine ≡ (some (pos 0), (get_smp engine).1)
  unfolding process_smp_queue
  empty fuel engine at none_left = rw (process_smp_queue, at, none_left) refl

  pub failed :
      (fuel : ℕ) (engine : Engine W M C U) (smp : ℕ)
      → ltb (qmap.count engine.smps_on_wire) cfg.max_smps ≡ true
      → (get_smp engine).0 ≡ some smp
      → is_zero (sent engine smp).0 ≡ false
      → served (suc fuel) engine ≡ (some (sent engine smp).0, (sent engine smp).1)
  unfolding process_smp_queue
  failed fuel engine smp at found bad = rw (process_smp_queue, at, found, bad) refl

  pub continued :
      (fuel : ℕ) (engine : Engine W M C U) (smp : ℕ)
      → ltb (qmap.count engine.smps_on_wire) cfg.max_smps ≡ true
      → (get_smp engine).0 ≡ some smp
      → is_zero (sent engine smp).0 ≡ true
      → served (suc fuel) engine
        ≡ served fuel (put_on_wire umad qmap cfg seed (sent engine smp).1 smp)
  unfolding process_smp_queue
  continued fuel engine smp at found ok = rw (process_smp_queue, at, found, ok) refl

  get_smp-wire : (engine : Engine W M C U) → (get_smp engine).1.smps_on_wire ≡ engine.smps_on_wire
  unfolding get_smp
  get_smp-wire engine = elim (Option-cases engine.smp_queue_head) [
    | inl e ↦ rw (get_smp, e) refl
    | inr (head, e) ↦ rw (get_smp, e) refl
  ]

  Served-full :
      (fuel : ℕ) (engine : Engine W M C U) (xs : List ℕ)
      → IsQueue engine xs
      → qmap.count engine.smps_on_wire ≤ cfg.max_smps
      → ltb (qmap.count engine.smps_on_wire) cfg.max_smps ≡ false
      → Served xs (served (suc fuel) engine)
  Served-full fuel engine xs queue bound at = rw (full fuel engine at) (record {
    rc = pos 0;
    returned = refl;
    taken = [];
    left = xs;
    split = refl;
    queue = queue;
    bounded = bound;
    idle = inr (inr (ground (arith, at)));
  })

  Served-cons :
      (x : ℕ) (xs : List ℕ) (out : Option ℤ × Engine W M C U) → Served xs out → Served (x ∷ xs) out
  Served-cons x xs out s = record {
    rc = s.rc;
    returned = s.returned;
    taken = x ∷ s.taken;
    left = s.left;
    split = ap (λ l. x ∷ l) s.split;
    queue = s.queue;
    bounded = s.bounded;
    idle = s.idle;
  }

  sent-kept :
      (engine : Engine W M C U) (x : ℕ) (xs : List ℕ)
      → IsQueue engine (x ∷ xs)
      → IsDistinct (x ∷ xs)
      → IsQueue (sent engine x).1 xs × ((sent engine x).1.smps_on_wire ≡ engine.smps_on_wire)
  sent-kept engine x xs queue distinct =
      let got = get_smp-IsQueue engine (x ∷ xs) queue distinct in
      let kept = send_smp-SameQueue umad qmap cfg seed (get_smp engine).1 x in
      (
        IsQueue-cong (get_smp engine).1 (sent engine x).1 xs kept.0 got.1,
        kept.1 ∙ get_smp-wire engine,
      )

  -- With fuel above the length of the queue the service ends by itself. What is left of the queue
  -- is an end of it, in order; no more SMPs are on the wire than the bound allows; and unless
  -- sending failed, nothing is left to send or the wire is full.
  pub process_smp_queue-Served :
      (fuel : ℕ) (engine : Engine W M C U) (xs : List ℕ)
      → IsQMap qmap
      → IsQueue engine xs
      → IsDistinct xs
      → length xs < fuel
      → qmap.count engine.smps_on_wire ≤ cfg.max_smps
      → Served xs (process_smp_queue umad qmap cfg seed fuel engine)
  unfolding put_on_wire
  process_smp_queue-Served zero engine xs laws queue distinct lt bound = absurd (omega (arith, lt))
  process_smp_queue-Served (suc fuel) engine [] laws queue distinct lt bound =
      elim (Bool-cases (ltb (qmap.count engine.smps_on_wire) cfg.max_smps)) [
        | inr at ↦ Served-full fuel engine [] queue bound at
        | inl at ↦
            let (none_left, kept) = get_smp-IsQueue engine [] queue distinct in
            rw (empty fuel engine at none_left) (record {
              rc = pos 0;
              returned = refl;
              taken = [];
              left = [];
              split = refl;
              queue = kept;
              bounded = rw (get_smp-wire engine) bound;
              idle = inr (inl refl);
            })
      ]
  process_smp_queue-Served (suc fuel) engine (x ∷ xs) laws queue distinct lt bound =
      let got = get_smp-IsQueue engine (x ∷ xs) queue distinct in
      let kept = sent-kept engine x xs queue distinct in
      elim (Bool-cases (ltb (qmap.count engine.smps_on_wire) cfg.max_smps)) [
        | inr at ↦ Served-full fuel engine (x ∷ xs) queue bound at
        | inl at ↦ elim (Bool-cases (is_zero (sent engine x).0)) [
          | inl ok ↦
              let room =
                laws.count_insert (((sent engine x).1.heap x).rpc.trid % 2 ^ 32) x
                  (sent engine x).1.smps_on_wire in
              let same = ap qmap.count kept.1 in
              rw (continued fuel engine x at got.0 ok) (
                Served-cons x xs _ (
                  process_smp_queue-Served fuel (put_on_wire umad qmap cfg seed (sent engine x).1 x)
                    xs laws kept.0 distinct.1 (omega (arith, lt)) (ground (arith, room, same, at))))
          | inr bad ↦ rw (failed fuel engine x at got.0 bad) (record {
            rc = (sent engine x).0;
            returned = refl;
            taken = x ∷ [];
            left = xs;
            split = refl;
            queue = kept.0;
            bounded = rw kept.1 bound;
            idle = inl bad;
          })
        ]
      ]
