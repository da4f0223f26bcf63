-- ===== src/NetDisc/Query/Well.antt =====
-- The well-formedness of the engine, and that issuing an SMP keeps it.
use infiniband_diags.Base.{
  Misses, ℕ, suc, ◌≤◌, ◌<◌, ◌≡◌, ◌≢◌, refl, sym, ap, ◌⊎◌, inl, inr, Bool-cases, false, Option-cases,
  some, List, [], ◌∷◌, ◌++◌, length, length-append, arith, leb,
}
use infiniband_diags.Base.Int.{ℤ, is_zero}
use infiniband_diags.Mad.Types.{PortId}
use infiniband_diags.Mad.Rpc.{Umad}
use infiniband_diags.Mad.Rpc.Receive.{IsFinite}
use infiniband_diags.NetDisc.Engine.{QMap, Config, Engine, queue_smp, minus_enomem}
use infiniband_diags.NetDisc.Engine.Queue.{IsLinked-store, IsDistinct, IsQueue, queue_smp-IsQueue}
use infiniband_diags.NetDisc.Engine.Serving.{IsQMap, process_smp_queue-Served}
use infiniband_diags.NetDisc.Engine.Quiet.{served-Quiet}
use infiniband_diags.NetDisc.Query.{Step, serve, alloc_smp, issue_smp}

abbrev pub AllBelow : ℕ → List ℕ → Type 0
AllBelow k [] = Unit
AllBelow k (x ∷ xs) = (x < k) × AllBelow k xs

pub below-Misses : (k : ℕ) (xs : List ℕ) → AllBelow k xs → Misses k xs
below-Misses k [] h = tt
below-Misses k (x ∷ xs) h = ((λ e. absurd (omega (arith, e, h.0))), below-Misses k xs h.1)

AllBelow-suc : (k : ℕ) (xs : List ℕ) → AllBelow k xs → AllBelow (suc k) (xs ++ (k ∷ []))
AllBelow-suc k [] h = (omega arith, tt)
AllBelow-suc k (x ∷ xs) h = (omega (arith, h.0), AllBelow-suc k xs h.1)

Misses-snoc : (a k : ℕ) (xs : List ℕ) → Misses a xs → a ≢ k → Misses a (xs ++ (k ∷ []))
Misses-snoc a k [] h ne = (ne, tt)
Misses-snoc a k (x ∷ xs) h ne = (h.0, Misses-snoc a k xs h.1 ne)

IsDistinct-snoc :
    (k : ℕ) (xs : List ℕ) → IsDistinct xs → AllBelow k xs → IsDistinct (xs ++ (k ∷ []))
IsDistinct-snoc k [] d h = (tt, tt)
IsDistinct-snoc k (x ∷ xs) d h =
    (Misses-snoc x k xs d.0 (λ e. absurd (omega (arith, e, h.0))), IsDistinct-snoc k xs d.1 h.1)

-- The facts on a list that an end of it keeps.
suffix_facts :
    (k : ℕ) (taken left : List ℕ)
    → IsDistinct (taken ++ left)
    → AllBelow k (taken ++ left)
    → IsDistinct left × (AllBelow k left × (length left ≤ length (taken ++ left)))
suffix_facts k [] left d h = (d, (h, omega arith))
suffix_facts k (t ∷ ts) left d h =
    let rest = suffix_facts k ts left d.1 h.1 in (rest.0, (rest.1.0, omega (arith, rest.1.1)))

module _ {W M C U : Type 0} (qmap : QMap M) (cfg : Config) where
  -- The queue is a list of distinct SMPs that were allocated, and the wire is within its bound.
  pub record IsWell (engine : Engine W M C U) : Type 0 where
    pub waiting : List ℕ
    pub queue : IsQueue engine waiting
    pub distinct : IsDistinct waiting
    pub allocated : AllBelow engine.fresh waiting
    pub short : length waiting ≤ engine.fresh
    pub bounded : qmap.count engine.smps_on_wire ≤ cfg.max_smps

  -- Nothing waits, or the wire is full.
  abbrev pub IsIdle : Engine W M C U → Type 0
  IsIdle engine = IsQueue engine [] ⊎ (cfg.max_smps ≤ qmap.count engine.smps_on_wire)

  -- A step that keeps the engine well, and idle when it succeeds; no more datagrams are to come.
  pub record Kept (size : W → ℕ) (engine : Engine W M C U) (out : Step W M C U) : Type 0 where
    pub rc : ℤ
    pub returned : out.0 ≡ some rc
    pub well : IsWell out.1
    pub idle : (is_zero rc ≡ false) ⊎ IsIdle out.1
    pub fewer : size out.1.world ≤ size engine.world

emptied :
    {W M C U : Type 0} (engine : Engine W M C U) (xs : List ℕ)
    → xs ≡ []
    → IsQueue engine xs
    → IsQueue engine []
emptied engine [] e queue = queue
emptied engine (x ∷ xs) e queue = absurd (cc)

queue_smp_same :
    {W M C U : Type 0} (engine : Engine W M C U) (smp : ℕ)
    → ((queue_smp engine smp).fresh ≡ engine.fresh)
      × (((queue_smp engine smp).smps_on_wire ≡ engine.smps_on_wire)
          × ((queue_smp engine smp).world ≡ engine.world))
unfolding queue_smp
queue_smp_same engine smp = elim (Option-cases engine.smp_queue_head) [
  | inl e ↦ rw (queue_smp, e) (refl, (refl, refl))
  | inr (head, e) ↦ elim (Option-cases engine.smp_queue_tail) [
    | inl e' ↦ rw (queue_smp, e, e') (refl, (refl, refl))
    | inr (tail, e') ↦ rw (queue_smp, e, e') (refl, (refl, refl))
  ]
]

module _ {W M C U : Type 0} (umad : Umad W) (qmap : QMap M) (cfg : Config) (seed : ℕ)
    (laws : IsQMap qmap) (size : W → ℕ) (finite : IsFinite umad size) where
  -- Serving the queue of a well engine keeps it well, and leaves it idle when it succeeds.
  pub serve-Kept :
      (engine : Engine W M C U)
      → IsWell qmap cfg engine
      → Kept qmap cfg size engine (serve umad qmap cfg seed engine)
  serve-Kept engine well =
      let s =
        process_smp_queue-Served umad qmap cfg seed (suc engine.fresh) engine well.waiting laws
          well.queue well.distinct (omega (arith, well.short)) well.bounded in
      let quiet = served-Quiet size umad qmap cfg seed finite (suc engine.fresh) engine in
      let facts =
        suffix_facts engine.fresh s.taken s.left (rw (← s.split) well.distinct)
          (rw (← s.split) well.allocated) in
      let len : length (s.taken ++ s.left) ≡ length well.waiting = ap length (sym s.split) in
      record {
        rc = s.rc;
        returned = s.returned;
        well = record {
          waiting = s.left;
          queue = s.queue;
          distinct = facts.0;
          allocated = rw quiet.fresh facts.1.0;
          short = omega (arith, quiet.fresh, facts.1.1, len, well.short);
          bounded = s.bounded;
        };
        idle = elim s.idle [
          | inl failed ↦ inl failed
          | inr (inl nothing) ↦
              inr (inl (emptied (serve umad qmap cfg seed engine).1 s.left nothing s.queue))
          | inr (inr full) ↦ inr (inr full)
        ];
        fewer = quiet.fewer;
      }

  -- A new SMP stands at an address that the queue does not have.
  allocated-IsQueue :
      (engine : Engine W M C U) (portid : PortId) (attrid modifier : ℕ) (cb : C) (xs : List ℕ)
      → AllBelow engine.fresh xs
      → IsQueue engine xs
      → IsQueue (alloc_smp umad qmap cfg seed engine portid attrid modifier cb) xs
  unfolding alloc_smp
  allocated-IsQueue engine portid attrid modifier cb [] below queue = queue
  allocated-IsQueue engine portid attrid modifier cb (x ∷ xs) below (head, (tail, at, links)) =
      let misses = below-Misses engine.fresh (x ∷ xs) below in
      (
        head,
        (tail, at, IsLinked-store engine.heap engine.fresh _ x xs tail misses.0 misses.1 links),
      )

  -- The new SMP waits behind the others.
  pub queued-IsQueue :
      (engine : Engine W M C U) (portid : PortId) (attrid modifier : ℕ) (cb : C)
      (well : IsWell qmap cfg engine)
      → IsQueue
          (queue_smp (alloc_smp umad qmap cfg seed engine portid attrid modifier cb) engine.fresh)
          (well.waiting ++ (engine.fresh ∷ []))
  queued-IsQueue engine portid attrid modifier cb well =
      queue_smp-IsQueue (alloc_smp umad qmap cfg seed engine portid attrid modifier cb) engine.fresh
        well.waiting
        (allocated-IsQueue engine portid attrid modifier cb well.waiting well.allocated well.queue)
        well.distinct (below-Misses engine.fresh well.waiting well.allocated)

  queued-IsWell :
      (engine : Engine W M C U) (portid : PortId) (attrid modifier : ℕ) (cb : C)
      → IsWell qmap cfg engine
      → IsWell qmap cfg
          (queue_smp (alloc_smp umad qmap cfg seed engine portid attrid modifier cb) engine.fresh)
  unfolding alloc_smp
  queued-IsWell engine portid attrid modifier cb well =
      let new = alloc_smp umad qmap cfg seed engine portid attrid modifier cb in
      let xs = well.waiting in
      let same = queue_smp_same new engine.fresh in
      record {
        waiting = xs ++ (engine.fresh ∷ []);
        queue = queued-IsQueue engine portid attrid modifier cb well;
        distinct = IsDistinct-snoc engine.fresh xs well.distinct well.allocated;
        allocated = rw same.0 (AllBelow-suc engine.fresh xs well.allocated);
        short = omega (arith, same.0, length-append xs (engine.fresh ∷ []), well.short);
        bounded = rw same.1.0 well.bounded;
      }

  -- Issuing an SMP keeps a well engine well: the SMP waits behind the others, in a queue that is
  -- then served; when that succeeds, no SMP waits or the wire is full.
  pub issue_smp-Kept :
      (room : ℕ) (engine : Engine W M C U) (portid : PortId) (attrid modifier : ℕ) (cb : C)
      → IsWell qmap cfg engine
      → Kept qmap cfg size engine
          (issue_smp umad qmap cfg seed room engine portid attrid modifier cb).0
  unfolding issue_smp alloc_smp
  issue_smp-Kept room engine portid attrid modifier cb well =
      let new = alloc_smp umad qmap cfg seed engine portid attrid modifier cb in
      let queued = queue_smp new engine.fresh in
      let same = queue_smp_same new engine.fresh in
      let world : queued.world ≡ engine.world = same.1.1 in
      let kept = serve-Kept queued (queued-IsWell engine portid attrid modifier cb well) in
      elim (Bool-cases (leb room engine.fresh)) [
        | inl full ↦
            rw (issue_smp, full)
              (record {
                rc = minus_enomem;
                returned = refl;
                well = well;
                idle = inl refl;
                fewer = omega arith;
              })
        | inr free ↦
            rw (issue_smp, free)
              (record {
                rc = kept.rc;
                returned = kept.returned;
                well = kept.well;
                idle = kept.idle;
                fewer = omega (arith, kept.fewer, ap size world);
              })
      ]
