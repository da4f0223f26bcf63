-- ===== src/NetDisc/Engine/Queue.antt =====
-- The queue of SMPs is a list that is linked through the heap; its ends behave as a FIFO.
use infiniband_diags.Base.{
  Misses, ℕ, ◌≡◌, ◌≢◌, refl, ◌∙◌, Option, none, some, List, [], ◌∷◌, ◌++◌, arith,
}
use infiniband_diags.NetDisc.Engine.{Smp, Engine, store, set_next, queue_smp, get_smp}

abbrev pub IsDistinct : List ℕ → Type 0
IsDistinct [] = Unit
IsDistinct (x ∷ xs) = Misses x xs × IsDistinct xs

module _ {C : Type 0} where
  -- From the SMP at `x` the links run through `xs` and end at `tail`.
  abbrev pub IsLinked : (ℕ → Smp C) → ℕ → List ℕ → ℕ → Type 0
  IsLinked heap x [] tail = ((heap x).qnext ≡ none) × (tail ≡ x)
  IsLinked heap x (y ∷ ys) tail = ((heap x).qnext ≡ some y) × IsLinked heap y ys tail

  -- A write at an address that the list misses does not change its links.
  pub IsLinked-store :
      (heap : ℕ → Smp C) (a : ℕ) (s : Smp C) (x : ℕ) (xs : List ℕ) (tail : ℕ)
      → a ≢ x
      → Misses a xs
      → IsLinked heap x xs tail
      → IsLinked (store heap a s) x xs tail
  IsLinked-store heap a s x [] tail ne misses links = ground (arith, ne, links)
  IsLinked-store heap a s x (y ∷ ys) tail ne misses links =
      (ground (arith, ne, links.0), IsLinked-store heap a s y ys tail misses.0 misses.1 links.1)

  linked-tail_ne :
      (heap : ℕ → Smp C) (a x : ℕ) (xs : List ℕ) (tail : ℕ)
      → a ≢ x
      → Misses a xs
      → IsLinked heap x xs tail
      → a ≢ tail
  linked-tail_ne heap a x [] tail ne misses links e = ne (e ∙ links.1)
  linked-tail_ne heap a x (y ∷ ys) tail ne misses links e =
      linked-tail_ne heap a y ys tail misses.0 misses.1 links.1 e

  IsLinked-snoc :
      (heap : ℕ → Smp C) (a : ℕ) (x : ℕ) (xs : List ℕ) (tail : ℕ)
      → IsLinked heap x xs tail
      → IsDistinct (x ∷ xs)
      → (heap a).qnext ≡ none
      → a ≢ x
      → Misses a xs
      → IsLinked (set_next heap tail (some a)) x (xs ++ (a ∷ [])) a
  IsLinked-snoc heap a x [] tail links distinct last ne misses = ground (arith, links, last, ne)
  IsLinked-snoc heap a x (y ∷ ys) tail links distinct last ne misses =
      let apart = linked-tail_ne heap x y ys tail distinct.0.0 distinct.0.1 links.1 in
      (
        ground (arith, apart, links.0),
        IsLinked-snoc heap a y ys tail links.1 distinct.1 last misses.0 misses.1,
      )

abbrev pub first : List ℕ → Option ℕ
first [] = none
first (x ∷ xs) = some x

abbrev pub rest : List ℕ → List ℕ
rest [] = []
rest (x ∷ xs) = xs

module _ {W M C U : Type 0} where
  -- The queue of the engine holds the addresses `xs`, the first one at its head.
  abbrev pub IsQueue : Engine W M C U → List ℕ → Type 0
  IsQueue engine [] = (engine.smp_queue_head ≡ none) × (engine.smp_queue_tail ≡ none)
  IsQueue engine (x ∷ xs) =
      (engine.smp_queue_head ≡ some x)
      × ((tail : ℕ) × (engine.smp_queue_tail ≡ some tail) × IsLinked engine.heap x xs tail)

  -- In a queue that holds a list of distinct SMPs, another SMP that is queued comes behind them.
  pub queue_smp-IsQueue :
      (engine : Engine W M C U) (smp : ℕ) (xs : List ℕ)
      → IsQueue engine xs
      → IsDistinct xs
      → Misses smp xs
      → IsQueue (queue_smp engine smp) (xs ++ (smp ∷ []))
  unfolding queue_smp
  queue_smp-IsQueue engine smp [] queue distinct misses =
      rw queue.0 (refl, (smp, refl, (ground arith, refl)))
  queue_smp-IsQueue engine smp (x ∷ xs) (head, (tail, at, links)) distinct misses =
      let heap = set_next engine.heap smp none in
      let kept : IsLinked heap x xs tail =
        IsLinked-store engine.heap smp _ x xs tail misses.0 misses.1 links in
      let clear : (heap smp).qnext ≡ none = ground arith in
      let added = IsLinked-snoc heap smp x xs tail kept distinct clear misses.0 misses.1 in
      rw (head, at) (refl, (smp, refl, added))

  -- From a queue that holds a list of distinct SMPs the first one is taken, and the others remain,
  -- in their order; from an empty one nothing is taken.
  pub get_smp-IsQueue :
      (engine : Engine W M C U) (xs : List ℕ)
      → IsQueue engine xs
      → IsDistinct xs
      → ((get_smp engine).0 ≡ first xs) × IsQueue (get_smp engine).1 (rest xs)
  unfolding get_smp
  get_smp-IsQueue engine [] queue distinct = rw (get_smp, queue.0) (refl, queue)
  get_smp-IsQueue engine (x ∷ []) (head, (tail, at, links)) distinct =
      rw (get_smp, head, at, links.1) (refl, (links.0, ground arith))
  get_smp-IsQueue engine (x ∷ (y ∷ ys)) (head, (tail, at, links)) distinct =
      let apart = linked-tail_ne engine.heap x y ys tail distinct.0.0 distinct.0.1 links.1 in
      rw (get_smp, head, at) (refl, (links.0, (tail, ground (arith, apart), links.1)))
