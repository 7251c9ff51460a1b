-- ===== src/SchedulingQueue/Drain.antt =====
-- The order in which Pop of a scheduling queue gives out the active units.
use kube_queue.Base.{
  ℕ, zero, suc, ◌<◌, String, Option, none, some, List, [], ◌∷◌, get_elem?, text_dec, ◌≡◌, refl, ◌∙◌,
  sym, Outcome, value, ◌>>=◌, Yields, yields, Yields-bind, Yields-both, arith, false,
}
use kube_queue.Heap.View.{removed}
use kube_queue.Heap.Remove.{pop_top-IsPopped, len-zero-view}
use kube_queue.Container.Order.{IsStrictWeak}
use kube_queue.Framework.{QueueUnitInfo}
use kube_queue.SchedulingQueue.{
  PrioritySchedulingQueue, QueueLess, pop, len, unit_info_key_func, comp,
}
use kube_queue.SchedulingQueue.Invariant.{active, waiting, IsValid}
use kube_queue.SchedulingQueue.Writes.{comp_is}
use kube_queue.SchedulingQueue.Methods.{pop-IsNow}

module _ {ℓ} {Q : Type ℓ} where
  -- So many calls of Pop, with the units that they return.
  unfoldable pub drain :
      ℕ → PrioritySchedulingQueue Q → Outcome (List (QueueUnitInfo Q) × PrioritySchedulingQueue Q)
  unfolding pop
  drain zero p = value ([], p)
  drain (suc n) p = pop p >>= λ (u, err, p'). drain n p' >>= λ (us, p''). value (u ∷ us, p'')

  -- A list of all the units of a map, each taken when no unit that is left is before it.
  pub data Drains (less : QueueLess Q)
      : (String → Option (QueueUnitInfo Q)) → List (QueueUnitInfo Q) → Type ℓ where
    done : {f : String → Option (QueueUnitInfo Q)} → ((k : String) → f k ≡ none) → Drains less f []
    take :
        {f : String → Option (QueueUnitInfo Q)} {us : List (QueueUnitInfo Q)} (k : String)
        (u : QueueUnitInfo Q)
        → f k ≡ some u
        → ((j : String) (x : QueueUnitInfo Q) → f j ≡ some x → less x u ≡ false)
        → Drains less (removed k f) us
        → Drains less f (u ∷ us)

  module _ {less : QueueLess Q} where
    Drains-held :
        {f : String → Option (QueueUnitInfo Q)} {us : List (QueueUnitInfo Q)}
        → Drains less f us
        → (i : ℕ) (x : QueueUnitInfo Q) → get_elem? us i ≡ some x
        → (k : String) × (f k ≡ some x)
    Drains-held (done e) i x there = absurd (ground arith)
    Drains-held (take k u held first rest) zero x there = (k, ground arith)
    Drains-held (take k u held first rest) (suc i) x there =
        let (j, h) = Drains-held rest i x there in (j, ground arith)

    -- The list has every unit of the map.
    pub Drains-complete :
        {f : String → Option (QueueUnitInfo Q)} {us : List (QueueUnitInfo Q)}
        → Drains less f us
        → (k : String) (x : QueueUnitInfo Q) → f k ≡ some x
        → (i : ℕ) × (get_elem? us i ≡ some x)
    Drains-complete (done e) k x there = absurd (ground (arith, e k))
    Drains-complete (take j u held first rest) k x there = elim (text_dec j k) [
      | yes same ↦ (0, ground arith)
      | no other ↦ let (i, h) = Drains-complete rest k x (ground arith) in (suc i, h)
    ]

    -- No unit of the list is before one that stands further on.
    pub Drains-ordered :
        {f : String → Option (QueueUnitInfo Q)} {us : List (QueueUnitInfo Q)}
        → Drains less f us
        → (i j : ℕ) (x y : QueueUnitInfo Q) → i < j
        → get_elem? us i ≡ some x
        → get_elem? us j ≡ some y
        → less y x ≡ false
    Drains-ordered (done e) i j x y p at_i at_j = absurd (ground arith)
    Drains-ordered (take k u held first rest) zero zero x y p at_i at_j = absurd (omega arith)
    Drains-ordered (take k u held first rest) (suc i) zero x y p at_i at_j = absurd (omega arith)
    Drains-ordered (take k u held first rest) zero (suc j) x y p at_i at_j =
        let (key, h) = Drains-held rest j y at_j in
        let before = first key y (ground arith) in ground arith
    Drains-ordered (take k u held first rest) (suc i) (suc j) x y p at_i at_j =
        Drains-ordered rest i j x y (omega arith) at_i at_j

  module _ {less : QueueLess Q} (weak : IsStrictWeak less) where
    pub len-pop :
        (p : PrioritySchedulingQueue Q)
        → IsValid less p
        → 0 < len p
        → Yields (λ r. suc (len r.2) ≡ len p) (pop p)
    unfolding pop len
    len-pop p v nonempty =
        Yields-bind
          (pop_top-IsPopped unit_info_key_func (comp p.less_fn) (comp_is weak p v) weak p.items
            v.items_wf nonempty)
          λ (obj, err, items) popped. rw popped.taken.object (yields popped.taken.size)

    -- Pop of a valid queue whose policy is a strict weak order, called as often as the queue is
    -- long, returns every active unit once, no unit before one that stands further on, and leaves a
    -- valid queue with no active unit and the backoff heap as it was.
    pub drain-Drains :
        (n : ℕ) (p : PrioritySchedulingQueue Q)
        → IsValid less p
        → n ≡ len p
        → Yields
            (λ r. Drains less (active p) r.0 × IsValid less r.1 × (waiting r.1 ≡ waiting p))
            (drain n p)
    unfolding drain len
    drain-Drains zero p v e = yields (
      done (λ k.
          len-zero-view unit_info_key_func (comp p.less_fn) (comp_is weak p v) weak p.items k
            v.items_wf.consistent (sym e)),
      v,
      refl,
    )
    drain-Drains (suc n) p v e =
        Yields-bind (Yields-both (pop-IsNow weak p v (omega arith)) (len-pop p v (omega arith)))
          λ (u, err, p') ((k, held, first, now), size).
            Yields-bind (drain-Drains n p' now.valid (omega arith)) λ (us, p'') (d, v', w).
              yields (take k u held first (rw (← now.active_now) d), v', w ∙ now.waiting_now)
