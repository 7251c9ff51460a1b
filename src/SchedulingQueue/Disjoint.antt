-- ===== src/SchedulingQueue/Disjoint.antt =====
-- Whether a unit can be in both heaps of a scheduling queue.
use kube_queue.Base.{none, ◌≡◌, ◌≢◌, arith, Yields, Yields-weaken}
use kube_queue.Container.Order.{IsStrictWeak}
use kube_queue.Framework.{QueueUnit, QueueUnitInfo, Time, object_key}
use kube_queue.SchedulingQueue.{
  PrioritySchedulingQueue, QueueLess, add, delete, add_unschedulable_if_not_present,
}
use kube_queue.SchedulingQueue.Invariant.{active, waiting, IsValid, IsDisjoint}
use kube_queue.SchedulingQueue.Methods.{
  add-IsNow, delete-IsNow, add_unschedulable_if_not_present-IsNow,
}

module _ {ℓ} {Q : Type ℓ} {less : QueueLess Q} (weak : IsStrictWeak less)
    (p : PrioritySchedulingQueue Q) (v : IsValid less p) where
  -- In a valid queue whose policy is a strict weak order, and in which no unit is in both heaps,
  -- Delete leaves the unit in neither heap, and no unit in both.
  pub delete-IsDisjoint :
      (q : QueueUnit Q)
      → IsDisjoint p
      → Yields
          (λ r.
            (active r.0 (object_key q.namespace q.name) ≡ none)
            × (waiting r.0 (object_key q.namespace q.name) ≡ none)
            × IsDisjoint r.0)
          (delete p q)
  delete-IsDisjoint q disjoint =
      let key = object_key q.namespace q.name in
      Yields-weaken (delete-IsNow weak p v q) λ (p', err) n.
        let here = disjoint key in
        (
          rw n.active_now (ground arith),
          rw n.waiting_now (ground arith),
          λ k present.
              let before = rw n.active_now at present in
              rw n.waiting_now (ground (arith, before, disjoint k)),
        )

  -- In a valid queue whose policy is a strict weak order, and in which no unit is in both heaps,
  -- AddUnschedulableIfNotPresent puts none into both.
  add_unschedulable_if_not_present-IsDisjoint :
      (u : QueueUnitInfo Q)
      → IsDisjoint p
      → Yields (λ r. IsDisjoint r.0) (add_unschedulable_if_not_present p u)
  add_unschedulable_if_not_present-IsDisjoint u disjoint =
      Yields-weaken (add_unschedulable_if_not_present-IsNow weak p v u) λ (p', err) n k present.
        let before = rw n.active_now at present in
        rw n.waiting_now (ground (arith, before, disjoint k))

  -- Add of a unit that is in the backoff heap of a valid queue whose policy is a strict weak order
  -- leaves a unit in both heaps.
  pub add-not_IsDisjoint :
      (q : QueueUnit Q) (now later : Time)
      → waiting p (object_key q.namespace q.name) ≢ none
      → Yields (λ r. ¬ IsDisjoint r.0) (add p q now later)
  add-not_IsDisjoint q now later delayed =
      Yields-weaken (add-IsNow weak p v q now later) λ (p', err) n disjoint.
        let key = object_key q.namespace q.name in
        let there : active p' key ≢ none = rw n.active_now (λ e. ground arith) in
        delayed (rw (← n.waiting_now) (disjoint key there))
