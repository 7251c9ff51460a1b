-- ===== src/System/Units.antt =====
-- Active units of a queue under Add, Update, a flush and ErrorFunc.
use kube_queue.Base.{
  ℕ, ◌<◌, String, Option, some, lt_of_get_elem?, is_some, Bool-cases, ◌≡◌, arith, inl, inr, Outcome,
  Yields, yields, Yields-weaken, Yields-value, Yields-bind, Result, Result-cases, ◌∙◌,
}
use kube_queue.Heap.{GoError}
use kube_queue.Heap.View.{written, index_of-view}
use kube_queue.Framework.{QueueUnit, QueueUnitInfo, Time}
use kube_queue.SchedulingQueue
use kube_queue.SchedulingQueue.{PrioritySchedulingQueue, QueueLess, flush_backoff_q_completed}
use kube_queue.SchedulingQueue.Invariant.{active, overwritten, IsValid, IsNow}
use kube_queue.SchedulingQueue.Methods.{
  add-IsNow, add_unschedulable_if_not_present-IsNow, update-IsNow, pop-IsNow,
}
use kube_queue.SchedulingQueue.Flush.{flush_backoff_q_completed-IsFlushed}
use kube_queue.Container.Order.{IsStrictWeak}
use kube_queue.Scheduler.{error_func}
use kube_queue.System.Objects.{IsSoundObject}

module _ {ℓ} {Q : Type ℓ} where
  abbrev HasUnit : (String → Option (QueueUnitInfo Q)) → Type ℓ
  HasUnit f = (k : String) × (u : QueueUnitInfo Q) × (f k ≡ some u)

  busy-HasUnit :
      {less : QueueLess Q} (q : PrioritySchedulingQueue Q)
      → IsStrictWeak less
      → IsValid less q
      → 0 < SchedulingQueue.len q
      → HasUnit (active q)
  busy-HasUnit q weak v busy =
      let (r, e, (k, held, first, n)) = Yields-value (pop-IsNow weak q v busy) in (k, r.0, held)

  HasUnit-busy :
      {less : QueueLess Q} (q : PrioritySchedulingQueue Q)
      → IsValid less q
      → HasUnit (active q)
      → 0 < SchedulingQueue.len q
  unfolding SchedulingQueue.len
  HasUnit-busy q v (k, u, held) =
      let (item, found, object_is, index) = index_of-view q.items k held in
      omega (
        arith,
        lt_of_get_elem? q.items.queue item.index (v.items_wf.consistent.placed item.index k index),
      )

  -- The queue keeps a unit, if it had one.
  abbrev pub StaysBusy : PrioritySchedulingQueue Q → PrioritySchedulingQueue Q → Type 0
  StaysBusy q q' = 0 < SchedulingQueue.len q → 0 < SchedulingQueue.len q'

  written-HasUnit :
      (k : String) (u : QueueUnitInfo Q) (f : String → Option (QueueUnitInfo Q))
      → HasUnit (written k u f)
  written-HasUnit k u f = (k, u, ground arith)

  overwritten-HasUnit :
      (k : String) (u : QueueUnitInfo Q) (f : String → Option (QueueUnitInfo Q))
      → HasUnit f
      → HasUnit (overwritten k u f)
  overwritten-HasUnit k u f has = elim (Bool-cases (is_some (f k))) [
    | inl held ↦ rw held (written-HasUnit k u f)
    | inr absent ↦ rw absent has
  ]

  module _ (q : PrioritySchedulingQueue Q) (s : IsSoundObject q) where
    now-StaysBusy :
        {f g : String → Option (QueueUnitInfo Q)}
        {m : Outcome (PrioritySchedulingQueue Q × Option (GoError (QueueUnitInfo Q)))}
        → (HasUnit (active q) → HasUnit f)
        → Yields (IsNow s.less q f g) m
        → Yields (λ r. StaysBusy q r.0) m
    now-StaysBusy keeps y = Yields-weaken y λ (q', err) n busy.
        HasUnit-busy q' n.valid (rw n.active_now (keeps (busy-HasUnit q s.weak s.valid busy)))

    pub add-StaysBusy :
        (u : QueueUnit Q) (now later : Time)
        → Yields (λ r. StaysBusy q r.0) (SchedulingQueue.add q u now later)
    add-StaysBusy u now later =
        now-StaysBusy (λ has. written-HasUnit _ _ (active q))
          (add-IsNow s.weak q s.valid u now later)

    pub update-StaysBusy :
        (old new : QueueUnit Q) (now later : Time)
        → Yields (λ r. StaysBusy q r.0) (SchedulingQueue.update q old new now later)
    update-StaysBusy old new now later =
        now-StaysBusy (overwritten-HasUnit _ _ (active q))
          (update-IsNow s.weak q s.valid old new now later)

    pub flush-StaysBusy :
        (clock : ℕ → Time) → Yields (StaysBusy q) (flush_backoff_q_completed clock q)
    flush-StaysBusy clock =
        Yields-weaken (flush_backoff_q_completed-IsFlushed s.weak clock q s.valid) λ q' f busy.
          let (k, u, held) = busy-HasUnit q s.weak s.valid busy in
          elim (f.moved k) [
            | inl (same, w) ↦ HasUnit-busy q' f.valid (k, u, same ∙ held)
            | inr (x, n, w, now, w', d) ↦ HasUnit-busy q' f.valid (k, x, now)
          ]

    pub error_func-StaysBusy :
        (get : QueueUnit Q → Result (QueueUnit Q)) (now : Time) (u : QueueUnitInfo Q)
        → Yields (StaysBusy q) (error_func get now u q)
    unfolding error_func
    error_func-StaysBusy get now u = elim (Result-cases (get u.unit)) [
      | inl (unit, e) ↦
          rw (e, error_func)
            (Yields-bind
              (now-StaysBusy (λ has. has)
                (add_unschedulable_if_not_present-IsNow s.weak q s.valid _))
              λ (q', err) stays. yields stays)
      | inr (err, e) ↦ rw (e, error_func) (yields (λ busy. busy))
    ]
