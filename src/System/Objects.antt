-- ===== src/System/Objects.antt =====
-- The invariant of a queue at an address, under every method that a step calls.
use kube_queue.Base.{
  ℕ, ◌<◌, String, Bool, true, false, Option, some, if◌then◌else◌, ◌≡◌, refl, ◌∙◌, sym, Outcome,
  Yields, yields, Yields-bind, Yields-weaken, Result, ok, Result-cases, arith, inl, inr,
}
use kube_queue.Base.Int.{ℤ}
use kube_queue.Heap.{GoError}
use kube_queue.Container.Order.{IsStrictWeak}
use kube_queue.Framework.{Queue, QueueUnit, QueueUnitInfo, Time}
use kube_queue.SchedulingQueue
use kube_queue.SchedulingQueue.{
  PrioritySchedulingQueue, QueueLess, new_priority_scheduling_queue, start, set_run_status,
  flush_backoff_q_completed,
}
use kube_queue.SchedulingQueue.Invariant.{active, waiting, IsValid, IsNow}
use kube_queue.SchedulingQueue.Methods.{
  add-IsNow, add_unschedulable_if_not_present-IsNow, delete-IsNow, update-IsNow, pop-IsNow,
}
use kube_queue.SchedulingQueue.Flush.{flush_backoff_q_completed-IsFlushed}
use kube_queue.MultiSchedulingQueue.{run_queue}
use kube_queue.MultiSchedulingQueue.Queues.{new-IsWellFormed, new-view}
use kube_queue.Scheduler.{error_func, failed_unit}
use kube_queue.System.Consumers.{
  HasConsumer, HaveConsumers, written-HaveConsumers, removed-HaveConsumers, if-HaveConsumers,
  overwritten-HaveConsumers, new-HasConsumer,
}

module _ {ℓ} {Q : Type ℓ} where
  -- A valid queue whose policy is a strict weak order and whose units have consumers.
  pub record IsSoundObject (q : PrioritySchedulingQueue Q) : Type ℓ where
    pub less : QueueLess Q
    pub weak : IsStrictWeak less
    pub valid : IsValid less q
    pub active_have : HaveConsumers (active q)
    pub waiting_have : HaveConsumers (waiting q)

  -- A method leaves a sound queue with the same name.
  abbrev pub IsKeptObject : PrioritySchedulingQueue Q → PrioritySchedulingQueue Q → Type ℓ
  IsKeptObject q q' = IsSoundObject q' × (q'.name ≡ q.name)

  -- The answers of Get have consumers.
  abbrev pub AnswersHaveConsumers : (QueueUnit Q → Result (QueueUnit Q)) → Type ℓ
  AnswersHaveConsumers get = (unit unit' : QueueUnit Q) → get unit ≡ ok unit' → HasConsumer unit'

  module _ (q : PrioritySchedulingQueue Q) (s : IsSoundObject q) where
    now-IsKeptObject :
        {f g : String → Option (QueueUnitInfo Q)}
        {m : Outcome (PrioritySchedulingQueue Q × Option (GoError (QueueUnitInfo Q)))}
        → HaveConsumers f
        → HaveConsumers g
        → Yields (IsNow s.less q f g) m
        → Yields (λ r. IsKeptObject q r.0) m
    now-IsKeptObject hf hg y = Yields-weaken y λ (q', err) n. (
      record {
        less = s.less;
        weak = s.weak;
        valid = n.valid;
        active_have = rw n.active_now hf;
        waiting_have = rw n.waiting_now hg;
      },
      n.frame.same_name,
    )

    pub add-IsKeptObject :
        (u : QueueUnit Q) (now later : Time)
        → HasConsumer u
        → Yields (λ r. IsKeptObject q r.0) (SchedulingQueue.add q u now later)
    add-IsKeptObject u now later has =
        now-IsKeptObject (written-HaveConsumers _ _ (new-HasConsumer u now later has) s.active_have)
          s.waiting_have (add-IsNow s.weak q s.valid u now later)

    pub delete-IsKeptObject :
        (u : QueueUnit Q) → Yields (λ r. IsKeptObject q r.0) (SchedulingQueue.delete q u)
    delete-IsKeptObject u =
        now-IsKeptObject (removed-HaveConsumers _ s.active_have)
          (if-HaveConsumers _ s.waiting_have (removed-HaveConsumers _ s.waiting_have))
          (delete-IsNow s.weak q s.valid u)

    pub update-IsKeptObject :
        (old new : QueueUnit Q) (now later : Time)
        → HasConsumer new
        → Yields (λ r. IsKeptObject q r.0) (SchedulingQueue.update q old new now later)
    update-IsKeptObject old new now later has =
        now-IsKeptObject
          (overwritten-HaveConsumers _ _ (new-HasConsumer new now later has) s.active_have)
          (if-HaveConsumers _ s.waiting_have
            (overwritten-HaveConsumers _ _ (new-HasConsumer new now later has) s.waiting_have))
          (update-IsNow s.weak q s.valid old new now later)

    add_unschedulable-IsKeptObject :
        (u : QueueUnitInfo Q)
        → HasConsumer u.unit
        → Yields (λ r. IsKeptObject q r.0) (SchedulingQueue.add_unschedulable_if_not_present q u)
    add_unschedulable-IsKeptObject u has =
        now-IsKeptObject s.active_have
          (if-HaveConsumers _ s.waiting_have (written-HaveConsumers _ _ has s.waiting_have))
          (add_unschedulable_if_not_present-IsNow s.weak q s.valid u)

    pub error_func-IsKeptObject :
        (get : QueueUnit Q → Result (QueueUnit Q)) (now : Time) (u : QueueUnitInfo Q)
        → AnswersHaveConsumers get
        → Yields (IsKeptObject q) (error_func get now u q)
    unfolding error_func failed_unit
    error_func-IsKeptObject get now u have = elim (Result-cases (get u.unit)) [
      | inl (unit, e) ↦
          rw (e, error_func)
            (Yields-bind
              (add_unschedulable-IsKeptObject (failed_unit u now unit) (have u.unit unit e))
              λ (q', err) kept. yields kept)
      | inr (err, e) ↦ rw (e, error_func) (yields (s, refl))
    ]

    pub pop-IsKeptObject :
        0 < SchedulingQueue.len q
        → Yields (λ r. HasConsumer r.0.unit × IsKeptObject q r.2) (SchedulingQueue.pop q)
    pop-IsKeptObject busy =
        Yields-weaken (pop-IsNow s.weak q s.valid busy) λ (u, err, q') (k, held, first, n). (
          s.active_have k u held,
          (
            record {
              less = s.less;
              weak = s.weak;
              valid = n.valid;
              active_have = rw n.active_now (removed-HaveConsumers k s.active_have);
              waiting_have = rw n.waiting_now s.waiting_have;
            },
            n.frame.same_name,
          ),
        )

    pub flush-IsKeptObject :
        (clock : ℕ → Time) → Yields (IsKeptObject q) (flush_backoff_q_completed clock q)
    flush-IsKeptObject clock =
        Yields-weaken (flush_backoff_q_completed-IsFlushed s.weak clock q s.valid) λ q' f. (
          record {
            less = s.less;
            weak = s.weak;
            valid = f.valid;
            active_have = λ k u e. elim (f.moved k) [
              | inl (a, w) ↦ s.active_have k u (sym a ∙ e)
              | inr (x, n, w, a, w', d) ↦
                  let unit_is : x ≡ u = ground arith in rw (← unit_is) (s.waiting_have k x w)
            ];
            waiting_have = λ k u e. elim (f.moved k) [
              | inl (a, w) ↦ s.waiting_have k u (sym w ∙ e)
              | inr (x, n, w, a, w', d) ↦ absurd (ground arith)
            ];
          },
          f.frame.same_name,
        )

    started-IsKeptObject :
        (b : Bool) → IsKeptObject q (if b then q else set_run_status (start q) true)
    unfolding start set_run_status
    started-IsKeptObject true = (s, refl)
    started-IsKeptObject false = (
      record {
        less = s.less;
        weak = s.weak;
        valid = record {
          policy = s.valid.policy;
          items_wf = s.valid.items_wf;
          backoff_wf = s.valid.backoff_wf;
          items_keyed = s.valid.items_keyed;
          backoff_keyed = s.valid.backoff_keyed;
        };
        active_have = s.active_have;
        waiting_have = s.waiting_have;
      },
      refl,
    )

    pub run_queue-IsKeptObject : IsKeptObject q (run_queue q)
    unfolding run_queue
    run_queue-IsKeptObject = started-IsKeptObject q.run

  pub new-IsSoundObject :
      (policies : String → Option (QueueLess Q)) (less : QueueLess Q) (name plugin_name : String)
      (initial max : ℤ) (queue : Queue)
      → policies plugin_name ≡ some less
      → IsStrictWeak less
      → IsSoundObject (new_priority_scheduling_queue policies name plugin_name initial max queue)
  unfolding new_priority_scheduling_queue
  new-IsSoundObject policies less name plugin_name initial max queue known weak = record {
    less = less;
    weak = weak;
    valid = record {
      policy = known;
      items_wf = new-IsWellFormed less;
      backoff_wf = new-IsWellFormed _;
      items_keyed = λ k u e. absurd (ground (arith, new-view {Q = Q} k));
      backoff_keyed = λ k u e. absurd (ground (arith, new-view {Q = Q} k));
    };
    active_have = λ k u e. absurd (ground (arith, new-view {Q = Q} k));
    waiting_have = λ k u e. absurd (ground (arith, new-view {Q = Q} k));
  }
