-- ===== src/Scheduler.antt =====
-- pkg/scheduler/scheduler.go: one queue of a scheduling round, the goroutine that dequeues a unit,
-- and ErrorFunc. The API client is a parameter: what Get of a QueueUnit returns, and whether Update
-- succeeds. `S` is the state of the plugins.
pub mod Round
pub mod Rounds
use kube_queue.Base.{
  ℕ, ◌+◌, String, Bool, true, false, Option, none, some, List, [], ◌∷◌, ltb, if◌then◌else◌, Outcome,
  value, ◌>>=◌, Result, ok, failed,
}
use kube_queue.Framework.{QueueUnit, QueueUnitInfo, Status, Time, success, is_success}
use kube_queue.Heap.{GoError}
use kube_queue.SchedulingQueue
use kube_queue.SchedulingQueue.{PrioritySchedulingQueue, add_unschedulable_if_not_present}
use kube_queue.Runtime.{
  FrameworkImpl, run_filter_plugins, run_reserve_plugins_reserve, run_reserve_plugins_unreserve,
}

-- What one queue of a round leaves: the queue, the plugins, and the unit whose goroutine started.
pub record Scheduled {ℓ} (Q S : Type ℓ) : Type ℓ where
  pub queue : PrioritySchedulingQueue Q
  pub plugins : S
  pub dequeued : Option (QueueUnitInfo Q)

module _ {ℓ} {Q : Type ℓ} where
  -- The unit that ErrorFunc stores: one attempt more, the time of the failure, and the object that
  -- the API server has.
  unfoldable pub failed_unit : QueueUnitInfo Q → Time → QueueUnit Q → QueueUnitInfo Q
  failed_unit u now unit = record u { attempts = u.attempts + 1; timestamp = now; unit = unit }

  -- ErrorFunc only logs an error, also that of the queue. Where Get fails, the unit is not stored.
  unfoldable pub error_func :
      (QueueUnit Q → Result (QueueUnit Q))
      → Time
      → QueueUnitInfo Q
      → PrioritySchedulingQueue Q
      → Outcome (PrioritySchedulingQueue Q)
  unfolding failed_unit add_unschedulable_if_not_present
  error_func get now u q = elim (get u.unit) [
    | failed err ↦ value q
    | ok unit ↦
        add_unschedulable_if_not_present q (failed_unit u now unit) >>= λ (q', err). value q'
  ]

  -- Dequeue: Get, then Update of the object with the phase and the message.
  unfoldable pub dequeue :
      (QueueUnit Q → Result (QueueUnit Q))
      → (QueueUnit Q → Option String)
      → QueueUnit Q
      → Option String
  dequeue get update queue_unit = elim (get queue_unit) [
    | failed err ↦ some err
    | ok new_queue_unit ↦ update (record new_queue_unit {
      phase = "Dequeued";
      message = "Dequeued because schedule successfully";
    })
  ]

module _ {ℓ} {Q S : Type ℓ} where
  -- The unit goes back to its queue.
  unfoldable pub put_back :
      (QueueUnit Q → Result (QueueUnit Q))
      → Time
      → QueueUnitInfo Q
      → PrioritySchedulingQueue Q
      → S
      → Outcome (Scheduled Q S)
  unfolding error_func
  put_back get now u q s =
      error_func get now u q >>= λ q'. value (record { queue = q'; plugins = s; dequeued = none })

  -- What follows a Reserve: the goroutine of Dequeue, or ErrorFunc.
  unfoldable pub after_reserve :
      (QueueUnit Q → Result (QueueUnit Q))
      → Time
      → QueueUnitInfo Q
      → PrioritySchedulingQueue Q
      → S × Status
      → Outcome (Scheduled Q S)
  unfolding put_back
  after_reserve get now u q (s, status) = elim (is_success status.code) [
    | true ↦ value (record { queue = q; plugins = s; dequeued = some u })
    | false ↦ put_back get now u q s
  ]

  -- What follows the Filter.
  unfoldable pub after_filter :
      FrameworkImpl Q S
      → (QueueUnit Q → Result (QueueUnit Q))
      → Time
      → QueueUnitInfo Q
      → PrioritySchedulingQueue Q
      → S
      → Status
      → Outcome (Scheduled Q S)
  unfolding after_reserve put_back run_reserve_plugins_reserve
  after_filter fw get now u q s status = elim (is_success status.code) [
    | true ↦ after_reserve get now u q (run_reserve_plugins_reserve fw s u)
    | false ↦ put_back get now u q s
  ]

  -- The body of the loop of `schedule`. An error of Pop is only logged.
  unfoldable pub schedule_queue :
      FrameworkImpl Q S
      → (QueueUnit Q → Result (QueueUnit Q))
      → Time
      → PrioritySchedulingQueue Q
      → S
      → Outcome (Scheduled Q S)
  unfolding after_filter SchedulingQueue.len SchedulingQueue.pop run_filter_plugins
  schedule_queue fw get now q s =
      if ltb 0 (SchedulingQueue.len q)
      then (SchedulingQueue.pop q >>= λ (u, err, q').
          run_filter_plugins fw s u >>= λ status. after_filter fw get now u q' s status)
      else value (record { queue = q; plugins = s; dequeued = none })

  -- The goroutine of a reserved unit, on the queue and the plugins when it runs.
  unfoldable pub dequeue_unit :
      FrameworkImpl Q S
      → (QueueUnit Q → Result (QueueUnit Q))
      → (QueueUnit Q → Option String)
      → Time
      → QueueUnitInfo Q
      → PrioritySchedulingQueue Q
      → S
      → Outcome (PrioritySchedulingQueue Q × S)
  unfolding dequeue error_func run_reserve_plugins_unreserve
  dequeue_unit fw get update now u q s = elim (dequeue get update u.unit) [
    | none ↦ value (q, s)
    | some err ↦
        let s' = run_reserve_plugins_unreserve fw s u in
        error_func get now u q >>= λ q'. value (q', s')
  ]
