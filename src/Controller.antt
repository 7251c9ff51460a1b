-- ===== src/Controller.antt =====
-- pkg/controller/eventhandler.go: the handlers of the controller, for the objects that the informers
-- pass. A handler that only logs an error returns the state; a unit without a consumer makes
-- the handler read a nil pointer.

pub mod Events
pub mod Closing
pub mod Construction
pub mod Dequeued
pub mod Notifications
pub mod Routing
use kube_queue.Base.{String, Option, none, some, Outcome, value, panic, or_panic, ◌>>=◌, insert}
use kube_queue.Framework.{Queue, QueueUnit, QueueUnitInfo, Time}
use kube_queue.Heap.{GoError}
use kube_queue.SchedulingQueue
use kube_queue.SchedulingQueue.{PrioritySchedulingQueue}
use kube_queue.Framework.{new_queue_unit_info}
use kube_queue.Runtime.{FrameworkImpl, run_reserve_plugins_reserve, run_reserve_plugins_unreserve}
use kube_queue.MultiSchedulingQueue
use kube_queue.MultiSchedulingQueue.{MultiSchedulingQueue, get_queue_by_name}

module _ {ℓ} {Q : Type ℓ} where
  unfoldable pub add_queue : MultiSchedulingQueue Q → Queue → MultiSchedulingQueue Q
  unfolding get_queue_by_name MultiSchedulingQueue.add
  add_queue mq queue = elim (get_queue_by_name mq queue.namespace) [
    | some _ ↦ mq
    | none ↦ MultiSchedulingQueue.add mq queue
  ]

  unfoldable pub update_queue : MultiSchedulingQueue Q → Queue → Queue → MultiSchedulingQueue Q
  unfolding MultiSchedulingQueue.update
  update_queue mq old new = MultiSchedulingQueue.update mq old new

  unfoldable pub delete_queue : MultiSchedulingQueue Q → Queue → MultiSchedulingQueue Q
  unfolding MultiSchedulingQueue.delete
  delete_queue mq queue = MultiSchedulingQueue.delete mq queue

  -- The queue under a name is changed through its pointer; a call with an error is logged.
  unfoldable pub store_queue :
      MultiSchedulingQueue Q
      → String
      → PrioritySchedulingQueue Q × Option (GoError (QueueUnitInfo Q))
      → Outcome (MultiSchedulingQueue Q)
  store_queue mq name (q, err) = value (record mq { queue_map = insert name q mq.queue_map })

  -- What the three handlers of a queue unit do with the method `call` of the unit's queue.
  unfoldable pub find_and_call :
      MultiSchedulingQueue Q
      → Option (PrioritySchedulingQueue Q)
      → String
      → (PrioritySchedulingQueue Q
          → Outcome (PrioritySchedulingQueue Q × Option (GoError (QueueUnitInfo Q))))
      → Outcome (MultiSchedulingQueue Q)
  unfolding store_queue
  find_and_call mq none name call = value mq
  find_and_call mq (some q) name call = call q >>= store_queue mq name

  unfoldable pub on_queue :
      MultiSchedulingQueue Q
      → QueueUnit Q
      → (PrioritySchedulingQueue Q
          → Outcome (PrioritySchedulingQueue Q × Option (GoError (QueueUnitInfo Q))))
      → Outcome (MultiSchedulingQueue Q)
  unfolding find_and_call get_queue_by_name
  on_queue mq unit call = or_panic unit.consumer_ref >>= λ consumer.
      find_and_call mq (get_queue_by_name mq consumer.namespace) consumer.namespace call

  unfoldable pub add_queue_unit :
      MultiSchedulingQueue Q → QueueUnit Q → Time → Time → Outcome (MultiSchedulingQueue Q)
  unfolding on_queue SchedulingQueue.add
  add_queue_unit mq unit now later = on_queue mq unit λ q. SchedulingQueue.add q unit now later

  unfoldable pub delete_queue_unit :
      MultiSchedulingQueue Q → QueueUnit Q → Outcome (MultiSchedulingQueue Q)
  unfolding on_queue SchedulingQueue.delete
  delete_queue_unit mq unit = on_queue mq unit λ q. SchedulingQueue.delete q unit

  -- The consumer is that of the new object.
  unfoldable pub update_queue_unit :
      MultiSchedulingQueue Q
      → QueueUnit Q
      → QueueUnit Q
      → Time
      → Time
      → Outcome (MultiSchedulingQueue Q)
  unfolding on_queue SchedulingQueue.update
  update_queue_unit mq old new now later =
      on_queue mq new λ q. SchedulingQueue.update q old new now later

module _ {ℓ} {Q S : Type ℓ} where
  unfoldable pub add_dequeued_queue_unit : FrameworkImpl Q S → S → QueueUnit Q → Time → Time → S
  unfolding run_reserve_plugins_reserve new_queue_unit_info
  add_dequeued_queue_unit fw s unit now later =
      (run_reserve_plugins_reserve fw s (new_queue_unit_info unit now later)).0

  unfoldable pub delete_dequeued_queue_unit : FrameworkImpl Q S → S → QueueUnit Q → Time → Time → S
  unfolding run_reserve_plugins_unreserve new_queue_unit_info
  delete_dequeued_queue_unit fw s unit now later =
      run_reserve_plugins_unreserve fw s (new_queue_unit_info unit now later)
