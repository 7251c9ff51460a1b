-- ===== src/System/State.antt =====
-- The state of the program and the labels of its steps.
use kube_queue.Base.{ℕ, String, Bool, Option, List, [], Dict, Result}
use kube_queue.Base.Int.{ℤ}
use kube_queue.Framework.{QueueInfo, QueueUnit, QueueUnitInfo, Time}
use kube_queue.SchedulingQueue.{PrioritySchedulingQueue, QueueLess}
use kube_queue.Controller.Events.{Event}
use kube_queue.Runtime.{FrameworkImpl}

-- Where the loop of `schedule` stands. At `popping` it has found that its queue is not empty.
pub data Position {ℓ} (Q : Type ℓ) : Type ℓ where
  looping popping : Position Q
  filtering reserving failing : QueueUnitInfo Q → Position Q

-- Where the goroutine of a unit stands. At `storing` it reads the loop variable of the round that
-- started it, and at `putting` it is in ErrorFunc with the queue that it has read.
pub data Goroutine {ℓ} (Q : Type ℓ) : Type ℓ where
  dequeuing unreserving storing : (round : ℕ) → QueueUnitInfo Q → Goroutine Q
  putting : (address : ℕ) → QueueUnitInfo Q → Goroutine Q
  finished : Goroutine Q

-- The method of a queue that a handler of a unit calls, with the clock readings that it makes.
pub data Method {ℓ} (Q : Type ℓ) : Type ℓ where
  adding : QueueUnit Q → Time → Time → Method Q
  updating : (old new : QueueUnit Q) → Time → Time → Method Q
  deleting : QueueUnit Q → Method Q

-- Where a handler of a unit stands: it has found the queue and not called it, or it has returned.
pub data Handler {ℓ} (Q : Type ℓ) : Type ℓ where
  calling : (address : ℕ) → Method Q → Handler Q
  returned : Handler Q

-- What happens next, with what the API and the clock answer.
pub data Label {ℓ} (Q : Type ℓ) : Type ℓ where
  handled : Event Q → Label Q
  dequeued_added dequeued_deleted : QueueUnit Q → Time → Time → Label Q
  called : (handler : ℕ) → Label Q
  ticked : (address : ℕ) → (ℕ → Time) → Label Q
  relisted : (change : ℕ) → Label Q
  began visited popped filtered reserved : Label Q
  put_back : (QueueUnit Q → Result (QueueUnit Q)) → Time → Label Q
  ran :
      (goroutine : ℕ)
      → (QueueUnit Q → Result (QueueUnit Q))
      → (QueueUnit Q → Option String)
      → Time
      → Label Q

-- What is fixed at the start: the plugins, the parts of the multi scheduling queue that never change,
-- sort.Slice on addresses, which may order the map in another way in each round, and the changes that
-- informers make to what the listers of the plugins answer.
pub record Setup {ℓ} (Q S : Type ℓ) : Type ℓ where
  pub fw : FrameworkImpl Q S
  pub queue_sort_func_map : String → Option (QueueLess Q)
  pub less_func : QueueInfo → QueueInfo → Bool
  pub pod_initial_backoff_seconds : ℤ
  pub pod_max_backoff_seconds : ℤ
  pub sort_slice : ℕ → (ℕ → ℕ → Bool) → List ℕ → List ℕ
  pub relist : ℕ → S → S

-- `objects` are the queues by address, `queue_map` the map of the multi scheduling queue, `handlers`
-- the handlers of units in the order in which they found their queues, `todo` the rest of the sorted
-- queues, and `variables` the variable `q` of each round, nil before it is set.
pub record System {ℓ} (Q S : Type ℓ) : Type ℓ where
  pub objects : List (PrioritySchedulingQueue Q)
  pub queue_map : Dict ℕ
  pub handlers : List (Handler Q)
  pub plugins : S
  pub position : Position Q
  pub todo : List ℕ
  pub variables : List (Option ℕ)
  pub goroutines : List (Goroutine Q)

module _ {ℓ} {Q S : Type ℓ} where
  unfoldable pub start : S → System Q S
  start s = record {
    objects = [];
    queue_map = [];
    handlers = [];
    plugins = s;
    position = looping;
    todo = [];
    variables = [];
    goroutines = [];
  }
