-- ===== src/Controller/Closing.antt =====
-- Close of the multi scheduling queue after the handlers of eventhandler.go have run, from the start
-- with NewMultiSchedulingQueue.
use kube_queue.Base.{String, Bool, Option, some, List, ◌≡◌, panic, Yields, Yields-weaken}
use kube_queue.Base.Int.{ℤ}
use kube_queue.Framework.{QueueInfo}
use kube_queue.Container.Order.{IsStrictWeak}
use kube_queue.SchedulingQueue.{PrioritySchedulingQueue, QueueLess}
use kube_queue.MultiSchedulingQueue.{new_multi_scheduling_queue, get_queue_by_name, close}
use kube_queue.MultiSchedulingQueue.Lifecycle.{new_multi_scheduling_queue-IsSound, close-IsSound}
use kube_queue.Controller.Events.{Event, handle_all, AreAdmissible, handle_all-IsNext}

module _ {ℓ} {Q : Type ℓ} where
  -- From a new multi scheduling queue whose policies are strict weak orders, any sequence of calls
  -- of the handlers, with queues of known policies and units with consumers, ends without a panic;
  -- where it leaves a queue, Close panics.
  pub handle_all-close :
      (policies : String → Option (QueueLess Q)) (less : QueueInfo → QueueInfo → Bool)
      (initial max : ℤ) (es : List (Event Q))
      → ((policy : String) (l : QueueLess Q) → policies policy ≡ some l → IsStrictWeak l)
      → AreAdmissible policies es
      → Yields
          (λ mq.
            (k : String) (q : PrioritySchedulingQueue Q)
            → get_queue_by_name mq k ≡ some q
            → close mq ≡ panic)
          (handle_all (new_multi_scheduling_queue policies less initial max) es)
  unfolding new_multi_scheduling_queue
  handle_all-close policies less initial max es weak admissible =
      Yields-weaken
        (handle_all-IsNext _ es (new_multi_scheduling_queue-IsSound policies less initial max weak)
          admissible)
        λ mq (sound, same) k q there. close-IsSound mq k q sound there
