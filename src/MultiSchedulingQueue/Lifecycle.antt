-- ===== src/MultiSchedulingQueue/Lifecycle.antt =====
-- NewMultiSchedulingQueue, Update and Close of multi_scheduling_queue.go.
use kube_queue.Base.{
  String, Bool, false, Option, none, some, [], ◌∷◌, Dict, lookup, lookup-insert, ◌≡◌, ◌≢◌, refl,
  arith, panic,
}
use kube_queue.Framework.{Queue, QueueInfo}
use kube_queue.Container.Order.{IsStrictWeak}
use kube_queue.Base.Int.{ℤ}
use kube_queue.SchedulingQueue
use kube_queue.SchedulingQueue.{
  PrioritySchedulingQueue, QueueLess, Channel, nil_channel, close_stop,
  new_priority_scheduling_queue,
}
use kube_queue.SchedulingQueue.Invariant.{active, waiting}
use kube_queue.MultiSchedulingQueue.{
  MultiSchedulingQueue, new_multi_scheduling_queue, make_queue, update, get_queue_by_name,
  close_queues, close,
}
use kube_queue.MultiSchedulingQueue.Queues.{IsSound, new-view}

module _ {ℓ} {Q : Type ℓ} where
  pub new_multi_scheduling_queue-IsSound :
      (policies : String → Option (QueueLess Q)) (less : QueueInfo → QueueInfo → Bool)
      (initial max : ℤ)
      → ((policy : String) (l : QueueLess Q) → policies policy ≡ some l → IsStrictWeak l)
      → IsSound (new_multi_scheduling_queue policies less initial max)
  unfolding new_multi_scheduling_queue get_queue_by_name lookup
  new_multi_scheduling_queue-IsSound policies less initial max weak = record {
    policies = weak;
    queues = λ k q e. absurd (ground arith);
  }

  -- What Update leaves: an empty queue that has not been started under the namespace, and every
  -- other queue as it was.
  pub record IsReplaced (mq mq' : MultiSchedulingQueue Q) (ns : String) : Type ℓ where
    pub queue : PrioritySchedulingQueue Q
    pub there : get_queue_by_name mq' ns ≡ some queue
    pub no_active : (k : String) → active queue k ≡ none
    pub no_waiting : (k : String) → waiting queue k ≡ none
    pub not_run : queue.run ≡ false
    pub others : (k : String) → ns ≢ k → get_queue_by_name mq' k ≡ get_queue_by_name mq k

  -- Update of a queue leaves under the namespace a queue with no unit in either heap that is not
  -- marked as started; under every other name the queue is as it was.
  pub update-IsReplaced :
      (mq : MultiSchedulingQueue Q) (old new : Queue)
      → IsReplaced mq (update mq old new) new.namespace
  unfolding update make_queue new_priority_scheduling_queue get_queue_by_name
  update-IsReplaced mq old new =
      let ns = new.namespace in
      let q = make_queue mq new in
      record {
        queue = q;
        there = ground (arith, lookup-insert ns ns q mq.queue_map);
        no_active = new-view;
        no_waiting = new-view;
        not_run = refl;
        others = λ k other. ground (arith, lookup-insert ns k q mq.queue_map);
      }

  close-nil_channel :
      (q : PrioritySchedulingQueue Q) → q.stop ≡ nil_channel → SchedulingQueue.close q ≡ panic
  unfolding SchedulingQueue.close close_stop
  close-nil_channel q e = rw (e, close_stop) refl

  close_queues-panic :
      (d : Dict (PrioritySchedulingQueue Q))
      → ((k : String) (q : PrioritySchedulingQueue Q) → lookup k d ≡ some q → q.stop ≡ nil_channel)
      → (k : String) (q : PrioritySchedulingQueue Q) → lookup k d ≡ some q
      → close_queues d ≡ panic
  unfolding close_queues lookup
  close_queues-panic [] stopless k q e = absurd (ground arith)
  close_queues-panic ((j, x) ∷ rest) stopless k q e =
      rw (close-nil_channel x (stopless j x (ground arith))) refl

  -- Close of sound queues panics where there is a queue.
  pub close-IsSound :
      (mq : MultiSchedulingQueue Q) (k : String) (q : PrioritySchedulingQueue Q)
      → IsSound mq
      → get_queue_by_name mq k ≡ some q
      → close mq ≡ panic
  unfolding close get_queue_by_name
  close-IsSound mq k q s e =
      rw (close_queues-panic mq.queue_map (λ j x found. (s.queues j x found).stopless) k q e) refl
