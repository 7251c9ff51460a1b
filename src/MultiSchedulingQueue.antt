-- ===== src/MultiSchedulingQueue.antt =====
-- pkg/queue/multischedulingqueue/multi_scheduling_queue.go: the scheduling queues by the name of
-- their namespace. Each method holds the lock, so it is one step. The order of `queue_map` is the
-- order in which Go ranges over the map.

pub mod Queues
pub mod Lifecycle
use kube_queue.Base.{
  String, Bool, true, false, Option, none, some, List, [], ◌∷◌, Dict, lookup, insert, erase,
  if◌then◌else◌, Outcome, value, ◌>>=◌,
}
use kube_queue.Base.Int.{ℤ}
use kube_queue.Framework.{Queue, QueueInfo}
use kube_queue.SchedulingQueue
use kube_queue.SchedulingQueue.{
  PrioritySchedulingQueue, QueueLess, new_priority_scheduling_queue, start, get_run_status,
  set_run_status,
}

-- `queue_sort_func_map` is what the framework returns under that name.
pub record MultiSchedulingQueue {ℓ} (Q : Type ℓ) : Type ℓ where
  pub queue_sort_func_map : String → Option (QueueLess Q)
  pub queue_map : Dict (PrioritySchedulingQueue Q)
  pub less_func : QueueInfo → QueueInfo → Bool
  pub pod_initial_backoff_seconds : ℤ
  pub pod_max_backoff_seconds : ℤ

module _ {ℓ} {Q : Type ℓ} where
  unfoldable pub new_multi_scheduling_queue :
      (String → Option (QueueLess Q))
      → (QueueInfo → QueueInfo → Bool)
      → ℤ
      → ℤ
      → MultiSchedulingQueue Q
  new_multi_scheduling_queue queue_sort_func_map multi_queue_sort_func initial max = record {
    queue_sort_func_map = queue_sort_func_map;
    queue_map = [];
    less_func = multi_queue_sort_func;
    pod_initial_backoff_seconds = initial;
    pod_max_backoff_seconds = max;
  }

  -- The body of the loop of Run.
  unfoldable pub run_queue : PrioritySchedulingQueue Q → PrioritySchedulingQueue Q
  unfolding start set_run_status
  run_queue q = if get_run_status q then q else set_run_status (start q) true

  unfoldable pub run_queues : Dict (PrioritySchedulingQueue Q) → Dict (PrioritySchedulingQueue Q)
  unfolding run_queue
  run_queues [] = []
  run_queues ((k, q) ∷ rest) = (k, run_queue q) ∷ run_queues rest

  unfoldable pub run : MultiSchedulingQueue Q → MultiSchedulingQueue Q
  unfolding run_queues
  run mq = record mq { queue_map = run_queues mq.queue_map }

  unfoldable pub close_queues :
      Dict (PrioritySchedulingQueue Q) → Outcome (Dict (PrioritySchedulingQueue Q))
  unfolding SchedulingQueue.close
  close_queues [] = value []
  close_queues ((k, q) ∷ rest) = do
    q' ← SchedulingQueue.close q
    rest' ← close_queues rest
    value ((k, q') ∷ rest')

  unfoldable pub close : MultiSchedulingQueue Q → Outcome (MultiSchedulingQueue Q)
  unfolding close_queues
  close mq = do queue_map ← close_queues mq.queue_map; value (record mq { queue_map = queue_map })

  -- The queue that Add and Update make, which is empty.
  unfoldable pub make_queue : MultiSchedulingQueue Q → Queue → PrioritySchedulingQueue Q
  unfolding new_priority_scheduling_queue
  make_queue mq q =
      new_priority_scheduling_queue mq.queue_sort_func_map q.namespace q.queue_policy
        mq.pod_initial_backoff_seconds mq.pod_max_backoff_seconds q

  unfoldable pub add : MultiSchedulingQueue Q → Queue → MultiSchedulingQueue Q
  unfolding make_queue run insert
  add mq q =
      let pq = make_queue mq q in run (record mq { queue_map = insert pq.name pq mq.queue_map })

  unfoldable pub delete : MultiSchedulingQueue Q → Queue → MultiSchedulingQueue Q
  unfolding erase
  delete mq q = record mq { queue_map = erase q.namespace mq.queue_map }

  -- The old object is not read.
  unfoldable pub update : MultiSchedulingQueue Q → Queue → Queue → MultiSchedulingQueue Q
  unfolding make_queue insert
  update mq old new =
      let pq = make_queue mq new in record mq { queue_map = insert pq.name pq mq.queue_map }

  unfoldable pub get_queue_by_name :
      MultiSchedulingQueue Q → String → Option (PrioritySchedulingQueue Q)
  unfolding lookup
  get_queue_by_name mq name = lookup name mq.queue_map

  unfoldable pub unsorted_queue :
      Dict (PrioritySchedulingQueue Q) → List (PrioritySchedulingQueue Q)
  unsorted_queue [] = []
  unsorted_queue ((k, q) ∷ rest) = q ∷ unsorted_queue rest

  -- `sort_slice` is sort.Slice, for the comparison of two elements.
  unfoldable pub sorted_queue :
      ((PrioritySchedulingQueue Q → PrioritySchedulingQueue Q → Bool)
        → List (PrioritySchedulingQueue Q)
        → List (PrioritySchedulingQueue Q))
      → MultiSchedulingQueue Q
      → List (PrioritySchedulingQueue Q)
  unfolding unsorted_queue
  sorted_queue sort_slice mq =
      sort_slice (λ q1 q2. mq.less_func q1.queue q2.queue) (unsorted_queue mq.queue_map)
