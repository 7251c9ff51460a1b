-- ===== src/System/Handlers.antt =====
-- The handlers of pkg/controller/eventhandler.go and the goroutine of a queue, on queues with an
-- address.
use kube_queue.Base.{
  ℕ, Option, none, some, List, [], ◌∷◌, ◌++◌, Dict, lookup, insert, erase, length, get_elem?, set,
  ltb, if◌then◌else◌, Outcome, value, or_panic, ◌>>=◌,
}
use kube_queue.Framework.{Queue, QueueUnit, QueueUnitInfo, Time}
use kube_queue.Heap.{GoError}
use kube_queue.SchedulingQueue
use kube_queue.SchedulingQueue.{
  PrioritySchedulingQueue, QueueLess, new_priority_scheduling_queue, flush_backoff_q_completed,
}
use kube_queue.MultiSchedulingQueue.{run_queue}
use kube_queue.Controller.Events.{
  Event, queue_added, queue_updated, queue_deleted, unit_added, unit_updated, unit_deleted,
}
use kube_queue.System.State.{
  Method, adding, updating, deleting, Handler, calling, returned, Setup, System,
}

-- MultiSchedulingQueue.Run, through the addresses in the map.
unfoldable pub run_objects {ℓ} :
    {Q : Type ℓ} → Dict ℕ → List (PrioritySchedulingQueue Q) → List (PrioritySchedulingQueue Q)
unfolding run_queue
run_objects [] objects = objects
run_objects ((k, i) ∷ rest) objects = elim (get_elem? objects i) [
  | none ↦ run_objects rest objects
  | some q ↦ run_objects rest (set objects i (run_queue q))
]

-- The call of the method, by its name.
unfoldable pub call_method {ℓ} :
    {Q : Type ℓ}
    → Method Q
    → PrioritySchedulingQueue Q
    → Outcome (PrioritySchedulingQueue Q × Option (GoError (QueueUnitInfo Q)))
unfolding SchedulingQueue.add SchedulingQueue.update SchedulingQueue.delete
call_method (adding u now later) q = SchedulingQueue.add q u now later
call_method (updating old new now later) q = SchedulingQueue.update q old new now later
call_method (deleting u) q = SchedulingQueue.delete q u

module _ {ℓ} {Q S : Type ℓ} where
  -- A handler calls the queue that it has found; an error is only logged.
  unfoldable pub call_handler : System Q S → ℕ → Handler Q → Outcome (System Q S)
  unfolding call_method
  call_handler s j (calling i m) = do
    q ← or_panic (get_elem? s.objects i)
    (q', err) ← call_method m q
    value (record s { objects = set s.objects i q'; handlers = set s.handlers j returned })
  call_handler s j returned = value s

  -- The allocation of a queue, and its entry in the map.
  unfoldable pub allocate : Setup Q S → System Q S → Queue → System Q S
  unfolding new_priority_scheduling_queue insert
  allocate setup s queue =
      let q =
        new_priority_scheduling_queue setup.queue_sort_func_map queue.namespace queue.queue_policy
          setup.pod_initial_backoff_seconds setup.pod_max_backoff_seconds queue in
      record s {
        objects = s.objects ++ q ∷ [];
        queue_map = insert q.name (length s.objects) s.queue_map;
      }

  unfoldable pub add_queue : Setup Q S → System Q S → Queue → System Q S
  unfolding allocate run_objects lookup
  add_queue setup s queue = elim (lookup queue.namespace s.queue_map) [
    | some _ ↦ s
    | none ↦
        let s' = allocate setup s queue in
        record s' { objects = run_objects s'.queue_map s'.objects }
  ]

  -- A handler that has looked its queue up returns or goes on to call it.
  unfoldable pub find_mapped : System Q S → Option ℕ → Method Q → System Q S
  find_mapped s none m = s
  find_mapped s (some i) m = record s { handlers = s.handlers ++ calling i m ∷ [] }

  -- The queue of the namespace of a unit's consumer.
  unfoldable pub on_unit : System Q S → QueueUnit Q → Method Q → Outcome (System Q S)
  unfolding find_mapped lookup
  on_unit s unit m =
      or_panic unit.consumer_ref
      >>= (λ consumer. value (find_mapped s (lookup consumer.namespace s.queue_map) m))

  -- A handler of a queue, which is the only one of its goroutine to write the map, or the part of a
  -- handler of a unit up to the call of its queue.
  unfoldable pub handle : Setup Q S → System Q S → Event Q → Outcome (System Q S)
  unfolding add_queue allocate erase on_unit
  handle setup s (queue_added q) = value (add_queue setup s q)
  handle setup s (queue_updated old new) = value (allocate setup s new)
  handle setup s (queue_deleted q) = value (record s { queue_map = erase q.namespace s.queue_map })
  handle setup s (unit_added u now later) = on_unit s u (adding u now later)
  handle setup s (unit_updated old new now later) = on_unit s new (updating old new now later)
  handle setup s (unit_deleted u) = on_unit s u (deleting u)

  -- The goroutine of a queue, which stands once Run has started it.
  unfoldable pub tick : System Q S → ℕ → (ℕ → Time) → Outcome (System Q S)
  unfolding flush_backoff_q_completed
  tick s i clock = elim (get_elem? s.objects i) [
    | none ↦ value s
    | some q ↦
        if ltb 0 q.flushers
        then (flush_backoff_q_completed clock q >>= λ q'.
            value (record s { objects = set s.objects i q' }))
        else value s
  ]
