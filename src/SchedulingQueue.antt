-- ===== src/SchedulingQueue.antt =====
-- pkg/queue/schedulingqueue/priority_scheduling_queue.go: the queue of one namespace, an active heap
-- under the order of its policy and a backoff heap under the end of the backoff. Each method holds
-- the lock, so it is one step; a method that writes returns the new queue. What it reads from the
-- clock is an argument.
pub mod Backoff
pub mod Invariant
pub mod Writes
pub mod Methods
pub mod Bounds
pub mod Liveness
pub mod Drain
pub mod Refinement
pub mod Flush
pub mod Disjoint
use kube_queue.Base.{
  ℕ, zero, suc, ◌+◌, Bool, true, false, Option, none, some, String, Dict, length, ltb,
  if◌then◌else◌, ◌≡◌, Outcome, value, panic, out_of_fuel, ◌>>=◌, get_elem?, or_panic,
}
use kube_queue.Base.Int.{ℤ, ltb_ℤ}
use kube_queue.Heap
use kube_queue.Heap.{Data, GoError, errorf, KeyFunc, LessFunc, HeapItem}
use kube_queue.Framework.{
  Time, QueueUnit, Queue, QueueUnitInfo, QueueInfo, new_queue_unit_info, new_queue_info, object_key,
}
use kube_queue.SchedulingQueue.Backoff.{seconds, get_backoff_time, pods_compare_backoff_completed}

-- A `chan struct{}`.
pub data Channel : Type 0 where
  nil_channel open_channel closed_channel : Channel

-- `close(p.stop)`: panics on a channel that is nil or closed.
unfoldable pub close_stop : Channel → Outcome Channel
close_stop open_channel = value closed_channel
close_stop closed_channel = panic
close_stop nil_channel = panic

-- A comparison of units, as a policy gives it.
abbrev pub QueueLess {ℓ} : Type ℓ → Type ℓ
QueueLess Q = QueueUnitInfo Q → QueueUnitInfo Q → Bool

-- `less_fn` is the function that the comparison of `items` has captured, nil for a policy that no
-- plugin has; `flushers` counts the goroutines that Run has started.
pub record PrioritySchedulingQueue {ℓ} (Q : Type ℓ) : Type ℓ where
  pub name : String
  pub plugin_name : String
  pub less_fn : Option (QueueLess Q)
  pub items : Data (QueueUnitInfo Q)
  pub backoff_q : Data (QueueUnitInfo Q)
  pub queue : QueueInfo
  pub pod_initial_backoff_duration : ℤ
  pub pod_max_backoff_duration : ℤ
  pub stop : Channel
  pub closed : Bool
  pub run : Bool
  pub flushers : ℕ

module _ {ℓ} {Q : Type ℓ} where
  abbrev pub unit_info_key_func : KeyFunc (QueueUnitInfo Q)
  unit_info_key_func unit = (unit.name, none)

  -- The comparison that the active heap is built with; a call of a nil function panics.
  abbrev pub comp : Option (QueueLess Q) → LessFunc (QueueUnitInfo Q)
  comp (some less) info1 info2 = value (less info1 info2)
  comp none info1 info2 = panic

  -- The comparison that the backoff heap is built with.
  abbrev pub backoff_comp : PrioritySchedulingQueue Q → LessFunc (QueueUnitInfo Q)
  backoff_comp p info1 info2 = value (
      pods_compare_backoff_completed p.pod_initial_backoff_duration p.pod_max_backoff_duration info1
        info2)

  -- `queue_sort_func_map` is what fw.QueueSortFuncMap returns.
  unfoldable pub new_priority_scheduling_queue :
      (String → Option (QueueLess Q)) → String → String → ℤ → ℤ → Queue → PrioritySchedulingQueue Q
  unfolding Heap.new seconds new_queue_info
  new_priority_scheduling_queue queue_sort_func_map name plugin_name initial max queue = record {
    name = name;
    plugin_name = plugin_name;
    less_fn = queue_sort_func_map plugin_name;
    items = Heap.new;
    backoff_q = Heap.new;
    queue = new_queue_info queue;
    pod_initial_backoff_duration = seconds initial;
    pod_max_backoff_duration = seconds max;
    stop = nil_channel;
    closed = false;
    run = false;
    flushers = 0;
  }

  -- `go wait.Until(p.flushBackoffQCompleted, 1.0*time.Second, p.stop)`
  unfoldable pub start : PrioritySchedulingQueue Q → PrioritySchedulingQueue Q
  start p = record p { flushers = p.flushers + 1 }

  abbrev pub get_run_status : PrioritySchedulingQueue Q → Bool
  get_run_status p = p.run

  unfoldable pub set_run_status : PrioritySchedulingQueue Q → Bool → PrioritySchedulingQueue Q
  set_run_status p b = record p { run = b }

  unfoldable pub close : PrioritySchedulingQueue Q → Outcome (PrioritySchedulingQueue Q)
  unfolding close_stop
  close p = do stop ← close_stop p.stop; value (record p { stop = stop; closed = true })

  -- The writes of a heap method into one of the two heaps, with the error that it returned.
  abbrev with_items :
      PrioritySchedulingQueue Q
      → Data (QueueUnitInfo Q) × Option (GoError (QueueUnitInfo Q))
      → Outcome (PrioritySchedulingQueue Q × Option (GoError (QueueUnitInfo Q)))
  with_items p (items, err) = value (record p { items = items }, err)

  abbrev with_backoff_q :
      PrioritySchedulingQueue Q
      → Data (QueueUnitInfo Q) × Option (GoError (QueueUnitInfo Q))
      → Outcome (PrioritySchedulingQueue Q × Option (GoError (QueueUnitInfo Q)))
  with_backoff_q p (backoff_q, err) = value (record p { backoff_q = backoff_q }, err)

  unfoldable pub add :
      PrioritySchedulingQueue Q
      → QueueUnit Q
      → Time
      → Time
      → Outcome (PrioritySchedulingQueue Q × Option (GoError (QueueUnitInfo Q)))
  unfolding new_queue_unit_info Heap.add
  add p q now later =
      Heap.add unit_info_key_func (comp p.less_fn) p.items (new_queue_unit_info q now later)
      >>= with_items p

  unfoldable pub add_unschedulable_if_not_present :
      PrioritySchedulingQueue Q
      → QueueUnitInfo Q
      → Outcome (PrioritySchedulingQueue Q × Option (GoError (QueueUnitInfo Q)))
  unfolding Heap.get Heap.add
  add_unschedulable_if_not_present p info =
      elim (Heap.get unit_info_key_func (comp p.less_fn) p.items info).0 [
        | some _ ↦ value (p, none)
        | none ↦ elim (Heap.get unit_info_key_func (backoff_comp p) p.backoff_q info).0 [
          | some _ ↦ value (p, none)
          | none ↦
              Heap.add unit_info_key_func (backoff_comp p) p.backoff_q info >>= with_backoff_q p
        ]
      ]

  unfoldable pub delete :
      PrioritySchedulingQueue Q
      → QueueUnit Q
      → Outcome (PrioritySchedulingQueue Q × Option (GoError (QueueUnitInfo Q)))
  unfolding Heap.get_by_key Heap.delete
  delete p q =
      let key = object_key q.namespace q.name in
      elim (Heap.get_by_key p.items key) [
        | some info ↦ Heap.delete unit_info_key_func (comp p.less_fn) p.items info >>= with_items p
        | none ↦ elim (Heap.get_by_key p.backoff_q key) [
          | some info ↦
              Heap.delete unit_info_key_func (backoff_comp p) p.backoff_q info >>= with_backoff_q p
          | none ↦ value (p, none)
        ]
      ]

  -- The old object is not read.
  unfoldable pub update :
      PrioritySchedulingQueue Q
      → QueueUnit Q
      → QueueUnit Q
      → Time
      → Time
      → Outcome (PrioritySchedulingQueue Q × Option (GoError (QueueUnitInfo Q)))
  unfolding new_queue_unit_info Heap.get_by_key Heap.update
  update p old new now later =
      let new_info = new_queue_unit_info new now later in
      let key = object_key new.namespace new.name in
      elim (Heap.get_by_key p.items key) [
        | some _ ↦ Heap.update unit_info_key_func (comp p.less_fn) p.items new_info >>= with_items p
        | none ↦ elim (Heap.get_by_key p.backoff_q key) [
          | some _ ↦
              Heap.update unit_info_key_func (backoff_comp p) p.backoff_q new_info
              >>= with_backoff_q p
          | none ↦ value (p, none)
        ]
      ]

  -- The type assertion on a nil object panics before the error can be returned.
  unfoldable pub pop :
      PrioritySchedulingQueue Q
      → Outcome (QueueUnitInfo Q × Option (GoError (QueueUnitInfo Q)) × PrioritySchedulingQueue Q)
  unfolding Heap.pop_top
  pop p = do
    (obj, err, items) ← Heap.pop_top (comp p.less_fn) p.items
    u ← or_panic obj
    value (u, err, record p { items = items })

  -- `range` is the order in which Go ranges over the map of the active heap.
  unfoldable pub top_unit :
      (Dict (HeapItem (QueueUnitInfo Q)) → Dict (HeapItem (QueueUnitInfo Q)))
      → PrioritySchedulingQueue Q
      → Outcome (Option (QueueUnitInfo Q) × Option (GoError (QueueUnitInfo Q)))
  unfolding Heap.len Heap.objects
  top_unit range p =
      if ltb 0 (Heap.len p.items)
      then (do u ← or_panic (get_elem? (Heap.objects range p.items) 0); value (some u, none))
      else value (none, some (errorf "queue is empty"))

  unfoldable pub len : PrioritySchedulingQueue Q → ℕ
  unfolding Heap.len
  len p = Heap.len p.items

  -- The parts of one round of the loop in flushBackoffQCompleted, where `rest` is the next round:
  -- after the Add, after the Pop, and after the Peek.
  abbrev pub flush_added :
      (PrioritySchedulingQueue Q → Outcome (PrioritySchedulingQueue Q))
      → PrioritySchedulingQueue Q
      → Data (QueueUnitInfo Q) × Option (GoError (QueueUnitInfo Q))
      → Outcome (PrioritySchedulingQueue Q)
  flush_added rest p (items, some err) = value (record p { items = items })
  flush_added rest p (items, none) = rest (record p { items = items })

  abbrev pub flush_popped :
      (PrioritySchedulingQueue Q → Outcome (PrioritySchedulingQueue Q))
      → PrioritySchedulingQueue Q
      → QueueUnitInfo Q
      → Option (QueueUnitInfo Q) × Option (GoError (QueueUnitInfo Q)) × Data (QueueUnitInfo Q)
      → Outcome (PrioritySchedulingQueue Q)
  flush_popped rest p info (_, some err, backoff_q) = value (record p { backoff_q = backoff_q })
  flush_popped rest p info (_, none, backoff_q) =
      Heap.add unit_info_key_func (comp p.less_fn) p.items info
      >>= flush_added rest (record p { backoff_q = backoff_q })

  abbrev pub flush_peeked :
      (PrioritySchedulingQueue Q → Outcome (PrioritySchedulingQueue Q))
      → Time
      → PrioritySchedulingQueue Q
      → Option (QueueUnitInfo Q)
      → Outcome (PrioritySchedulingQueue Q)
  flush_peeked rest now p none = value p
  flush_peeked rest now p (some info) =
      let done_at =
        get_backoff_time p.pod_initial_backoff_duration p.pod_max_backoff_duration info in
      if ltb_ℤ now done_at
      then value p
      else (Heap.pop_top (backoff_comp p) p.backoff_q >>= flush_popped rest p info)

  -- The loop of flushBackoffQCompleted; `clock` gives the readings of the clock in turn. The
  -- lock is held throughout.
  flush_loop : ℕ → (ℕ → Time) → PrioritySchedulingQueue Q → Outcome (PrioritySchedulingQueue Q)
  unfolding get_backoff_time Heap.peek Heap.pop_top Heap.add
  flush_loop zero clock p = out_of_fuel
  flush_loop (suc fuel) clock p =
      Heap.peek p.backoff_q
      >>= flush_peeked (λ p'. flush_loop fuel (λ n. clock (suc n)) p') (clock 0) p

  unfoldable pub flush_backoff_q_completed :
      (ℕ → Time) → PrioritySchedulingQueue Q → Outcome (PrioritySchedulingQueue Q)
  unfolding flush_loop Heap.len
  flush_backoff_q_completed clock p = flush_loop (Heap.len p.backoff_q + 1) clock p
