-- ===== src/System/Rounds.antt =====
-- The loop of pkg/scheduler/scheduler.go and the goroutines that it starts, step by step.
use kube_queue.Base.{
  ℕ, ◌-◌, String, Bool, false, Option, none, some, List, [], ◌∷◌, ◌++◌, Dict, length, get_elem?,
  set, ltb, if◌then◌else◌, Outcome, value, or_panic, ◌>>=◌, Result,
}
use kube_queue.Framework.{QueueUnit, QueueUnitInfo, Time, is_success}
use kube_queue.SchedulingQueue
use kube_queue.SchedulingQueue.{
  PrioritySchedulingQueue, QueueLess, new_priority_scheduling_queue, flush_backoff_q_completed,
}
use kube_queue.Runtime.{
  run_filter_plugins, run_reserve_plugins_reserve, run_reserve_plugins_unreserve,
}
use kube_queue.Scheduler.{error_func, dequeue}
use kube_queue.System.State.{
  Position, looping, popping, filtering, reserving, failing, Goroutine, dequeuing, unreserving,
  storing, putting, finished, Label, began, visited, popped, filtered, reserved, put_back, Setup,
  System,
}

unfoldable pub addresses : Dict ℕ → List ℕ
addresses [] = []
addresses ((k, i) ∷ rest) = i ∷ addresses rest

module _ {ℓ} {Q S : Type ℓ} where
  unfoldable pub less_at : Setup Q S → List (PrioritySchedulingQueue Q) → ℕ → ℕ → Bool
  less_at setup objects i j = elim (get_elem? objects i) [
    | none ↦ false
    | some q1 ↦ elim (get_elem? objects j) [
      | none ↦ false
      | some q2 ↦ setup.less_func q1.queue q2.queue
    ]
  ]

  -- SortedQueue, and the new loop variable. The order in which Go ranges over the map is another one
  -- in each round: it is a part of `sort_slice`, which has the number of the round.
  unfoldable pub begin : Setup Q S → System Q S → System Q S
  unfolding less_at addresses
  begin setup s = record s {
    todo = setup.sort_slice (length s.variables) (less_at setup s.objects) (addresses s.queue_map);
    variables = s.variables ++ none ∷ [];
  }

  -- The round that runs.
  abbrev pub current : System Q S → ℕ
  current s = length s.variables - 1

  -- The loop variable takes the next queue, which the loop goes on to pop if it is not empty.
  unfoldable pub visit : System Q S → ℕ → List ℕ → Outcome (System Q S)
  unfolding SchedulingQueue.len
  visit s i rest = or_panic (get_elem? s.objects i) >>= λ q.
      let s' = record s { todo = rest; variables = set s.variables (current s) (some i) } in
      value (if ltb 0 (SchedulingQueue.len q) then record s' { position = popping } else s')

  -- The loop pops the queue in the loop variable, which may have become empty; an error is only
  -- logged.
  unfoldable pub pop_head : System Q S → Outcome (System Q S)
  unfolding SchedulingQueue.pop
  pop_head s = do
    variable ← or_panic (get_elem? s.variables (current s))
    i ← or_panic variable
    q ← or_panic (get_elem? s.objects i)
    (u, err, q') ← SchedulingQueue.pop q
    value (record s { objects = set s.objects i q'; position = filtering u })

  unfoldable pub pass_filters : Setup Q S → System Q S → QueueUnitInfo Q → Outcome (System Q S)
  unfolding run_filter_plugins
  pass_filters setup s u = do
    status ← run_filter_plugins setup.fw s.plugins u
    value (record s { position = if is_success status.code then reserving u else failing u })

  unfoldable pub reserve_unit : Setup Q S → System Q S → QueueUnitInfo Q → System Q S
  unfolding run_reserve_plugins_reserve
  reserve_unit setup s u =
      let (plugins, status) = run_reserve_plugins_reserve setup.fw s.plugins u in
      if is_success status.code
      then record s {
        plugins = plugins;
        position = looping;
        goroutines = s.goroutines ++ dequeuing (current s) u ∷ [];
      }
      else record s { plugins = plugins; position = failing u }

  -- ErrorFunc on a queue: what Get answers, and the change of the queue.
  unfoldable pub put_on :
      System Q S
      → ℕ
      → PrioritySchedulingQueue Q
      → QueueUnitInfo Q
      → (QueueUnit Q → Result (QueueUnit Q))
      → Time
      → Outcome (System Q S)
  unfolding error_func
  put_on s i q u get now =
      error_func get now u q >>= λ q'. value (record s { objects = set s.objects i q' })

  -- ErrorFunc of the loop itself, with the queue in its loop variable, which no one else changes
  -- while the loop is there: one step, at its change of the queue.
  unfoldable pub store :
      System Q S
      → ℕ
      → QueueUnitInfo Q
      → (QueueUnit Q → Result (QueueUnit Q))
      → Time
      → Outcome (System Q S)
  unfolding put_on
  store s round u get now = do
    variable ← or_panic (get_elem? s.variables round)
    i ← or_panic variable
    q ← or_panic (get_elem? s.objects i)
    put_on s i q u get now

  unfoldable pub run_goroutine :
      Setup Q S
      → System Q S
      → ℕ
      → Goroutine Q
      → (QueueUnit Q → Result (QueueUnit Q))
      → (QueueUnit Q → Option String)
      → Time
      → Outcome (System Q S)
  unfolding dequeue put_on run_reserve_plugins_unreserve
  run_goroutine setup s j (dequeuing round u) get update now = elim (dequeue get update u.unit) [
    | none ↦ value (record s { goroutines = set s.goroutines j finished })
    | some err ↦ value (record s { goroutines = set s.goroutines j (unreserving round u) })
  ]
  run_goroutine setup s j (unreserving round u) get update now = value (record s {
    plugins = run_reserve_plugins_unreserve setup.fw s.plugins u;
    goroutines = set s.goroutines j (storing round u);
  })
  run_goroutine setup s j (storing round u) get update now = do
    variable ← or_panic (get_elem? s.variables round)
    i ← or_panic variable
    value (record s { goroutines = set s.goroutines j (putting i u) })
  run_goroutine setup s j (putting i u) get update now = elim (get_elem? s.objects i) [
    | none ↦ value s
    | some q ↦ put_on (record s { goroutines = set s.goroutines j finished }) i q u get now
  ]
  run_goroutine setup s j finished get update now = value s

  -- The part of the loop of `schedule` that a label is for, where it stands there.
  unfoldable pub schedule_step :
      Setup Q S → Label Q → Position Q → List ℕ → System Q S → Outcome (System Q S)
  unfolding begin visit pop_head pass_filters reserve_unit store
  schedule_step setup began looping [] s = value (begin setup s)
  schedule_step setup visited looping (i ∷ rest) s = visit s i rest
  schedule_step setup popped popping todo s = pop_head s
  schedule_step setup filtered (filtering u) todo s = pass_filters setup s u
  schedule_step setup reserved (reserving u) todo s = value (reserve_unit setup s u)
  schedule_step setup (put_back get now) (failing u) todo s =
      store s (current s) u get now >>= λ s'. value (record s' { position = looping })
  schedule_step setup label position todo s = value s
