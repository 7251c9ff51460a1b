-- ===== src/Tests/Specifications.antt =====
-- The theorems on sequences of calls of a scheduling queue, at a concrete queue.
use kube_queue.Base.{
  ℕ, ◌*◌, String, false, none, some, [], ◌∷◌, lookup, ◌≡◌, refl, arith, Yields, List,
}
use kube_queue.Base.Int.{ℤ, pos, ltb_ℤ, ◌+ℤ◌}
use kube_queue.Heap
use kube_queue.Heap.View.{view}
use kube_queue.Framework.{QueueUnitInfo}
use kube_queue.SchedulingQueue.{len, flush_backoff_q_completed, new_priority_scheduling_queue}
use kube_queue.SchedulingQueue.Backoff.{get_backoff_time}
use kube_queue.SchedulingQueue.Invariant.{active, waiting, IsValid}
use kube_queue.SchedulingQueue.Flush.{done_at}
use kube_queue.SchedulingQueue.Bounds.{IsBounded, new_priority_scheduling_queue-IsBounded}
use kube_queue.SchedulingQueue.Liveness.{flush_backoff_q_completed-none_waiting}
use kube_queue.SchedulingQueue.Drain.{drain, Drains, drain-Drains}
use kube_queue.SchedulingQueue.Refinement.{
  Call, add, add_unschedulable, poll, delete, flush, maps, run_calls, Plays, Implements,
  run_calls-Plays,
}
use kube_queue.Plugins.Priority.{queue_less, queue_less-IsStrictWeak}
use kube_queue.Tests.Data.{
  unit_a, unit_b, info_a, info_b, team, policies, queue_ab, queue_ab-IsValid,
}

new_priority_scheduling_queue-IsBounded_example :
    IsBounded
      (new_priority_scheduling_queue policies "team" "Priority" (pos 1) (pos 20) team)
      (1 * 1_000_000_000)
      (20 * 1_000_000_000)
new_priority_scheduling_queue-IsBounded_example =
    new_priority_scheduling_queue-IsBounded policies "team" "Priority" 1 20 team (omega arith)
      (omega arith)

late :
    (n : ℕ) (k : String) (u : QueueUnitInfo ℤ)
    → waiting queue_ab k ≡ some u
    → ltb_ℤ (pos 100_000_000_000) (done_at queue_ab u) ≡ false
unfolding view lookup get_backoff_time ◌+ℤ◌
late n k u e = let unit_is : info_b ≡ u = ground arith in rw (← unit_is) refl

flush_backoff_q_completed-none_waiting_example :
    Yields
      (λ p'.
        ((k : String) → waiting p' k ≡ none)
        × ((k : String) (u : QueueUnitInfo ℤ) → waiting queue_ab k ≡ some u → active p' k ≡ some u))
      (flush_backoff_q_completed (λ n. pos 100_000_000_000) queue_ab)
flush_backoff_q_completed-none_waiting_example =
    flush_backoff_q_completed-none_waiting queue_less-IsStrictWeak (λ n. pos 100_000_000_000)
      queue_ab queue_ab-IsValid late

one_active : 1 ≡ len queue_ab
unfolding len Heap.len
one_active = refl

drain-Drains_example :
    Yields
      (λ r.
        Drains queue_less (active queue_ab) r.0
        × IsValid queue_less r.1
        × (waiting r.1 ≡ waiting queue_ab))
      (drain 1 queue_ab)
drain-Drains_example = drain-Drains queue_less-IsStrictWeak 1 queue_ab queue_ab-IsValid one_active

abbrev calls : List (Call ℤ)
calls =
    add unit_b (pos 7) (pos 8)
    ∷ poll
    ∷ add_unschedulable info_a
    ∷ flush (λ n. pos 9)
    ∷ delete unit_a
    ∷ []

run_calls-Plays_example :
    Yields
      (λ r.
        Implements queue_less-IsStrictWeak (pos 1_000_000_000) (pos 10_000_000_000) r.1
        × Plays queue_less
            (pos 1_000_000_000)
            (pos 10_000_000_000)
            (maps queue_ab)
            calls
            r.0
            (maps r.1))
      (run_calls calls queue_ab)
run_calls-Plays_example =
    run_calls-Plays queue_less-IsStrictWeak calls queue_ab
      (record { valid = queue_ab-IsValid; initial_is = refl; max_is = refl })
