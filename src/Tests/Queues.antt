-- ===== src/Tests/Queues.antt =====
-- The theorems on the scheduling queues and the handlers, at concrete queues.
use kube_queue.Base.{
  ℕ, ◌*◌, String, false, Option, none, some, ite, text_dec, if◌then◌else◌, is_some, ◌||◌, ◌≡◌, refl,
  arith, Yields, panic, ◌<◌, List, [], ◌∷◌,
}
use kube_queue.Base.Int.{ℤ, pos}
use kube_queue.Heap
use kube_queue.Heap.{GoError}
use kube_queue.Heap.View.{written, removed}
use kube_queue.Framework.{QueueUnitInfo, Time, new_queue_unit_info, Queue}
use kube_queue.SchedulingQueue
use kube_queue.SchedulingQueue.{PrioritySchedulingQueue, len, flush_backoff_q_completed}
use kube_queue.SchedulingQueue.Invariant.{active, waiting, overwritten, IsNow}
use kube_queue.SchedulingQueue.Methods.{
  add-IsNow, add_unschedulable_if_not_present-IsNow, delete-IsNow, update-IsNow, pop-IsNow,
}
use kube_queue.SchedulingQueue.Flush.{IsFlushed, flush_backoff_q_completed-IsFlushed}
use kube_queue.MultiSchedulingQueue
use kube_queue.MultiSchedulingQueue.{
  MultiSchedulingQueue, get_queue_by_name, new_multi_scheduling_queue,
}
use kube_queue.MultiSchedulingQueue.Queues.{IsAdded, add-IsAdded}
use kube_queue.MultiSchedulingQueue.Lifecycle.{IsReplaced, update-IsReplaced}
use kube_queue.Container.Order.{IsStrictWeak}
use kube_queue.SchedulingQueue.{QueueLess}
use kube_queue.Controller.Events.{
  Event, queue_added, unit_added, added, joined, none_left, next, handle_all, IsNext,
  handle_all-IsNext,
}
use kube_queue.Controller.Closing.{handle_all-close}
use kube_queue.Plugins.Priority.{multi_queue_less, queue_less, queue_less-IsStrictWeak}
use kube_queue.Tests.Data.{queues-IsSound, unit_b, info_b, team, queue_ab, queue_ab-IsValid, queues}

add-IsNow_example :
    Yields
      (IsNow queue_less queue_ab
        (written "team/b" (new_queue_unit_info unit_b (pos 7) (pos 8)) (active queue_ab))
        (waiting queue_ab))
      (SchedulingQueue.add queue_ab unit_b (pos 7) (pos 8))
add-IsNow_example =
    add-IsNow queue_less-IsStrictWeak queue_ab queue_ab-IsValid unit_b (pos 7) (pos 8)

abbrev info_c : QueueUnitInfo ℤ
info_c = record info_b { name = "team/c" }

add_unschedulable_if_not_present-IsNow_example :
    Yields
      (IsNow queue_less queue_ab (active queue_ab) (
        if is_some (active queue_ab "team/c") || is_some (waiting queue_ab "team/c")
        then waiting queue_ab
        else written "team/c" info_c (waiting queue_ab)))
      (SchedulingQueue.add_unschedulable_if_not_present queue_ab info_c)
add_unschedulable_if_not_present-IsNow_example =
    add_unschedulable_if_not_present-IsNow queue_less-IsStrictWeak queue_ab queue_ab-IsValid info_c

delete-IsNow_example :
    Yields
      (IsNow queue_less queue_ab (removed "team/b" (active queue_ab)) (
        if is_some (active queue_ab "team/b")
        then waiting queue_ab
        else removed "team/b" (waiting queue_ab)))
      (SchedulingQueue.delete queue_ab unit_b)
delete-IsNow_example = delete-IsNow queue_less-IsStrictWeak queue_ab queue_ab-IsValid unit_b

update-IsNow_example :
    Yields
      (IsNow queue_less queue_ab
        (overwritten "team/b" (new_queue_unit_info unit_b (pos 7) (pos 8)) (active queue_ab))
        (if is_some (active queue_ab "team/b")
          then waiting queue_ab
          else overwritten "team/b"
              (new_queue_unit_info unit_b (pos 7) (pos 8))
              (waiting queue_ab)))
      (SchedulingQueue.update queue_ab unit_b unit_b (pos 7) (pos 8))
update-IsNow_example =
    update-IsNow queue_less-IsStrictWeak queue_ab queue_ab-IsValid unit_b unit_b (pos 7) (pos 8)

len_ab : 0 < len queue_ab
unfolding len Heap.len
len_ab = omega arith

pop-IsNow_example :
    Yields
      (λ (r : QueueUnitInfo ℤ × Option (GoError (QueueUnitInfo ℤ)) × PrioritySchedulingQueue ℤ).
        (k : String) × (active queue_ab k ≡ some r.0)
        × ((j : String) (x : QueueUnitInfo ℤ)
            → active queue_ab j ≡ some x
            → queue_less x r.0 ≡ false)
        × IsNow queue_less queue_ab (removed k (active queue_ab)) (waiting queue_ab) (r.2, r.1))
      (SchedulingQueue.pop queue_ab)
pop-IsNow_example = pop-IsNow queue_less-IsStrictWeak queue_ab queue_ab-IsValid len_ab

-- A clock that is past the end of the backoff from its second reading on.
abbrev clock : ℕ → Time
clock n = pos (n * 9_000_000_000)

flush_backoff_q_completed-IsFlushed_example :
    Yields (IsFlushed queue_less clock queue_ab) (flush_backoff_q_completed clock queue_ab)
flush_backoff_q_completed-IsFlushed_example =
    flush_backoff_q_completed-IsFlushed queue_less-IsStrictWeak clock queue_ab queue_ab-IsValid

abbrev other : Queue
other = record team { namespace = "other" }

add-IsAdded_example : IsAdded queues (MultiSchedulingQueue.add queues other) "other"
add-IsAdded_example = add-IsAdded queues other

update-IsReplaced_example : IsReplaced queues (MultiSchedulingQueue.update queues team team) "team"
update-IsReplaced_example = update-IsReplaced queues team team

-- The policies of the plugins of the tree: Priority, and no other.
abbrev tree_policies : String → Option (QueueLess ℤ)
tree_policies policy = ite (text_dec "Priority" policy) (some queue_less) none

tree_policies-IsStrictWeak :
    (policy : String) (less : QueueLess ℤ) → tree_policies policy ≡ some less → IsStrictWeak less
tree_policies-IsStrictWeak policy less known =
    let less_is : queue_less ≡ less = ground (arith, known) in
    rw (← less_is) queue_less-IsStrictWeak

tree_known : tree_policies "Priority" ≡ some queue_less
unfolding text_dec
tree_known = refl

-- A queue joins, and a unit of it.
abbrev arrivals : List (Event ℤ)
arrivals = queue_added team ∷ unit_added unit_b (pos 1) (pos 2) ∷ []

handle_all-close_example :
    Yields
      (λ (mq : MultiSchedulingQueue ℤ).
        (k : String) (q : PrioritySchedulingQueue ℤ)
        → get_queue_by_name mq k ≡ some q
        → MultiSchedulingQueue.close mq ≡ panic)
      (handle_all
        (new_multi_scheduling_queue tree_policies multi_queue_less (pos 1) (pos 20))
        arrivals)
handle_all-close_example =
    handle_all-close tree_policies multi_queue_less (pos 1) (pos 20) arrivals
      tree_policies-IsStrictWeak (next (added tree_known) (next (joined refl) none_left))

handle_all-IsNext_example : Yields (IsNext queues) (handle_all queues arrivals)
handle_all-IsNext_example =
    handle_all-IsNext queues arrivals queues-IsSound
      (next (added tree_known) (next (joined refl) none_left))
