-- ===== src/Tests/Disjoint.antt =====
-- The theorems on units in both heaps, at a concrete queue.
use kube_queue.Base.{text_dec, refl, none, lookup, ◌≡◌, ◌≢◌, arith, Yields}
use kube_queue.Base.Int.{pos}
use kube_queue.Heap.View.{view}
use kube_queue.SchedulingQueue.{add, delete}
use kube_queue.SchedulingQueue.Invariant.{active, waiting, IsDisjoint}
use kube_queue.SchedulingQueue.Disjoint.{delete-IsDisjoint, add-not_IsDisjoint}
use kube_queue.Plugins.Priority.{queue_less-IsStrictWeak}
use kube_queue.Tests.Data.{unit_b, queue_ab, queue_ab-IsValid}

waiting_a : waiting queue_ab "team/a" ≡ none
unfolding view lookup text_dec
waiting_a = refl

queue_ab-IsDisjoint : IsDisjoint queue_ab
unfolding view lookup
queue_ab-IsDisjoint k present = elim (text_dec "team/a" k) [
  | yes same ↦ rw (← same) waiting_a
  | no other ↦ absurd (present (ground arith))
]

delete-IsDisjoint_example :
    Yields
      (λ r. (active r.0 "team/b" ≡ none) × (waiting r.0 "team/b" ≡ none) × IsDisjoint r.0)
      (delete queue_ab unit_b)
delete-IsDisjoint_example =
    delete-IsDisjoint queue_less-IsStrictWeak queue_ab queue_ab-IsValid unit_b queue_ab-IsDisjoint

waiting_b : waiting queue_ab "team/b" ≢ none
unfolding view lookup
waiting_b e = absurd (ground arith)

add-not_IsDisjoint_example : Yields (λ r. ¬ IsDisjoint r.0) (add queue_ab unit_b (pos 7) (pos 8))
add-not_IsDisjoint_example =
    add-not_IsDisjoint queue_less-IsStrictWeak queue_ab queue_ab-IsValid unit_b (pos 7) (pos 8)
      waiting_b
