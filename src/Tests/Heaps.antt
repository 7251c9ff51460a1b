-- ===== src/Tests/Heaps.antt =====
-- The theorems on the heap and on the orders, at concrete heaps.
use kube_queue.Base.{
  true, ◌≡◌, refl, Yields, value, if◌then◌else◌, arith, ◌↔◌, ◌⊎◌, ◌*◌, ◌^◌, ◌-◌, ◌<◌, leb, Outcome,
  Bool,
}
use kube_queue.Base.Int.{pos, ◌<ℤ◌}
use Prim.Native.Nat.{min}
use kube_queue.Heap.{Data, pop_top, len}
use kube_queue.Heap.Remove.{IsPopped, pop_top-IsPopped}
use kube_queue.Framework.{QueueUnitInfo}
use kube_queue.Base.Int.{ℤ}
use kube_queue.SchedulingQueue.{unit_info_key_func}
use kube_queue.SchedulingQueue.Backoff.{calculate_backoff_duration, calculate_backoff_duration-min}
use kube_queue.Plugins.Priority.{
  queue_less, queue_less-IsStrictWeak, given, default, queue_less_iff,
}
use kube_queue.Tests.Data.{info_a, info_b, single, single-IsWellFormed}

abbrev before : QueueUnitInfo ℤ → QueueUnitInfo ℤ → Outcome Bool
before x y = value (queue_less x y)

abbrev before_is : (x y : QueueUnitInfo ℤ) → before x y ≡ value (queue_less x y)
before_is x y = refl

abbrev heap_a : Data (QueueUnitInfo ℤ)
heap_a = single "team/a" info_a

len_a : 0 < len heap_a
unfolding len
len_a = omega arith

pop_top-IsPopped_example :
    Yields
      (IsPopped unit_info_key_func before before_is queue_less-IsStrictWeak heap_a)
      (pop_top before heap_a)
pop_top-IsPopped_example =
    pop_top-IsPopped unit_info_key_func before before_is queue_less-IsStrictWeak heap_a
      (single-IsWellFormed queue_less "team/a" info_a) len_a

calculate_backoff_duration-min_example :
    calculate_backoff_duration (pos 1_000_000_000) (pos 10_000_000_000) info_b ≡ (
      if leb 3 1 then pos 1_000_000_000 else pos (min (1_000_000_000 * 2 ^ (3 - 1)) 10_000_000_000))
calculate_backoff_duration-min_example =
    calculate_backoff_duration-min 1_000_000_000 10_000_000_000 info_b (omega arith) (omega arith)

queue_less_iff_example :
    (queue_less info_a info_b ≡ true) ↔ (pos 0 <ℤ pos 1) ⊎ ((pos 1 ≡ pos 0) × (pos 0 <ℤ pos 1))
queue_less_iff_example = queue_less_iff info_a info_b (pos 1) (pos 0) given default
