-- ===== src/Tests/Rounds.antt =====
-- The theorems on the scheduler and on dequeued units, at concrete states.
use kube_queue.Base.{
  String, false, none, some, [], ◌∷◌, lookup, ◌≡◌, refl, arith, Yields, value, Result, ok, ◌<◌,
}
use kube_queue.Base.Int.{ℤ, pos, ◌+ℤ◌, ◌-ℤ◌}
use kube_queue.Heap
use kube_queue.Heap.View.{view}
use kube_queue.Framework.{QueueUnit, QueueUnitInfo, Status, new_status, success}
use kube_queue.SchedulingQueue
use kube_queue.SchedulingQueue.Invariant.{active, IsValid}
use kube_queue.Plugins.Priority.{queue_less, queue_less-IsStrictWeak}
use kube_queue.Plugins.ResourceQuota.{
  ResourceQuota, reserve, filter, filter_in, filter_entries, select_resource_quota,
  get_reserved_by_resource_name,
}
use kube_queue.Plugins.ResourceQuota.Reservation.{held}
use kube_queue.Plugins.Registry.{new_framework-IsInTree}
use kube_queue.Runtime.{FrameworkImpl, run_filter_plugins}
use kube_queue.Scheduler.{schedule_queue}
use kube_queue.Scheduler.Round.{IsScheduled, schedule_queue-IsScheduled}
use kube_queue.Scheduler.Rounds.{FiltersEnd, schedule_rounds, schedule_rounds-none_active}
use kube_queue.Controller.{add_dequeued_queue_unit}
use kube_queue.Controller.Dequeued.{add_dequeued_queue_unit-reserve}
use kube_queue.Tests.Data.{
  unit_a, info_a, queue_ab, queue_ab-IsValid, quota, whole, whole-IsExact, resource_a-IsMap,
}

abbrev quota_filter : FrameworkImpl ℤ (ResourceQuota ℤ)
quota_filter = record {
  multi_queue_sort_plugin = none;
  filter_plugins = filter whole ∷ [];
  queue_sort_plugins = [];
  reserve_plugins = [];
}

abbrev get_same : QueueUnit ℤ → Result (QueueUnit ℤ)
get_same unit = ok unit

active_ab : 0 < SchedulingQueue.len queue_ab
unfolding SchedulingQueue.len Heap.len
active_ab = omega arith

filter_ab :
    (k : String) (u : QueueUnitInfo ℤ)
    → active queue_ab k ≡ some u
    → (status : Status) × (run_filter_plugins quota_filter quota u ≡ value status)
unfolding view lookup run_filter_plugins filter filter_in filter_entries select_resource_quota
    get_reserved_by_resource_name ◌+ℤ◌ ◌-ℤ◌
filter_ab k u e =
    let unit_is : info_a ≡ u = ground arith in rw (← unit_is) (new_status success "", refl)

schedule_queue-IsScheduled_example :
    Yields
      (IsScheduled queue_less-IsStrictWeak quota_filter get_same
        (pos 9)
        queue_ab
        queue_ab-IsValid
        quota)
      (schedule_queue quota_filter get_same (pos 9) queue_ab quota)
schedule_queue-IsScheduled_example =
    schedule_queue-IsScheduled queue_less-IsStrictWeak quota_filter get_same (pos 9) queue_ab
      queue_ab-IsValid quota active_ab filter_ab

one_active : 1 ≡ SchedulingQueue.len queue_ab
unfolding SchedulingQueue.len Heap.len
one_active = refl

abbrev fw : FrameworkImpl ℤ (ResourceQuota ℤ)
fw = (new_framework-IsInTree whole false).0

filters_end : FiltersEnd fw (λ n. get_same) (λ n. pos 9) queue_ab
unfolding view lookup filter
filters_end s k u e =
    let unit_is : info_a ≡ u = ground arith in
    let (status, ran, code) =
      (new_framework-IsInTree whole false).2.filters s info_a (filter_in whole s info_a "team")
        refl in
    rw (← unit_is) (status, ran)

schedule_rounds-none_active_example :
    Yields
      (λ r. IsValid queue_less r.0 × ((k : String) → active r.0 k ≡ none))
      (schedule_rounds fw (λ n. get_same) (λ n. pos 9) 1 queue_ab quota)
schedule_rounds-none_active_example =
    schedule_rounds-none_active fw (λ n. get_same) (λ n. pos 9) queue_less-IsStrictWeak 1 queue_ab
      quota queue_ab-IsValid filters_end one_active

add_dequeued_queue_unit-reserve_example :
    held whole whole-IsExact
      (add_dequeued_queue_unit fw (reserve whole quota info_a).0 unit_a (pos 1) (pos 2))
      "team"
      "cpu"
    ≡ held whole whole-IsExact (reserve whole quota info_a).0 "team" "cpu"
add_dequeued_queue_unit-reserve_example =
    add_dequeued_queue_unit-reserve whole whole-IsExact fw (new_framework-IsInTree whole false).2
      quota info_a unit_a (pos 1) (pos 2) resource_a-IsMap resource_a-IsMap refl refl "team" "cpu"
