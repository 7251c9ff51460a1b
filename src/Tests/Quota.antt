-- ===== src/Tests/Quota.antt =====
-- The theorems on the quota plugin and the framework, at a concrete plugin.
use kube_queue.Base.{
  some, get_elem?, String, true, false, none, [], ◌∷◌, lookup, is_some, ◌≡◌, ◌↔◌, refl, arith,
  value, ok,
}
use kube_queue.Base.Int.{ℤ, pos, ◌≤ℤ◌, ◌+ℤ◌, ◌-ℤ◌}
use kube_queue.Framework.{Status, new_status, success}
use kube_queue.Plugins.ResourceQuota.{
  ResourceQuota, queue_unit_to_key, reserve, unreserve, filter, filter_in, filter_entries,
  select_resource_quota, get_reserved_by_resource_name,
}
use kube_queue.Plugins.ResourceQuota.Reservation.{
  held, IsReserve, reserve-IsReserve, unreserve-reserve,
}
use kube_queue.Plugins.ResourceQuota.Admission.{
  Fits, IsWithin, filter-Fits, filter-reserve-IsWithin,
}
use kube_queue.Plugins.ResourceQuota.Selection.{IsSelected, select_resource_quota-IsSelected}
use kube_queue.Plugins.Registry.{new_in_tree_registry, IsInTree, new_framework-IsInTree}
use kube_queue.Runtime.{FrameworkImpl, new_framework}
use kube_queue.Plugins.Priority.{multi_queue_less}
use kube_queue.Scheduler.{dequeue}
use kube_queue.System.State.{reserving, storing, reserved, ran, Setup, System}
use kube_queue.System.Step.{run}
use kube_queue.System.Reservations.{SameReservations, refused-SameReservations}
use kube_queue.Tests.Data.{
  relisted_quota, consumer, info_a, limits, basket, quota, whole, whole-IsExact, whole-IsByValue,
  resource_a-IsMap,
}

reserve-IsReserve_example :
    IsReserve whole whole-IsExact quota info_a resource_a-IsMap (reserve whole quota info_a)
reserve-IsReserve_example = reserve-IsReserve whole whole-IsExact quota info_a resource_a-IsMap

fresh_a : is_some (lookup (queue_unit_to_key info_a) quota.qu_record) ≡ false
unfolding lookup
fresh_a = refl

held_quota : (ns n : String) → pos 0 ≤ℤ held whole whole-IsExact quota ns n
unfolding get_reserved_by_resource_name lookup
held_quota ns n = ground arith

unreserve-reserve_example :
    ((ns n : String)
      → held whole whole-IsExact (unreserve whole (reserve whole quota info_a).0 info_a) ns n
        ≡ held whole whole-IsExact quota ns n)
    × ((k : String)
        → is_some (lookup k (unreserve whole (reserve whole quota info_a).0 info_a).qu_record)
          ≡ is_some (lookup k quota.qu_record))
unreserve-reserve_example =
    unreserve-reserve whole whole-IsExact quota info_a resource_a-IsMap whole-IsByValue fresh_a
      held_quota

select_resource_quota-IsSelected_example :
    IsSelected "team" (basket ∷ basket ∷ []) (select_resource_quota (basket ∷ basket ∷ []) "team")
select_resource_quota-IsSelected_example =
    select_resource_quota-IsSelected "team" (basket ∷ basket ∷ [])

selected_team : select_resource_quota (basket ∷ []) "team" ≡ ok basket
unfolding select_resource_quota
selected_team = refl

filter-Fits_example :
    (status : Status) × (filter whole quota info_a ≡ value status)
    × ((status.code ≡ success) ↔ Fits whole whole-IsExact quota "team" limits info_a.unit.resource)
filter-Fits_example =
    filter-Fits whole whole-IsExact quota info_a resource_a-IsMap consumer (basket ∷ []) basket
      limits refl refl selected_team refl

passed_a : filter whole quota info_a ≡ value (new_status success "")
unfolding filter filter_in filter_entries select_resource_quota get_reserved_by_resource_name lookup
    ◌+ℤ◌ ◌-ℤ◌
passed_a = refl

IsWithin-quota : IsWithin whole whole-IsExact quota "team" limits
unfolding get_reserved_by_resource_name lookup
IsWithin-quota r limit e = ground arith

filter-reserve-IsWithin_example :
    IsWithin whole whole-IsExact (reserve whole quota info_a).0 "team" limits
filter-reserve-IsWithin_example =
    filter-reserve-IsWithin whole whole-IsExact quota info_a resource_a-IsMap consumer (basket ∷ [])
      basket limits refl refl selected_team refl whole-IsByValue (new_status success "") passed_a
      refl refl fresh_a IsWithin-quota

new_framework-IsInTree_example :
    (f : FrameworkImpl ℤ (ResourceQuota ℤ)) × (new_framework (new_in_tree_registry whole true)
      ≡ ok f)
    × IsInTree whole f
new_framework-IsInTree_example = new_framework-IsInTree whole true

abbrev tree : FrameworkImpl ℤ (ResourceQuota ℤ)
tree = (new_framework-IsInTree whole true).0

-- A program whose loop has let a unit pass the filters.
abbrev refusing : Setup ℤ (ResourceQuota ℤ)
refusing = record {
  fw = (new_framework-IsInTree whole false).0;
  queue_sort_func_map = λ policy. none;
  less_func = multi_queue_less;
  pod_initial_backoff_seconds = pos 1;
  pod_max_backoff_seconds = pos 20;
  sort_slice = λ round less l. l;
  relist = relisted_quota;
}

abbrev passed_filters : System ℤ (ResourceQuota ℤ)
passed_filters = record {
  objects = [];
  queue_map = [];
  handlers = [];
  plugins = quota;
  position = reserving info_a;
  todo = [];
  variables = some 0 ∷ [];
  goroutines = [];
}

refused_a : dequeue (λ unit. ok unit) (λ unit. some "conflict") info_a.unit ≡ some "conflict"
unfolding dequeue
refused_a = refl

refused-SameReservations_example :
    (s' : System ℤ (ResourceQuota ℤ)) × (run refusing
        (reserved
          ∷ ran 0 (λ unit. ok unit) (λ unit. some "conflict") (pos 1)
          ∷ ran 0 (λ unit. ok unit) (λ unit. some "conflict") (pos 2)
          ∷ [])
        passed_filters
      ≡ value s')
    × SameReservations whole whole-IsExact refusing
        (new_framework-IsInTree whole false).2
        quota
        s'.plugins
    × (get_elem? s'.goroutines 0 ≡ some (storing 0 info_a))
refused-SameReservations_example =
    refused-SameReservations whole whole-IsExact refusing (new_framework-IsInTree whole false).2
      passed_filters info_a (λ unit. ok unit) (λ unit. some "conflict") "conflict" (pos 1) (pos 2)
      whole-IsByValue refl resource_a-IsMap fresh_a held_quota refused_a
