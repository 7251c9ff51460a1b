-- ===== src/Tests/Informers.antt =====
-- The theorems on the informers, at a concrete filtering handler.
use kube_queue.Base.{Bool, true, false, Option, none, some, if◌then◌else◌, ◌≡◌, refl, value}
use kube_queue.Base.Int.{ℤ, pos}
use kube_queue.Controller.Notifications.{
  Object, queue_unit, another, Notification, added, updated, deleted, IsFiltering, is_dequeued,
  unit_informer,
}
use kube_queue.Controller.Routing.{moves, object_leaves, unit_informer-deleted, unit_informer-moves}
use kube_queue.Tests.Data.{unit_a}

-- The object before an update, the object after it, and whether each passes.
abbrev filtered_update : Object ℤ → Object ℤ → Bool → Bool → Option (Notification ℤ)
filtered_update old new true true = some (updated old new)
filtered_update old new false true = some (added new)
filtered_update old new true false = some (deleted old)
filtered_update old new false false = none

abbrev filtering : (Object ℤ → Bool) → Notification ℤ → Option (Notification ℤ)
filtering f (added o) = if f o then some (added o) else none
filtering f (updated old new) = filtered_update old new (f old) (f new)
filtering f (deleted o) = if f o then some (deleted o) else none

filtering-IsFiltering : IsFiltering filtering
filtering-IsFiltering = record {
  of_added = λ f o. refl;
  of_deleted = λ f o. refl;
  stays = λ f old new e e'. rw (e, e') refl;
  starts = λ f old new e e'. rw (e, e') refl;
  stops = λ f old new e e'. rw (e, e') refl;
  never = λ f old new e e'. rw (e, e') refl;
}

unit_informer-moves_example :
    unit_informer filtering
      (updated (queue_unit unit_a) (queue_unit (record unit_a { phase = "Dequeued" })))
      (pos 1)
      (pos 2)
    ≡ (
      value
          (moves unit_a
            (record unit_a { phase = "Dequeued" })
            (pos 1)
            (pos 2)
            (is_dequeued unit_a)
            (is_dequeued (record unit_a { phase = "Dequeued" }))).0,
      value
          (moves unit_a
            (record unit_a { phase = "Dequeued" })
            (pos 1)
            (pos 2)
            (is_dequeued unit_a)
            (is_dequeued (record unit_a { phase = "Dequeued" }))).1,
    )
unit_informer-moves_example =
    unit_informer-moves filtering-IsFiltering unit_a (record unit_a { phase = "Dequeued" }) (pos 1)
      (pos 2)

unit_informer-deleted_example : unit_informer filtering (deleted another) (pos 1) (pos 2) ≡ (
  value (object_leaves {Q = ℤ} (pos 1) (pos 2) another).0,
  value (object_leaves {Q = ℤ} (pos 1) (pos 2) another).1,
)
unit_informer-deleted_example = unit_informer-deleted filtering-IsFiltering (pos 1) (pos 2) another
