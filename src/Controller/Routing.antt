-- ===== src/Controller/Routing.antt =====
-- Which handler each notification reaches, where client-go filters as it documents.
use kube_queue.Base.{Bool, true, false, not, Option, none, some, ◌≡◌, refl, value}
use kube_queue.Framework.{QueueUnit, Time}
use kube_queue.Controller.Events.{unit_added, unit_updated, unit_deleted}
use kube_queue.System.State.{Label, handled, dequeued_added, dequeued_deleted}
use kube_queue.Controller.Notifications.{
  Object, queue_unit, queue, another, Notification, added, updated, deleted, IsFiltering,
  is_dequeued, filter_queued, filter_dequeued, as_unit, queued_handler, dequeued_handler,
  on_filtered, unit_informer,
}

module _ {ℓ} {Q : Type ℓ} (old new : QueueUnit Q) (now later : Time) where
  -- What an update of a unit means to the two handlers, by the phases before and after it.
  abbrev pub moves : Bool → Bool → Option (Label Q) × Option (Label Q)
  moves false false = (some (handled (unit_updated old new now later)), none)
  moves false true = (some (handled (unit_deleted old)), some (dequeued_added new now later))
  moves true false =
      (some (handled (unit_added new now later)), some (dequeued_deleted old now later))
  moves true true = (none, none)

module _ {ℓ} {Q : Type ℓ} {filtering : (Object Q → Bool) → Notification Q → Option (Notification Q)}
    (documented : IsFiltering filtering) where
  -- What is left of an update, by whether the objects before and after it pass.
  abbrev narrowed : Object Q → Object Q → Bool → Bool → Option (Notification Q)
  narrowed old new true true = some (updated old new)
  narrowed old new false true = some (added new)
  narrowed old new true false = some (deleted old)
  narrowed old new false false = none

  filtering-updated :
      (f : Object Q → Bool) (old new : Object Q) (a b : Bool)
      → f old ≡ a
      → f new ≡ b
      → filtering f (updated old new) ≡ narrowed old new a b
  filtering-updated f old new true true = documented.stays f old new
  filtering-updated f old new false true = documented.starts f old new
  filtering-updated f old new true false = documented.stops f old new
  filtering-updated f old new false false = documented.never f old new

  unit_informer-narrowed :
      (old new : QueueUnit Q) (now later : Time) (a b : Bool)
      → is_dequeued old ≡ a
      → is_dequeued new ≡ b
      → unit_informer filtering (updated (queue_unit old) (queue_unit new)) now later ≡ (
        on_filtered
            (queued_handler now later)
            (narrowed (queue_unit old) (queue_unit new) (not a) (not b)),
        on_filtered (dequeued_handler now later) (narrowed (queue_unit old) (queue_unit new) a b),
      )
  unfolding unit_informer filter_queued filter_dequeued
  unit_informer-narrowed old new now later a b e e' =
      rw
        (
          filtering-updated filter_queued (queue_unit old) (queue_unit new) (not a) (not b)
              (rw e refl) (rw e' refl),
          filtering-updated filter_dequeued (queue_unit old) (queue_unit new) a b e e',
        )
        refl

  unit_informer-moves_by :
      (old new : QueueUnit Q) (now later : Time) (a b : Bool)
      → is_dequeued old ≡ a
      → is_dequeued new ≡ b
      → unit_informer filtering (updated (queue_unit old) (queue_unit new)) now later
        ≡ (value (moves old new now later a b).0, value (moves old new now later a b).1)
  unfolding on_filtered queued_handler dequeued_handler as_unit
  unit_informer-moves_by old new now later false false =
      unit_informer-narrowed old new now later _ _
  unit_informer-moves_by old new now later false true = unit_informer-narrowed old new now later _ _
  unit_informer-moves_by old new now later true false = unit_informer-narrowed old new now later _ _
  unit_informer-moves_by old new now later true true = unit_informer-narrowed old new now later _ _

  -- An update of a unit by the phases before and after it: a unit that stays queued is updated in
  -- its queue, one that becomes dequeued is deleted from its queue and reserved, one that is
  -- queued again is added to its queue and unreserved, and one that stays dequeued reaches no
  -- handler. Client-go filters as it documents.
  pub unit_informer-moves :
      (old new : QueueUnit Q) (now later : Time)
      → unit_informer filtering (updated (queue_unit old) (queue_unit new)) now later ≡ (
        value (moves old new now later (is_dequeued old) (is_dequeued new)).0,
        value (moves old new now later (is_dequeued old) (is_dequeued new)).1,
      )
  unit_informer-moves old new now later =
      unit_informer-moves_by old new now later (is_dequeued old) (is_dequeued new) refl refl

module _ {ℓ} {Q : Type ℓ} (now later : Time) where
  -- What the deletion of a unit means to the two handlers, by the phase that the informer knows.
  abbrev pub leaves : QueueUnit Q → Bool → Option (Label Q) × Option (Label Q)
  leaves u false = (some (handled (unit_deleted u)), none)
  leaves u true = (none, some (dequeued_deleted u now later))

  -- What the deletion of an object means: only a unit has a handler, and neither a queue nor the
  -- tombstone of a unit is one.
  abbrev pub object_leaves : Object Q → Option (Label Q) × Option (Label Q)
  object_leaves (queue_unit u) = leaves u (is_dequeued u)
  object_leaves (queue q) = (none, none)
  object_leaves another = (none, none)

module _ {ℓ} {Q : Type ℓ} {filtering : (Object Q → Bool) → Notification Q → Option (Notification Q)}
    (documented : IsFiltering filtering) (now later : Time) where
  unit_informer-deleted_by :
      (u : QueueUnit Q) (b : Bool)
      → is_dequeued u ≡ b
      → unit_informer filtering (deleted (queue_unit u)) now later
        ≡ (value (leaves now later u b).0, value (leaves now later u b).1)
  unfolding unit_informer filter_queued filter_dequeued on_filtered queued_handler dequeued_handler
      as_unit
  unit_informer-deleted_by u false e =
      rw
        (
          documented.of_deleted filter_queued (queue_unit u),
          documented.of_deleted filter_dequeued (queue_unit u),
        )
        (rw e refl)
  unit_informer-deleted_by u true e =
      rw
        (
          documented.of_deleted filter_queued (queue_unit u),
          documented.of_deleted filter_dequeued (queue_unit u),
        )
        (rw e refl)

  -- The deletion of an object that the informer of units reports: a unit that is not dequeued is
  -- deleted from its queue, a dequeued one is unreserved, and an object of another type, such as the
  -- tombstone that an informer passes for a deletion that it has missed, reaches no handler. Client-go
  -- filters as it documents.
  pub unit_informer-deleted :
      (o : Object Q)
      → unit_informer filtering (deleted o) now later
        ≡ (value (object_leaves now later o).0, value (object_leaves now later o).1)
  unfolding unit_informer filter_queued filter_dequeued on_filtered
  unit_informer-deleted (queue_unit u) = unit_informer-deleted_by u (is_dequeued u) refl
  unit_informer-deleted (queue q) =
      rw
        (
          documented.of_deleted filter_queued (queue q),
          documented.of_deleted filter_dequeued (queue q),
        )
        refl
  unit_informer-deleted another =
      rw
        (documented.of_deleted filter_queued another, documented.of_deleted filter_dequeued another)
        refl
