-- ===== src/Controller/Notifications.antt =====
-- addAllEventHandlers of pkg/controller/eventhandler.go: which handler a notification of an informer
-- reaches. cache.FilteringResourceEventHandler is of client-go: it is the parameter `filtering`,
-- from the filter and the notification to the call of the nested handler.
use kube_queue.Base.{
  Bool, true, false, not, Option, none, some, ite, text_dec, if◌then◌else◌, ◌≡◌, Outcome, value,
  or_panic, ◌>>=◌,
}
use kube_queue.Framework.{Queue, QueueUnit, Time}
use kube_queue.Controller.Events.{
  queue_added, queue_updated, queue_deleted, unit_added, unit_updated, unit_deleted,
}
use kube_queue.System.State.{Label, handled, dequeued_added, dequeued_deleted}

-- The dynamic type of an `interface{}`. A tombstone of client-go is another object.
pub data Object {ℓ} (Q : Type ℓ) : Type ℓ where
  queue_unit : QueueUnit Q → Object Q
  queue : Queue → Object Q
  another : Object Q

pub data Notification {ℓ} (Q : Type ℓ) : Type ℓ where
  added : Object Q → Notification Q
  updated : (old new : Object Q) → Notification Q
  deleted : Object Q → Notification Q

-- The documentation of FilteringResourceEventHandler: the filter applies to all events, an object
-- that starts passing it after an update is an add, and one that stops passing it a delete.
pub record IsFiltering {ℓ} {Q : Type ℓ}
    (filtering : (Object Q → Bool) → Notification Q → Option (Notification Q)) : Type ℓ where
  pub of_added :
      (f : Object Q → Bool) (o : Object Q)
      → filtering f (added o) ≡ (if f o then some (added o) else none)
  pub of_deleted :
      (f : Object Q → Bool) (o : Object Q)
      → filtering f (deleted o) ≡ (if f o then some (deleted o) else none)
  pub stays :
      (f : Object Q → Bool) (old new : Object Q)
      → f old ≡ true
      → f new ≡ true
      → filtering f (updated old new) ≡ some (updated old new)
  pub starts :
      (f : Object Q → Bool) (old new : Object Q)
      → f old ≡ false
      → f new ≡ true
      → filtering f (updated old new) ≡ some (added new)
  pub stops :
      (f : Object Q → Bool) (old new : Object Q)
      → f old ≡ true
      → f new ≡ false
      → filtering f (updated old new) ≡ some (deleted old)
  pub never :
      (f : Object Q → Bool) (old new : Object Q)
      → f old ≡ false
      → f new ≡ false
      → filtering f (updated old new) ≡ none

module _ {ℓ} {Q : Type ℓ} where
  unfoldable pub is_dequeued : QueueUnit Q → Bool
  is_dequeued unit = ite (text_dec unit.phase "Dequeued") true false

  -- The three FilterFuncs.
  unfoldable pub filter_queued : Object Q → Bool
  unfolding is_dequeued
  filter_queued (queue_unit qu) = not (is_dequeued qu)
  filter_queued (queue q) = false
  filter_queued another = false

  unfoldable pub filter_dequeued : Object Q → Bool
  unfolding is_dequeued
  filter_dequeued (queue_unit qu) = is_dequeued qu
  filter_dequeued (queue q) = false
  filter_dequeued another = false

  unfoldable pub filter_queue : Object Q → Bool
  filter_queue (queue_unit qu) = false
  filter_queue (queue q) = true
  filter_queue another = false

  -- `obj.(*v1alpha1.QueueUnit)` and `obj.(*v1alpha1.Queue)`
  unfoldable pub as_unit : Object Q → Option (QueueUnit Q)
  as_unit (queue_unit qu) = some qu
  as_unit (queue q) = none
  as_unit another = none

  unfoldable pub as_queue : Object Q → Option Queue
  as_queue (queue_unit qu) = none
  as_queue (queue q) = some q
  as_queue another = none

  module _ (now later : Time) where
    -- The nested handlers, each with the type assertion of its argument.
    unfoldable pub queued_handler : Notification Q → Outcome (Option (Label Q))
    unfolding as_unit
    queued_handler (added o) =
        or_panic (as_unit o) >>= (λ u. value (some (handled (unit_added u now later))))
    queued_handler (updated old new) = do
      u ← or_panic (as_unit old)
      v ← or_panic (as_unit new)
      value (some (handled (unit_updated u v now later)))
    queued_handler (deleted o) =
        or_panic (as_unit o) >>= (λ u. value (some (handled (unit_deleted u))))

    -- There is no UpdateFunc.
    unfoldable pub dequeued_handler : Notification Q → Outcome (Option (Label Q))
    unfolding as_unit
    dequeued_handler (added o) =
        or_panic (as_unit o) >>= (λ u. value (some (dequeued_added u now later)))
    dequeued_handler (updated old new) = value none
    dequeued_handler (deleted o) =
        or_panic (as_unit o) >>= (λ u. value (some (dequeued_deleted u now later)))

  unfoldable pub queue_handler : Notification Q → Outcome (Option (Label Q))
  unfolding as_queue
  queue_handler (added o) = or_panic (as_queue o) >>= (λ q. value (some (handled (queue_added q))))
  queue_handler (updated old new) = do
    q ← or_panic (as_queue old)
    r ← or_panic (as_queue new)
    value (some (handled (queue_updated q r)))
  queue_handler (deleted o) =
      or_panic (as_queue o) >>= (λ q. value (some (handled (queue_deleted q))))

  -- A nested handler, if the filter calls one.
  unfoldable pub on_filtered :
      (Notification Q → Outcome (Option (Label Q)))
      → Option (Notification Q)
      → Outcome (Option (Label Q))
  on_filtered handler none = value none
  on_filtered handler (some n) = handler n

module _ {ℓ} {Q : Type ℓ}
    (filtering : (Object Q → Bool) → Notification Q → Option (Notification Q)) where
  -- What the two handlers of the unit informer do, each in its own goroutine, and the handler of
  -- the queue informer.
  unfoldable pub unit_informer :
      Notification Q → Time → Time → Outcome (Option (Label Q)) × Outcome (Option (Label Q))
  unfolding filter_queued filter_dequeued queued_handler dequeued_handler on_filtered
  unit_informer n now later = (
    on_filtered (queued_handler now later) (filtering filter_queued n),
    on_filtered (dequeued_handler now later) (filtering filter_dequeued n),
  )

  unfoldable pub queue_informer : Notification Q → Outcome (Option (Label Q))
  unfolding filter_queue queue_handler on_filtered
  queue_informer n = on_filtered queue_handler (filtering filter_queue n)
