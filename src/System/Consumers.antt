-- ===== src/System/Consumers.antt =====
-- Units with a consumer, in the maps that the methods of a queue leave.
use kube_queue.Base.{
  String, Bool, true, false, Option, some, text_dec, if◌then◌else◌, is_some, ◌≡◌, arith,
}
use kube_queue.Heap.View.{written, removed}
use kube_queue.Framework.{QueueUnit, QueueUnitInfo, Time, new_queue_unit_info}
use kube_queue.SchedulingQueue.Invariant.{overwritten}

module _ {ℓ} {Q : Type ℓ} where
  abbrev pub HasConsumer : QueueUnit Q → Type 0
  HasConsumer unit = is_some unit.consumer_ref ≡ true

  -- Every unit of a map has a consumer.
  abbrev pub HaveConsumers : (String → Option (QueueUnitInfo Q)) → Type ℓ
  HaveConsumers f = (k : String) (u : QueueUnitInfo Q) → f k ≡ some u → HasConsumer u.unit

  pub written-HaveConsumers :
      {f : String → Option (QueueUnitInfo Q)} (k : String) (u : QueueUnitInfo Q)
      → HasConsumer u.unit
      → HaveConsumers f
      → HaveConsumers (written k u f)
  written-HaveConsumers k u has h j x e = elim (text_dec k j) [
    | yes same ↦ let unit_is : u ≡ x = ground arith in rw (← unit_is) has
    | no other ↦ h j x (ground arith)
  ]

  pub removed-HaveConsumers :
      {f : String → Option (QueueUnitInfo Q)} (k : String)
      → HaveConsumers f
      → HaveConsumers (removed k f)
  removed-HaveConsumers k h j x e = h j x (ground arith)

  pub if-HaveConsumers :
      {f g : String → Option (QueueUnitInfo Q)} (b : Bool)
      → HaveConsumers f
      → HaveConsumers g
      → HaveConsumers (if b then f else g)
  if-HaveConsumers true h h' = h
  if-HaveConsumers false h h' = h'

  pub overwritten-HaveConsumers :
      {f : String → Option (QueueUnitInfo Q)} (k : String) (u : QueueUnitInfo Q)
      → HasConsumer u.unit
      → HaveConsumers f
      → HaveConsumers (overwritten k u f)
  overwritten-HaveConsumers {f} k u has h =
      if-HaveConsumers (is_some (f k)) (written-HaveConsumers k u has h) h

  pub new-HasConsumer :
      (u : QueueUnit Q) (now later : Time)
      → HasConsumer u
      → HasConsumer (new_queue_unit_info u now later).unit
  unfolding new_queue_unit_info
  new-HasConsumer u now later has = has
