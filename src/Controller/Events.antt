-- ===== src/Controller/Events.antt =====
-- Sequences of the events that the informers deliver to the handlers of eventhandler.go, and the
-- invariant of the queues under each of them.
use kube_queue.Base.{
  String, Option, some, List, [], ◌∷◌, ◌≡◌, refl, Option-cases, inl, inr, Outcome, value, ◌>>=◌,
  Yields, yields, Yields-bind, Yields-weaken, ◌∙◌,
}
use kube_queue.Framework.{Queue, QueueUnit, QueueUnitInfo, ObjectReference, Time}
use kube_queue.Heap.{GoError}
use kube_queue.SchedulingQueue.{PrioritySchedulingQueue, QueueLess}
use kube_queue.SchedulingQueue.Invariant.{IsNow}
use kube_queue.SchedulingQueue.Methods.{add-IsNow, delete-IsNow, update-IsNow}
use kube_queue.MultiSchedulingQueue.{MultiSchedulingQueue, get_queue_by_name}
use kube_queue.MultiSchedulingQueue.Queues.{
  IsSoundQueue, IsSound, insert-IsSound, add-IsSound, update-IsSound, delete-IsSound, add_policies,
  update_policies, delete_policies,
}
use kube_queue.Controller.{
  add_queue, update_queue, delete_queue, store_queue, add_queue_unit, update_queue_unit,
  delete_queue_unit, on_queue, find_and_call,
}

-- A call of a handler, with the clock readings that it makes.
pub data Event {ℓ} (Q : Type ℓ) : Type ℓ where
  queue_added : Queue → Event Q
  queue_updated : Queue → Queue → Event Q
  queue_deleted : Queue → Event Q
  unit_added : QueueUnit Q → Time → Time → Event Q
  unit_updated : QueueUnit Q → QueueUnit Q → Time → Time → Event Q
  unit_deleted : QueueUnit Q → Event Q

module _ {ℓ} {Q : Type ℓ} where
  abbrev pub handle : MultiSchedulingQueue Q → Event Q → Outcome (MultiSchedulingQueue Q)
  handle mq (queue_added q) = value (add_queue mq q)
  handle mq (queue_updated old new) = value (update_queue mq old new)
  handle mq (queue_deleted q) = value (delete_queue mq q)
  handle mq (unit_added u now later) = add_queue_unit mq u now later
  handle mq (unit_updated old new now later) = update_queue_unit mq old new now later
  handle mq (unit_deleted u) = delete_queue_unit mq u

  abbrev pub handle_all : MultiSchedulingQueue Q → List (Event Q) → Outcome (MultiSchedulingQueue Q)
  handle_all mq [] = value mq
  handle_all mq (e ∷ es) = handle mq e >>= λ mq'. handle_all mq' es

  -- The policy of a queue is one that the framework knows, and a unit has a consumer.
  pub data IsAdmissible (policies : String → Option (QueueLess Q)) : Event Q → Type ℓ where
    added :
        {q : Queue} {less : QueueLess Q}
        → policies q.queue_policy ≡ some less
        → IsAdmissible policies (queue_added q)
    updated :
        {old new : Queue} {less : QueueLess Q}
        → policies new.queue_policy ≡ some less
        → IsAdmissible policies (queue_updated old new)
    deleted : {q : Queue} → IsAdmissible policies (queue_deleted q)
    joined :
        {u : QueueUnit Q} {now later : Time} {c : ObjectReference}
        → u.consumer_ref ≡ some c
        → IsAdmissible policies (unit_added u now later)
    changed :
        {old new : QueueUnit Q} {now later : Time} {c : ObjectReference}
        → new.consumer_ref ≡ some c
        → IsAdmissible policies (unit_updated old new now later)
    left :
        {u : QueueUnit Q} {c : ObjectReference}
        → u.consumer_ref ≡ some c
        → IsAdmissible policies (unit_deleted u)

  -- Every event of the list is admissible.
  pub data AreAdmissible (policies : String → Option (QueueLess Q)) : List (Event Q) → Type ℓ where
    none_left : AreAdmissible policies []
    next :
        {e : Event Q} {es : List (Event Q)}
        → IsAdmissible policies e
        → AreAdmissible policies es
        → AreAdmissible policies (e ∷ es)

  -- Sound queues, with the same policies.
  abbrev pub IsNext : MultiSchedulingQueue Q → MultiSchedulingQueue Q → Type ℓ
  IsNext mq mq' = IsSound mq' × (mq'.queue_sort_func_map ≡ mq.queue_sort_func_map)

  store-IsNext :
      (mq : MultiSchedulingQueue Q) (name : String) (q : PrioritySchedulingQueue Q) (s : IsSound mq)
      (sound : IsSoundQueue name q) (f g : String → Option (QueueUnitInfo Q))
      (r : PrioritySchedulingQueue Q × Option (GoError (QueueUnitInfo Q)))
      → IsNow sound.less q f g r
      → Yields (IsNext mq) (store_queue mq name r)
  unfolding store_queue
  store-IsNext mq name q s sound f g (q', err) now = yields (
    insert-IsSound mq name q' s (record {
      less = sound.less;
      weak = sound.weak;
      valid = now.valid;
      named = now.frame.same_name ∙ sound.named;
      flushed = rw (now.frame.same_flushers, now.frame.same_run) sound.flushed;
      stopless = now.frame.same_stop ∙ sound.stopless;
    }),
    refl,
  )

  add_queue-IsNext :
      (mq : MultiSchedulingQueue Q) (q : Queue) (less : QueueLess Q)
      → IsSound mq
      → mq.queue_sort_func_map q.queue_policy ≡ some less
      → IsNext mq (add_queue mq q)
  unfolding add_queue
  add_queue-IsNext mq q less s known = elim (Option-cases (get_queue_by_name mq q.namespace)) [
    | inl absent ↦ rw (absent, add_queue) (add-IsSound mq q less s known, add_policies mq q)
    | inr (x, there) ↦ rw (there, add_queue) (s, refl)
  ]

  -- A method that keeps a sound queue sound is called on the queue of the unit.
  on_queue-IsNext :
      (mq : MultiSchedulingQueue Q) (u : QueueUnit Q) (c : ObjectReference)
      {call : PrioritySchedulingQueue Q
        → Outcome (PrioritySchedulingQueue Q × Option (GoError (QueueUnitInfo Q)))}
      {f g : PrioritySchedulingQueue Q → String → Option (QueueUnitInfo Q)}
      → IsSound mq
      → u.consumer_ref ≡ some c
      → ((q : PrioritySchedulingQueue Q) (sound : IsSoundQueue c.namespace q)
          → Yields (IsNow sound.less q (f q) (g q)) (call q))
      → Yields (IsNext mq) (on_queue mq u call)
  unfolding on_queue find_and_call
  on_queue-IsNext mq u c s e called =
      rw (e, on_queue)
        (elim (Option-cases (get_queue_by_name mq c.namespace)) [
          | inl absent ↦ rw (absent, find_and_call) (yields (s, refl))
          | inr (q, there) ↦
              let sound = s.queues c.namespace q there in
              rw (there, find_and_call)
                (Yields-bind (called q sound) (store-IsNext mq c.namespace q s sound _ _))
        ])

  -- Each handler, called with an admissible event, ends without a panic and keeps the queues
  -- sound.
  pub handle-IsNext :
      (mq : MultiSchedulingQueue Q) (e : Event Q)
      → IsSound mq
      → IsAdmissible mq.queue_sort_func_map e
      → Yields (IsNext mq) (handle mq e)
  unfolding update_queue delete_queue add_queue_unit update_queue_unit delete_queue_unit
  handle-IsNext mq (queue_added q) s (added known) = yields (add_queue-IsNext mq q _ s known)
  handle-IsNext mq (queue_updated old new) s (updated known) =
      yields (update-IsSound mq old new _ s known, update_policies mq old new)
  handle-IsNext mq (queue_deleted q) s deleted =
      yields (delete-IsSound mq q s, delete_policies mq q)
  handle-IsNext mq (unit_added u now later) s (joined e) =
      on_queue-IsNext mq u _ s e λ q sound. add-IsNow sound.weak q sound.valid u now later
  handle-IsNext mq (unit_updated old new now later) s (changed e) =
      on_queue-IsNext mq new _ s e
        λ q sound. update-IsNow sound.weak q sound.valid old new now later
  handle-IsNext mq (unit_deleted u) s (left e) =
      on_queue-IsNext mq u _ s e λ q sound. delete-IsNow sound.weak q sound.valid u

  -- Any sequence of admissible events (queues with a policy that the framework knows, units with a
  -- consumer) on sound queues ends without a panic and leaves sound queues and the same policies.
  -- Sound: every known policy is a strict weak order, and each queue has one, is valid, stands
  -- under its name, has been started exactly if it is marked so, and has no channel to stop it.
  pub handle_all-IsNext :
      (mq : MultiSchedulingQueue Q) (es : List (Event Q))
      → IsSound mq
      → AreAdmissible mq.queue_sort_func_map es
      → Yields (IsNext mq) (handle_all mq es)
  handle_all-IsNext mq [] s none_left = yields (s, refl)
  handle_all-IsNext mq (e ∷ es) s (next a rest) =
      Yields-bind (handle-IsNext mq e s a) λ mq' (s', same).
        Yields-weaken (handle_all-IsNext mq' es s' (rw same rest))
          λ mq'' (s'', same'). (s'', same' ∙ same)
