-- ===== src/System/Busy.antt =====
-- Queues with a unit, and the position of the loop, under the handlers, the flushes and the
-- goroutines.
use kube_queue.Base.{
  ℕ, Option, none, some, List, [], ◌∷◌, ◌++◌, Dict, lookup, get_elem?, set, get_elem?-set,
  get_elem?-append, get_elem?-some, lt_of_get_elem?, ltb, ℕ_discrete, Option-cases, ◌≡◌, refl, sym,
  ◌∙◌, arith, inl, inr, String, Yields, yields, Yields-bind, Yields-if, Result,
}
use kube_queue.Framework.{Queue, QueueUnit, ObjectReference, QueueUnitInfo, Time}
use kube_queue.SchedulingQueue
use kube_queue.SchedulingQueue.{PrioritySchedulingQueue}
use kube_queue.MultiSchedulingQueue.{run_queue}
use kube_queue.Controller.Events.{
  Event, queue_added, queue_updated, queue_deleted, unit_added, unit_updated, unit_deleted,
  IsAdmissible, added, updated, deleted, joined, changed, left,
}
use kube_queue.Scheduler.{dequeue}
use kube_queue.System.State.{
  Method, adding, updating, deleting, Handler, calling, returned, Goroutine, dequeuing, unreserving,
  storing, putting, finished, Setup, System,
}
use kube_queue.System.Handlers.{
  run_objects, allocate, add_queue, find_mapped, on_unit, handle, call_method, call_handler, tick,
}
use kube_queue.System.Rounds.{current, put_on, run_goroutine}
use kube_queue.System.Invariant.{IsSoundSystem}
use kube_queue.System.Popping.{PopsUnit}
use kube_queue.System.Objects.{IsSoundObject}
use kube_queue.System.Units.{
  StaysBusy, add-StaysBusy, update-StaysBusy, flush-StaysBusy, error_func-StaysBusy,
}

module _ {ℓ} {Q : Type ℓ} where
  -- Every queue that has a unit still has one.
  abbrev pub StayBusy : List (PrioritySchedulingQueue Q) → List (PrioritySchedulingQueue Q) → Type ℓ
  StayBusy objects objects' =
      (i : ℕ) (q q' : PrioritySchedulingQueue Q)
      → get_elem? objects i ≡ some q
      → get_elem? objects' i ≡ some q'
      → StaysBusy q q'

  same-StayBusy : (objects : List (PrioritySchedulingQueue Q)) → StayBusy objects objects
  same-StayBusy objects i q q' there there' busy =
      let queue_is : q ≡ q' = ground arith in rw (← queue_is) busy

  set-StayBusy :
      (objects objects' : List (PrioritySchedulingQueue Q)) (k : ℕ)
      (x x' : PrioritySchedulingQueue Q)
      → StayBusy objects objects'
      → get_elem? objects' k ≡ some x
      → StaysBusy x x'
      → StayBusy objects (set objects' k x')
  set-StayBusy objects objects' k x x' stay here stays i q q' there there' busy =
      let now = get_elem?-set objects' k i x' (lt_of_get_elem? objects' k here) in
      elim (ℕ_discrete k i) [
        | yes same ↦
            let new_is : x' ≡ q' = ground (arith, now) in
            rw (← new_is) (stays (stay i q x there (ground arith) busy))
        | no other ↦ stay i q q' there (ground (arith, now)) busy
      ]

  append-StayBusy :
      (objects : List (PrioritySchedulingQueue Q)) (x : PrioritySchedulingQueue Q)
      → StayBusy objects (objects ++ x ∷ [])
  append-StayBusy objects x i q q' there there' busy =
      let queue_is : q ≡ q' =
        ground (arith, get_elem?-append objects x i, lt_of_get_elem? objects i there) in
      rw (← queue_is) busy

  run_queue-StaysBusy : (q : PrioritySchedulingQueue Q) → StaysBusy q (run_queue q)
  unfolding run_queue SchedulingQueue.start SchedulingQueue.set_run_status SchedulingQueue.len
  run_queue-StaysBusy q busy = ground (arith, busy)

  run_objects-StayBusy :
      (d : Dict ℕ) (objects objects' : List (PrioritySchedulingQueue Q))
      → StayBusy objects objects'
      → StayBusy objects (run_objects d objects')
  unfolding run_objects
  run_objects-StayBusy [] objects objects' stay = stay
  run_objects-StayBusy ((k, j) ∷ d) objects objects' stay =
      elim (Option-cases (get_elem? objects' j)) [
        | inl out ↦ rw (out, run_objects) (run_objects-StayBusy d objects objects' stay)
        | inr (x, there) ↦
            rw (there, run_objects)
              (run_objects-StayBusy d objects (set objects' j (run_queue x)) (
                set-StayBusy objects objects' j x (run_queue x) stay there (run_queue-StaysBusy x)))
      ]

  -- A method of a handler other than Delete.
  abbrev pub IsNoDelete : Handler Q → Type 0
  IsNoDelete (calling i (deleting u)) = ⊥
  IsNoDelete _ = Unit {0}

module _ {ℓ} {Q S : Type ℓ} where
  -- The queues with a unit still have one, and the loop stands where it stood.
  abbrev pub KeepsUnits : System Q S → System Q S → Type ℓ
  KeepsUnits s s' =
      StayBusy s.objects s'.objects × (s'.position ≡ s.position) × (s'.variables ≡ s.variables)

  module _ (s : System Q S) (inv : IsSoundSystem s) where
    pub KeepsUnits-PopsUnit : (s' : System Q S) → PopsUnit s → KeepsUnits s s' → PopsUnit s'
    KeepsUnits-PopsUnit s' pops (stay, same_position, same_variables) i q' stands set_to there' =
        let read : get_elem? s.variables (current s) ≡ some (some i) =
          rw (← same_variables) set_to in
        let (q, there) = get_elem?-some s.objects i (inv.below.variables_below _ i read) in
        stay i q q' there there' (pops i q (sym same_position ∙ stands) read there)

    set-KeepsUnits :
        (i : ℕ) (q q' : PrioritySchedulingQueue Q)
        → get_elem? s.objects i ≡ some q
        → StaysBusy q q'
        → KeepsUnits s (record s { objects = set s.objects i q' })
    set-KeepsUnits i q q' there stays =
        (set-StayBusy s.objects s.objects i q q' (same-StayBusy s.objects) there stays, refl, refl)

    allocate-KeepsUnits :
        (setup : Setup Q S) (queue : Queue) → KeepsUnits s (allocate setup s queue)
    unfolding allocate
    allocate-KeepsUnits setup queue = (append-StayBusy s.objects _, refl, refl)

    add_queue-KeepsUnits :
        (setup : Setup Q S) (queue : Queue) → KeepsUnits s (add_queue setup s queue)
    unfolding add_queue allocate
    add_queue-KeepsUnits setup queue = elim (Option-cases (lookup queue.namespace s.queue_map)) [
      | inr (i, there) ↦ rw (there, add_queue) (same-StayBusy s.objects, refl, refl)
      | inl out ↦
          rw (out, add_queue)
            (run_objects-StayBusy _ s.objects _ (append-StayBusy s.objects _), refl, refl)
    ]

    find_mapped-KeepsUnits :
        (found : Option ℕ) (m : Method Q) → KeepsUnits s (find_mapped s found m)
    unfolding find_mapped
    find_mapped-KeepsUnits none m = (same-StayBusy s.objects, refl, refl)
    find_mapped-KeepsUnits (some i) m = (same-StayBusy s.objects, refl, refl)

    on_unit-KeepsUnits :
        (unit : QueueUnit Q) {consumer : ObjectReference} (m : Method Q)
        → unit.consumer_ref ≡ some consumer
        → Yields (KeepsUnits s) (on_unit s unit m)
    unfolding on_unit
    on_unit-KeepsUnits unit m known = rw (known, on_unit) (yields (find_mapped-KeepsUnits _ m))

    pub handle-KeepsUnits :
        (setup : Setup Q S) (e : Event Q)
        → IsAdmissible setup.queue_sort_func_map e
        → Yields (KeepsUnits s) (handle setup s e)
    unfolding handle
    handle-KeepsUnits setup (queue_added q) (added known) = yields (add_queue-KeepsUnits setup q)
    handle-KeepsUnits setup (queue_updated old new) (updated known) =
        yields (allocate-KeepsUnits setup new)
    handle-KeepsUnits setup (queue_deleted q) deleted = yields (same-StayBusy s.objects, refl, refl)
    handle-KeepsUnits setup (unit_added u now later) (joined e) = on_unit-KeepsUnits u _ e
    handle-KeepsUnits setup (unit_updated old new now later) (changed e) =
        on_unit-KeepsUnits new _ e
    handle-KeepsUnits setup (unit_deleted u) (left e) = on_unit-KeepsUnits u _ e

    call_method-StaysBusy :
        (i : ℕ) (m : Method Q) (q : PrioritySchedulingQueue Q)
        → IsSoundObject q
        → IsNoDelete (calling i m)
        → Yields (λ r. StaysBusy q r.0) (call_method m q)
    unfolding call_method
    call_method-StaysBusy i (adding u now later) q sound keeps = add-StaysBusy q sound u now later
    call_method-StaysBusy i (updating old new now later) q sound keeps =
        update-StaysBusy q sound old new now later
    call_method-StaysBusy i (deleting u) q sound keeps = absurd keeps

    pub call_handler-KeepsUnits :
        (j : ℕ) (h : Handler Q)
        → get_elem? s.handlers j ≡ some h
        → IsNoDelete h
        → Yields (KeepsUnits s) (call_handler s j h)
    unfolding call_handler
    call_handler-KeepsUnits j (calling i m) waits keeps =
        let (below, has) = inv.calls j i m waits in
        let (q, there) = get_elem?-some s.objects i below in
        rw (there, call_handler)
          (Yields-bind (call_method-StaysBusy i m q (inv.heap.sound i q there) keeps)
            λ (q', err) stays. yields (set-KeepsUnits i q q' there stays))
    call_handler-KeepsUnits j returned waits keeps = yields (same-StayBusy s.objects, refl, refl)

    pub tick-KeepsUnits : (i : ℕ) (clock : ℕ → Time) → Yields (KeepsUnits s) (tick s i clock)
    unfolding tick
    tick-KeepsUnits i clock = elim (Option-cases (get_elem? s.objects i)) [
      | inl out ↦ rw (out, tick) (yields (same-StayBusy s.objects, refl, refl))
      | inr (q, there) ↦
          rw (there, tick)
            (Yields-if (ltb 0 q.flushers)
              (λ _.
                Yields-bind (flush-StaysBusy q (inv.heap.sound i q there) clock)
                  λ q' stays. yields (set-KeepsUnits i q q' there stays))
              λ _. yields (same-StayBusy s.objects, refl, refl))
    ]

    put_on-KeepsUnits :
        (goroutines : List (Goroutine Q)) (i : ℕ) (q : PrioritySchedulingQueue Q)
        (u : QueueUnitInfo Q) (get : QueueUnit Q → Result (QueueUnit Q)) (now : Time)
        → get_elem? s.objects i ≡ some q
        → Yields (KeepsUnits s) (put_on (record s { goroutines = goroutines }) i q u get now)
    unfolding put_on
    put_on-KeepsUnits goroutines i q u get now there =
        Yields-bind (error_func-StaysBusy q (inv.heap.sound i q there) get now u)
          λ q' stays. yields (set-KeepsUnits i q q' there stays)

    pub run_goroutine-KeepsUnits :
        (setup : Setup Q S) (j : ℕ) (g : Goroutine Q) (get : QueueUnit Q → Result (QueueUnit Q))
        (update : QueueUnit Q → Option String) (now : Time)
        → get_elem? s.goroutines j ≡ some g
        → Yields (KeepsUnits s) (run_goroutine setup s j g get update now)
    unfolding run_goroutine
    run_goroutine-KeepsUnits setup j (dequeuing r u) get update now there =
        elim (Option-cases (dequeue get update u.unit)) [
          | inl done ↦ rw (done, run_goroutine) (yields (same-StayBusy s.objects, refl, refl))
          | inr (err, failure) ↦
              rw (failure, run_goroutine) (yields (same-StayBusy s.objects, refl, refl))
        ]
    run_goroutine-KeepsUnits setup j (unreserving r u) get update now there =
        yields (same-StayBusy s.objects, refl, refl)
    run_goroutine-KeepsUnits setup j (storing r u) get update now there =
        let (i, set_to) = inv.control.waits j _ there in
        rw (set_to, run_goroutine) (yields (same-StayBusy s.objects, refl, refl))
    run_goroutine-KeepsUnits setup j (putting i u) get update now there =
        elim (Option-cases (get_elem? s.objects i)) [
          | inl out ↦ rw (out, run_goroutine) (yields (same-StayBusy s.objects, refl, refl))
          | inr (q, held) ↦ rw (held, run_goroutine) (put_on-KeepsUnits _ i q u get now held)
        ]
    run_goroutine-KeepsUnits setup j finished get update now there =
        yields (same-StayBusy s.objects, refl, refl)
