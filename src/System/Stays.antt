-- ===== src/System/Stays.antt =====
-- The steps under which the goroutines and the position of the loop of pkg/scheduler/scheduler.go
-- stay.
use kube_queue.Base.{
  ℕ, Option, none, some, List, lookup, get_elem?, ltb, Option-cases, Bool-cases, Result, ◌≡◌, refl,
  inl, inr, Outcome, panic, out_of_fuel, value, or_panic, ◌>>=◌,
}
use kube_queue.Framework.{Queue, QueueUnit, QueueUnitInfo, Time}
use kube_queue.SchedulingQueue
use kube_queue.SchedulingQueue.{PrioritySchedulingQueue, flush_backoff_q_completed}
use kube_queue.Controller.Events.{
  Event, queue_added, queue_updated, queue_deleted, unit_added, unit_updated, unit_deleted,
}
use kube_queue.Runtime.{run_filter_plugins}
use kube_queue.Scheduler.{error_func}
use kube_queue.System.State.{Method, calling, returned, called, Setup, System}
use kube_queue.System.Handlers.{
  allocate, add_queue, find_mapped, on_unit, handle, call_method, call_handler, tick,
}
use kube_queue.System.Rounds.{current, visit, pop_head, pass_filters, put_on, store}
use kube_queue.System.Step.{step}

-- If the call ends with a value, `P` holds of it.
abbrev pub IfValue {ℓ κ} : {A : Type ℓ} → (A → Type κ) → Outcome A → Type κ
IfValue P panic = Unit {κ}
IfValue P out_of_fuel = Unit {κ}
IfValue P (value a) = P a

pub IfValue-bind {ℓ ℓ' κ} :
    {A : Type ℓ} {B : Type ℓ'} (P : B → Type κ) (m : Outcome A) (k : A → Outcome B)
    → ((a : A) → IfValue P (k a))
    → IfValue P (m >>= k)
IfValue-bind P panic k holds = tt
IfValue-bind P out_of_fuel k holds = tt
IfValue-bind P (value a) k holds = holds a

module _ {ℓ} {Q S : Type ℓ} where
  -- The goroutines and the position of the loop stay.
  abbrev pub StaysHeld : System Q S → System Q S → Type ℓ
  StaysHeld s s' = (s'.goroutines ≡ s.goroutines) × (s'.position ≡ s.position)

  module _ (setup : Setup Q S) (s : System Q S) where
    find_mapped-StaysHeld : (found : Option ℕ) (m : Method Q) → StaysHeld s (find_mapped s found m)
    unfolding find_mapped
    find_mapped-StaysHeld none m = (refl, refl)
    find_mapped-StaysHeld (some i) m = (refl, refl)

    on_unit-StaysHeld :
        (unit : QueueUnit Q) (m : Method Q) → IfValue (StaysHeld s) (on_unit s unit m)
    unfolding on_unit
    on_unit-StaysHeld unit m =
        IfValue-bind (StaysHeld s) (or_panic unit.consumer_ref) _
          λ consumer. find_mapped-StaysHeld _ m

    add_queue-StaysHeld : (queue : Queue) → StaysHeld s (add_queue setup s queue)
    unfolding add_queue allocate
    add_queue-StaysHeld queue = elim (Option-cases (lookup queue.namespace s.queue_map)) [
      | inl out ↦ rw (out, add_queue) (refl, refl)
      | inr (i, there) ↦ rw (there, add_queue) (refl, refl)
    ]

    pub handle-StaysHeld : (e : Event Q) → IfValue (StaysHeld s) (handle setup s e)
    unfolding handle allocate
    handle-StaysHeld (queue_added q) = add_queue-StaysHeld q
    handle-StaysHeld (queue_updated old new) = (refl, refl)
    handle-StaysHeld (queue_deleted q) = (refl, refl)
    handle-StaysHeld (unit_added u now later) = on_unit-StaysHeld u _
    handle-StaysHeld (unit_updated old new now later) = on_unit-StaysHeld new _
    handle-StaysHeld (unit_deleted u) = on_unit-StaysHeld u _

    pub called-StaysHeld : (j : ℕ) → IfValue (StaysHeld s) (step setup (called j) s)
    unfolding step call_handler
    called-StaysHeld j = elim (Option-cases (get_elem? s.handlers j)) [
      | inl out ↦ rw (out, step) (refl, refl)
      | inr (returned, there) ↦ rw (there, step) (refl, refl)
      | inr (calling i m, there) ↦
          rw (there, step)
            (IfValue-bind (StaysHeld s) (or_panic (get_elem? s.objects i)) _
              λ q. IfValue-bind (StaysHeld s) (call_method m q) _ λ r. (refl, refl))
    ]

    pub tick-StaysHeld : (i : ℕ) (clock : ℕ → Time) → IfValue (StaysHeld s) (tick s i clock)
    unfolding tick
    tick-StaysHeld i clock = elim (Option-cases (get_elem? s.objects i)) [
      | inl out ↦ rw (out, tick) (refl, refl)
      | inr (q, there) ↦ elim (Bool-cases (ltb 0 q.flushers)) [
        | inl runs ↦
            rw (there, runs, tick)
              (IfValue-bind (StaysHeld s) (flush_backoff_q_completed clock q) _ λ q'. (refl, refl))
        | inr idle ↦ rw (there, idle, tick) (refl, refl)
      ]
    ]

    -- The goroutines stay.
    abbrev pub StayRunning : System Q S → Type ℓ
    StayRunning s' = s'.goroutines ≡ s.goroutines

    pub visit-StayRunning : (i : ℕ) (rest : List ℕ) → IfValue StayRunning (visit s i rest)
    unfolding visit
    visit-StayRunning i rest = IfValue-bind StayRunning (or_panic (get_elem? s.objects i)) _ λ q.
        elim (Bool-cases (ltb 0 (SchedulingQueue.len q))) [
          | inl busy ↦ rw busy refl
          | inr idle ↦ rw idle refl
        ]

    pub pop_head-StayRunning : IfValue StayRunning (pop_head s)
    unfolding pop_head
    pop_head-StayRunning =
        IfValue-bind StayRunning (or_panic (get_elem? s.variables (current s))) _ λ variable.
          IfValue-bind StayRunning (or_panic variable) _ λ i.
            IfValue-bind StayRunning (or_panic (get_elem? s.objects i)) _
              λ q. IfValue-bind StayRunning (SchedulingQueue.pop q) _ λ r. refl

    pub pass_filters-StayRunning :
        (u : QueueUnitInfo Q) → IfValue StayRunning (pass_filters setup s u)
    unfolding pass_filters
    pass_filters-StayRunning u =
        IfValue-bind StayRunning (run_filter_plugins setup.fw s.plugins u) _ λ status. refl

    pub store-StayRunning :
        (r : ℕ) (u : QueueUnitInfo Q) (get : QueueUnit Q → Result (QueueUnit Q)) (now : Time)
        → IfValue (StaysHeld s) (store s r u get now)
    unfolding store put_on
    store-StayRunning r u get now =
        IfValue-bind (StaysHeld s) (or_panic (get_elem? s.variables r)) _ λ variable.
          IfValue-bind (StaysHeld s) (or_panic variable) _ λ i.
            IfValue-bind (StaysHeld s) (or_panic (get_elem? s.objects i)) _
              λ q. IfValue-bind (StaysHeld s) (error_func get now u q) _ λ q'. (refl, refl)
