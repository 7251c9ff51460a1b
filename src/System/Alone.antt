-- ===== src/System/Alone.antt =====
-- A queue of a round, step by step with nothing in between, against schedule_queue, which is the
-- same code as one function.
use kube_queue.Base.{
  ℕ, zero, suc, ◌-◌, ◌<◌, Option, none, some, List, [], ◌∷◌, ◌++◌, Dict, length, get_elem?, set,
  length-set, get_elem?-set, if◌then◌else◌, ltb, ◌≡◌, refl, ap, Result, arith, Bool-cases, inl, inr,
  Outcome, value, panic, out_of_fuel, ◌>>=◌,
}
use kube_queue.Framework.{QueueUnit, QueueUnitInfo, Status, Time, is_success}
use kube_queue.SchedulingQueue
use kube_queue.SchedulingQueue.{PrioritySchedulingQueue}
use kube_queue.Runtime.{run_filter_plugins, run_reserve_plugins_reserve}
use kube_queue.Scheduler.{Scheduled, error_func, after_reserve, after_filter, schedule_queue}
use kube_queue.Scheduler
use kube_queue.System.State.{
  Handler, Position, looping, filtering, reserving, failing, Goroutine, dequeuing, visited, popped,
  filtered, reserved, put_back, Setup, System,
}
use kube_queue.System.Rounds.{visit, pop_head, pass_filters, reserve_unit, store, schedule_step}
use kube_queue.System.Step.{step, run}

-- Two ways to go on after the same call.
bind-through {ℓ κ} :
    {A : Type κ} {B C D : Type ℓ} (m : Outcome A) (f : A → Outcome B) (g : B → Outcome D)
    (f' : A → Outcome C) (g' : C → Outcome D)
    → ((a : A) → (f a >>= g) ≡ (f' a >>= g'))
    → ((m >>= f) >>= g) ≡ ((m >>= f') >>= g')
bind-through panic f g f' g' same = refl
bind-through out_of_fuel f g f' g' same = refl
bind-through (value a) f g f' g' same = same a

set_twice {ℓ} : {A : Type ℓ} (xs : List A) (i : ℕ) (x y : A) → set (set xs i x) i y ≡ set xs i y
set_twice [] i x y = refl
set_twice (z ∷ xs) zero x y = refl
set_twice (z ∷ xs) (suc i) x y = ap (λ ys. z ∷ ys) (set_twice xs i x y)

set_same {ℓ} :
    {A : Type ℓ} (xs : List A) (i : ℕ) (x : A) → get_elem? xs i ≡ some x → set xs i x ≡ xs
set_same [] i x e = refl
set_same (z ∷ xs) zero x e = ground (arith, e)
set_same (z ∷ xs) (suc i) x e = ap (λ ys. z ∷ ys) (set_same xs i x e)

module _ {ℓ} {Q S : Type ℓ} (setup : Setup Q S) (objects : List (PrioritySchedulingQueue Q))
    (queue_map : Dict ℕ) (handlers : List (Handler Q)) (rest : List ℕ) (variables : List (Option ℕ))
    (goroutines : List (Goroutine Q)) (i : ℕ) where
  -- The program with the loop at a position, before and after the loop variable is set.
  abbrev pub before : S → System Q S
  before plugins = record {
    objects = objects;
    queue_map = queue_map;
    handlers = handlers;
    plugins = plugins;
    position = looping;
    todo = i ∷ rest;
    variables = variables;
    goroutines = goroutines;
  }

  abbrev pub after : PrioritySchedulingQueue Q → S → Position Q → List (Goroutine Q) → System Q S
  after q plugins position running = record {
    objects = set objects i q;
    queue_map = queue_map;
    handlers = handlers;
    plugins = plugins;
    position = position;
    todo = rest;
    variables = set variables (length variables - 1) (some i);
    goroutines = running;
  }

  -- The goroutine of the unit that a round has dequeued.
  abbrev pub started : Option (QueueUnitInfo Q) → List (Goroutine Q)
  started none = goroutines
  started (some u) = goroutines ++ dequeuing (length variables - 1) u ∷ []

  -- What a round leaves, in the state of the program.
  abbrev pub left_by : Scheduled Q S → System Q S
  left_by r = after r.queue r.plugins looping (started r.dequeued)

  -- The queue and the unit that ErrorFunc leaves, in the state of the program.
  store_ends :
      (m : Outcome (PrioritySchedulingQueue Q)) (q : PrioritySchedulingQueue Q) (plugins : S)
      (u : QueueUnitInfo Q)
      → (((m >>= (λ q'. value (record (after q plugins (failing u) goroutines) {
        objects = set (set objects i q) i q';
      })))
            >>= (λ s'. value (record s' { position = looping })))
          >>= (λ s'. value s'))
        ≡ ((m >>= (λ q'. value (record { queue = q'; plugins = plugins; dequeued = none })))
            >>= (λ r. value (left_by r)))
  store_ends panic q plugins u = refl
  store_ends out_of_fuel q plugins u = refl
  store_ends (value q') q plugins u = rw (set_twice objects i q q') refl

  module _ (get : QueueUnit Q → Result (QueueUnit Q)) (now : Time) (inside : i < length objects)
      (opened : 0 < length variables) where
    variable :
        get_elem? (set variables (length variables - 1) (some i)) (length variables - 1)
        ≡ some (some i)
    variable = ground (
      arith,
      opened,
      get_elem?-set variables (length variables - 1) (length variables - 1) (some i),
    )

    put_back-run :
        (q : PrioritySchedulingQueue Q) (plugins : S) (u : QueueUnitInfo Q)
        → run setup (put_back get now ∷ []) (after q plugins (failing u) goroutines)
          ≡ (Scheduler.put_back get now u q plugins >>= λ r. value (left_by r))
    unfolding run step schedule_step store Scheduler.put_back
    put_back-run q plugins u =
        rw (length-set variables (length variables - 1) (some i), variable, object)
          (store_ends (error_func get now u q) q plugins u)
      where
        object : get_elem? (set objects i q) i ≡ some q
        object = ground (arith, get_elem?-set objects i i q inside)

    -- The reserve plugins.
    reserved-run :
        (q : PrioritySchedulingQueue Q) (plugins : S) (u : QueueUnitInfo Q)
        → run setup (reserved ∷ put_back get now ∷ []) (after q plugins (reserving u) goroutines)
          ≡ (after_reserve get now u q (run_reserve_plugins_reserve setup.fw plugins u) >>= λ r.
              value (left_by r))
    unfolding run step schedule_step reserve_unit after_reserve
    reserved-run q plugins u =
        elim (Bool-cases (is_success (run_reserve_plugins_reserve setup.fw plugins u).1.code)) [
          | inl good ↦
              rw (good, after_reserve)
                (rw (length-set variables (length variables - 1) (some i)) refl)
          | inr bad ↦
              rw (bad, after_reserve)
                (put_back-run q (run_reserve_plugins_reserve setup.fw plugins u).0 u)
        ]

    -- The loop after the filters.
    passed-run :
        (q : PrioritySchedulingQueue Q) (plugins : S) (u : QueueUnitInfo Q) (status : Status)
        → run setup
            (reserved ∷ put_back get now ∷ [])
            (after q plugins (if is_success status.code then reserving u else failing u) goroutines)
          ≡ (after_filter setup.fw get now u q plugins status >>= (λ r. value (left_by r)))
    unfolding run step schedule_step after_filter
    passed-run q plugins u status = elim (Bool-cases (is_success status.code)) [
      | inl good ↦ rw (good, after_filter) (reserved-run q plugins u)
      | inr bad ↦ rw (bad, after_filter) (put_back-run q plugins u)
    ]

    filtered-run :
        (q : PrioritySchedulingQueue Q) (plugins : S) (u : QueueUnitInfo Q)
        → run setup
            (filtered ∷ reserved ∷ put_back get now ∷ [])
            (after q plugins (filtering u) goroutines)
          ≡ ((run_filter_plugins setup.fw plugins u
                >>= (λ status. after_filter setup.fw get now u q plugins status))
              >>= (λ r. value (left_by r)))
    unfolding run step schedule_step pass_filters
    filtered-run q plugins u =
        bind-through (run_filter_plugins setup.fw plugins u) _ _ _ _ (passed-run q plugins u)

    -- Where no other step comes in between, the steps of the loop for one queue, which are those
    -- that take the loop variable, that pop, that filter, that reserve and that put back, end as
    -- schedule_queue does on the queue, with its queue, its plugins and the goroutine of the unit
    -- that it dequeued in the state of the program.
    pub schedule_queue-run :
        (q : PrioritySchedulingQueue Q) (plugins : S)
        → get_elem? objects i ≡ some q
        → run setup
            (visited ∷ popped ∷ filtered ∷ reserved ∷ put_back get now ∷ [])
            (before plugins)
          ≡ (schedule_queue setup.fw get now q plugins >>= (λ r. value (left_by r)))
    unfolding run step schedule_step visit pop_head schedule_queue
    schedule_queue-run q plugins there = elim (Bool-cases (ltb 0 (SchedulingQueue.len q))) [
      | inl busy ↦
          rw (there, busy, schedule_queue)
            (rw (length-set variables (length variables - 1) (some i), variable, there)
              (bind-through (SchedulingQueue.pop q) _ _ _ _
                λ (u, err, q'). filtered-run q' plugins u))
      | inr idle ↦ rw (there, idle, schedule_queue) (rw (set_same objects i q there) refl)
    ]
