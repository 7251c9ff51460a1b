-- ===== src/System/Loop.antt =====
-- What the loop of the scheduler and its goroutines keep of the invariant.
use mathlib.Core.Path.{subst}
use kube_queue.SchedulingQueue.{PrioritySchedulingQueue}
use kube_queue.Base.{
  ℕ, Bool, true, false, none, some, [], ◌∷◌, ◌++◌, length, get_elem?, set, length-append,
  get_elem?-set, get_elem?-append, lt_of_get_elem?, get_elem?-some, ite, ℕ_discrete, if◌then◌else◌,
  ◌≡◌, Result, arith, Bool-cases, inl, inr, Yields, yields, Yields-bind,
}
use kube_queue.Framework.{QueueUnit, QueueUnitInfo, Status, Time, is_success}
use kube_queue.Runtime.{run_reserve_plugins_reserve}
use kube_queue.System.State.{
  Position, looping, filtering, reserving, failing, Goroutine, dequeuing, Setup, System,
}
use kube_queue.System.Rounds.{addresses, begin, current, pass_filters, reserve_unit, put_on, store}
use kube_queue.System.Objects.{AnswersHaveConsumers, error_func-IsKeptObject}
use kube_queue.System.Invariant.{
  IsSoundPosition, IsSoundGoroutine, IsSoundControl, IsSoundSystem, IsSoundSetup,
}
use kube_queue.System.Addresses.{addresses-AreEntered, IsAssigned}
use kube_queue.System.Kept.{set-IsSoundSystem}
use kube_queue.System.Variables.{append-StaySet, StaySet-IsSoundGoroutine}

module _ {ℓ} {Q S : Type ℓ} (setup : Setup Q S) (ok_setup : IsSoundSetup setup) (s : System Q S)
    (inv : IsSoundSystem s) where
  pub begin-IsSoundSystem : s.position ≡ looping → IsSoundSystem (begin setup s)
  unfolding begin
  begin-IsSoundSystem stands = record {
    heap = inv.heap;
    calls = inv.calls;
    below = record {
      todo_below = λ n i e.
          let (m, there) = ok_setup.sorts _ _ (addresses s.queue_map) n i e in
          addresses-AreEntered (length s.objects) s.queue_map m i inv.heap.entered there;
      variables_below = λ r i e.
          inv.below.variables_below r i (ground (arith, get_elem?-append s.variables none r));
    };
    control = record {
      opened = λ n i e. omega (arith, length-append s.variables (none ∷ []));
      stands = rw stands tt;
      waits = λ j g e.
          StaySet-IsSoundGoroutine _ _ g (append-StaySet s.variables) (inv.control.waits j g e);
    };
  }

  -- The loop moves to another position, and the plugins change.
  pub move-IsSoundSystem :
      (plugins : S) (position : Position Q)
      → IsSoundPosition s.variables position
      → IsSoundSystem (record s { plugins = plugins; position = position })
  move-IsSoundSystem plugins position at = record {
    heap = inv.heap;
    calls = inv.calls;
    below = inv.below;
    control = record { opened = inv.control.opened; stands = at; waits = inv.control.waits };
  }

  filter-IsSoundPosition :
      (u : QueueUnitInfo Q) (b : Bool)
      → IsAssigned s.variables (current s)
      → IsSoundPosition s.variables (if b then reserving u else failing u)
  filter-IsSoundPosition u true is_set = is_set
  filter-IsSoundPosition u false is_set = is_set

  pub pass_filters-IsSoundSystem :
      (u : QueueUnitInfo Q)
      → s.position ≡ filtering u
      → Yields IsSoundSystem (pass_filters setup s u)
  unfolding pass_filters
  pass_filters-IsSoundSystem u stands =
      let (is_set, has) = subst (IsSoundPosition s.variables) stands inv.control.stands in
      let (status, answer) = ok_setup.filters s.plugins u has in
      rw answer (
        yields (
          move-IsSoundSystem s.plugins _
            (filter-IsSoundPosition u (is_success status.code) is_set)))

  -- A goroutine starts or goes on.
  append-waits :
      (g : Goroutine Q)
      → IsSoundGoroutine s.variables g
      → IsSoundControl s.todo looping s.variables (s.goroutines ++ g ∷ [])
  append-waits g sound = record {
    opened = inv.control.opened;
    stands = tt;
    waits = λ j g' e. elim (ℕ_discrete (length s.goroutines) j) [
      | yes same ↦
          let goroutine_is : g ≡ g' = ground (arith, get_elem?-append s.goroutines g j) in
          rw (← goroutine_is) sound
      | no other ↦ inv.control.waits j g' (ground (arith, get_elem?-append s.goroutines g j))
    ];
  }

  pub set-waits :
      (plugins : S) (i : ℕ) (before g : Goroutine Q)
      → get_elem? s.goroutines i ≡ some before
      → IsSoundGoroutine s.variables g
      → IsSoundSystem (record s { plugins = plugins; goroutines = set s.goroutines i g })
  set-waits plugins i before g there sound = record {
    heap = inv.heap;
    calls = inv.calls;
    below = inv.below;
    control = record {
      opened = inv.control.opened;
      stands = inv.control.stands;
      waits = λ j g' e. elim (ℕ_discrete i j) [
        | yes same ↦ let goroutine_is : g ≡ g' = ground (arith, now j) in rw (← goroutine_is) sound
        | no other ↦ inv.control.waits j g' (ground (arith, now j))
      ];
    };
  }
    where
      now :
          (j : ℕ)
          → get_elem? (set s.goroutines i g) j
            ≡ ite (ℕ_discrete i j) (some g) (get_elem? s.goroutines j)
      now j = get_elem?-set s.goroutines i j g (lt_of_get_elem? s.goroutines i there)

  pub reserve_unit-IsSoundSystem :
      (u : QueueUnitInfo Q) → s.position ≡ reserving u → IsSoundSystem (reserve_unit setup s u)
  unfolding reserve_unit
  reserve_unit-IsSoundSystem u stands = elim (Bool-cases (is_success status.code)) [
    | inl good ↦
        rw (good, reserve_unit)
          (record {
            heap = inv.heap;
            calls = inv.calls;
            below = inv.below;
            control = append-waits (dequeuing (current s) u) is_set;
          })
    | inr bad ↦ rw (bad, reserve_unit) (move-IsSoundSystem plugins (failing u) is_set)
  ]
    where
      is_set : IsAssigned s.variables (current s)
      is_set = subst (IsSoundPosition s.variables) stands inv.control.stands

      plugins : S
      plugins = (run_reserve_plugins_reserve setup.fw s.plugins u).0

      status : Status
      status = (run_reserve_plugins_reserve setup.fw s.plugins u).1

  pub put_on-IsSoundSystem :
      (i : ℕ) (q : PrioritySchedulingQueue Q) (u : QueueUnitInfo Q)
      (get : QueueUnit Q → Result (QueueUnit Q)) (now : Time)
      → get_elem? s.objects i ≡ some q
      → AnswersHaveConsumers get
      → Yields IsSoundSystem (put_on s i q u get now)
  unfolding put_on
  put_on-IsSoundSystem i q u get now there have =
      Yields-bind (error_func-IsKeptObject q (inv.heap.sound i q there) get now u have)
        λ q' kept. yields (set-IsSoundSystem setup ok_setup s inv i q q' there kept)

  pub store-IsSoundSystem :
      (r : ℕ) (u : QueueUnitInfo Q) (get : QueueUnit Q → Result (QueueUnit Q)) (now : Time)
      → IsAssigned s.variables r
      → AnswersHaveConsumers get
      → Yields IsSoundSystem (store s r u get now)
  unfolding store
  store-IsSoundSystem r u get now (i, set_to) have =
      let (q, there) = get_elem?-some s.objects i (inv.below.variables_below r i set_to) in
      rw (set_to, there, store) (put_on-IsSoundSystem i q u get now there have)
