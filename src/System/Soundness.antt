-- ===== src/System/Soundness.antt =====
-- The invariant of the program under each step.
use mathlib.Core.Path.{subst}
use kube_queue.Base.{
  ℕ, String, Option, some, List, [], ◌∷◌, get_elem?, set, ◌≡◌, refl, Result, Option-cases, inl, inr,
  value, ◌>>=◌, Yields, yields, Yields-bind, Yields-weaken,
}
use kube_queue.Framework.{QueueUnit, QueueUnitInfo, Time}
use kube_queue.Scheduler.{dequeue}
use kube_queue.System.State.{
  Position, looping, popping, filtering, reserving, failing, Goroutine, dequeuing, unreserving,
  storing, putting, finished, Label, handled, dequeued_added, dequeued_deleted, ticked, relisted,
  called, began, visited, popped, filtered, reserved, put_back, ran, Setup, System,
}
use kube_queue.System.Rounds.{current, store, run_goroutine, schedule_step}
use kube_queue.System.Step.{step}
use kube_queue.System.Objects.{AnswersHaveConsumers}
use kube_queue.System.Invariant.{IsSoundPosition, IsSoundSystem, IsSoundSetup, IsPossible}
use kube_queue.System.Kept.{handle-IsSoundSystem, call_handler-IsSoundSystem, tick-IsSoundSystem}
use kube_queue.System.Popping.{PopsUnit, visit-IsSoundSystem, pop_head-IsSoundSystem}
use kube_queue.System.Loop.{
  begin-IsSoundSystem, pass_filters-IsSoundSystem, reserve_unit-IsSoundSystem, put_on-IsSoundSystem,
  store-IsSoundSystem, set-waits, move-IsSoundSystem,
}

module _ {ℓ} {Q S : Type ℓ} (setup : Setup Q S) (ok_setup : IsSoundSetup setup) where
  -- A step that pops finds a unit.
  abbrev pub CanPop : Label Q → System Q S → Type ℓ
  CanPop popped s = PopsUnit s
  CanPop _ s = Unit {ℓ}

  run_goroutine-IsSoundSystem :
      (s : System Q S) (j : ℕ) (g : Goroutine Q) (get : QueueUnit Q → Result (QueueUnit Q))
      (update : QueueUnit Q → Option String) (now : Time)
      → IsSoundSystem s
      → get_elem? s.goroutines j ≡ some g
      → AnswersHaveConsumers get
      → Yields IsSoundSystem (run_goroutine setup s j g get update now)
  unfolding run_goroutine
  run_goroutine-IsSoundSystem s j (dequeuing r u) get update now inv there have =
      elim (Option-cases (dequeue get update u.unit)) [
        | inl done ↦
            rw (done, run_goroutine)
              (yields (set-waits setup ok_setup s inv s.plugins j _ finished there tt))
        | inr (err, failure) ↦
            rw (failure, run_goroutine)
              (yields (
                set-waits setup ok_setup s inv s.plugins j _ (unreserving r u) there
                  (inv.control.waits j _ there)))
      ]
  run_goroutine-IsSoundSystem s j (unreserving r u) get update now inv there have =
      yields
        (set-waits setup ok_setup s inv _ j _ (storing r u) there (inv.control.waits j _ there))
  run_goroutine-IsSoundSystem s j (storing r u) get update now inv there have =
      let (i, set_to) = inv.control.waits j _ there in
      rw (set_to, run_goroutine)
        (yields (set-waits setup ok_setup s inv s.plugins j _ (putting i u) there tt))
  run_goroutine-IsSoundSystem s j (putting i u) get update now inv there have =
      elim (Option-cases (get_elem? s.objects i)) [
        | inl out ↦ rw (out, run_goroutine) (yields inv)
        | inr (q, held) ↦
            rw (held, run_goroutine)
              (put_on-IsSoundSystem setup ok_setup
                (record s { goroutines = set s.goroutines j finished })
                (set-waits setup ok_setup s inv s.plugins j _ finished there tt) i q u get now held
                have)
      ]
  run_goroutine-IsSoundSystem s j finished get update now inv there have = yields inv

  ran-IsSoundSystem :
      (s : System Q S) (j : ℕ) (get : QueueUnit Q → Result (QueueUnit Q))
      (update : QueueUnit Q → Option String) (now : Time)
      → IsSoundSystem s
      → AnswersHaveConsumers get
      → Yields IsSoundSystem (step setup (ran j get update now) s)
  unfolding step
  ran-IsSoundSystem s j get update now inv have = elim (Option-cases (get_elem? s.goroutines j)) [
    | inl out ↦ rw (out, step) (yields inv)
    | inr (g, there) ↦
        rw (there, step) (run_goroutine-IsSoundSystem s j g get update now inv there have)
  ]

  failing-IsSoundSystem :
      (s : System Q S) (u : QueueUnitInfo Q) (get : QueueUnit Q → Result (QueueUnit Q)) (now : Time)
      → IsSoundSystem s
      → s.position ≡ failing u
      → AnswersHaveConsumers get
      → Yields IsSoundSystem
          (store s (current s) u get now >>= λ s'. value (record s' { position = looping }))
  failing-IsSoundSystem s u get now inv stands have =
      Yields-bind
        (store-IsSoundSystem setup ok_setup s inv (current s) u get now
          (subst (IsSoundPosition s.variables) stands inv.control.stands) have)
        λ s' inv'. yields (move-IsSoundSystem setup ok_setup s' inv' s'.plugins looping tt)

  schedule_step-IsSoundSystem :
      (s : System Q S) (l : Label Q) (position : Position Q) (todo : List ℕ)
      → IsSoundSystem s
      → s.position ≡ position
      → s.todo ≡ todo
      → IsPossible setup.queue_sort_func_map l
      → CanPop l s
      → Yields IsSoundSystem (schedule_step setup l position todo s)
  unfolding schedule_step
  schedule_step-IsSoundSystem s began looping [] inv at rest_is possible can =
      yields (begin-IsSoundSystem setup ok_setup s inv at)
  schedule_step-IsSoundSystem s visited looping (i ∷ rest) inv at rest_is possible can =
      Yields-weaken (visit-IsSoundSystem setup ok_setup s inv i rest at rest_is)
        λ s' (inv', pops). inv'
  schedule_step-IsSoundSystem s popped popping todo inv at rest_is possible can =
      pop_head-IsSoundSystem setup ok_setup s inv at can
  schedule_step-IsSoundSystem s filtered (filtering u) todo inv at rest_is possible can =
      pass_filters-IsSoundSystem setup ok_setup s inv u at
  schedule_step-IsSoundSystem s reserved (reserving u) todo inv at rest_is possible can =
      yields (reserve_unit-IsSoundSystem setup ok_setup s inv u at)
  schedule_step-IsSoundSystem s (put_back get now) (failing u) todo inv at rest_is possible can =
      failing-IsSoundSystem s u get now inv at possible
  schedule_step-IsSoundSystem s l position todo inv at rest_is possible can = yields inv

  pub step-IsSoundSystem :
      (l : Label Q) (s : System Q S)
      → IsSoundSystem s
      → IsPossible setup.queue_sort_func_map l
      → CanPop l s
      → Yields IsSoundSystem (step setup l s)
  unfolding step
  step-IsSoundSystem (handled e) s inv possible can =
      handle-IsSoundSystem setup ok_setup s inv e possible
  step-IsSoundSystem (dequeued_added u now later) s inv possible can =
      yields (move-IsSoundSystem setup ok_setup s inv _ s.position inv.control.stands)
  step-IsSoundSystem (dequeued_deleted u now later) s inv possible can =
      yields (move-IsSoundSystem setup ok_setup s inv _ s.position inv.control.stands)
  step-IsSoundSystem (relisted n) s inv possible can =
      yields (move-IsSoundSystem setup ok_setup s inv _ s.position inv.control.stands)
  step-IsSoundSystem (ticked i clock) s inv possible can =
      tick-IsSoundSystem setup ok_setup s inv i clock
  step-IsSoundSystem (ran j get update now) s inv possible can =
      ran-IsSoundSystem s j get update now inv possible
  step-IsSoundSystem began s inv possible can =
      schedule_step-IsSoundSystem s began s.position s.todo inv refl refl possible can
  step-IsSoundSystem visited s inv possible can =
      schedule_step-IsSoundSystem s visited s.position s.todo inv refl refl possible can
  step-IsSoundSystem (called j) s inv possible can = elim (Option-cases (get_elem? s.handlers j)) [
    | inl out ↦ rw (out, step) (yields inv)
    | inr (h, waits) ↦ rw (waits, step) (call_handler-IsSoundSystem setup ok_setup s inv j h waits)
  ]
  step-IsSoundSystem popped s inv possible can =
      schedule_step-IsSoundSystem s popped s.position s.todo inv refl refl possible can
  step-IsSoundSystem filtered s inv possible can =
      schedule_step-IsSoundSystem s filtered s.position s.todo inv refl refl possible can
  step-IsSoundSystem reserved s inv possible can =
      schedule_step-IsSoundSystem s reserved s.position s.todo inv refl refl possible can
  step-IsSoundSystem (put_back get now) s inv possible can =
      schedule_step-IsSoundSystem s (put_back get now) s.position s.todo inv refl refl possible can
