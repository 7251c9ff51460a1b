-- ===== src/System/Head.antt =====
-- The queue that the loop of pkg/scheduler/scheduler.go has found not empty and is about to pop,
-- under each step.
use mathlib.Core.Path.{subst}
use kube_queue.Base.{
  arith, ℕ, Bool, true, false, Bool-cases, get_elem?-some, if◌then◌else◌, some, List, [], ◌∷◌,
  get_elem?, ◌≡◌, refl, Option-cases, inl, inr, Yields, yields, Yields-bind, Yields-weaken,
}
use kube_queue.Framework.{QueueUnitInfo}
use kube_queue.Framework.{is_success}
use kube_queue.Runtime.{run_reserve_plugins_reserve}
use kube_queue.System.State.{
  Handler, Position, looping, popping, filtering, reserving, failing, Label, handled,
  dequeued_added, dequeued_deleted, ticked, relisted, called, began, visited, popped, filtered,
  reserved, put_back, ran, Setup, System,
}
use kube_queue.System.Rounds.{begin, reserve_unit, pass_filters, current, pop_head, schedule_step}
use kube_queue.System.Step.{step}
use kube_queue.System.Invariant.{IsSoundPosition, IsSoundSystem, IsSoundSetup, IsPossible}
use kube_queue.System.Popping.{PopsUnit, visit-IsSoundSystem}
use kube_queue.System.Loop.{store-IsSoundSystem}
use kube_queue.System.Busy.{
  KeepsUnits-PopsUnit, IsNoDelete, handle-KeepsUnits, call_handler-KeepsUnits, tick-KeepsUnits,
  run_goroutine-KeepsUnits,
}
use kube_queue.SchedulingQueue.Methods.{pop-IsNow}

module _ {ℓ} {Q S : Type ℓ} where
  -- The step does not call Delete of a queue.
  abbrev pub KeepsHead : Label Q → System Q S → Type ℓ
  KeepsHead (called j) s = (h : Handler Q) → get_elem? s.handlers j ≡ some h → IsNoDelete h
  KeepsHead _ s = Unit {ℓ}

module _ {ℓ} {Q S : Type ℓ} (setup : Setup Q S) (ok_setup : IsSoundSetup setup) where
  filter-PopsUnit :
      (s : System Q S) (u : QueueUnitInfo Q) (b : Bool)
      → PopsUnit (record s { position = if b then reserving u else failing u })
  filter-PopsUnit s u true i q stands set_to there = absurd (ground arith)
  filter-PopsUnit s u false i q stands set_to there = absurd (ground arith)

  reserve_unit-PopsUnit : (s : System Q S) (u : QueueUnitInfo Q) → PopsUnit (reserve_unit setup s u)
  unfolding reserve_unit
  reserve_unit-PopsUnit s u =
      elim (Bool-cases (is_success (run_reserve_plugins_reserve setup.fw s.plugins u).1.code)) [
        | inl good ↦ rw (good, reserve_unit) (λ i q stands set_to there. absurd (ground arith))
        | inr bad ↦ rw (bad, reserve_unit) (λ i q stands set_to there. absurd (ground arith))
      ]

  pop_head-PopsUnit :
      (s : System Q S)
      → IsSoundSystem s
      → s.position ≡ popping
      → PopsUnit s
      → Yields PopsUnit (pop_head s)
  unfolding pop_head
  pop_head-PopsUnit s inv at busy =
      let (i, set_to) = subst (IsSoundPosition s.variables) at inv.control.stands in
      let (q, there) = get_elem?-some s.objects i (inv.below.variables_below _ i set_to) in
      let sound = inv.heap.sound i q there in
      rw (set_to, there, pop_head)
        (Yields-bind (pop-IsNow sound.weak q sound.valid (busy i q at set_to there))
          λ (u, err, q') n. yields (λ i' q'' stands set_to' there'. absurd (ground arith)))

  pass_filters-PopsUnit :
      (s : System Q S) (u : QueueUnitInfo Q)
      → IsSoundSystem s
      → s.position ≡ filtering u
      → Yields PopsUnit (pass_filters setup s u)
  unfolding pass_filters
  pass_filters-PopsUnit s u inv at =
      let (is_set, has) = subst (IsSoundPosition s.variables) at inv.control.stands in
      let (status, answer) = ok_setup.filters s.plugins u has in
      rw answer (yields (filter-PopsUnit s u (is_success status.code)))

  schedule_step-PopsUnit :
      (s : System Q S) (l : Label Q) (position : Position Q) (todo : List ℕ)
      → IsSoundSystem s
      → s.position ≡ position
      → s.todo ≡ todo
      → IsPossible setup.queue_sort_func_map l
      → PopsUnit s
      → Yields PopsUnit (schedule_step setup l position todo s)
  unfolding schedule_step begin
  schedule_step-PopsUnit s began looping [] inv at rest_is possible pops =
      yields (λ i q stands set_to there. absurd (ground arith))
  schedule_step-PopsUnit s visited looping (i ∷ rest) inv at rest_is possible pops =
      Yields-weaken (visit-IsSoundSystem setup ok_setup s inv i rest at rest_is)
        λ s' (inv', pops'). pops'
  schedule_step-PopsUnit s popped popping todo inv at rest_is possible pops =
      pop_head-PopsUnit s inv at pops
  schedule_step-PopsUnit s filtered (filtering u) todo inv at rest_is possible pops =
      pass_filters-PopsUnit s u inv at
  schedule_step-PopsUnit s reserved (reserving u) todo inv at rest_is possible pops =
      yields (reserve_unit-PopsUnit s u)
  schedule_step-PopsUnit s (put_back get now) (failing u) todo inv at rest_is possible pops =
      Yields-bind
        (store-IsSoundSystem setup ok_setup s inv (current s) u get now
          (subst (IsSoundPosition s.variables) at inv.control.stands) possible)
        λ s' inv'. yields (λ i q stands set_to there. absurd (ground arith))
  schedule_step-PopsUnit s l position todo inv at rest_is possible pops = yields pops

  pub step-PopsUnit :
      (l : Label Q) (s : System Q S)
      → IsSoundSystem s
      → IsPossible setup.queue_sort_func_map l
      → PopsUnit s
      → KeepsHead l s
      → Yields PopsUnit (step setup l s)
  unfolding step
  step-PopsUnit (handled e) s inv possible pops keeps =
      Yields-weaken (handle-KeepsUnits s inv setup e possible)
        λ s'. KeepsUnits-PopsUnit s inv s' pops
  step-PopsUnit (dequeued_added u now later) s inv possible pops keeps = yields pops
  step-PopsUnit (dequeued_deleted u now later) s inv possible pops keeps = yields pops
  step-PopsUnit (relisted n) s inv possible pops keeps = yields pops
  step-PopsUnit (called j) s inv possible pops keeps =
      elim (Option-cases (get_elem? s.handlers j)) [
        | inl out ↦ rw (out, step) (yields pops)
        | inr (h, waits) ↦
            rw (waits, step)
              (Yields-weaken (call_handler-KeepsUnits s inv j h waits (keeps h waits))
                λ s'. KeepsUnits-PopsUnit s inv s' pops)
      ]
  step-PopsUnit (ticked i clock) s inv possible pops keeps =
      Yields-weaken (tick-KeepsUnits s inv i clock) λ s'. KeepsUnits-PopsUnit s inv s' pops
  step-PopsUnit (ran j get update now) s inv possible pops keeps =
      elim (Option-cases (get_elem? s.goroutines j)) [
        | inl out ↦ rw (out, step) (yields pops)
        | inr (g, there) ↦
            rw (there, step)
              (Yields-weaken (run_goroutine-KeepsUnits s inv setup j g get update now there)
                λ s'. KeepsUnits-PopsUnit s inv s' pops)
      ]
  step-PopsUnit began s inv possible pops keeps =
      schedule_step-PopsUnit s began s.position s.todo inv refl refl possible pops
  step-PopsUnit visited s inv possible pops keeps =
      schedule_step-PopsUnit s visited s.position s.todo inv refl refl possible pops
  step-PopsUnit popped s inv possible pops keeps =
      schedule_step-PopsUnit s popped s.position s.todo inv refl refl possible pops
  step-PopsUnit filtered s inv possible pops keeps =
      schedule_step-PopsUnit s filtered s.position s.todo inv refl refl possible pops
  step-PopsUnit reserved s inv possible pops keeps =
      schedule_step-PopsUnit s reserved s.position s.todo inv refl refl possible pops
  step-PopsUnit (put_back get now) s inv possible pops keeps =
      schedule_step-PopsUnit s (put_back get now) s.position s.todo inv refl refl possible pops
