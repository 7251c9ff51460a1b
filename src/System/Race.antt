-- ===== src/System/Race.antt =====
-- A handler that deletes a unit between the Length and the Pop of a queue in the loop of
-- pkg/scheduler/scheduler.go.
use kube_queue.Base.{
  ℕ, some, List, ◌∷◌, get_elem?, get_elem?-some, Option-cases, ◌≡◌, ◌≢◌, ◌⊎◌, refl, arith, inl, inr,
  value, panic, Outcome, Yields, yields, Yields-bind, Yields-weaken,
}
use kube_queue.Framework.{QueueUnit}
use kube_queue.System.State.{
  Position, looping, popping, filtering, reserving, failing, Handler, calling, returned, adding,
  updating, deleting, Label, handled, dequeued_added, dequeued_deleted, called, ticked, relisted,
  began, visited, popped, filtered, reserved, put_back, ran, Setup, System,
}
use kube_queue.System.Handlers.{call_handler}
use kube_queue.System.Rounds.{schedule_step}
use kube_queue.System.Step.{step, run}
use kube_queue.System.Calls.{call_method-IsKeptObject}
use kube_queue.System.Invariant.{IsSoundSystem, IsPossible}
use kube_queue.System.Busy.{
  IsNoDelete, handle-KeepsUnits, tick-KeepsUnits, run_goroutine-KeepsUnits,
}
use kube_queue.System.Head.{KeepsHead}

module _ {ℓ} {Q : Type ℓ} where
  pub popping_or_not : (position : Position Q) → (position ≡ popping) ⊎ (position ≢ popping)
  popping_or_not popping = inl refl
  popping_or_not looping = inr (λ e. absurd (ground arith))
  popping_or_not (filtering u) = inr (λ e. absurd (ground arith))
  popping_or_not (reserving u) = inr (λ e. absurd (ground arith))
  popping_or_not (failing u) = inr (λ e. absurd (ground arith))

  delete_cases :
      (h : Handler Q) → IsNoDelete h ⊎ ((i : ℕ) × (u : QueueUnit Q) × (h ≡ calling i (deleting u)))
  delete_cases (calling i (deleting u)) = inr (i, u, refl)
  delete_cases (calling i (adding u now later)) = inl tt
  delete_cases (calling i (updating old new now later)) = inl tt
  delete_cases returned = inl tt

module _ {ℓ} {Q S : Type ℓ} where
  -- A step keeps the head, or calls Delete.
  pub keeps_or_deletes :
      (l : Label Q) (s : System Q S)
      → KeepsHead l s
        ⊎ ((j i : ℕ) × (u : QueueUnit Q) × (l ≡ called j)
            × (get_elem? s.handlers j ≡ some (calling i (deleting u))))
  keeps_or_deletes (called j) s = elim (Option-cases (get_elem? s.handlers j)) [
    | inl out ↦ inl (λ h there. absurd (ground arith))
    | inr (h, there) ↦ elim (delete_cases h) [
      | inl keeps ↦
          inl (λ h' there'. let handler_is : h ≡ h' = ground arith in rw (← handler_is) keeps)
      | inr (i, u, calls) ↦ inr (j, i, u, refl, ground (arith, there, calls))
    ]
  ]
  keeps_or_deletes l s = inl tt

module _ {ℓ} {Q S : Type ℓ} (setup : Setup Q S) where
  -- The loop stays at its Pop under the steps, until it pops its queue, which panics.
  pub data Waits : List (Label Q) → System Q S → Type ℓ where
    pops :
        {ls : List (Label Q)} {s : System Q S} → step setup popped s ≡ panic → Waits (popped ∷ ls) s
    stays :
        {l : Label Q} {ls : List (Label Q)} {s s' : System Q S}
        → s.position ≡ popping
        → step setup l s ≡ value s'
        → Waits ls s'
        → Waits (l ∷ ls) s

  -- Among the steps is a Delete of a handler, where the loop is at its Pop, waits and panics.
  pub data Races : List (Label Q) → System Q S → Type ℓ where
    deletes :
        {ls : List (Label Q)} {s s' : System Q S} (j i : ℕ) (u : QueueUnit Q)
        → s.position ≡ popping
        → get_elem? s.handlers j ≡ some (calling i (deleting u))
        → step setup (called j) s ≡ value s'
        → Waits ls s'
        → Races (called j ∷ ls) s
    goes_on :
        {l : Label Q} {ls : List (Label Q)} {s s' : System Q S}
        → step setup l s ≡ value s'
        → Races ls s'
        → Races (l ∷ ls) s

  Waits-panic : (ls : List (Label Q)) (s : System Q S) → Waits ls s → run setup ls s ≡ panic
  unfolding run
  Waits-panic ls s (pops panics) = rw panics refl
  Waits-panic ls s (stays at goes waits) = rw goes (Waits-panic _ _ waits)

  pub Races-panic : (ls : List (Label Q)) (s : System Q S) → Races ls s → run setup ls s ≡ panic
  unfolding run
  Races-panic ls s (deletes j i u at there goes waits) = rw goes (Waits-panic _ _ waits)
  Races-panic ls s (goes_on goes races) = rw goes (Races-panic _ _ races)

  abbrev pub StaysAt : System Q S → Outcome (System Q S) → Type ℓ
  StaysAt s m = Yields (λ s'. s'.position ≡ s.position) m

  -- A handler that calls a queue leaves the loop where it is.
  pub called-position :
      (j : ℕ) (s : System Q S) → IsSoundSystem s → StaysAt s (step setup (called j) s)
  unfolding step call_handler
  called-position j s inv = elim (Option-cases (get_elem? s.handlers j)) [
    | inl out ↦ rw (out, step) (yields refl)
    | inr (returned, there) ↦ rw (there, step) (yields refl)
    | inr (calling i m, there) ↦
        let (below, has) = inv.calls j i m there in
        let (q, held) = get_elem?-some s.objects i below in
        rw (there, step)
          (rw (held, call_handler)
            (Yields-bind (call_method-IsKeptObject m q (inv.heap.sound i q held) has)
              λ (q', err) kept. yields refl))
  ]

  pub step-position :
      (l : Label Q) (s : System Q S)
      → IsSoundSystem s
      → IsPossible setup.queue_sort_func_map l
      → s.position ≡ popping
      → l ≢ popped
      → StaysAt s (step setup l s)
  unfolding step schedule_step
  step-position (handled e) s inv possible at other =
      Yields-weaken (handle-KeepsUnits s inv setup e possible) λ s' kept. kept.1
  step-position (dequeued_added u now later) s inv possible at other = yields refl
  step-position (dequeued_deleted u now later) s inv possible at other = yields refl
  step-position (called j) s inv possible at other = called-position j s inv
  step-position (relisted n) s inv possible at other = yields refl
  step-position (ticked i clock) s inv possible at other =
      Yields-weaken (tick-KeepsUnits s inv i clock) λ s' kept. kept.1
  step-position (ran j get update now) s inv possible at other =
      elim (Option-cases (get_elem? s.goroutines j)) [
        | inl out ↦ rw (out, step) (yields refl)
        | inr (g, there) ↦
            rw (there, step)
              (Yields-weaken (run_goroutine-KeepsUnits s inv setup j g get update now there)
                λ s' kept. kept.1)
      ]
  step-position popped s inv possible at other = absurd (other refl)
  step-position began s inv possible at other = rw (at, schedule_step) (yields refl)
  step-position visited s inv possible at other = rw (at, schedule_step) (yields refl)
  step-position filtered s inv possible at other = rw (at, schedule_step) (yields refl)
  step-position reserved s inv possible at other = rw (at, schedule_step) (yields refl)
  step-position (put_back get now) s inv possible at other = rw (at, schedule_step) (yields refl)
