-- ===== src/System/Runs.antt =====
-- Runs of the program from its start.
use mathlib.Core.Path.{subst}
use kube_queue.Base.{
  ℕ, ◌≢◌, sym, ◌∙◌, arith, Yields-held, some, List, [], ◌∷◌, get_elem?, ◌≡◌, refl, inl, inr, value,
  Yields, yields, Yields-value, panic, ◌⊎◌, arith, ℕ_discrete, get_elem?-some,
}
use kube_queue.SchedulingQueue
use kube_queue.SchedulingQueue.{PrioritySchedulingQueue}
use kube_queue.Framework.{QueueUnit}
use kube_queue.System.State.{
  Position, calling, deleting, looping, popping, filtering, reserving, failing, Label, called,
  popped, Setup, System, start,
}
use kube_queue.System.Rounds.{current, pop_head, schedule_step}
use kube_queue.System.Step.{step, run}
use kube_queue.System.Invariant.{
  IsSoundPosition, IsSoundSystem, IsSoundSetup, IsPossible, ArePossible,
}
use kube_queue.System.Kept.{start-IsSoundSystem}
use kube_queue.System.Popping.{PopsUnit}
use kube_queue.System.Head.{step-PopsUnit}
use kube_queue.System.Race.{
  Waits, pops, stays, Races, deletes, goes_on, Races-panic, popping_or_not, keeps_or_deletes,
  StaysAt, called-position, step-position,
}
use kube_queue.System.Soundness.{CanPop, step-IsSoundSystem}
use kube_queue.SchedulingQueue.Methods.{pop-empty}

module _ {ℓ} {Q S : Type ℓ} (setup : Setup Q S) (ok_setup : IsSoundSetup setup) where
  -- A Pop of the queue in the loop variable, which has become empty since the loop read its length.
  abbrev pub PopsEmpty : System Q S → Type ℓ
  PopsEmpty s =
      (i : ℕ) × (q : PrioritySchedulingQueue Q) × (s.position ≡ popping)
      × (get_elem? s.variables (current s) ≡ some (some i))
      × (get_elem? s.objects i ≡ some q)
      × (SchedulingQueue.len q ≡ 0)

  pub popping_cases :
      (s : System Q S) (position : Position Q)
      → IsSoundSystem s
      → s.position ≡ position
      → PopsUnit s ⊎ PopsEmpty s
  popping_cases s popping inv at =
      let (i, set_to) = subst (IsSoundPosition s.variables) at inv.control.stands in
      let (q, there) = get_elem?-some s.objects i (inv.below.variables_below _ i set_to) in
      elim (ℕ_discrete (SchedulingQueue.len q) 0) [
        | yes empty ↦ inr (i, q, at, set_to, there, empty)
        | no units ↦ inl (λ i' q' stands set_to' there'.
            let address_is : i ≡ i' = ground arith in
            let queue_is : q ≡ q' = ground arith in rw (← queue_is) (omega arith))
      ]
  popping_cases s looping inv at = inl (λ i q stands set_to there. absurd (ground arith))
  popping_cases s (filtering u) inv at = inl (λ i q stands set_to there. absurd (ground arith))
  popping_cases s (reserving u) inv at = inl (λ i q stands set_to there. absurd (ground arith))
  popping_cases s (failing u) inv at = inl (λ i q stands set_to there. absurd (ground arith))

  pub units-CanPop : (l : Label Q) (s : System Q S) → PopsUnit s → CanPop setup ok_setup l s
  units-CanPop popped s units = units
  units-CanPop l s units = tt

  pub other-CanPop : (l : Label Q) (s : System Q S) → l ≢ popped → CanPop setup ok_setup l s
  other-CanPop popped s other = absurd (other refl)
  other-CanPop l s other = tt

  popped-pop_head :
      (s : System Q S) (position : Position Q)
      → position ≡ popping
      → schedule_step setup popped position s.todo s ≡ pop_head s
  unfolding schedule_step
  popped-pop_head s position stands = rw (stands, schedule_step) refl

  pub popped-panic : (s : System Q S) → IsSoundSystem s → PopsEmpty s → step setup popped s ≡ panic
  unfolding step pop_head
  popped-panic s inv (i, q, stands, set_to, there, empty) =
      let sound = inv.heap.sound i q there in
      rw (popped-pop_head s s.position stands)
        (rw (set_to, there, pop_head) (rw (pop-empty sound.weak q sound.valid empty) refl))

  -- How the steps end from a state, from one where the loop is about to pop a unit or stands
  -- elsewhere, and from one where it is at its Pop.
  abbrev Ends : List (Label Q) → System Q S → Type ℓ
  Ends ls s = Yields IsSoundSystem (run setup ls s) ⊎ Races setup ls s

  abbrev EndsAtPop : List (Label Q) → System Q S → Type ℓ
  EndsAtPop ls s = Ends ls s ⊎ Waits setup ls s

  abbrev EndsFrom : List (Label Q) → System Q S → Type ℓ
  EndsFrom ls s = (PopsUnit s → Ends ls s) × (s.position ≡ popping → EndsAtPop ls s)

  Ends-cons :
      (l : Label Q) (ls : List (Label Q)) (s s' : System Q S)
      → step setup l s ≡ value s'
      → Ends ls s'
      → Ends (l ∷ ls) s
  unfolding run
  Ends-cons l ls s s' goes (inl sound) = inl (rw goes sound)
  Ends-cons l ls s s' goes (inr races) = inr (goes_on goes races)

  -- A handler has deleted a unit while the loop was at its Pop.
  deleted-Ends :
      (ls : List (Label Q)) (s s' : System Q S) (j i : ℕ) (u : QueueUnit Q)
      → s.position ≡ popping
      → get_elem? s.handlers j ≡ some (calling i (deleting u))
      → step setup (called j) s ≡ value s'
      → EndsAtPop ls s'
      → Ends (called j ∷ ls) s
  deleted-Ends ls s s' j i u at there goes (inl ends) = Ends-cons (called j) ls s s' goes ends
  deleted-Ends ls s s' j i u at there goes (inr waits) = inr (deletes j i u at there goes waits)

  stayed-EndsAtPop :
      (l : Label Q) (ls : List (Label Q)) (s s' : System Q S)
      → s.position ≡ popping
      → step setup l s ≡ value s'
      → EndsAtPop ls s'
      → EndsAtPop (l ∷ ls) s
  stayed-EndsAtPop l ls s s' at goes (inl ends) = inl (Ends-cons l ls s s' goes ends)
  stayed-EndsAtPop l ls s s' at goes (inr waits) = inr (stays at goes waits)

  -- A handler deletes a unit.
  deletes-Ends :
      (l : Label Q) (ls : List (Label Q)) (s s' : System Q S) (j i : ℕ) (u : QueueUnit Q)
      → IsSoundSystem s
      → step setup l s ≡ value s'
      → l ≡ called j
      → get_elem? s.handlers j ≡ some (calling i (deleting u))
      → EndsFrom ls s'
      → Ends (l ∷ ls) s
  deletes-Ends l ls s s' j i u inv goes calls there (ends, ends_at) =
      let goes' : step setup (called j) s ≡ value s' = rw (← calls) goes in
      let stays_at : s'.position ≡ s.position =
        Yields-held (subst (StaysAt setup s) goes' (called-position setup j s inv)) in
      elim (popping_or_not s.position) [
        | inl at ↦ rw calls (deleted-Ends ls s s' j i u at there goes' (ends_at (stays_at ∙ at)))
        | inr elsewhere ↦
            Ends-cons l ls s s' goes
              (ends λ i' q' at' set_to held. absurd (elsewhere (sym stays_at ∙ at')))
      ]

  -- One step from a state that can pop, if that is the step.
  step-Ends :
      (l : Label Q) (ls : List (Label Q)) (s s' : System Q S)
      → IsSoundSystem s
      → IsPossible setup.queue_sort_func_map l
      → PopsUnit s
      → step setup l s ≡ value s'
      → EndsFrom ls s'
      → Ends (l ∷ ls) s
  step-Ends l ls s s' inv here pops_unit goes (ends, ends_at) = elim (keeps_or_deletes l s) [
    | inl keeps ↦
        let still = step-PopsUnit setup ok_setup l s inv here pops_unit keeps in
        Ends-cons l ls s s' goes (ends (Yields-held (subst (Yields PopsUnit) goes still)))
    | inr (j, i, u, calls, there) ↦
        deletes-Ends l ls s s' j i u inv goes calls there (ends, ends_at)
  ]

  pub popped_or_not : (l : Label Q) → (l ≡ popped) ⊎ (l ≢ popped)
  popped_or_not popped = inl refl
  popped_or_not l = inr (λ e. absurd (ground arith))

  module _ (l : Label Q) (ls : List (Label Q)) (s : System Q S) (inv : IsSoundSystem s)
      (here : IsPossible setup.queue_sort_func_map l)
      (rest : (s' : System Q S) → IsSoundSystem s' → EndsFrom ls s') where
    units-Ends : PopsUnit s → Ends (l ∷ ls) s
    units-Ends units =
        let (s', goes, inv') =
          Yields-value (step-IsSoundSystem setup ok_setup l s inv here (units-CanPop l s units)) in
        step-Ends l ls s s' inv here units goes (rest s' inv')

    other-EndsAtPop : s.position ≡ popping → l ≢ popped → EndsAtPop (l ∷ ls) s
    other-EndsAtPop at other =
        let (s', goes, inv') =
          Yields-value (step-IsSoundSystem setup ok_setup l s inv here (other-CanPop l s other)) in
        let stays_at =
          Yields-held (subst (StaysAt setup s) goes (step-position setup l s inv here at other)) in
        stayed-EndsAtPop l ls s s' at goes ((rest s' inv').1 (stays_at ∙ at))

    cons-EndsFrom : EndsFrom (l ∷ ls) s
    cons-EndsFrom = (
      units-Ends,
      λ at. elim (popping_cases s s.position inv refl) [
        | inl units ↦ inl (units-Ends units)
        | inr empty ↦ elim (popped_or_not l) [
          | inl pops_now ↦ inr (rw pops_now (pops (popped-panic s inv empty)))
          | inr other ↦ other-EndsAtPop at other
        ]
      ],
    )

  run-EndsFrom :
      (ls : List (Label Q)) (s : System Q S)
      → IsSoundSystem s
      → ArePossible setup.queue_sort_func_map ls
      → EndsFrom ls s
  unfolding run
  run-EndsFrom [] s inv possible = (λ units. inl (yields inv), λ at. inl (inl (yields inv)))
  run-EndsFrom (l ∷ ls) s inv (here, possible) =
      cons-EndsFrom l ls s inv here λ s' inv'. run-EndsFrom ls s' inv' possible

  -- Every list of steps of the handlers, the flushes, the scheduler and its goroutines, from the
  -- start of the program and in any order, either ends without a panic in a sound system or has
  -- this race, in which it panics: the loop has found its queue not empty and comes to its Pop, a
  -- handler calls Delete, the loop stays there, and its Pop panics. The policies are strict weak
  -- orders, the filters end on a unit with a consumer, sort.Slice returns elements of its list, the
  -- handled events have known policies and consumers, and the units that Get returns have
  -- consumers. In a sound system every queue is valid for a policy, its units have consumers, the
  -- map names queues by their names, and the handlers, the loop and the goroutines that go on read
  -- addresses of queues and a loop variable that has been set.
  pub start-run :
      (ls : List (Label Q)) (plugins : S)
      → ArePossible setup.queue_sort_func_map ls
      → Yields IsSoundSystem (run setup ls (start plugins))
        ⊎ (Races setup ls (start plugins) × (run setup ls (start plugins) ≡ panic))
  unfolding start
  start-run ls plugins possible =
      let inv = start-IsSoundSystem setup ok_setup plugins in
      elim ((run-EndsFrom ls (start plugins) inv possible).0
        λ i q at set_to there. absurd (ground arith)) [
          | inl sound ↦ inl sound
          | inr races ↦ inr (races, Races-panic setup ls (start plugins) races)
        ]
