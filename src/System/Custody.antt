-- ===== src/System/Custody.antt =====
-- The units that the scheduler of pkg/scheduler/scheduler.go has popped, over the runs of the program.
use kube_queue.Base.{List, [], ◌∷◌, ◌≡◌, ◌⊎◌, inl, inr, value, panic, Yields-value, refl}
use kube_queue.Framework.{QueueUnitInfo}
use kube_queue.System.State.{Label, popped, Setup, System}
use kube_queue.System.Step.{step}
use kube_queue.System.Invariant.{IsSoundSystem, IsSoundSetup, IsPossible, ArePossible}
use kube_queue.System.Fate.{IsHeld, IsQueued, IsReleased}
use kube_queue.System.Care.{step-Fate}
use kube_queue.System.Soundness.{CanPop}
use kube_queue.System.Runs.{popping_cases, popped_or_not, units-CanPop, other-CanPop, popped-panic}

module _ {ℓ} {Q S : Type ℓ} (setup : Setup Q S) (u : QueueUnitInfo Q) where
  -- The unit is held after each of the steps, up to one after which a queue has a unit under its key
  -- or in which the API releases it, or up to a Pop that panics.
  pub data IsCaredFor : List (Label Q) → System Q S → Type ℓ where
    holds : {s : System Q S} → IsHeld u s → IsCaredFor [] s
    hands_over :
        {l : Label Q} {ls : List (Label Q)} {s s' : System Q S}
        → step setup l s ≡ value s'
        → IsQueued u s' ⊎ IsReleased u l
        → IsCaredFor (l ∷ ls) s
    keeps :
        {l : Label Q} {ls : List (Label Q)} {s s' : System Q S}
        → step setup l s ≡ value s'
        → IsHeld u s'
        → IsCaredFor ls s'
        → IsCaredFor (l ∷ ls) s
    panics :
        {ls : List (Label Q)} {s : System Q S}
        → step setup popped s ≡ panic
        → IsCaredFor (popped ∷ ls) s

  module _ (ok_setup : IsSoundSetup setup) where
    one-IsCaredFor :
        (l : Label Q) (ls : List (Label Q)) (s : System Q S)
        → IsSoundSystem s
        → IsPossible setup.queue_sort_func_map l
        → CanPop setup ok_setup l s
        → IsHeld u s
        → ((s' : System Q S) → IsSoundSystem s' → IsHeld u s' → IsCaredFor ls s')
        → IsCaredFor (l ∷ ls) s
    one-IsCaredFor l ls s inv here can held rest =
        let (s', goes, (inv', fate)) =
          Yields-value (step-Fate setup ok_setup l s u inv here can held) in
        elim fate [
          | inl still ↦ keeps goes still (rest s' inv' still)
          | inr over ↦ hands_over goes over
        ]

    -- A unit that the loop or a goroutine of the scheduler holds in a sound system is cared for in
    -- every list of possible steps: it is held after each step, until a queue has a unit under its
    -- key or the API has answered that it is dequeued or that Get fails, or until a Pop panics. The
    -- policies are strict weak orders, the filters end on a unit with a consumer, and sort.Slice
    -- returns elements of its list.
    pub run-IsCaredFor :
        (ls : List (Label Q)) (s : System Q S)
        → IsSoundSystem s
        → ArePossible setup.queue_sort_func_map ls
        → IsHeld u s
        → IsCaredFor ls s
    run-IsCaredFor [] s inv possible held = holds held
    run-IsCaredFor (l ∷ ls) s inv (here, possible) held =
        let rest : (s' : System Q S) → IsSoundSystem s' → IsHeld u s' → IsCaredFor ls s' =
          λ s' inv' held'. run-IsCaredFor ls s' inv' possible held' in
        elim (popped_or_not setup ok_setup l) [
          | inr other ↦
              one-IsCaredFor l ls s inv here (other-CanPop setup ok_setup l s other) held rest
          | inl pops ↦ elim (popping_cases setup ok_setup s s.position inv refl) [
            | inl units ↦
                one-IsCaredFor l ls s inv here (units-CanPop setup ok_setup l s units) held rest
            | inr empty ↦ rw pops (panics (popped-panic setup ok_setup s inv empty))
          ]
        ]
