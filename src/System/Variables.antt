-- ===== src/System/Variables.antt =====
-- Loop variables that stay set, and the goroutines that read them.
use kube_queue.Base.{
  ℕ, ◌<◌, Option, none, some, List, [], ◌∷◌, ◌++◌, length, set, get_elem?-set, get_elem?-append,
  lt_of_get_elem?, ℕ_discrete, arith,
}
use kube_queue.System.State.{Goroutine, dequeuing, unreserving, storing, putting, finished}
use kube_queue.System.Invariant.{IsSoundGoroutine}
use kube_queue.System.Addresses.{IsAssigned}

-- Variables of which every one that was set still is.
abbrev pub StaySet : List (Option ℕ) → List (Option ℕ) → Type 0
StaySet variables variables' = (r : ℕ) → IsAssigned variables r → IsAssigned variables' r

pub append-StaySet : (variables : List (Option ℕ)) → StaySet variables (variables ++ none ∷ [])
append-StaySet variables r (i, e) =
    (i, ground (arith, get_elem?-append variables none r, lt_of_get_elem? variables r e))

pub set-StaySet :
    (variables : List (Option ℕ)) (c i : ℕ)
    → c < length variables
    → StaySet variables (set variables c (some i))
set-StaySet variables c i inside r (j, e) = elim (ℕ_discrete c r) [
  | yes same ↦ (i, ground (arith, get_elem?-set variables c r (some i) inside))
  | no other ↦ (j, ground (arith, get_elem?-set variables c r (some i) inside))
]

pub set-IsAssigned :
    (variables : List (Option ℕ)) (c i : ℕ)
    → c < length variables
    → IsAssigned (set variables c (some i)) c
set-IsAssigned variables c i inside =
    (i, ground (arith, get_elem?-set variables c c (some i) inside))

module _ {ℓ} {Q : Type ℓ} where
  pub StaySet-IsSoundGoroutine :
      (variables variables' : List (Option ℕ)) (g : Goroutine Q)
      → StaySet variables variables'
      → IsSoundGoroutine variables g
      → IsSoundGoroutine variables' g
  StaySet-IsSoundGoroutine v v' (dequeuing r u) stay has = stay r has
  StaySet-IsSoundGoroutine v v' (unreserving r u) stay has = stay r has
  StaySet-IsSoundGoroutine v v' (storing r u) stay has = stay r has
  StaySet-IsSoundGoroutine v v' (putting i u) stay has = tt
  StaySet-IsSoundGoroutine v v' finished stay has = tt
