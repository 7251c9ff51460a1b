-- ===== src/System/Fate.antt =====
-- What becomes of a unit that the scheduler has popped, step by step: pkg/scheduler/scheduler.go.
use kube_queue.Base.{
  ℕ, ◌||◌, Bool, true, false, Option, none, some, is_some, List, get_elem?, get_elem?-set,
  get_elem?-some, lt_of_get_elem?, Result, ok, failed, Result-cases, ◌≡◌, ◌⊎◌, refl, ◌∙◌, ap, arith,
  inl, inr, Outcome, panic, out_of_fuel, value, Yields, yields, Yields-bind,
}
use kube_queue.Framework.{QueueUnit, QueueUnitInfo, Time}
use kube_queue.SchedulingQueue.{PrioritySchedulingQueue}
use kube_queue.SchedulingQueue.Invariant.{active, waiting}
use kube_queue.SchedulingQueue.Methods.{add_unschedulable_if_not_present-IsNow}
use kube_queue.Scheduler.{dequeue, error_func, failed_unit}
use kube_queue.System.State.{
  Position, looping, popping, filtering, reserving, failing, Goroutine, dequeuing, unreserving,
  storing, putting, finished, Label, put_back, ran, System,
}
use kube_queue.System.Rounds.{put_on, store}
use kube_queue.System.Invariant.{IsSoundSystem}
use kube_queue.System.Objects.{IsSoundObject}
use kube_queue.System.Addresses.{IsAssigned}
use kube_queue.System.Stays.{IfValue, StaysHeld}

module _ {ℓ} {Q : Type ℓ} where
  -- The unit that the loop or a goroutine holds.
  abbrev pub position_unit : Position Q → Option (QueueUnitInfo Q)
  position_unit looping = none
  position_unit popping = none
  position_unit (filtering u) = some u
  position_unit (reserving u) = some u
  position_unit (failing u) = some u

  abbrev pub goroutine_unit : Goroutine Q → Option (QueueUnitInfo Q)
  goroutine_unit (dequeuing r u) = some u
  goroutine_unit (unreserving r u) = some u
  goroutine_unit (storing r u) = some u
  goroutine_unit (putting i u) = some u
  goroutine_unit finished = none

  abbrev pub is_failed : Result (QueueUnit Q) → Bool
  is_failed (ok unit) = false
  is_failed (failed err) = true

  -- What the API answers in a step that ends the care for a unit: it has taken the unit as dequeued,
  -- or it does not find the unit.
  abbrev pub IsReleased : QueueUnitInfo Q → Label Q → Type 0
  IsReleased u (put_back get now) = is_failed (get u.unit) ≡ true
  IsReleased u (ran j get update now) =
      (is_some (dequeue get update u.unit) ≡ false) ⊎ (is_failed (get u.unit) ≡ true)
  IsReleased u _ = ⊥

  -- ErrorFunc leaves a unit under the key, unless Get fails.
  error_func-queued :
      (q : PrioritySchedulingQueue Q) (sound : IsSoundObject q)
      (get : QueueUnit Q → Result (QueueUnit Q)) (now : Time) (u : QueueUnitInfo Q)
      → Yields
          (λ q'.
            ((is_some (active q' u.name) || is_some (waiting q' u.name)) ≡ true)
            ⊎ (is_failed (get u.unit) ≡ true))
          (error_func get now u q)
  unfolding error_func failed_unit
  error_func-queued q sound get now u = elim (Result-cases (get u.unit)) [
    | inr (err, e) ↦ rw (e, error_func) (yields (inr refl))
    | inl (unit, e) ↦
        rw (e, error_func)
          (Yields-bind
            (add_unschedulable_if_not_present-IsNow sound.weak q sound.valid
              (failed_unit u now unit))
            λ (q', err) n. yields (inl (rw (n.active_now, n.waiting_now) (ground arith))))
  ]

module _ {ℓ} {Q S : Type ℓ} where
  -- A goroutine holds the unit, or the loop does.
  abbrev pub IsHeld : QueueUnitInfo Q → System Q S → Type ℓ
  IsHeld u s =
      (position_unit s.position ≡ some u)
      ⊎ ((j : ℕ) × (g : Goroutine Q) × (get_elem? s.goroutines j ≡ some g)
          × (goroutine_unit g ≡ some u))

  -- A queue has a unit under the key.
  abbrev pub IsQueued : QueueUnitInfo Q → System Q S → Type ℓ
  IsQueued u s =
      (i : ℕ) × (q : PrioritySchedulingQueue Q) × (get_elem? s.objects i ≡ some q)
      × ((is_some (active q u.name) || is_some (waiting q u.name)) ≡ true)

  abbrev pub Fate : QueueUnitInfo Q → Label Q → System Q S → Type ℓ
  Fate u l s' = IsHeld u s' ⊎ (IsQueued u s' ⊎ IsReleased u l)

  pub StaysHeld-Fate :
      (u : QueueUnitInfo Q) (l : Label Q) (s s' : System Q S)
      → IsHeld u s
      → StaysHeld s s'
      → Fate u l s'
  StaysHeld-Fate u l s s' (inl at) (same_goroutines, same_position) =
      inl (inl (ap position_unit same_position ∙ at))
  StaysHeld-Fate u l s s' (inr (j, g, there, holds)) (same_goroutines, same_position) =
      inl (inr (j, g, rw same_goroutines there, holds))

  pub IfValue-Fate :
      (u : QueueUnitInfo Q) (l : Label Q) (s : System Q S) (m : Outcome (System Q S))
      → IsHeld u s
      → IfValue (StaysHeld s) m
      → IfValue (Fate u l) m
  IfValue-Fate u l s panic held stays = tt
  IfValue-Fate u l s out_of_fuel held stays = tt
  IfValue-Fate u l s (value s') held stays = StaysHeld-Fate u l s s' held stays

  pub put_on-Fate :
      (s : System Q S) (inv : IsSoundSystem s) (i : ℕ) (q : PrioritySchedulingQueue Q)
      (u : QueueUnitInfo Q) (get : QueueUnit Q → Result (QueueUnit Q)) (now : Time)
      → get_elem? s.objects i ≡ some q
      → (goroutines : List (Goroutine Q))
      → Yields
          (λ s'. IsQueued u s' ⊎ (is_failed (get u.unit) ≡ true))
          (put_on (record s { goroutines = goroutines }) i q u get now)
  unfolding put_on
  put_on-Fate s inv i q u get now there goroutines =
      Yields-bind (error_func-queued q (inv.heap.sound i q there) get now u) λ q' ends.
        yields (elim ends [
          | inl kept ↦ inl (
            i,
            q',
            ground (arith, get_elem?-set s.objects i i q' (lt_of_get_elem? s.objects i there)),
            kept,
          )
          | inr missing ↦ inr missing
        ])

  pub store-Fate :
      (s : System Q S) (inv : IsSoundSystem s) (r : ℕ) (u : QueueUnitInfo Q)
      (get : QueueUnit Q → Result (QueueUnit Q)) (now : Time)
      → IsAssigned s.variables r
      → (goroutines : List (Goroutine Q))
      → Yields
          (λ s'. IsQueued u s' ⊎ (is_failed (get u.unit) ≡ true))
          (store (record s { goroutines = goroutines }) r u get now)
  unfolding store
  store-Fate s inv r u get now (i, set_to) goroutines =
      let (q, there) = get_elem?-some s.objects i (inv.below.variables_below r i set_to) in
      rw (set_to, there, store) (put_on-Fate s inv i q u get now there goroutines)

  pub Yields-IfValue :
      {P : System Q S → Type ℓ} {m : Outcome (System Q S)} → Yields P m → IfValue P m
  Yields-IfValue (yields p) = p
