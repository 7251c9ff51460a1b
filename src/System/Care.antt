-- ===== src/System/Care.antt =====
-- What a step does to a unit that the loop or a goroutine of the scheduler holds.
use mathlib.Core.Path.{subst}
use kube_queue.Base.{
  ℕ, true, some, List, [], ◌∷◌, length, get_elem?, get_elem?-append, lt_of_get_elem?, Bool-cases,
  Result, ◌≡◌, ◌⊎◌, refl, arith, inl, inr, Outcome, panic, out_of_fuel, value, ◌>>=◌, Yields,
  yields,
}
use kube_queue.Framework.{QueueUnit, QueueUnitInfo, Time, is_success}
use kube_queue.Runtime.{run_filter_plugins, run_reserve_plugins_reserve}
use kube_queue.System.State.{
  Position, looping, popping, filtering, reserving, failing, Goroutine, dequeuing, Label, handled,
  dequeued_added, dequeued_deleted, called, ticked, relisted, began, visited, popped, filtered,
  reserved, put_back, ran, Setup, System,
}
use kube_queue.System.Rounds.{begin, current, pass_filters, reserve_unit, store, schedule_step}
use kube_queue.System.Step.{step}
use kube_queue.System.Invariant.{IsSoundSystem, IsSoundSetup, IsSoundPosition, IsPossible}
use kube_queue.System.Addresses.{IsAssigned}
use kube_queue.System.Stays.{
  IfValue, IfValue-bind, StaysHeld, handle-StaysHeld, called-StaysHeld, tick-StaysHeld, StayRunning,
  visit-StayRunning, pop_head-StayRunning, pass_filters-StayRunning, store-StayRunning,
}
use kube_queue.System.Soundness.{CanPop, step-IsSoundSystem}
use kube_queue.System.Ran.{ran-Fate}
use kube_queue.System.Fate.{
  goroutine_unit, is_failed, IsHeld, IsQueued, Fate, StaysHeld-Fate, IfValue-Fate, store-Fate,
  Yields-IfValue,
}

module _ {ℓ} {Q S : Type ℓ} where
  IfValue-chain :
      (P R : System Q S → Type ℓ) (m : Outcome (System Q S)) (k : System Q S → Outcome (System Q S))
      → IfValue P m
      → ((s' : System Q S) → P s' → IfValue R (k s'))
      → IfValue R (m >>= k)
  IfValue-chain P R panic k holds next = tt
  IfValue-chain P R out_of_fuel k holds next = tt
  IfValue-chain P R (value s') k holds next = next s' holds

  -- A goroutine holds the unit.
  abbrev IsHeldByGoroutine : QueueUnitInfo Q → System Q S → Type ℓ
  IsHeldByGoroutine u s =
      (j : ℕ) × (g : Goroutine Q) × (get_elem? s.goroutines j ≡ some g)
      × (goroutine_unit g ≡ some u)

  module _ (setup : Setup Q S) (s : System Q S) (inv : IsSoundSystem s) (u : QueueUnitInfo Q) where
    running-Fate :
        (l : Label Q) (m : Outcome (System Q S))
        → IfValue (StayRunning setup s) m
        → IsHeldByGoroutine u s
        → IfValue (Fate u l) m
    running-Fate l panic stays held = tt
    running-Fate l out_of_fuel stays held = tt
    running-Fate l (value s') same (j, g, there, holds) = inl (inr (j, g, rw same there, holds))

    pass_filters-Fate : (l : Label Q) → IfValue (Fate u l) (pass_filters setup s u)
    unfolding pass_filters
    pass_filters-Fate l =
        IfValue-bind (Fate u l) (run_filter_plugins setup.fw s.plugins u) _ λ status.
          elim (Bool-cases (is_success status.code)) [
            | inl good ↦ inl (inl (rw good refl))
            | inr bad ↦ inl (inl (rw bad refl))
          ]

    reserve_unit-Fate : (l : Label Q) → Fate u l (reserve_unit setup s u)
    unfolding reserve_unit
    reserve_unit-Fate l =
        elim (Bool-cases (is_success (run_reserve_plugins_reserve setup.fw s.plugins u).1.code)) [
          | inl good ↦
              rw (good, reserve_unit)
                (inl (
                  inr (
                    length s.goroutines,
                    dequeuing (current s) u,
                    ground (
                      arith,
                      get_elem?-append s.goroutines (dequeuing (current s) u) (length s.goroutines),
                    ),
                    refl,
                  )))
          | inr bad ↦ rw (bad, reserve_unit) (inl (inl refl))
        ]

    reserve_unit-held :
        (l : Label Q) (v : QueueUnitInfo Q)
        → IsHeldByGoroutine u s
        → Fate u l (reserve_unit setup s v)
    unfolding reserve_unit
    reserve_unit-held l v (j, g, there, holds) =
        elim (Bool-cases (is_success (run_reserve_plugins_reserve setup.fw s.plugins v).1.code)) [
          | inl good ↦
              rw (good, reserve_unit)
                (inl (
                  inr (
                    j,
                    g,
                    ground (
                      arith,
                      there,
                      lt_of_get_elem? s.goroutines j there,
                      get_elem?-append s.goroutines (dequeuing (current s) v) j,
                    ),
                    holds,
                  )))
          | inr bad ↦ rw (bad, reserve_unit) (inl (inr (j, g, there, holds)))
        ]

    put_back-Fate :
        (get : QueueUnit Q → Result (QueueUnit Q)) (now : Time)
        → IsAssigned s.variables (current s)
        → IfValue
            (Fate u (put_back get now))
            (store s (current s) u get now >>= λ s'. value (record s' { position = looping }))
    put_back-Fate get now is_set =
        IfValue-chain (λ s'. IsQueued u s' ⊎ (is_failed (get u.unit) ≡ true))
          (Fate u (put_back get now)) (store s (current s) u get now) _
          (Yields-IfValue (store-Fate s inv (current s) u get now is_set s.goroutines))
          λ s' ends. elim ends [ inl queued ↦ inr (inl queued) | inr missing ↦ inr (inr missing) ]

    schedule_step-Fate :
        (l : Label Q) (position : Position Q) (todo : List ℕ)
        → s.position ≡ position
        → IsHeld u s
        → IfValue (Fate u l) (schedule_step setup l position todo s)
    unfolding schedule_step begin
    schedule_step-Fate began looping [] at held =
        StaysHeld-Fate u began s (begin setup s) held (refl, refl)
    schedule_step-Fate visited looping (i ∷ rest) at (inr held) =
        running-Fate visited _ (visit-StayRunning setup s i rest) held
    schedule_step-Fate visited looping (i ∷ rest) at (inl loop) = absurd (ground (arith, at, loop))
    schedule_step-Fate popped popping todo at (inr held) =
        running-Fate popped _ (pop_head-StayRunning setup s) held
    schedule_step-Fate popped popping todo at (inl loop) = absurd (ground (arith, at, loop))
    schedule_step-Fate filtered (filtering v) todo at (inr held) =
        running-Fate filtered _ (pass_filters-StayRunning setup s v) held
    schedule_step-Fate filtered (filtering v) todo at (inl loop) =
        let unit_is : u ≡ v = ground (arith, at, loop) in
        rw (← unit_is) (pass_filters-Fate filtered)
    schedule_step-Fate reserved (reserving v) todo at (inr held) = reserve_unit-held reserved v held
    schedule_step-Fate reserved (reserving v) todo at (inl loop) =
        let unit_is : u ≡ v = ground (arith, at, loop) in
        rw (← unit_is) (reserve_unit-Fate reserved)
    schedule_step-Fate (put_back get now) (failing v) todo at (inr (j, g, there, holds)) =
        IfValue-chain (StaysHeld s) (Fate u (put_back get now)) (store s (current s) v get now) _
          (store-StayRunning setup s (current s) v get now)
          λ s' (same, same_position). inl (inr (j, g, rw same there, holds))
    schedule_step-Fate (put_back get now) (failing v) todo at (inl loop) =
        let unit_is : u ≡ v = ground (arith, at, loop) in
        rw (← unit_is)
          (put_back-Fate get now (subst (IsSoundPosition s.variables) at inv.control.stands))
    schedule_step-Fate l position todo at held = inl held

    step-IfValue : (l : Label Q) → IsHeld u s → IfValue (Fate u l) (step setup l s)
    unfolding step
    step-IfValue (handled e) held = IfValue-Fate u (handled e) s _ held (handle-StaysHeld setup s e)
    step-IfValue (dequeued_added v now later) held = inl held
    step-IfValue (dequeued_deleted v now later) held = inl held
    step-IfValue (relisted n) held = inl held
    step-IfValue (called j) held = IfValue-Fate u (called j) s _ held (called-StaysHeld setup s j)
    step-IfValue (ticked i clock) held =
        IfValue-Fate u (ticked i clock) s _ held (tick-StaysHeld setup s i clock)
    step-IfValue (ran j get update now) held = ran-Fate setup s inv j u get update now held
    step-IfValue began held = schedule_step-Fate began s.position s.todo refl held
    step-IfValue visited held = schedule_step-Fate visited s.position s.todo refl held
    step-IfValue popped held = schedule_step-Fate popped s.position s.todo refl held
    step-IfValue filtered held = schedule_step-Fate filtered s.position s.todo refl held
    step-IfValue reserved held = schedule_step-Fate reserved s.position s.todo refl held
    step-IfValue (put_back get now) held =
        schedule_step-Fate (put_back get now) s.position s.todo refl held

  Yields-with :
      {P R : System Q S → Type ℓ} {m : Outcome (System Q S)}
      → Yields P m
      → IfValue R m
      → Yields (λ s'. P s' × R s') m
  Yields-with (yields p) r = yields (p, r)

  -- A unit that the loop or a goroutine of the scheduler holds, in a sound system: after any
  -- possible step, where a Pop finds a unit, the system is sound and the unit is still held, or a
  -- queue has a unit under its key, or the API has answered that it is dequeued or that Get fails.
  -- The policies are strict weak orders, the filters end on a unit with a consumer, and sort.Slice
  -- returns elements of its list.
  pub step-Fate :
      (setup : Setup Q S) (ok_setup : IsSoundSetup setup) (l : Label Q) (s : System Q S)
      (u : QueueUnitInfo Q)
      → IsSoundSystem s
      → IsPossible setup.queue_sort_func_map l
      → CanPop setup ok_setup l s
      → IsHeld u s
      → Yields (λ s'. IsSoundSystem s' × Fate u l s') (step setup l s)
  step-Fate setup ok_setup l s u inv possible can held =
      Yields-with (step-IsSoundSystem setup ok_setup l s inv possible can)
        (step-IfValue setup s inv u l held)
