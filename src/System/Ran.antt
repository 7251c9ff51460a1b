-- ===== src/System/Ran.antt =====
-- The step of a goroutine of pkg/scheduler/scheduler.go: the unit that it holds, and the other
-- goroutines.
use kube_queue.Base.{
  ℕ, String, Option, some, get_elem?, set, get_elem?-set, lt_of_get_elem?, ℕ_discrete, Option-cases,
  Result, ◌≡◌, ◌≢◌, ◌⊎◌, refl, ◌∙◌, ap, arith, inl, inr, Outcome, panic, out_of_fuel, value,
  or_panic, Yields-weaken,
}
use kube_queue.Framework.{QueueUnit, QueueUnitInfo, Time}
use kube_queue.Scheduler.{dequeue, error_func}
use kube_queue.System.State.{
  Goroutine, dequeuing, unreserving, storing, putting, finished, Label, ran, Setup, System,
}
use kube_queue.System.Rounds.{put_on, run_goroutine}
use kube_queue.System.Step.{step}
use kube_queue.System.Invariant.{IsSoundSystem}
use kube_queue.System.Stays.{IfValue, IfValue-bind}
use kube_queue.System.Fate.{
  position_unit, goroutine_unit, IsHeld, Fate, put_on-Fate, Yields-IfValue,
}

module _ {ℓ} {Q S : Type ℓ} where
  -- A goroutine that holds the unit goes on.
  run_goroutine-Fate :
      (setup : Setup Q S) (s : System Q S) (inv : IsSoundSystem s) (j : ℕ) (g : Goroutine Q)
      (u : QueueUnitInfo Q) (get : QueueUnit Q → Result (QueueUnit Q))
      (update : QueueUnit Q → Option String) (now : Time)
      → get_elem? s.goroutines j ≡ some g
      → goroutine_unit g ≡ some u
      → IfValue (Fate u (ran j get update now)) (run_goroutine setup s j g get update now)
  unfolding run_goroutine
  run_goroutine-Fate setup s inv j (dequeuing r v) u get update now there holds =
      let unit_is : v ≡ u = ground arith in
      let inside = lt_of_get_elem? s.goroutines j there in
      rw (← unit_is) (elim (Option-cases (dequeue get update v.unit)) [
        | inl done ↦ rw (done, run_goroutine) (inr (inr (inl (ground (arith, done)))))
        | inr (err, refused) ↦
            rw (refused, run_goroutine)
              (inl (
                inr (
                  j,
                  unreserving r v,
                  ground (arith, get_elem?-set s.goroutines j j (unreserving r v) inside),
                  refl,
                )))
      ])
  run_goroutine-Fate setup s inv j (unreserving r v) u get update now there holds =
      let unit_is : v ≡ u = ground arith in
      let inside = lt_of_get_elem? s.goroutines j there in
      rw (← unit_is) (
        inl (
          inr (
            j,
            storing r v,
            ground (arith, get_elem?-set s.goroutines j j (storing r v) inside),
            refl,
          )))
  run_goroutine-Fate setup s inv j (storing r v) u get update now there holds =
      let (i, set_to) = inv.control.waits j (storing r v) there in
      let inside = lt_of_get_elem? s.goroutines j there in
      rw (set_to, run_goroutine)
        (inl (
          inr (
            j,
            putting i v,
            ground (arith, get_elem?-set s.goroutines j j (putting i v) inside),
            holds,
          )))
  run_goroutine-Fate setup s inv j (putting i v) u get update now there holds =
      let unit_is : v ≡ u = ground arith in
      rw (← unit_is) (elim (Option-cases (get_elem? s.objects i)) [
        | inl out ↦ rw (out, run_goroutine) (inl (inr (j, putting i v, there, refl)))
        | inr (q, held) ↦
            rw (held, run_goroutine)
              (Yields-IfValue (
                Yields-weaken (put_on-Fate s inv i q v get now held (set s.goroutines j finished))
                  λ s' ends. elim ends [
                    | inl queued ↦ inr (inl queued)
                    | inr missing ↦ inr (inr (inr missing))
                  ]))
      ])
  run_goroutine-Fate setup s inv j finished u get update now there holds = absurd (ground arith)

  -- The goroutines other than `j`, and the position of the loop, stay.
  abbrev pub StaysBut : ℕ → System Q S → System Q S → Type ℓ
  StaysBut j s s' =
      ((k : ℕ) → j ≢ k → get_elem? s'.goroutines k ≡ get_elem? s.goroutines k)
      × (s'.position ≡ s.position)

  set-StaysBut :
      (s : System Q S) (j : ℕ) (g g' : Goroutine Q)
      → get_elem? s.goroutines j ≡ some g
      → (k : ℕ) → j ≢ k
      → get_elem? (set s.goroutines j g') k ≡ get_elem? s.goroutines k
  set-StaysBut s j g g' there k other =
      ground (arith, get_elem?-set s.goroutines j k g' (lt_of_get_elem? s.goroutines j there))

  run_goroutine-StaysBut :
      (setup : Setup Q S) (s : System Q S) (j : ℕ) (g : Goroutine Q)
      (get : QueueUnit Q → Result (QueueUnit Q)) (update : QueueUnit Q → Option String) (now : Time)
      → get_elem? s.goroutines j ≡ some g
      → IfValue (StaysBut j s) (run_goroutine setup s j g get update now)
  unfolding run_goroutine put_on
  run_goroutine-StaysBut setup s j (dequeuing r v) get update now there =
      elim (Option-cases (dequeue get update v.unit)) [
        | inl done ↦ rw (done, run_goroutine) (set-StaysBut s j _ finished there, refl)
        | inr (err, refused) ↦
            rw (refused, run_goroutine) (set-StaysBut s j _ (unreserving r v) there, refl)
      ]
  run_goroutine-StaysBut setup s j (unreserving r v) get update now there =
      (set-StaysBut s j _ (storing r v) there, refl)
  run_goroutine-StaysBut setup s j (storing r v) get update now there =
      IfValue-bind (StaysBut j s) (or_panic (get_elem? s.variables r)) _ λ variable.
        IfValue-bind (StaysBut j s) (or_panic variable) _
          λ i. (set-StaysBut s j _ (putting i v) there, refl)
  run_goroutine-StaysBut setup s j (putting i v) get update now there =
      elim (Option-cases (get_elem? s.objects i)) [
        | inl out ↦ rw (out, run_goroutine) (λ k other. refl, refl)
        | inr (q, held) ↦
            rw (held, run_goroutine)
              (IfValue-bind (StaysBut j s) (error_func get now v q) _
                λ q'. (set-StaysBut s j _ finished there, refl))
      ]
  run_goroutine-StaysBut setup s j finished get update now there = (λ k other. refl, refl)

  StaysBut-Fate :
      (u : QueueUnitInfo Q) (l : Label Q) (j : ℕ) (s : System Q S) (m : Outcome (System Q S))
      → IfValue (StaysBut j s) m
      → (position_unit s.position ≡ some u)
        ⊎ ((k : ℕ) × (g : Goroutine Q) × (get_elem? s.goroutines k ≡ some g)
            × (goroutine_unit g ≡ some u)
            × (j ≢ k))
      → IfValue (Fate u l) m
  StaysBut-Fate u l j s panic stays held = tt
  StaysBut-Fate u l j s out_of_fuel stays held = tt
  StaysBut-Fate u l j s (value s') (same, same_position) (inl at) =
      inl (inl (ap position_unit same_position ∙ at))
  StaysBut-Fate u l j s (value s') (same, same_position) (inr (k, g, there, holds, other)) =
      inl (inr (k, g, same k other ∙ there, holds))

  pub ran-Fate :
      (setup : Setup Q S) (s : System Q S) (inv : IsSoundSystem s) (j : ℕ) (u : QueueUnitInfo Q)
      (get : QueueUnit Q → Result (QueueUnit Q)) (update : QueueUnit Q → Option String) (now : Time)
      → IsHeld u s
      → IfValue (Fate u (ran j get update now)) (step setup (ran j get update now) s)
  unfolding step
  ran-Fate setup s inv j u get update now held = elim (Option-cases (get_elem? s.goroutines j)) [
    | inl out ↦ rw (out, step) (inl held)
    | inr (g, there) ↦
        let stays = run_goroutine-StaysBut setup s j g get update now there in
        rw (there, step)
          (elim held [
            | inl at ↦ StaysBut-Fate u (ran j get update now) j s _ stays (inl at)
            | inr (k, h, here, holds) ↦ elim (ℕ_discrete j k) [
              | yes same ↦
                  let goroutine_is : h ≡ g = ground arith in
                  run_goroutine-Fate setup s inv j g u get update now there
                    (rw (← goroutine_is) holds)
              | no other ↦
                  StaysBut-Fate u (ran j get update now) j s _ stays
                    (inr (k, h, here, holds, other))
            ]
          ])
  ]
