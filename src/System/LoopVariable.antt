-- ===== src/System/LoopVariable.antt =====
-- Where a goroutine of pkg/scheduler/scheduler.go puts a unit back: it reads the loop variable, which
-- the loop has moved on.
use kube_queue.Base.{
  ℕ, String, Option, none, some, List, [], ◌∷◌, get_elem?, set, get_elem?-set, lt_of_get_elem?, ltb,
  Bool-cases, inl, inr, ◌≡◌, refl, Result, ok, arith, Yields, yields, Yields-bind,
}
use kube_queue.Framework.{QueueUnit, QueueUnitInfo, Time}
use kube_queue.SchedulingQueue
use kube_queue.SchedulingQueue.{PrioritySchedulingQueue, QueueLess}
use kube_queue.SchedulingQueue.Invariant.{active, waiting, IsValid}
use kube_queue.SchedulingQueue.Methods.{add_unschedulable_if_not_present-IsNow}
use kube_queue.Container.Order.{IsStrictWeak}
use kube_queue.Scheduler.{failed_unit, error_func}
use kube_queue.System.State.{looping, storing, putting, finished, visited, ran, Setup, System}
use kube_queue.System.Rounds.{current, visit, put_on, run_goroutine}
use kube_queue.System.Step.{step, run}
use kube_queue.System.Popping.{visited-visit}
use kube_queue.System.Invariant.{IsSoundSystem}

module _ {ℓ} {Q S : Type ℓ} (setup : Setup Q S) where
  -- The queue at an address has the unit in backoff.
  abbrev pub HasWaiting : ℕ → QueueUnitInfo Q → System Q S → Type ℓ
  HasWaiting i u s =
      (q : PrioritySchedulingQueue Q) × (get_elem? s.objects i ≡ some q)
      × (waiting q u.name ≡ some u)

  module _ (u : QueueUnitInfo Q) (get : QueueUnit Q → Result (QueueUnit Q))
      (update : QueueUnit Q → Option String) (before now : Time) (unit : QueueUnit Q)
      (found : get u.unit ≡ ok unit) where
    put_on-HasWaiting :
        (s : System Q S) (i : ℕ) (q : PrioritySchedulingQueue Q) {less : QueueLess Q}
        → IsStrictWeak less
        → IsValid less q
        → get_elem? s.objects i ≡ some q
        → active q u.name ≡ none
        → waiting q u.name ≡ none
        → Yields (HasWaiting i (failed_unit u now unit)) (put_on s i q u get now)
    unfolding put_on error_func failed_unit
    put_on-HasWaiting s i q weak v there not_active not_waiting =
        rw (found, put_on, error_func)
          (Yields-bind
            (Yields-bind (add_unschedulable_if_not_present-IsNow weak q v (failed_unit u now unit))
              λ (q', err) n. yields n.waiting_now)
            λ q' w. yields (
              q',
              ground (arith, get_elem?-set s.objects i i q' (lt_of_get_elem? s.objects i there)),
              ground (arith, not_active, not_waiting),
            ))

    ran-HasWaiting :
        (s : System Q S) (j r i : ℕ) (q : PrioritySchedulingQueue Q) {less : QueueLess Q}
        → IsStrictWeak less
        → IsValid less q
        → get_elem? s.goroutines j ≡ some (storing r u)
        → get_elem? s.variables r ≡ some (some i)
        → get_elem? s.objects i ≡ some q
        → active q u.name ≡ none
        → waiting q u.name ≡ none
        → Yields
            (HasWaiting i (failed_unit u now unit))
            (run setup (ran j get update before ∷ ran j get update now ∷ []) s)
    unfolding run step run_goroutine
    ran-HasWaiting s j r i q weak v stands set_to there not_active not_waiting =
        let s' = record s { goroutines = set s.goroutines j (putting i u) } in
        let next : get_elem? s'.goroutines j ≡ some (putting i u) = ground (
          arith,
          get_elem?-set s.goroutines j j (putting i u) (lt_of_get_elem? s.goroutines j stands),
        ) in
        rw (stands, step, run_goroutine)
          (rw (set_to, run_goroutine)
            (rw (next, step, run_goroutine)
              (rw (there, run_goroutine)
                (Yields-bind
                  (put_on-HasWaiting (record s' { goroutines = set s'.goroutines j finished }) i q
                    weak v there not_active not_waiting)
                  λ s'' has. yields has))))

    -- The loop variable of the round holds the queue at `i`, which does not hold the key.
    abbrev IsReady : ℕ → ℕ → ℕ → System Q S → Type ℓ
    IsReady j r i s =
        (q : PrioritySchedulingQueue Q) × (less : QueueLess Q) × IsStrictWeak less
        × IsValid less q
        × (get_elem? s.goroutines j ≡ some (storing r u))
        × (get_elem? s.variables r ≡ some (some i))
        × (get_elem? s.objects i ≡ some q)
        × (active q u.name ≡ none)
        × (waiting q u.name ≡ none)

    visit-IsReady :
        (s : System Q S) (j i : ℕ) (rest : List ℕ) (q : PrioritySchedulingQueue Q)
        → IsSoundSystem s
        → s.todo ≡ i ∷ rest
        → get_elem? s.goroutines j ≡ some (storing (current s) u)
        → get_elem? s.objects i ≡ some q
        → active q u.name ≡ none
        → waiting q u.name ≡ none
        → Yields (IsReady j (current s) i) (visit s i rest)
    unfolding visit
    visit-IsReady s j i rest q inv left_is waits there not_active not_waiting =
        rw (there, visit)
          (elim (Bool-cases (ltb 0 (SchedulingQueue.len q))) [
            | inl busy ↦ rw (busy, visit) (yields ready)
            | inr idle ↦ rw (idle, visit) (yields ready)
          ])
      where
        variable : get_elem? (set s.variables (current s) (some i)) (current s) ≡ some (some i)
        variable =
            let opened = inv.control.opened 0 i (rw left_is refl) in
            ground (
              arith,
              opened,
              get_elem?-set s.variables (current s) (current s) (some i) (omega (arith, opened)),
            )

        ready :
            IsReady j
              (current s)
              i
              (record s { todo = rest; variables = set s.variables (current s) (some i) })
        ready =
            let sound = inv.heap.sound i q there in
            (
              q, sound.less, sound.weak, sound.valid, waits, variable, there, not_active,
              not_waiting,
            )

    -- In a sound system whose loop comes to the queue at `i`, where a goroutine that this call of
    -- schedule has started waits to put its unit back, from whichever queue it was popped: when
    -- the loop takes its next step and then the goroutine its next two, and Get returns the unit, the
    -- unit is in backoff in the queue at `i`, with one attempt more, unless that queue held its key.
    pub visited-ran-HasWaiting :
        (s : System Q S) (j i : ℕ) (rest : List ℕ) (q : PrioritySchedulingQueue Q)
        → IsSoundSystem s
        → s.position ≡ looping
        → s.todo ≡ i ∷ rest
        → get_elem? s.goroutines j ≡ some (storing (current s) u)
        → get_elem? s.objects i ≡ some q
        → active q u.name ≡ none
        → waiting q u.name ≡ none
        → Yields
            (HasWaiting i (failed_unit u now unit))
            (run setup (visited ∷ ran j get update before ∷ ran j get update now ∷ []) s)
    unfolding run step
    visited-ran-HasWaiting s j i rest q inv stands left_is waits there not_active not_waiting =
        rw (visited-visit setup s s.position s.todo i rest stands left_is) (
          Yields-bind (visit-IsReady s j i rest q inv left_is waits there not_active not_waiting)
            λ s' (q', less, weak, v, waits', set_to, there', not_active', not_waiting').
              ran-HasWaiting s' j (current s) i q' weak v waits' set_to there' not_active'
                not_waiting')
