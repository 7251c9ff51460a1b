-- ===== src/System/Popping.antt =====
-- What the loop keeps of the invariant where it takes a queue, and where it pops it.
use mathlib.Core.Path.{subst}
use kube_queue.Base.{
  ℕ, suc, ◌<◌, some, List, ◌∷◌, length, get_elem?, set, length-set, get_elem?-set, get_elem?-some,
  ite, ℕ_discrete, ltb, ◌≡◌, refl, arith, Bool-cases, inl, inr, Yields, yields, Yields-bind,
}
use kube_queue.SchedulingQueue
use kube_queue.SchedulingQueue.{PrioritySchedulingQueue, QueueLess, new_priority_scheduling_queue}
use kube_queue.System.State.{Position, looping, popping, visited, Setup, System}
use kube_queue.System.Rounds.{current, visit, pop_head, schedule_step}
use kube_queue.System.Objects.{pop-IsKeptObject}
use kube_queue.System.Invariant.{
  IsSoundPosition, IsSoundControl, IsSoundSystem, IsSoundSetup, set-IsSoundHeap,
}
use kube_queue.System.Addresses.{AreBelow, IsAssigned}
use kube_queue.System.Variables.{set-StaySet, set-IsAssigned, StaySet-IsSoundGoroutine}

-- The loop reads a queue with units in its loop variable, if it is about to pop.
abbrev pub PopsUnit {ℓ} : {Q S : Type ℓ} → System Q S → Type ℓ
PopsUnit {Q = Q} s =
    (i : ℕ) (q : PrioritySchedulingQueue Q)
    → s.position ≡ popping
    → get_elem? s.variables (current s) ≡ some (some i)
    → get_elem? s.objects i ≡ some q
    → 0 < SchedulingQueue.len q

module _ {ℓ} {Q S : Type ℓ} (setup : Setup Q S) (ok_setup : IsSoundSetup setup) (s : System Q S)
    (inv : IsSoundSystem s) where
  visit-AreBelow :
      (i : ℕ) (rest : List ℕ)
      → s.todo ≡ i ∷ rest
      → AreBelow (length s.objects) rest (set s.variables (current s) (some i))
  visit-AreBelow i rest e = record {
    todo_below = λ n j there. inv.below.todo_below (suc n) j (rw e there);
    variables_below = λ r j there. elim (ℕ_discrete (current s) r) [
      | yes same ↦ inv.below.todo_below 0 j (rw e (ground (arith, now r, opened)))
      | no other ↦ inv.below.variables_below r j (ground (arith, now r, opened))
    ];
  }
    where
      opened : 0 < length s.variables
      opened = inv.control.opened 0 i (rw e refl)

      now :
          (r : ℕ)
          → get_elem? (set s.variables (current s) (some i)) r
            ≡ ite (ℕ_discrete (current s) r) (some (some i)) (get_elem? s.variables r)
      now r = get_elem?-set s.variables (current s) r (some i) (omega (arith, opened))

  -- The control once the loop variable is set and the loop stands at a position that reads it.
  visit-IsSoundControl :
      (i : ℕ) (rest : List ℕ) (position : Position Q)
      → s.todo ≡ i ∷ rest
      → (IsAssigned (set s.variables (current s) (some i)) (current s)
          → IsSoundPosition (set s.variables (current s) (some i)) position)
      → IsSoundControl rest position (set s.variables (current s) (some i)) s.goroutines
  visit-IsSoundControl i rest position e at = record {
    opened = λ n j there. rw same_length opened;
    stands = at (set-IsAssigned s.variables (current s) i inside);
    waits = λ j g there.
        StaySet-IsSoundGoroutine _ _ g (set-StaySet s.variables (current s) i inside)
          (inv.control.waits j g there);
  }
    where
      opened : 0 < length s.variables
      opened = inv.control.opened 0 i (rw e refl)

      same_length : length (set s.variables (current s) (some i)) ≡ length s.variables
      same_length = length-set s.variables (current s) (some i)

      inside : current s < length s.variables
      inside = omega (arith, opened)

  visit-PopsUnit :
      (i : ℕ) (rest : List ℕ) (q : PrioritySchedulingQueue Q)
      → s.todo ≡ i ∷ rest
      → get_elem? s.objects i ≡ some q
      → 0 < SchedulingQueue.len q
      → PopsUnit (record s {
        todo = rest;
        variables = set s.variables (current s) (some i);
        position = popping;
      })
  visit-PopsUnit i rest q e there busy i' q' at set_to held =
      let opened = inv.control.opened 0 i (rw e refl) in
      let same_length = length-set s.variables (current s) (some i) in
      let variable =
        get_elem?-set s.variables (current s) (current s) (some i) (omega (arith, opened)) in
      let address_is : i ≡ i' = ground (arith, same_length, variable) in
      let queue_is : q ≡ q' = ground arith in rw (← queue_is) busy

  pub visit-IsSoundSystem :
      (i : ℕ) (rest : List ℕ)
      → s.position ≡ looping
      → s.todo ≡ i ∷ rest
      → Yields (λ s'. IsSoundSystem s' × PopsUnit s') (visit s i rest)
  unfolding visit
  visit-IsSoundSystem i rest stands e =
      let (q, there) = get_elem?-some s.objects i (inv.below.todo_below 0 i (rw e refl)) in
      let same_length = length-set s.variables (current s) (some i) in
      elim (Bool-cases (ltb 0 (SchedulingQueue.len q))) [
        | inl busy ↦
            rw (there, busy, visit)
              (yields (
                record {
                  heap = inv.heap;
                  calls = inv.calls;
                  below = visit-AreBelow i rest e;
                  control = visit-IsSoundControl i rest popping e λ is_set. rw same_length is_set;
                },
                visit-PopsUnit i rest q e there (ground (arith, busy)),
              ))
        | inr idle ↦
            rw (there, idle, visit)
              (yields (
                record {
                  heap = inv.heap;
                  calls = inv.calls;
                  below = visit-AreBelow i rest e;
                  control = visit-IsSoundControl i rest s.position e λ is_set. rw stands tt;
                },
                λ i' q' at set_to held. absurd (ground (arith, at, stands)),
              ))
      ]

  pub pop_head-IsSoundSystem : s.position ≡ popping → PopsUnit s → Yields IsSoundSystem (pop_head s)
  unfolding pop_head
  pop_head-IsSoundSystem stands busy =
      let (i, set_to) = subst (IsSoundPosition s.variables) stands inv.control.stands in
      let (q, there) = get_elem?-some s.objects i (inv.below.variables_below _ i set_to) in
      rw (set_to, there, pop_head)
        (Yields-bind (pop-IsKeptObject q (inv.heap.sound i q there) (busy i q stands set_to there))
          λ (u, err, q') (has, kept). yields (record {
            heap = set-IsSoundHeap inv.heap i q q' there kept;
            calls = rw (length-set s.objects i q') inv.calls;
            below = rw (length-set s.objects i q') inv.below;
            control = record {
              opened = inv.control.opened;
              stands = ((i, set_to), has);
              waits = inv.control.waits;
            };
          }))

module _ {ℓ} {Q S : Type ℓ} (setup : Setup Q S) where
  pub visited-visit :
      (s : System Q S) (position : Position Q) (todo : List ℕ) (i : ℕ) (rest : List ℕ)
      → position ≡ looping
      → todo ≡ i ∷ rest
      → schedule_step setup visited position todo s ≡ visit s i rest
  unfolding schedule_step
  visited-visit s position todo i rest stands left_is = rw (stands, left_is, schedule_step) refl
