-- ===== src/SchedulingQueue/Refinement.antt =====
-- The abstract scheduling queue, two maps of units, and that the queue of two heaps implements it.
use kube_queue.Base.{
  ℕ, String, true, false, Option, none, some, List, [], ◌∷◌, ltb, if◌then◌else◌, is_some, ◌||◌, ◌≡◌,
  Outcome, value, ◌>>=◌, Yields, yields, Yields-bind, Yields-if, arith, ◌⊎◌, ◌∙◌,
}
use kube_queue.Base.Int.{ltb_ℤ}
use kube_queue.Heap.{GoError}
use kube_queue.Heap.View.{written, removed}
use kube_queue.Heap.Remove.{len-zero-view}
use kube_queue.Container.Order.{IsStrictWeak}
use kube_queue.Framework.{QueueUnit, QueueUnitInfo, Time, new_queue_unit_info, object_key}
use kube_queue.SchedulingQueue
use kube_queue.SchedulingQueue.{PrioritySchedulingQueue, QueueLess, unit_info_key_func, comp}
use kube_queue.SchedulingQueue.Backoff.{get_backoff_time}
use kube_queue.SchedulingQueue.Invariant.{active, waiting, overwritten, IsValid, IsNow}
use kube_queue.SchedulingQueue.Writes.{comp_is}
use kube_queue.SchedulingQueue.Methods.{
  add-IsNow, add_unschedulable_if_not_present-IsNow, delete-IsNow, update-IsNow, pop-IsNow,
}
use kube_queue.SchedulingQueue.Flush.{flush_backoff_q_completed-IsFlushed}

-- A call of a method, with the clock readings that it makes. `poll` is Pop under the test of Length
-- that the scheduler makes.
pub data Call {ℓ} (Q : Type ℓ) : Type ℓ where
  add : QueueUnit Q → Time → Time → Call Q
  add_unschedulable : QueueUnitInfo Q → Call Q
  delete : QueueUnit Q → Call Q
  update : QueueUnit Q → QueueUnit Q → Time → Time → Call Q
  poll : Call Q
  flush : (ℕ → Time) → Call Q

-- The abstract queue: the active units and those in backoff, by key.
pub record Maps {ℓ} (Q : Type ℓ) : Type ℓ where
  pub active : String → Option (QueueUnitInfo Q)
  pub waiting : String → Option (QueueUnitInfo Q)

module _ {ℓ} {Q : Type ℓ} (less : QueueLess Q) (initial max : Time) where
  -- What a call may answer, and leave of the maps. The lists of answers have an entry for each call,
  -- with a unit where Pop returns one. A flush moves a unit only if its backoff was over at a reading
  -- of the clock, and goes on until at some reading no backoff is over.
  pub data Allows (m : Maps Q) : Call Q → Option (QueueUnitInfo Q) → Maps Q → Type ℓ where
    added :
        {q : QueueUnit Q} {now later : Time} {m' : Maps Q}
        → m'.active
          ≡ written (object_key q.namespace q.name) (new_queue_unit_info q now later) m.active
        → m'.waiting ≡ m.waiting
        → Allows m (add q now later) none m'
    put_off :
        {u : QueueUnitInfo Q} {m' : Maps Q}
        → m'.active ≡ m.active
        → m'.waiting ≡ (
            if is_some (m.active u.name) || is_some (m.waiting u.name)
            then m.waiting
            else written u.name u m.waiting)
        → Allows m (add_unschedulable u) none m'
    deleted :
        {q : QueueUnit Q} {m' : Maps Q}
        → m'.active ≡ removed (object_key q.namespace q.name) m.active
        → m'.waiting ≡ (
            if is_some (m.active (object_key q.namespace q.name))
            then m.waiting
            else removed (object_key q.namespace q.name) m.waiting)
        → Allows m (delete q) none m'
    updated :
        {old new : QueueUnit Q} {now later : Time} {m' : Maps Q}
        → m'.active
          ≡ overwritten
              (object_key new.namespace new.name)
              (new_queue_unit_info new now later)
              m.active
        → m'.waiting ≡ (
            if is_some (m.active (object_key new.namespace new.name))
            then m.waiting
            else overwritten
                (object_key new.namespace new.name)
                (new_queue_unit_info new now later)
                m.waiting)
        → Allows m (update old new now later) none m'
    popped :
        {m' : Maps Q} (k : String) (u : QueueUnitInfo Q)
        → m.active k ≡ some u
        → ((j : String) (x : QueueUnitInfo Q) → m.active j ≡ some x → less x u ≡ false)
        → m'.active ≡ removed k m.active
        → m'.waiting ≡ m.waiting
        → Allows m poll (some u) m'
    nothing : ((k : String) → m.active k ≡ none) → Allows m poll none m
    flushed :
        {clock : ℕ → Time} {m' : Maps Q} (last : ℕ)
        → ((k : String)
            → ((m'.active k ≡ m.active k) × (m'.waiting k ≡ m.waiting k))
              ⊎ ((u : QueueUnitInfo Q) × (n : ℕ) × (m.waiting k ≡ some u)
                  × (m'.active k ≡ some u)
                  × (m'.waiting k ≡ none)
                  × (ltb_ℤ (clock n) (get_backoff_time initial max u) ≡ false)))
        → ((k : String) (u : QueueUnitInfo Q)
            → m'.waiting k ≡ some u
            → ltb_ℤ (clock last) (get_backoff_time initial max u) ≡ true)
        → Allows m (flush clock) none m'

  -- What a sequence of calls may answer and leave.
  pub data Plays : Maps Q → List (Call Q) → List (Option (QueueUnitInfo Q)) → Maps Q → Type ℓ where
    finish : {m : Maps Q} → Plays m [] [] m
    play :
        {m m' m'' : Maps Q} {c : Call Q} {cs : List (Call Q)} {r : Option (QueueUnitInfo Q)}
        {rs : List (Option (QueueUnitInfo Q))}
        → Allows m c r m'
        → Plays m' cs rs m''
        → Plays m (c ∷ cs) (r ∷ rs) m''

module _ {ℓ} {Q : Type ℓ} where
  abbrev pub maps : PrioritySchedulingQueue Q → Maps Q
  maps p = record { active = active p; waiting = waiting p }

  answer :
      PrioritySchedulingQueue Q × Option (GoError (QueueUnitInfo Q))
      → Outcome (Option (QueueUnitInfo Q) × PrioritySchedulingQueue Q)
  answer (p, err) = value (none, p)

  unfoldable pub run_call :
      Call Q
      → PrioritySchedulingQueue Q
      → Outcome (Option (QueueUnitInfo Q) × PrioritySchedulingQueue Q)
  unfolding answer SchedulingQueue.len
  run_call (add q now later) p = SchedulingQueue.add p q now later >>= answer
  run_call (add_unschedulable u) p = SchedulingQueue.add_unschedulable_if_not_present p u >>= answer
  run_call (delete q) p = SchedulingQueue.delete p q >>= answer
  run_call (update old new now later) p = SchedulingQueue.update p old new now later >>= answer
  run_call poll p =
      if ltb 0 (SchedulingQueue.len p)
      then (SchedulingQueue.pop p >>= λ (u, err, p'). value (some u, p'))
      else value (none, p)
  run_call (flush clock) p =
      SchedulingQueue.flush_backoff_q_completed clock p >>= λ p'. value (none, p')

  unfoldable pub run_calls :
      List (Call Q)
      → PrioritySchedulingQueue Q
      → Outcome (List (Option (QueueUnitInfo Q)) × PrioritySchedulingQueue Q)
  unfolding run_call
  run_calls [] p = value ([], p)
  run_calls (c ∷ cs) p =
      run_call c p >>= λ (r, p'). run_calls cs p' >>= λ (rs, p''). value (r ∷ rs, p'')

  module _ {less : QueueLess Q} (weak : IsStrictWeak less) where
    -- A valid queue with the durations of the abstract one.
    pub record Implements (initial max : Time) (p : PrioritySchedulingQueue Q) : Type ℓ where
      pub valid : IsValid less p
      pub initial_is : p.pod_initial_backoff_duration ≡ initial
      pub max_is : p.pod_max_backoff_duration ≡ max

    module _ {initial max : Time} (p : PrioritySchedulingQueue Q)
        (i : Implements initial max p) where
      abbrev IsAllowed : Call Q → Option (QueueUnitInfo Q) × PrioritySchedulingQueue Q → Type ℓ
      IsAllowed c r = Implements initial max r.1 × Allows less initial max (maps p) c r.0 (maps r.1)

      no_active : SchedulingQueue.len p ≡ 0 → (k : String) → active p k ≡ none
      unfolding SchedulingQueue.len
      no_active e k =
          len-zero-view unit_info_key_func (comp p.less_fn) (comp_is weak p i.valid) weak p.items k
            i.valid.items_wf.consistent e

      answered :
          {c : Call Q} {f g : String → Option (QueueUnitInfo Q)}
          {m : Outcome (PrioritySchedulingQueue Q × Option (GoError (QueueUnitInfo Q)))}
          → ((p' : PrioritySchedulingQueue Q)
              → active p' ≡ f
              → waiting p' ≡ g
              → Allows less initial max (maps p) c none (maps p'))
          → Yields (IsNow less p f g) m
          → Yields (IsAllowed c) (m >>= answer)
      unfolding answer
      answered allowed y = Yields-bind y λ (p', err) n. yields (
        record {
          valid = n.valid;
          initial_is = n.frame.same_initial ∙ i.initial_is;
          max_is = n.frame.same_max ∙ i.max_is;
        },
        allowed p' n.active_now n.waiting_now,
      )

      run_call-IsAllowed : (c : Call Q) → Yields (IsAllowed c) (run_call c p)
      unfolding run_call
      run_call-IsAllowed (add q now later) =
          answered (λ p' a w. added a w) (add-IsNow weak p i.valid q now later)
      run_call-IsAllowed (add_unschedulable u) =
          answered (λ p' a w. put_off a w) (add_unschedulable_if_not_present-IsNow weak p i.valid u)
      run_call-IsAllowed (delete q) =
          answered (λ p' a w. deleted a w) (delete-IsNow weak p i.valid q)
      run_call-IsAllowed (update old new now later) =
          answered (λ p' a w. updated a w) (update-IsNow weak p i.valid old new now later)
      run_call-IsAllowed poll =
          Yields-if (ltb 0 (SchedulingQueue.len p))
            (λ busy.
              Yields-bind (pop-IsNow weak p i.valid (ground arith))
                λ (u, err, p') (k, held, first, n). yields (
                  record {
                    valid = n.valid;
                    initial_is = n.frame.same_initial ∙ i.initial_is;
                    max_is = n.frame.same_max ∙ i.max_is;
                  },
                  popped k u held first n.active_now n.waiting_now,
                ))
            (λ idle. yields (i, nothing (no_active (ground arith))))
      run_call-IsAllowed (flush clock) =
          Yields-bind (flush_backoff_q_completed-IsFlushed weak clock p i.valid) λ p' f. yields (
            record {
              valid = f.valid;
              initial_is = f.frame.same_initial ∙ i.initial_is;
              max_is = f.frame.same_max ∙ i.max_is;
            },
            rw (← i.initial_is, ← i.max_is) (flushed f.last f.moved f.left),
          )

    -- Any calls on a valid queue whose policy is a strict weak order end with answers and a valid
    -- queue that the abstract queue allows.
    pub run_calls-Plays :
        {initial max : Time} (cs : List (Call Q)) (p : PrioritySchedulingQueue Q)
        → Implements initial max p
        → Yields
            (λ r. Implements initial max r.1 × Plays less initial max (maps p) cs r.0 (maps r.1))
            (run_calls cs p)
    unfolding run_calls
    run_calls-Plays [] p i = yields (i, finish)
    run_calls-Plays (c ∷ cs) p i = Yields-bind (run_call-IsAllowed p i c) λ (r, p') (i', a).
        Yields-bind (run_calls-Plays cs p' i') λ (rs, p'') (i'', plays). yields (i'', play a plays)
