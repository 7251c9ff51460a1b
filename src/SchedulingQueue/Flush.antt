-- ===== src/SchedulingQueue/Flush.antt =====
-- flushBackoffQCompleted of a scheduling queue.
use kube_queue.Base.{
  ℕ, zero, suc, ◌+◌, ◌<◌, ite, text_dec, ℕ_discrete, ◌≡◌, ◌⊎◌, refl, true, false, Option, none,
  some, String, Outcome, arith, Yields, yields, Yields-bind, Yields-weaken, Yields-value, Yields-if,
  ◌>>=◌, inl, inr,
}
use kube_queue.Base.Int.{ltb_ℤ}
use kube_queue.Heap
use kube_queue.Heap.{Data, GoError}
use kube_queue.Heap.View.{view, written, removed}
use kube_queue.Heap.Insert.{add-IsStored}
use kube_queue.Heap.Remove.{pop_top-IsPopped, IsPopped, peek-empty, len-zero-view}
use kube_queue.Container.Order.{IsStrictWeak}
use kube_queue.Framework.{QueueUnitInfo, Time}
use kube_queue.SchedulingQueue.Backoff.{
  get_backoff_time, pods_compare_backoff_completed, pods_compare_backoff_completed-IsStrictWeak,
}
use kube_queue.SchedulingQueue.{
  PrioritySchedulingQueue, QueueLess, unit_info_key_func, comp, backoff_comp, flush_loop,
  flush_popped, flush_peeked, flush_backoff_q_completed,
}
use kube_queue.SchedulingQueue.Invariant.{
  active, waiting, backoff_less, written-IsKeyed, removed-IsKeyed, IsValid, IsSameQueue,
}

module _ {ℓ} {Q : Type ℓ} where
  -- The end of the backoff of a unit.
  abbrev pub done_at : PrioritySchedulingQueue Q → QueueUnitInfo Q → Time
  done_at p = get_backoff_time p.pod_initial_backoff_duration p.pod_max_backoff_duration

  -- The unit under `k` stayed where it was, or its backoff had ended at some reading of the clock
  -- and it went from the backoff heap to the active heap.
  abbrev pub IsMovedIfDone :
      (ℕ → Time) → PrioritySchedulingQueue Q → PrioritySchedulingQueue Q → String → Type ℓ
  IsMovedIfDone clock p p' k =
      ((active p' k ≡ active p k) × (waiting p' k ≡ waiting p k))
      ⊎ ((u : QueueUnitInfo Q) × (n : ℕ) × (waiting p k ≡ some u)
          × (active p' k ≡ some u)
          × (waiting p' k ≡ none)
          × (ltb_ℤ (clock n) (done_at p u) ≡ false))

  -- The queue after a flush: every unit is where it was or was moved because it was done, and some
  -- reading of the clock is before the end of every backoff that is left.
  pub record IsFlushed (less : QueueLess Q) (clock : ℕ → Time) (p p' : PrioritySchedulingQueue Q)
      : Type ℓ where
    pub valid : IsValid less p'
    pub moved : (k : String) → IsMovedIfDone clock p p' k
    pub last : ℕ
    pub left :
        (k : String) (u : QueueUnitInfo Q)
        → waiting p' k ≡ some u
        → ltb_ℤ (clock last) (done_at p u) ≡ true
    pub frame : IsSameQueue p p'

  IsFlushed-stay :
      {less : QueueLess Q} (clock : ℕ → Time) (p : PrioritySchedulingQueue Q)
      → IsValid less p
      → ((k : String) (u : QueueUnitInfo Q)
          → waiting p k ≡ some u
          → ltb_ℤ (clock 0) (done_at p u) ≡ true)
      → IsFlushed less clock p p
  IsFlushed-stay clock p v left = record {
    valid = v;
    moved = λ k. inl (refl, refl);
    last = 0;
    left = left;
    frame = record {
      same_name = refl;
      same_queue = refl;
      same_initial = refl;
      same_max = refl;
      same_run = refl;
      same_flushers = refl;
      same_stop = refl;
      same_closed = refl;
    };
  }

  -- One unit goes over, and then the rest of the loop runs.
  module _ (clock : ℕ → Time) (p : PrioritySchedulingQueue Q)
      (items backoff_q : Data (QueueUnitInfo Q)) (k : String) (u : QueueUnitInfo Q)
      (items_now : view items ≡ written u.name u (active p))
      (backoff_now : view backoff_q ≡ removed k (waiting p)) (named : u.name ≡ k)
      (held : waiting p k ≡ some u) (over : ltb_ℤ (clock 0) (done_at p u) ≡ false) where
    abbrev over_p : PrioritySchedulingQueue Q
    over_p = record p { items = items; backoff_q = backoff_q }

    active_over : (j : String) → active over_p j ≡ ite (text_dec k j) (some u) (active p j)
    active_over j = rw items_now (rw named refl)

    waiting_over : (j : String) → waiting over_p j ≡ ite (text_dec k j) none (waiting p j)
    waiting_over j = rw backoff_now refl

    moved_over :
        (p' : PrioritySchedulingQueue Q) (j : String)
        → IsMovedIfDone (λ n. clock (suc n)) over_p p' j
        → IsMovedIfDone clock p p' j
    moved_over p' j m = elim (text_dec k j) [
      | yes here ↦ elim m [
        | inl (a, w) ↦ inr (
          u,
          0,
          ground arith,
          ground (arith, active_over j),
          ground (arith, waiting_over j),
          over,
        )
        | inr (x, n, w, a, w', d) ↦ absurd (ground (arith, waiting_over j))
      ]
      | no other ↦ elim m [
        | inl (a, w) ↦ inl (ground (arith, active_over j), ground (arith, waiting_over j))
        | inr (x, n, w, a, w', d) ↦ inr (x, suc n, ground (arith, waiting_over j), a, w', d)
      ]
    ]

    IsFlushed-step :
        {less : QueueLess Q} (p' : PrioritySchedulingQueue Q)
        → IsFlushed less (λ n. clock (suc n)) over_p p'
        → IsFlushed less clock p p'
    IsFlushed-step p' f = record {
      valid = f.valid;
      moved = λ j. moved_over p' j (f.moved j);
      last = suc f.last;
      left = f.left;
      frame = record {
        same_name = f.frame.same_name;
        same_queue = f.frame.same_queue;
        same_initial = f.frame.same_initial;
        same_max = f.frame.same_max;
        same_run = f.frame.same_run;
        same_flushers = f.frame.same_flushers;
        same_stop = f.frame.same_stop;
        same_closed = f.frame.same_closed;
      };
    }

  module _ {less : QueueLess Q} (weak : IsStrictWeak less) (clock : ℕ → Time)
      (p : PrioritySchedulingQueue Q) (v : IsValid less p) where
    backoff_weak : IsStrictWeak (backoff_less p)
    backoff_weak =
        pods_compare_backoff_completed-IsStrictWeak p.pod_initial_backoff_duration
          p.pod_max_backoff_duration

    -- Where the backoff of the first unit has not ended, no backoff has.
    early_le :
        (first u : QueueUnitInfo Q)
        → ltb_ℤ (clock 0) (done_at p first) ≡ true
        → backoff_less p u first ≡ false
        → ltb_ℤ (clock 0) (done_at p u) ≡ true
    unfolding pods_compare_backoff_completed
    early_le first u early order = ground arith

    module _ (rest : PrioritySchedulingQueue Q → Outcome (PrioritySchedulingQueue Q))
        (rest-IsFlushed : (p' : PrioritySchedulingQueue Q)
          → suc (Heap.len p'.backoff_q) ≡ Heap.len p.backoff_q
          → IsValid less p'
          → Yields (IsFlushed less (λ n. clock (suc n)) p') (rest p')) where
      flush_popped-IsFlushed :
          (r : Option (QueueUnitInfo Q)
            × Option (GoError (QueueUnitInfo Q))
            × Data (QueueUnitInfo Q))
          (popped : IsPopped unit_info_key_func
            (backoff_comp p)
            {lt = backoff_less p}
            (λ x y. refl)
            backoff_weak
            p.backoff_q
            r)
          → ltb_ℤ (clock 0) (done_at p popped.obj) ≡ false
          → Yields (IsFlushed less clock p) (flush_popped rest p popped.obj r)
      flush_popped-IsFlushed (obj, some err, backoff_q) popped over =
          absurd (ground (arith, popped.no_error))
      flush_popped-IsFlushed (obj, none, backoff_q) popped over =
          let named : popped.obj.name ≡ popped.key =
            v.backoff_keyed popped.key popped.obj popped.taken.held in
          Yields-bind
            (add-IsStored unit_info_key_func (comp p.less_fn) (λ x y. rw v.policy) weak p.items
              popped.obj popped.obj.name v.items_wf refl)
            λ (items, err) stored. rw stored.no_error (
              Yields-weaken
                (rest-IsFlushed
                  (over_p clock p items backoff_q popped.key popped.obj stored.content
                    popped.taken.content named popped.taken.held over)
                  popped.taken.size
                  (record {
                    policy = v.policy;
                    items_wf = stored.wellformed;
                    backoff_wf = popped.taken.wellformed;
                    items_keyed =
                        rw stored.content
                          (written-IsKeyed popped.obj.name popped.obj refl v.items_keyed);
                    backoff_keyed =
                        rw popped.taken.content (removed-IsKeyed popped.key v.backoff_keyed);
                  }))
                (IsFlushed-step clock p items backoff_q popped.key popped.obj stored.content
                  popped.taken.content named popped.taken.held over))

    -- One round.
    flush_peeked-IsFlushed :
        (rest : PrioritySchedulingQueue Q → Outcome (PrioritySchedulingQueue Q))
        → ((p' : PrioritySchedulingQueue Q)
            → suc (Heap.len p'.backoff_q) ≡ Heap.len p.backoff_q
            → IsValid less p'
            → Yields (IsFlushed less (λ n. clock (suc n)) p') (rest p'))
        → Yields (IsFlushed less clock p) (Heap.peek p.backoff_q >>= flush_peeked rest (clock 0) p)
    flush_peeked-IsFlushed rest next = elim (ℕ_discrete (Heap.len p.backoff_q) 0) [
      | yes e ↦
          rw
            (peek-empty unit_info_key_func (backoff_comp p) {lt = backoff_less p} (λ x y. refl)
              backoff_weak p.backoff_q e)
            (yields (
              IsFlushed-stay clock p v (λ k u w. absurd (
                ground (
                  arith,
                  len-zero-view unit_info_key_func (backoff_comp p) {lt = backoff_less p}
                      (λ x y. refl) backoff_weak p.backoff_q k v.backoff_wf.consistent e,
                )))))
      | no e ↦
          let (r, popped_eq, popped) = Yields-value (
            pop_top-IsPopped unit_info_key_func (backoff_comp p) {lt = backoff_less p} (λ x y. refl)
              backoff_weak p.backoff_q v.backoff_wf (omega arith)) in
          rw popped.peeked (
            Yields-if (ltb_ℤ (clock 0) (done_at p popped.obj))
              (λ early. yields (
                IsFlushed-stay clock p v
                  (λ k u w. early_le popped.obj u early (popped.first k u w))))
              (λ over. rw popped_eq (flush_popped-IsFlushed rest next r popped over)))
    ]

  module _ {less : QueueLess Q} (weak : IsStrictWeak less) where
    flush_loop-IsFlushed :
        (fuel : ℕ) (clock : ℕ → Time) (p : PrioritySchedulingQueue Q)
        → Heap.len p.backoff_q < fuel
        → IsValid less p
        → Yields (IsFlushed less clock p) (flush_loop fuel clock p)
    unfolding flush_loop
    flush_loop-IsFlushed zero clock p f v = absurd (omega arith)
    flush_loop-IsFlushed (suc fuel) clock p f v =
        flush_peeked-IsFlushed weak clock p v (λ p'. flush_loop fuel (λ n. clock (suc n)) p')
          λ p' size v'. flush_loop-IsFlushed fuel (λ n. clock (suc n)) p' (omega arith) v'

    -- A flush of a valid queue whose policy is a strict weak order ends in a valid queue: under
    -- each key either both heaps are as they were, or a unit whose backoff had ended at a reading
    -- of the clock went from the backoff heap to the active heap; and at some reading of the clock
    -- the backoff of each unit that is left had not ended.
    pub flush_backoff_q_completed-IsFlushed :
        (clock : ℕ → Time) (p : PrioritySchedulingQueue Q)
        → IsValid less p
        → Yields (IsFlushed less clock p) (flush_backoff_q_completed clock p)
    unfolding flush_backoff_q_completed
    flush_backoff_q_completed-IsFlushed clock p v =
        flush_loop-IsFlushed (Heap.len p.backoff_q + 1) clock p (omega arith) v
