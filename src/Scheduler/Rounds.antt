-- ===== src/Scheduler/Rounds.antt =====
-- Rounds of the scheduler on one queue: each takes one unit off the active heap, and none comes back
-- to it.
use kube_queue.Base.{
  ℕ, zero, suc, ◌<◌, String, true, Option, none, some, ltb, ◌≡◌, refl, ◌∙◌, ap, sym, arith, Outcome,
  value, panic, out_of_fuel, ◌>>=◌, Yields, yields, Yields-bind, Result, Result-cases, Bool-cases,
  Option-cases, inl, inr,
}
use kube_queue.Heap
use kube_queue.Heap.{GoError}
use kube_queue.Framework.{QueueUnit, QueueUnitInfo, Status, Time, is_success}
use kube_queue.Container.Order.{IsStrictWeak}
use kube_queue.SchedulingQueue
use kube_queue.SchedulingQueue.{
  PrioritySchedulingQueue, QueueLess, add_unschedulable_if_not_present, unit_info_key_func, comp,
  backoff_comp,
}
use kube_queue.SchedulingQueue.Invariant.{active, IsValid}
use kube_queue.Heap.View.{removed}
use kube_queue.Heap.Remove.{len-zero-view}
use kube_queue.SchedulingQueue.Writes.{comp_is}
use kube_queue.SchedulingQueue.Drain.{len-pop}
use kube_queue.Runtime.{FrameworkImpl, run_filter_plugins, run_reserve_plugins_reserve}
use kube_queue.Scheduler.{
  Scheduled, error_func, failed_unit, put_back, after_reserve, after_filter, schedule_queue,
}
use kube_queue.Scheduler.Round.{schedule_queue-IsScheduled}

-- If the call ends with a value, `P` holds of it.
data OnValue {ℓ κ} {A : Type ℓ} (P : A → Type κ) : Outcome A → Type (ℓ ⊔ κ) where
  at_panic : OnValue P panic
  at_fuel : OnValue P out_of_fuel
  at_value : {a : A} → P a → OnValue P (value a)

OnValue-bind {ℓ ℓ' κ κ'} :
    {A : Type ℓ} {B : Type ℓ'} (P : A → Type κ) (P' : B → Type κ') (m : Outcome A)
    (k : A → Outcome B)
    → OnValue P m
    → ((a : A) → P a → OnValue P' (k a))
    → OnValue P' (m >>= k)
OnValue-bind P P' panic k on next = at_panic
OnValue-bind P P' out_of_fuel k on next = at_fuel
OnValue-bind P P' (value a) k (at_value p) next = next a p

OnValue-any {ℓ ℓ' κ'} :
    {A : Type ℓ} {B : Type ℓ'} (P' : B → Type κ') (m : Outcome A) (k : A → Outcome B)
    → ((a : A) → OnValue P' (k a))
    → OnValue P' (m >>= k)
OnValue-any P' panic k next = at_panic
OnValue-any P' out_of_fuel k next = at_fuel
OnValue-any P' (value a) k next = next a

OnValue-weaken {ℓ κ κ'} :
    {A : Type ℓ} {P : A → Type κ} {P' : A → Type κ'} {m : Outcome A}
    → OnValue P m
    → ((a : A) → P a → P' a)
    → OnValue P' m
OnValue-weaken at_panic weaker = at_panic
OnValue-weaken at_fuel weaker = at_fuel
OnValue-weaken (at_value p) weaker = at_value (weaker _ p)

OnValue-Yields {ℓ κ κ'} :
    {A : Type ℓ} {P : A → Type κ} {P' : A → Type κ'} {m : Outcome A}
    → OnValue P m
    → Yields P' m
    → Yields (λ a. P a × P' a) m
OnValue-Yields at_panic y = elim y [ ]
OnValue-Yields at_fuel y = elim y [ ]
OnValue-Yields (at_value p) (yields p') = yields (p, p')

module _ {ℓ} {Q : Type ℓ} (q : PrioritySchedulingQueue Q) where
  add_unschedulable-items :
      (u : QueueUnitInfo Q)
      → OnValue (λ r. r.0.items ≡ q.items) (add_unschedulable_if_not_present q u)
  unfolding add_unschedulable_if_not_present
  add_unschedulable-items u =
      elim (Option-cases (Heap.get unit_info_key_func (comp q.less_fn) q.items u).0) [
        | inr (x, there) ↦ rw (there, add_unschedulable_if_not_present) (at_value refl)
        | inl out ↦
            elim (Option-cases (Heap.get unit_info_key_func (backoff_comp q) q.backoff_q u).0) [
              | inr (x, there) ↦ rw (out, there, add_unschedulable_if_not_present) (at_value refl)
              | inl out' ↦
                  rw (out, out', add_unschedulable_if_not_present)
                    (OnValue-any _ (Heap.add unit_info_key_func (backoff_comp q) q.backoff_q u) _
                      λ (backoff_q, err). at_value refl)
            ]
      ]

  module _ (get : QueueUnit Q → Result (QueueUnit Q)) (now : Time) (u : QueueUnitInfo Q) where
    error_func-items : OnValue (λ q'. q'.items ≡ q.items) (error_func get now u q)
    unfolding error_func
    error_func-items = elim (Result-cases (get u.unit)) [
      | inl (unit, e) ↦
          rw (e, error_func)
            (OnValue-bind _ _ _ _ (add_unschedulable-items (failed_unit u now unit))
              λ (q', err) same. at_value same)
      | inr (err, e) ↦ rw (e, error_func) (at_value refl)
    ]

    module _ {S : Type ℓ} where
      -- What a round leaves has the active heap that it had after the Pop.
      abbrev KeepsItems : Scheduled Q S → Type ℓ
      KeepsItems r = r.queue.items ≡ q.items

      put_back-items : (s : S) → OnValue KeepsItems (put_back get now u q s)
      unfolding put_back
      put_back-items s = OnValue-bind _ _ _ _ error_func-items λ q' same. at_value same

      after_filter-items :
          (fw : FrameworkImpl Q S) (s : S) (status : Status)
          → OnValue KeepsItems (after_filter fw get now u q s status)
      unfolding after_filter after_reserve
      after_filter-items fw s status = elim (Bool-cases (is_success status.code)) [
        | inr bad ↦ rw (bad, after_filter) (put_back-items s)
        | inl good ↦ elim (Bool-cases (is_success (run_reserve_plugins_reserve fw s u).1.code)) [
          | inl fits ↦ rw (good, fits, after_filter, after_reserve) (at_value refl)
          | inr full ↦
              rw (good, full, after_filter, after_reserve)
                (put_back-items (run_reserve_plugins_reserve fw s u).0)
        ]
      ]

OnValue-after {ℓ ℓ' κ κ'} :
    {A : Type ℓ} {B : Type ℓ'} {P : A → Type κ} (P' : B → Type κ') {m : Outcome A}
    (k : A → Outcome B)
    → Yields P m
    → ((a : A) → P a → OnValue P' (k a))
    → OnValue P' (m >>= k)
OnValue-after P' k (yields p) next = next _ p

module _ {ℓ} {Q S : Type ℓ} (fw : FrameworkImpl Q S) (get : ℕ → QueueUnit Q → Result (QueueUnit Q))
    (now : ℕ → Time) where
  -- So many rounds on a queue, with the answers of the API and the clock in each.
  unfoldable pub schedule_rounds :
      ℕ → PrioritySchedulingQueue Q → S → Outcome (PrioritySchedulingQueue Q × S)
  unfolding schedule_queue
  schedule_rounds zero q s = value (q, s)
  schedule_rounds (suc n) q s =
      schedule_queue fw (get n) (now n) q s >>= (λ r. schedule_rounds n r.queue r.plugins)

  -- The filters end on every active unit, in any state of the plugins.
  abbrev pub FiltersEnd : PrioritySchedulingQueue Q → Type ℓ
  FiltersEnd q =
      (s : S) (k : String) (u : QueueUnitInfo Q)
      → active q k ≡ some u
      → (status : Status) × (run_filter_plugins fw s u ≡ value status)

  removed-held :
      (f : String → Option (QueueUnitInfo Q)) (key k : String) (u : QueueUnitInfo Q)
      → removed key f k ≡ some u
      → f k ≡ some u
  removed-held f key k u e = ground arith

  module _ {less : QueueLess Q} (weak : IsStrictWeak less) where
    schedule_queue-len :
        (n : ℕ) (q : PrioritySchedulingQueue Q) (s : S)
        → IsValid less q
        → 0 < SchedulingQueue.len q
        → OnValue
            (λ r. suc (SchedulingQueue.len r.queue) ≡ SchedulingQueue.len q)
            (schedule_queue fw (get n) (now n) q s)
    unfolding schedule_queue SchedulingQueue.len
    schedule_queue-len n q s v nonempty =
        let busy : ltb 0 (SchedulingQueue.len q) ≡ true = ground (arith, nonempty) in
        rw (busy, schedule_queue)
          (OnValue-after _ _ (len-pop weak q v nonempty) λ (u, err, q') size.
            OnValue-any _ (run_filter_plugins fw s u) _ λ status.
              OnValue-weaken (after_filter-items q' (get n) (now n) u fw s status)
                λ r same. ap (λ items. suc (Heap.len items)) same ∙ size)

    -- On a valid queue whose policy is a strict weak order, with filters that end on every active
    -- unit in any state of the plugins, as many rounds of the scheduler as there are active units,
    -- with no other step in between, end without a panic in a valid queue that has no active unit:
    -- every unit has been taken, whatever the plugins and the API answer.
    pub schedule_rounds-none_active :
        (n : ℕ) (q : PrioritySchedulingQueue Q) (s : S)
        → IsValid less q
        → FiltersEnd q
        → n ≡ SchedulingQueue.len q
        → Yields
            (λ r. IsValid less r.0 × ((k : String) → active r.0 k ≡ none))
            (schedule_rounds n q s)
    unfolding schedule_rounds SchedulingQueue.len
    schedule_rounds-none_active zero q s v filters e = yields (
      v,
      λ k.
          len-zero-view unit_info_key_func (comp q.less_fn) (comp_is weak q v) weak q.items k
            v.items_wf.consistent (sym e),
    )
    schedule_rounds-none_active (suc n) q s v filters e =
        let nonempty : 0 < SchedulingQueue.len q = omega (arith, e) in
        Yields-bind
          (OnValue-Yields (schedule_queue-len n q s v nonempty)
            (schedule_queue-IsScheduled weak fw (get n) (now n) q v s nonempty (filters s)))
          λ r (size, done).
            schedule_rounds-none_active n r.queue r.plugins done.valid
              (λ s' k u there.
                filters s' k u (removed-held (active q) done.key k u (rw done.active_now at there)))
              (omega (arith, size, e))
