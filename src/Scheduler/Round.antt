-- ===== src/Scheduler/Round.antt =====
-- What one queue of a scheduling round does to the head of the queue.
use kube_queue.Base.{
  ◌<◌, ◌+◌, String, true, false, Option, none, some, if◌then◌else◌, is_some, ◌≡◌, ◌≢◌, refl, ◌∙◌,
  value, Yields, yields, Yields-bind, Result, ok, failed, Result-cases, arith, inl, inr, ltb,
}
use kube_queue.Framework.{QueueUnit, QueueUnitInfo, Status, Time, success, Code-cases}
use kube_queue.Heap.View.{written, removed}
use kube_queue.Container.Order.{IsStrictWeak}
use kube_queue.SchedulingQueue
use kube_queue.SchedulingQueue.{PrioritySchedulingQueue, QueueLess}
use kube_queue.SchedulingQueue.Invariant.{active, waiting, IsValid}
use kube_queue.SchedulingQueue.Methods.{pop-IsNow, add_unschedulable_if_not_present-IsNow}
use kube_queue.Runtime.{FrameworkImpl, run_filter_plugins, run_reserve_plugins_reserve}
use kube_queue.Scheduler.{
  Scheduled, failed_unit, error_func, put_back, after_reserve, after_filter, schedule_queue,
}

module _ {ℓ} {Q S : Type ℓ} {less : QueueLess Q} (weak : IsStrictWeak less) (fw : FrameworkImpl Q S)
    (get : QueueUnit Q → Result (QueueUnit Q)) (now : Time) (q : PrioritySchedulingQueue Q)
    (v : IsValid less q) (s : S) where
  -- The unit with one attempt more, the time of the failure and the object of the API server.
  abbrev pub tried_again : QueueUnitInfo Q → QueueUnit Q → QueueUnitInfo Q
  tried_again u unit = record {
    name = u.name;
    unit = unit;
    timestamp = now;
    attempts = u.attempts + 1;
    initial_attempt_timestamp = u.initial_attempt_timestamp;
  }

  -- The filter plugins or the reserve plugins refuse the unit, and the plugins are left so.
  pub data IsRefused (u : QueueUnitInfo Q) (plugins : S) : Type ℓ where
    filtered_out :
        (status : Status)
        → run_filter_plugins fw s u ≡ value status
        → status.code ≢ success
        → plugins ≡ s
        → IsRefused u plugins
    not_reserved :
        (status : Status)
        → run_filter_plugins fw s u ≡ value status
        → status.code ≡ success
        → (run_reserve_plugins_reserve fw s u).1.code ≢ success
        → plugins ≡ (run_reserve_plugins_reserve fw s u).0
        → IsRefused u plugins

  -- What becomes of the head of the queue.
  pub data Fate (k : String) (u : QueueUnitInfo Q) (r : Scheduled Q S) : Type ℓ where
    started :
        (status : Status)
        → run_filter_plugins fw s u ≡ value status
        → status.code ≡ success
        → (run_reserve_plugins_reserve fw s u).1.code ≡ success
        → r.plugins ≡ (run_reserve_plugins_reserve fw s u).0
        → r.dequeued ≡ some u
        → waiting r.queue ≡ waiting q
        → Fate k u r
    returned :
        (unit : QueueUnit Q)
        → IsRefused u r.plugins
        → get u.unit ≡ ok unit
        → r.dequeued ≡ none
        → waiting r.queue ≡ (
            if is_some (waiting q k) then waiting q else written k (tried_again u unit) (waiting q))
        → Fate k u r
    lost :
        (err : String)
        → IsRefused u r.plugins
        → get u.unit ≡ failed err
        → r.dequeued ≡ none
        → waiting r.queue ≡ waiting q
        → Fate k u r

  -- The first unit is off the active heap of a queue that is valid.
  pub record IsScheduled (r : Scheduled Q S) : Type ℓ where
    pub key : String
    pub unit : QueueUnitInfo Q
    pub held : active q key ≡ some unit
    pub first : (j : String) (x : QueueUnitInfo Q) → active q j ≡ some x → less x unit ≡ false
    pub valid : IsValid less r.queue
    pub active_now : active r.queue ≡ removed key (active q)
    pub fate : Fate key unit r

  module _ (k : String) (u : QueueUnitInfo Q) (held : active q k ≡ some u)
      (first : (j : String) (x : QueueUnitInfo Q) → active q j ≡ some x → less x u ≡ false)
      (q' : PrioritySchedulingQueue Q) (v' : IsValid less q')
      (active_now : active q' ≡ removed k (active q)) (waiting_now : waiting q' ≡ waiting q) where
    named : u.name ≡ k
    named = v.items_keyed k u held

    absent : active q' k ≡ none
    absent = rw active_now (ground arith)

    -- The waiting units after the unit is stored.
    abbrev waiting_after : QueueUnit Q → String → Option (QueueUnitInfo Q)
    waiting_after unit =
        if is_some (waiting q k) then waiting q else written k (tried_again u unit) (waiting q)

    error_func-returned :
        (unit : QueueUnit Q)
        → get u.unit ≡ ok unit
        → Yields
            (λ q''.
              IsValid less q''
              × (active q'' ≡ removed k (active q))
              × (waiting q'' ≡ waiting_after unit))
            (error_func get now u q')
    unfolding error_func failed_unit
    error_func-returned unit e =
        rw (e, error_func)
          (Yields-bind (add_unschedulable_if_not_present-IsNow weak q' v' (tried_again u unit))
            λ (q'', err) n. yields (
              n.valid,
              n.active_now ∙ active_now,
              n.waiting_now ∙ rw (named, absent, waiting_now) refl,
            ))

    put_back-IsScheduled : (t : S) → IsRefused u t → Yields IsScheduled (put_back get now u q' t)
    unfolding put_back error_func failed_unit
    put_back-IsScheduled t refused = elim (Result-cases (get u.unit)) [
      | inl (unit, e) ↦
          Yields-bind (error_func-returned unit e) λ q'' (valid, active_then, waiting_then).
            yields (record {
              key = k;
              unit = u;
              held = held;
              first = first;
              valid = valid;
              active_now = active_then;
              fate = returned unit refused e refl waiting_then;
            })
      | inr (err, e) ↦
          rw (e, put_back, error_func)
            (yields (record {
              key = k;
              unit = u;
              held = held;
              first = first;
              valid = v';
              active_now = active_now;
              fate = lost err refused e refl waiting_now;
            }))
    ]

    after_reserve-IsScheduled :
        (status : Status)
        → run_filter_plugins fw s u ≡ value status
        → status.code ≡ success
        → Yields IsScheduled (after_reserve get now u q' (run_reserve_plugins_reserve fw s u))
    unfolding after_reserve
    after_reserve-IsScheduled status ran passed =
        elim (Code-cases (run_reserve_plugins_reserve fw s u).1.code) [
          | inl good ↦
              rw (good, after_reserve)
                (yields (record {
                  key = k;
                  unit = u;
                  held = held;
                  first = first;
                  valid = v';
                  active_now = active_now;
                  fate = started status ran passed good refl refl waiting_now;
                }))
          | inr bad ↦
              rw (bad, after_reserve)
                (put_back-IsScheduled (run_reserve_plugins_reserve fw s u).0
                  (not_reserved status ran passed (λ good. absurd (ground arith)) refl))
        ]

    after_filter-IsScheduled :
        (status : Status)
        → run_filter_plugins fw s u ≡ value status
        → Yields IsScheduled (after_filter fw get now u q' s status)
    unfolding after_filter
    after_filter-IsScheduled status ran = elim (Code-cases status.code) [
      | inl good ↦ rw (good, after_filter) (after_reserve-IsScheduled status ran good)
      | inr bad ↦
          rw (bad, after_filter)
            (put_back-IsScheduled s (filtered_out status ran (λ good. absurd (ground arith)) refl))
    ]

  -- Where the filter plugins end on each active unit, a round of the scheduler on a valid queue
  -- whose policy is a strict weak order, with an active unit, takes a unit before which no active
  -- unit is off the active heap and leaves a valid queue. Either the filter and the reserve plugins
  -- succeed and the goroutine of the unit is started; or one of them refuses the unit, and then,
  -- where Get succeeds, the unit, with one attempt more, is in the backoff heap unless its key was
  -- there already, and where Get fails, the backoff heap stays as it was.
  pub schedule_queue-IsScheduled :
      0 < SchedulingQueue.len q
      → ((k : String) (u : QueueUnitInfo Q)
          → active q k ≡ some u
          → (status : Status) × (run_filter_plugins fw s u ≡ value status))
      → Yields IsScheduled (schedule_queue fw get now q s)
  unfolding schedule_queue
  schedule_queue-IsScheduled nonempty filters =
      let busy : ltb 0 (SchedulingQueue.len q) ≡ true = ground arith in
      rw busy (
        Yields-bind (pop-IsNow weak q v nonempty) λ (u, err, q') (k, held, first, n).
          let (status, ran) = filters k u held in
          rw ran (
            after_filter-IsScheduled k u held first q' n.valid n.active_now n.waiting_now status
              ran))
