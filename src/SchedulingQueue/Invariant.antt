-- ===== src/SchedulingQueue/Invariant.antt =====
-- The invariant of a scheduling queue, and its abstract content: a map of active units and a map of
-- units in backoff.
use kube_queue.Base.{if◌then◌else◌, is_some, ◌≡◌, ◌≢◌, Option, none, some, String, arith}
use kube_queue.Heap.{GoError}
use kube_queue.Heap.View.{view, IsWellFormed, written, removed}
use kube_queue.Framework.{QueueUnitInfo}
use kube_queue.SchedulingQueue.Backoff.{pods_compare_backoff_completed}
use kube_queue.SchedulingQueue.{PrioritySchedulingQueue, QueueLess}

module _ {ℓ} {Q : Type ℓ} where
  -- The order of the backoff heap of a queue.
  abbrev pub backoff_less : PrioritySchedulingQueue Q → QueueLess Q
  backoff_less p =
      pods_compare_backoff_completed p.pod_initial_backoff_duration p.pod_max_backoff_duration

  abbrev pub active : PrioritySchedulingQueue Q → String → Option (QueueUnitInfo Q)
  active p = view p.items

  abbrev pub waiting : PrioritySchedulingQueue Q → String → Option (QueueUnitInfo Q)
  waiting p = view p.backoff_q

  -- Every unit stands under its own name.
  abbrev pub IsKeyed : (String → Option (QueueUnitInfo Q)) → Type ℓ
  IsKeyed f = (k : String) (u : QueueUnitInfo Q) → f k ≡ some u → u.name ≡ k

  pub written-IsKeyed :
      {f : String → Option (QueueUnitInfo Q)} (k : String) (u : QueueUnitInfo Q)
      → u.name ≡ k
      → IsKeyed f
      → IsKeyed (written k u f)
  written-IsKeyed k u named keyed j v h = ground (arith, keyed j v)

  pub removed-IsKeyed :
      {f : String → Option (QueueUnitInfo Q)} (k : String) → IsKeyed f → IsKeyed (removed k f)
  removed-IsKeyed k keyed j v h = ground (arith, keyed j v)

  -- The map with an object replaced, if its key is present.
  abbrev pub overwritten :
      String
      → QueueUnitInfo Q
      → (String → Option (QueueUnitInfo Q))
      → String
      → Option (QueueUnitInfo Q)
  overwritten k u f = if is_some (f k) then written k u f else f

  -- The invariant of a queue with the policy `less`.
  pub record IsValid (less : QueueLess Q) (p : PrioritySchedulingQueue Q) : Type ℓ where
    pub policy : p.less_fn ≡ some less
    pub items_wf : IsWellFormed less p.items
    pub backoff_wf : IsWellFormed (backoff_less p) p.backoff_q
    pub items_keyed : IsKeyed (active p)
    pub backoff_keyed : IsKeyed (waiting p)

  -- No unit is in both heaps.
  abbrev pub IsDisjoint : PrioritySchedulingQueue Q → Type ℓ
  IsDisjoint p = (k : String) → active p k ≢ none → waiting p k ≡ none

  -- `p` and `p'` agree in all but the two heaps.
  pub record IsSameQueue (p p' : PrioritySchedulingQueue Q) : Type ℓ where
    pub same_name : p'.name ≡ p.name
    pub same_queue : p'.queue ≡ p.queue
    pub same_initial : p'.pod_initial_backoff_duration ≡ p.pod_initial_backoff_duration
    pub same_max : p'.pod_max_backoff_duration ≡ p.pod_max_backoff_duration
    pub same_run : p'.run ≡ p.run
    pub same_flushers : p'.flushers ≡ p.flushers
    pub same_stop : p'.stop ≡ p.stop
    pub same_closed : p'.closed ≡ p.closed

  -- The call ends without an error, in a valid queue with the content `f` and `g`.
  pub record IsNow (less : QueueLess Q) (p : PrioritySchedulingQueue Q)
      (f g : String → Option (QueueUnitInfo Q))
      (r : PrioritySchedulingQueue Q × Option (GoError (QueueUnitInfo Q))) : Type ℓ where
    pub valid : IsValid less r.0
    pub no_error : r.1 ≡ none
    pub active_now : active r.0 ≡ f
    pub waiting_now : waiting r.0 ≡ g
    pub frame : IsSameQueue p r.0
