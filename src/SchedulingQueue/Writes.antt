-- ===== src/SchedulingQueue/Writes.antt =====
-- The writes of the methods of a scheduling queue into one of its heaps.
use kube_queue.Base.{
  is_some, ap, true, ◌∙◌, value-Yields, ◌≡◌, refl, Option, none, String, Outcome, value, Yields,
  yields, Yields-bind, Yields-weaken, ◌>>=◌,
}
use kube_queue.Heap
use kube_queue.Heap.{Data, GoError}
use kube_queue.Heap.View.{view, IsWellFormed, written, removed}
use kube_queue.Heap.Insert.{add-IsStored}
use kube_queue.Heap.Remove.{delete-IsDeleted}
use kube_queue.Container.Order.{IsStrictWeak}
use kube_queue.Framework.{QueueUnitInfo}
use kube_queue.SchedulingQueue.Backoff.{pods_compare_backoff_completed-IsStrictWeak}
use kube_queue.SchedulingQueue.{
  PrioritySchedulingQueue, QueueLess, unit_info_key_func, comp, backoff_comp, with_items,
  with_backoff_q,
}
use kube_queue.SchedulingQueue.Invariant.{
  active, waiting, backoff_less, IsKeyed, written-IsKeyed, removed-IsKeyed, IsValid, IsNow,
  IsSameQueue,
}

module _ {ℓ} {Q : Type ℓ} {less : QueueLess Q} (weak : IsStrictWeak less)
    (p : PrioritySchedulingQueue Q) (v : IsValid less p) where
  pub backoff_weak : IsStrictWeak (backoff_less p)
  backoff_weak =
      pods_compare_backoff_completed-IsStrictWeak p.pod_initial_backoff_duration
        p.pod_max_backoff_duration

  unchanged : IsSameQueue p p
  unchanged = record {
    same_name = refl;
    same_queue = refl;
    same_initial = refl;
    same_max = refl;
    same_run = refl;
    same_flushers = refl;
    same_stop = refl;
    same_closed = refl;
  }

  pub items_frame : (items : Data (QueueUnitInfo Q)) → IsSameQueue p (record p { items = items })
  items_frame items = record {
    same_name = refl;
    same_queue = refl;
    same_initial = refl;
    same_max = refl;
    same_run = refl;
    same_flushers = refl;
    same_stop = refl;
    same_closed = refl;
  }

  backoff_frame : (q : Data (QueueUnitInfo Q)) → IsSameQueue p (record p { backoff_q = q })
  backoff_frame q = record {
    same_name = refl;
    same_queue = refl;
    same_initial = refl;
    same_max = refl;
    same_run = refl;
    same_flushers = refl;
    same_stop = refl;
    same_closed = refl;
  }

  -- A call that changes nothing.
  pub still : Yields (IsNow less p (active p) (waiting p)) (value (p, none))
  still = yields (record {
    valid = v;
    no_error = refl;
    active_now = refl;
    waiting_now = refl;
    frame = unchanged;
  })

  pub comp_is : (x y : QueueUnitInfo Q) → comp p.less_fn x y ≡ value (less x y)
  comp_is x y = rw v.policy

  -- A heap that a method has written into without an error.
  abbrev Written :
      QueueLess Q
      → (String → Option (QueueUnitInfo Q))
      → Data (QueueUnitInfo Q) × Option (GoError (QueueUnitInfo Q))
      → Type ℓ
  Written lt f r = IsWellFormed lt r.0 × (r.1 ≡ none) × (view r.0 ≡ f)

  items_write :
      (f : String → Option (QueueUnitInfo Q))
      {m : Outcome (Data (QueueUnitInfo Q) × Option (GoError (QueueUnitInfo Q)))}
      → IsKeyed f
      → Yields (Written less f) m
      → Yields (IsNow less p f (waiting p)) (m >>= with_items p)
  items_write f keyed m = Yields-bind m λ (items, err) (wf, no_error, content).
      value-Yields (record p { items = items }, err) refl
        (record {
          valid = record {
            policy = v.policy;
            items_wf = wf;
            backoff_wf = v.backoff_wf;
            items_keyed = rw content keyed;
            backoff_keyed = v.backoff_keyed;
          };
          no_error = no_error;
          active_now = content;
          waiting_now = refl;
          frame = items_frame items;
        })

  backoff_write :
      (g : String → Option (QueueUnitInfo Q))
      {m : Outcome (Data (QueueUnitInfo Q) × Option (GoError (QueueUnitInfo Q)))}
      → IsKeyed g
      → Yields (Written (backoff_less p) g) m
      → Yields (IsNow less p (active p) g) (m >>= with_backoff_q p)
  backoff_write g keyed m = Yields-bind m λ (backoff_q, err) (wf, no_error, content).
      value-Yields (record p { backoff_q = backoff_q }, err) refl
        (record {
          valid = record {
            policy = v.policy;
            items_wf = v.items_wf;
            backoff_wf = wf;
            items_keyed = v.items_keyed;
            backoff_keyed = rw content keyed;
          };
          no_error = no_error;
          active_now = refl;
          waiting_now = content;
          frame = backoff_frame backoff_q;
        })

  pub items_add :
      (u : QueueUnitInfo Q)
      → Yields
          (IsNow less p (written u.name u (active p)) (waiting p))
          (Heap.add unit_info_key_func (comp p.less_fn) p.items u >>= with_items p)
  items_add u =
      items_write (written u.name u (active p)) (written-IsKeyed u.name u refl v.items_keyed) (
        Yields-weaken
          (add-IsStored unit_info_key_func (comp p.less_fn) comp_is weak p.items u u.name v.items_wf
            refl)
          λ r s. (s.wellformed, s.no_error, s.content))

  pub backoff_add :
      (u : QueueUnitInfo Q)
      → Yields
          (IsNow less p (active p) (written u.name u (waiting p)))
          (Heap.add unit_info_key_func (backoff_comp p) p.backoff_q u >>= with_backoff_q p)
  backoff_add u =
      backoff_write (written u.name u (waiting p)) (written-IsKeyed u.name u refl v.backoff_keyed) (
        Yields-weaken
          (add-IsStored unit_info_key_func (backoff_comp p) (λ x y. refl) backoff_weak p.backoff_q u
            u.name v.backoff_wf refl)
          λ r s. (s.wellformed, s.no_error, s.content))

  pub items_delete :
      (u : QueueUnitInfo Q) (key : String)
      → u.name ≡ key
      → is_some (active p key) ≡ true
      → Yields
          (IsNow less p (removed key (active p)) (waiting p))
          (Heap.delete unit_info_key_func (comp p.less_fn) p.items u >>= with_items p)
  items_delete u key named present =
      items_write (removed key (active p)) (removed-IsKeyed key v.items_keyed) (
        Yields-weaken
          (delete-IsDeleted unit_info_key_func (comp p.less_fn) comp_is weak p.items u key
            v.items_wf
            (ap {B = String × Option (GoError (QueueUnitInfo Q))} (λ k. (k, none)) named))
          λ r s. (s.wellformed, s.result ∙ rw present, s.content))

  pub backoff_delete :
      (u : QueueUnitInfo Q) (key : String)
      → u.name ≡ key
      → is_some (waiting p key) ≡ true
      → Yields
          (IsNow less p (active p) (removed key (waiting p)))
          (Heap.delete unit_info_key_func (backoff_comp p) p.backoff_q u >>= with_backoff_q p)
  backoff_delete u key named present =
      backoff_write (removed key (waiting p)) (removed-IsKeyed key v.backoff_keyed) (
        Yields-weaken
          (delete-IsDeleted unit_info_key_func (backoff_comp p) (λ x y. refl) backoff_weak
            p.backoff_q u key v.backoff_wf
            (ap {B = String × Option (GoError (QueueUnitInfo Q))} (λ k. (k, none)) named))
          λ r s. (s.wellformed, s.result ∙ rw present, s.content))
