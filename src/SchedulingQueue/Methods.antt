-- ===== src/SchedulingQueue/Methods.antt =====
-- Add, AddUnschedulableIfNotPresent, Delete, Update and Pop of a scheduling queue, on every branch.
use kube_queue.Base.{
  if◌then◌else◌, is_some, ◌||◌, false, ◌≡◌, refl, some, String, Yields, yields, Yields-bind, inl,
  inr, Option-cases, lookup, ◌<◌, panic,
}
use kube_queue.Heap.View.{written, removed, removed_absent, lookup-view-none, lookup-view-some}
use kube_queue.Heap.Remove.{pop_top-IsPopped, pop_top-empty}
use kube_queue.Container.Order.{IsStrictWeak}
use kube_queue.Framework.{QueueUnit, QueueUnitInfo, Time, new_queue_unit_info, object_key}
use kube_queue.SchedulingQueue.{
  PrioritySchedulingQueue, QueueLess, unit_info_key_func, comp, add,
  add_unschedulable_if_not_present, delete, update, pop, len,
}
use kube_queue.SchedulingQueue.Writes.{
  items_frame, still, comp_is, items_add, backoff_add, items_delete, backoff_delete,
}
use kube_queue.SchedulingQueue.Invariant.{
  overwritten, active, waiting, removed-IsKeyed, IsValid, IsNow,
}

module _ {ℓ} {Q : Type ℓ} {less : QueueLess Q} (weak : IsStrictWeak less)
    (p : PrioritySchedulingQueue Q) (v : IsValid less p) where
  -- Add to a valid queue whose policy is a strict weak order writes a fresh record of the unit into
  -- the active heap, under the key of the unit, whatever stands in the backoff heap, which stays;
  -- it ends without an error in a valid queue.
  pub add-IsNow :
      (q : QueueUnit Q) (now later : Time)
      → Yields
          (IsNow less p
            (written (object_key q.namespace q.name) (new_queue_unit_info q now later) (active p))
            (waiting p))
          (add p q now later)
  unfolding add new_queue_unit_info
  add-IsNow q now later = items_add weak p v (new_queue_unit_info q now later)

  -- AddUnschedulableIfNotPresent on a valid queue whose policy is a strict weak order puts a unit
  -- into backoff if its key is in neither heap, and otherwise changes no heap; it ends without an
  -- error in a valid queue.
  pub add_unschedulable_if_not_present-IsNow :
      (u : QueueUnitInfo Q)
      → Yields
          (IsNow less p (active p) (
            if is_some (active p u.name) || is_some (waiting p u.name)
            then waiting p
            else written u.name u (waiting p)))
          (add_unschedulable_if_not_present p u)
  unfolding add_unschedulable_if_not_present
  add_unschedulable_if_not_present-IsNow u = elim (Option-cases (lookup u.name p.items.items)) [
    | inr (item, found) ↦
        rw (found, add_unschedulable_if_not_present, lookup-view-some p.items u.name found)
          (still weak p v)
    | inl absent ↦ elim (Option-cases (lookup u.name p.backoff_q.items)) [
      | inr (item, found) ↦
          rw
            (
              absent,
              found,
              add_unschedulable_if_not_present,
              lookup-view-none p.items u.name absent,
              lookup-view-some p.backoff_q u.name found,
            )
            (still weak p v)
      | inl absent' ↦
          rw
            (
              absent,
              absent',
              add_unschedulable_if_not_present,
              lookup-view-none p.items u.name absent,
              lookup-view-none p.backoff_q u.name absent',
            )
            (backoff_add weak p v u)
    ]
  ]

  -- Delete of a unit from a valid queue whose policy is a strict weak order removes it from the
  -- active heap if it is there, and otherwise from the backoff heap; it ends without an error in a
  -- valid queue that agrees with the old one in the rest.
  pub delete-IsNow :
      (q : QueueUnit Q)
      → Yields
          (IsNow less p (removed (object_key q.namespace q.name) (active p)) (
            if is_some (active p (object_key q.namespace q.name))
            then waiting p
            else removed (object_key q.namespace q.name) (waiting p)))
          (delete p q)
  unfolding delete
  delete-IsNow q =
      let key = object_key q.namespace q.name in
      elim (Option-cases (lookup key p.items.items)) [
        | inr (item, found) ↦
            let held = lookup-view-some p.items key found in
            let named = v.items_keyed key item.obj held in
            rw (found, delete, held) (items_delete weak p v item.obj key named (rw held))
        | inl absent ↦
            let gone = lookup-view-none p.items key absent in
            elim (Option-cases (lookup key p.backoff_q.items)) [
              | inr (item, found) ↦
                  let held = lookup-view-some p.backoff_q key found in
                  let named = v.backoff_keyed key item.obj held in
                  rw (absent, found, delete, gone, ← removed_absent p.items key gone)
                    (backoff_delete weak p v item.obj key named (rw held))
              | inl absent' ↦
                  rw
                    (
                      absent,
                      absent',
                      delete,
                      gone,
                      ← removed_absent p.items key gone,
                      ← removed_absent p.backoff_q key (lookup-view-none p.backoff_q key absent'),
                    )
                    (still weak p v)
            ]
      ]

  -- Update of a unit of a valid queue whose policy is a strict weak order replaces it where it is,
  -- in the active heap first, by a fresh record of it, and changes nothing if it is in neither
  -- heap; it ends without an error in a valid queue.
  pub update-IsNow :
      (old new : QueueUnit Q) (now later : Time)
      → Yields
          (IsNow less p
            (overwritten
              (object_key new.namespace new.name)
              (new_queue_unit_info new now later)
              (active p))
            (if is_some (active p (object_key new.namespace new.name))
              then waiting p
              else overwritten
                  (object_key new.namespace new.name)
                  (new_queue_unit_info new now later)
                  (waiting p)))
          (update p old new now later)
  unfolding update new_queue_unit_info
  update-IsNow old new now later =
      let key = object_key new.namespace new.name in
      let info = new_queue_unit_info new now later in
      elim (Option-cases (lookup key p.items.items)) [
        | inr (item, found) ↦
            rw (found, update, lookup-view-some p.items key found) (items_add weak p v info)
        | inl absent ↦
            let gone = lookup-view-none p.items key absent in
            elim (Option-cases (lookup key p.backoff_q.items)) [
              | inr (item, found) ↦
                  rw (absent, found, update, gone, lookup-view-some p.backoff_q key found)
                    (backoff_add weak p v info)
              | inl absent' ↦
                  rw (absent, absent', update, gone, lookup-view-none p.backoff_q key absent')
                    (still weak p v)
            ]
      ]

  -- Pop of a valid queue whose policy is a strict weak order, with an active unit, returns, without
  -- an error, an active unit before which no active unit is, and removes it from the active heap
  -- alone; the queue stays valid.
  pub pop-IsNow :
      0 < len p
      → Yields
          (λ r.
            (k : String) × (active p k ≡ some r.0)
            × ((j : String) (x : QueueUnitInfo Q) → active p j ≡ some x → less x r.0 ≡ false)
            × IsNow less p (removed k (active p)) (waiting p) (r.2, r.1))
          (pop p)
  unfolding pop len
  pop-IsNow nonempty =
      Yields-bind
        (pop_top-IsPopped unit_info_key_func (comp p.less_fn) (comp_is weak p v) weak p.items
          v.items_wf nonempty)
        λ (obj, err, items) popped. rw popped.taken.object (
          yields (
            popped.key,
            popped.taken.held,
            popped.first,
            record {
              valid = record {
                policy = v.policy;
                items_wf = popped.taken.wellformed;
                backoff_wf = v.backoff_wf;
                items_keyed = rw popped.taken.content (removed-IsKeyed popped.key v.items_keyed);
                backoff_keyed = v.backoff_keyed;
              };
              no_error = popped.no_error;
              active_now = popped.taken.content;
              waiting_now = refl;
              frame = items_frame weak p v items;
            },
          ))

  -- Pop of a queue without active units.
  pub pop-empty : len p ≡ 0 → pop p ≡ panic
  unfolding pop len
  pop-empty empty =
      rw (pop_top-empty unit_info_key_func (comp p.less_fn) (comp_is weak p v) weak p.items empty)
        refl
