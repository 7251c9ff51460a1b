-- ===== src/System/Kept.antt =====
-- What the handlers and the flush goroutines keep of the invariant.
use kube_queue.Base.{
  ℕ, String, Option, none, some, lookup, get_elem?, set, get_elem?-some, lt_of_get_elem?,
  length-set, length-append, ltb, ◌≡◌, refl, arith, Option-cases, inl, inr, Yields, yields,
  Yields-bind, Yields-if,
}
use kube_queue.Framework.{Queue, QueueUnit, ObjectReference, Time}
use kube_queue.SchedulingQueue.{PrioritySchedulingQueue, QueueLess}
use kube_queue.Controller.Events.{
  Event, queue_added, queue_updated, queue_deleted, unit_added, unit_updated, unit_deleted,
  IsAdmissible, added, updated, deleted, joined, changed, left,
}
use kube_queue.System.State.{
  Method, adding, updating, deleting, Handler, calling, returned, Setup, System, start,
}
use kube_queue.System.Handlers.{
  call_handler, allocate, add_queue, find_mapped, on_unit, handle, tick,
}
use kube_queue.System.Objects.{IsKeptObject, new-IsSoundObject, flush-IsKeptObject}
use kube_queue.System.Invariant.{
  IsSoundMethod, IsSoundSystem, IsSoundSetup, set-IsSoundHeap, append-IsSoundHeap,
  erase-IsSoundHeap, run_objects-IsSoundHeap, length-run_objects,
}
use kube_queue.System.Calls.{
  AreSoundHandlers-mono, append-AreSoundHandlers, returned-AreSoundHandlers,
  call_method-IsKeptObject,
}
use kube_queue.System.Addresses.{AreEntered, AreBelow-mono}

module _ {ℓ} {Q S : Type ℓ} (setup : Setup Q S) (ok_setup : IsSoundSetup setup) where
  pub start-IsSoundSystem : (plugins : S) → IsSoundSystem {Q = Q} (start plugins)
  unfolding start lookup AreEntered
  start-IsSoundSystem plugins = record {
    heap = record {
      sound = λ i q e. absurd (ground arith);
      mapped = λ k i e. absurd (ground arith);
      entered = tt;
    };
    calls = λ j i m e. absurd (ground arith);
    below = record {
      todo_below = λ n i e. absurd (ground arith);
      variables_below = λ r i e. absurd (ground arith);
    };
    control = record {
      opened = λ n i e. absurd (ground arith);
      stands = tt;
      waits = λ j g e. absurd (ground arith);
    };
  }

  module _ (s : System Q S) (inv : IsSoundSystem s) where
    -- A queue changes, and nothing else.
    pub set-IsSoundSystem :
        (i : ℕ) (q q' : PrioritySchedulingQueue Q)
        → get_elem? s.objects i ≡ some q
        → IsKeptObject q q'
        → IsSoundSystem (record s { objects = set s.objects i q' })
    set-IsSoundSystem i q q' there kept = record {
      heap = set-IsSoundHeap inv.heap i q q' there kept;
      calls = rw (length-set s.objects i q') inv.calls;
      below = rw (length-set s.objects i q') inv.below;
      control = inv.control;
    }

    pub allocate-IsSoundSystem :
        (queue : Queue) (less : QueueLess Q)
        → setup.queue_sort_func_map queue.queue_policy ≡ some less
        → IsSoundSystem (allocate setup s queue)
    unfolding allocate
    allocate-IsSoundSystem queue less known = record {
      heap = append-IsSoundHeap inv.heap _ (
          new-IsSoundObject setup.queue_sort_func_map less queue.namespace queue.queue_policy
            setup.pod_initial_backoff_seconds setup.pod_max_backoff_seconds queue known
            (ok_setup.policies queue.queue_policy less known));
      calls = AreSoundHandlers-mono s.handlers (omega (arith, length-append s.objects _)) inv.calls;
      below = AreBelow-mono (omega (arith, length-append s.objects _)) inv.below;
      control = inv.control;
    }

    add_queue-IsSoundSystem :
        (queue : Queue) (less : QueueLess Q)
        → setup.queue_sort_func_map queue.queue_policy ≡ some less
        → IsSoundSystem (add_queue setup s queue)
    unfolding add_queue
    add_queue-IsSoundSystem queue less known =
        elim (Option-cases (lookup queue.namespace s.queue_map)) [
          | inr (i, there) ↦ rw (there, add_queue) inv
          | inl out ↦
              let s' = allocate setup s queue in
              let inv' = allocate-IsSoundSystem queue less known in
              rw (out, add_queue)
                (record {
                  heap = run_objects-IsSoundHeap s'.queue_map s'.objects inv'.heap;
                  calls = rw (length-run_objects s'.queue_map s'.objects) inv'.calls;
                  below = rw (length-run_objects s'.queue_map s'.objects) inv'.below;
                  control = inv'.control;
                })
        ]

    find_mapped-IsSoundSystem :
        (k : String) (found : Option ℕ) (m : Method Q)
        → lookup k s.queue_map ≡ found
        → IsSoundMethod m
        → IsSoundSystem (find_mapped s found m)
    unfolding find_mapped
    find_mapped-IsSoundSystem k none m there has = inv
    find_mapped-IsSoundSystem k (some i) m there has =
        let (q, held, named) = inv.heap.mapped k i there in
        record {
          heap = inv.heap;
          calls =
              append-AreSoundHandlers _ s.handlers i m (lt_of_get_elem? s.objects i held) has
                inv.calls;
          below = inv.below;
          control = inv.control;
        }

    on_unit-IsSoundSystem :
        (unit : QueueUnit Q) (consumer : ObjectReference) (m : Method Q)
        → unit.consumer_ref ≡ some consumer
        → IsSoundMethod m
        → Yields IsSoundSystem (on_unit s unit m)
    unfolding on_unit
    on_unit-IsSoundSystem unit consumer m known has =
        rw (known, on_unit)
          (yields (
            find_mapped-IsSoundSystem consumer.namespace (lookup consumer.namespace s.queue_map) m
              refl has))

    pub call_handler-IsSoundSystem :
        (j : ℕ) (h : Handler Q)
        → get_elem? s.handlers j ≡ some h
        → Yields IsSoundSystem (call_handler s j h)
    unfolding call_handler
    call_handler-IsSoundSystem j (calling i m) waits =
        let (below, has) = inv.calls j i m waits in
        let (q, there) = get_elem?-some s.objects i below in
        rw (there, call_handler)
          (Yields-bind (call_method-IsKeptObject m q (inv.heap.sound i q there) has)
            λ (q', err) kept. yields (record {
              heap = set-IsSoundHeap inv.heap i q q' there kept;
              calls =
                  rw (length-set s.objects i q')
                    (returned-AreSoundHandlers _ s.handlers j i m waits inv.calls);
              below = rw (length-set s.objects i q') inv.below;
              control = inv.control;
            }))
    call_handler-IsSoundSystem j returned waits = yields inv

    pub handle-IsSoundSystem :
        (e : Event Q)
        → IsAdmissible setup.queue_sort_func_map e
        → Yields IsSoundSystem (handle setup s e)
    unfolding handle
    handle-IsSoundSystem (queue_added q) (added known) = yields (add_queue-IsSoundSystem q _ known)
    handle-IsSoundSystem (queue_updated old new) (updated known) =
        yields (allocate-IsSoundSystem new _ known)
    handle-IsSoundSystem (queue_deleted q) deleted = yields (record {
      heap = erase-IsSoundHeap inv.heap q.namespace;
      calls = inv.calls;
      below = inv.below;
      control = inv.control;
    })
    handle-IsSoundSystem (unit_added u now later) (joined e) =
        on_unit-IsSoundSystem u _ (adding u now later) e (ground (arith, e))
    handle-IsSoundSystem (unit_updated old new now later) (changed e) =
        on_unit-IsSoundSystem new _ (updating old new now later) e (ground (arith, e))
    handle-IsSoundSystem (unit_deleted u) (left e) = on_unit-IsSoundSystem u _ (deleting u) e tt

    pub tick-IsSoundSystem : (i : ℕ) (clock : ℕ → Time) → Yields IsSoundSystem (tick s i clock)
    unfolding tick
    tick-IsSoundSystem i clock = elim (Option-cases (get_elem? s.objects i)) [
      | inl out ↦ rw (out, tick) (yields inv)
      | inr (q, there) ↦
          rw (there, tick)
            (Yields-if (ltb 0 q.flushers)
              (λ _.
                Yields-bind (flush-IsKeptObject q (inv.heap.sound i q there) clock)
                  λ q' kept. yields (set-IsSoundSystem i q q' there kept))
              λ _. yields inv)
    ]
