-- ===== src/MultiSchedulingQueue/Queues.antt =====
-- The invariant of the queues of a multi scheduling queue, under Add, Update, Delete and Run.
use kube_queue.Base.{
  String, Bool, true, false, none, some, [], ◌∷◌, Dict, lookup, insert, lookup-insert, lookup-erase,
  ite, text_dec, if◌then◌else◌, ◌≡◌, ◌≢◌, ◌+◌, refl, Option-cases, Bool-cases, inl, inr, arith,
}
use kube_queue.Heap
use kube_queue.Heap.{Data}
use kube_queue.Heap.View.{index_of, view, IsWellFormed}
use kube_queue.Container.Order.{IsStrictWeak}
use kube_queue.Framework.{Queue, QueueUnitInfo}
use kube_queue.SchedulingQueue.{
  PrioritySchedulingQueue, QueueLess, new_priority_scheduling_queue, nil_channel, start,
  set_run_status,
}
use kube_queue.SchedulingQueue.Invariant.{IsValid}
use kube_queue.MultiSchedulingQueue.{
  MultiSchedulingQueue, run_queue, run_queues, run, make_queue, add, delete, update,
  get_queue_by_name,
}

module _ {ℓ} {Q : Type ℓ} where
  pub new-IsWellFormed : (lt : QueueLess Q) → IsWellFormed lt (Heap.new)
  unfolding Heap.new Heap.len index_of
  new-IsWellFormed lt = record {
    consistent = record {
      listed = λ i k e. absurd (ground arith);
      placed = λ i k e. absurd (ground arith);
    };
    heap = λ c a b. absurd (ground arith);
  }

  pub new-view : (k : String) → view {A = QueueUnitInfo Q} Heap.new k ≡ none
  unfolding Heap.new view
  new-view k = refl

  -- A queue under its name: its order is a strict weak order, and it has been started exactly if it
  -- has the mark for that.
  pub record IsSoundQueue (k : String) (q : PrioritySchedulingQueue Q) : Type ℓ where
    pub less : QueueLess Q
    pub weak : IsStrictWeak less
    pub valid : IsValid less q
    pub named : q.name ≡ k
    pub flushed : q.flushers ≡ (if q.run then 1 else 0)
    pub stopless : q.stop ≡ nil_channel

  started-IsSoundQueue :
      {k : String} (q : PrioritySchedulingQueue Q) (b : Bool)
      → q.run ≡ b
      → IsSoundQueue k q
      → IsSoundQueue k (if b then q else set_run_status (start q) true)
  unfolding start set_run_status
  started-IsSoundQueue q true e s = s
  started-IsSoundQueue q false e s = record {
    less = s.less;
    weak = s.weak;
    valid = record {
      policy = s.valid.policy;
      items_wf = s.valid.items_wf;
      backoff_wf = s.valid.backoff_wf;
      items_keyed = s.valid.items_keyed;
      backoff_keyed = s.valid.backoff_keyed;
    };
    named = s.named;
    flushed = ground (arith, s.flushed);
    stopless = s.stopless;
  }

  run_queue-IsSoundQueue :
      {k : String} (q : PrioritySchedulingQueue Q) → IsSoundQueue k q → IsSoundQueue k (run_queue q)
  unfolding run_queue
  run_queue-IsSoundQueue q s = started-IsSoundQueue q q.run refl s

  run_queue-run : (q : PrioritySchedulingQueue Q) → (run_queue q).run ≡ true
  unfolding run_queue set_run_status
  run_queue-run q = ground arith

  lookup-run_queues :
      (k : String) (d : Dict (PrioritySchedulingQueue Q))
      → lookup k (run_queues d) ≡ (elim (lookup k d) [ none ↦ none | some q ↦ some (run_queue q) ])
  unfolding lookup run_queues
  lookup-run_queues k [] = refl
  lookup-run_queues k ((j, q) ∷ d) = ground (arith, lookup-run_queues k d)

  -- Every policy that the framework knows is a strict weak order, and every queue is sound.
  pub record IsSound (mq : MultiSchedulingQueue Q) : Type ℓ where
    pub policies :
        (policy : String) (less : QueueLess Q)
        → mq.queue_sort_func_map policy ≡ some less
        → IsStrictWeak less
    pub queues :
        (k : String) (q : PrioritySchedulingQueue Q)
        → get_queue_by_name mq k ≡ some q
        → IsSoundQueue k q

  make_queue-IsSoundQueue :
      (mq : MultiSchedulingQueue Q) (q : Queue) (less : QueueLess Q)
      → IsSound mq
      → mq.queue_sort_func_map q.queue_policy ≡ some less
      → IsSoundQueue q.namespace (make_queue mq q)
  unfolding make_queue new_priority_scheduling_queue
  make_queue-IsSoundQueue mq q less s known = record {
    less = less;
    weak = s.policies q.queue_policy less known;
    valid = record {
      policy = known;
      items_wf = new-IsWellFormed less;
      backoff_wf = new-IsWellFormed _;
      items_keyed = λ k u e. absurd (ground (arith, new-view k));
      backoff_keyed = λ k u e. absurd (ground (arith, new-view k));
    };
    named = refl;
    flushed = refl;
    stopless = refl;
  }

  -- Writing a sound queue under its name.
  pub insert-IsSound :
      (mq : MultiSchedulingQueue Q) (k : String) (q : PrioritySchedulingQueue Q)
      → IsSound mq
      → IsSoundQueue k q
      → IsSound (record mq { queue_map = insert k q mq.queue_map })
  unfolding get_queue_by_name
  insert-IsSound mq k q s sound = record {
    policies = s.policies;
    queues = λ j x e. elim (text_dec k j) [
      | yes same ↦
          let queue_is : q ≡ x = ground (arith, lookup-insert k j q mq.queue_map) in
          rw (← same, ← queue_is) sound
      | no other ↦ s.queues j x (ground (arith, lookup-insert k j q mq.queue_map))
    ];
  }

  run-IsSound : (mq : MultiSchedulingQueue Q) → IsSound mq → IsSound (run mq)
  unfolding run get_queue_by_name
  run-IsSound mq s = record {
    policies = s.policies;
    queues = λ k q e. elim (Option-cases (lookup k mq.queue_map)) [
      | inl absent ↦ absurd (ground (arith, lookup-run_queues k mq.queue_map))
      | inr (x, there) ↦
          let queue_is : run_queue x ≡ q = ground (arith, lookup-run_queues k mq.queue_map) in
          rw (← queue_is) (run_queue-IsSoundQueue x (s.queues k x there))
    ];
  }

  run_queues-insert :
      (k n : String) (q : PrioritySchedulingQueue Q) (d : Dict (PrioritySchedulingQueue Q))
      → lookup k (run_queues (insert n q d))
        ≡ ite
            (text_dec n k)
            (some (run_queue q))
            (elim (lookup k d) [ none ↦ none | some x ↦ some (run_queue x) ])
  run_queues-insert k n q d =
      ground (arith, lookup-run_queues k (insert n q d), lookup-insert n k q d)

  -- Add puts a new queue under the namespace, started, and every other queue that has not been
  -- started is started; nothing else changes under any name.
  add-lookup :
      (mq : MultiSchedulingQueue Q) (q : Queue) (k : String)
      → get_queue_by_name (add mq q) k
        ≡ ite
            (text_dec q.namespace k)
            (some (run_queue (make_queue mq q)))
            (elim (get_queue_by_name mq k) [ none ↦ none | some x ↦ some (run_queue x) ])
  unfolding get_queue_by_name add run make_queue new_priority_scheduling_queue
  add-lookup mq q k = run_queues-insert k q.namespace (make_queue mq q) mq.queue_map

  -- What Add of a queue leaves: under its namespace an empty queue; under every other name the
  -- queue that was there, with its units; and every queue is marked as run, and has one goroutine
  -- more exactly if it was not.
  pub record IsAdded (mq mq' : MultiSchedulingQueue Q) (ns : String) : Type ℓ where
    pub queue : PrioritySchedulingQueue Q
    pub there : get_queue_by_name mq' ns ≡ some queue
    pub no_active : (k : String) → view queue.items k ≡ none
    pub no_waiting : (k : String) → view queue.backoff_q k ≡ none
    pub running : queue.run ≡ true
    pub flushed : queue.flushers ≡ 1
    pub others :
        (k : String) (x : PrioritySchedulingQueue Q)
        → ns ≢ k
        → get_queue_by_name mq k ≡ some x
        → get_queue_by_name mq' k
          ≡ some (record x { run = true; flushers = if x.run then x.flushers else x.flushers + 1 })
    pub no_others :
        (k : String) → ns ≢ k → get_queue_by_name mq k ≡ none → get_queue_by_name mq' k ≡ none

  run_queue-started :
      (x : PrioritySchedulingQueue Q)
      → run_queue x
        ≡ record x { run = true; flushers = if x.run then x.flushers else x.flushers + 1 }
  unfolding run_queue start set_run_status
  run_queue-started x = elim (Bool-cases x.run) [
    | inl runs ↦ rw (runs) refl
    | inr stands ↦ rw (stands) refl
  ]

  -- Add leaves an empty queue under the namespace, marked as run and with one goroutine; every other
  -- queue stays with its units, and is marked as run as well, with one goroutine more exactly if it
  -- was not marked before; no other queue appears.
  pub add-IsAdded : (mq : MultiSchedulingQueue Q) (q : Queue) → IsAdded mq (add mq q) q.namespace
  unfolding make_queue new_priority_scheduling_queue run_queue start set_run_status
  add-IsAdded mq q = record {
    queue = run_queue (make_queue mq q);
    there = ground (arith, add-lookup mq q q.namespace);
    no_active = new-view;
    no_waiting = new-view;
    running = refl;
    flushed = refl;
    others = λ k x other held. rw (← run_queue-started x) (ground (arith, add-lookup mq q k));
    no_others = λ k other absent. ground (arith, add-lookup mq q k);
  }

  pub add-IsSound :
      (mq : MultiSchedulingQueue Q) (q : Queue) (less : QueueLess Q)
      → IsSound mq
      → mq.queue_sort_func_map q.queue_policy ≡ some less
      → IsSound (add mq q)
  unfolding add
  add-IsSound mq q less s known = run-IsSound _ (
      insert-IsSound mq q.namespace (make_queue mq q) s (make_queue-IsSoundQueue mq q less s known))

  pub update-IsSound :
      (mq : MultiSchedulingQueue Q) (old new : Queue) (less : QueueLess Q)
      → IsSound mq
      → mq.queue_sort_func_map new.queue_policy ≡ some less
      → IsSound (update mq old new)
  unfolding update
  update-IsSound mq old new less s known =
      insert-IsSound mq new.namespace (make_queue mq new) s
        (make_queue-IsSoundQueue mq new less s known)

  pub delete-IsSound :
      (mq : MultiSchedulingQueue Q) (q : Queue) → IsSound mq → IsSound (delete mq q)
  unfolding delete get_queue_by_name
  delete-IsSound mq q s = record {
    policies = s.policies;
    queues = λ k x e. s.queues k x (ground (arith, lookup-erase q.namespace k mq.queue_map));
  }

  -- No operation changes the policies.
  pub add_policies :
      (mq : MultiSchedulingQueue Q) (q : Queue)
      → (add mq q).queue_sort_func_map ≡ mq.queue_sort_func_map
  unfolding add run
  add_policies mq q = refl

  pub update_policies :
      (mq : MultiSchedulingQueue Q) (old new : Queue)
      → (update mq old new).queue_sort_func_map ≡ mq.queue_sort_func_map
  unfolding update
  update_policies mq old new = refl

  pub delete_policies :
      (mq : MultiSchedulingQueue Q) (q : Queue)
      → (delete mq q).queue_sort_func_map ≡ mq.queue_sort_func_map
  unfolding delete
  delete_policies mq q = refl
