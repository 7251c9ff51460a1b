-- ===== src/System/Invariant.antt =====
-- The invariant of the whole program: sound queues, a map to addresses of queues, and addresses and
-- loop variables that every part which will read them can read.
use kube_queue.Base.{
  ℕ, ◌-◌, ◌<◌, String, Bool, Option, some, List, [], ◌∷◌, ◌++◌, Dict, lookup, insert, erase,
  lookup-insert, lookup-erase, length, get_elem?, set, length-set, length-append, get_elem?-set,
  get_elem?-append, lt_of_get_elem?, ite, text_dec, ℕ_discrete, ◌≡◌, refl, ◌∙◌, arith, Option-cases,
  inl, inr, value,
}
use kube_queue.Container.Order.{IsStrictWeak}
use kube_queue.Framework.{QueueUnitInfo, Status}
use kube_queue.SchedulingQueue.{PrioritySchedulingQueue, QueueLess}
use kube_queue.MultiSchedulingQueue.{run_queue}
use kube_queue.Controller.Events.{IsAdmissible}
use kube_queue.Runtime.{run_filter_plugins}
use kube_queue.System.State.{
  Method, adding, updating, deleting, Handler, calling, Position, looping, popping, filtering,
  reserving, failing, Goroutine, dequeuing, unreserving, storing, putting, finished, Label, handled,
  put_back, ran, Setup, System,
}
use kube_queue.System.Handlers.{run_objects}
use kube_queue.System.Objects.{
  AnswersHaveConsumers, IsSoundObject, IsKeptObject, run_queue-IsKeptObject,
}
use kube_queue.System.Consumers.{HasConsumer}
use kube_queue.System.Addresses.{
  AreBelow, IsAssigned, AreEntered, AreEntered-mono, insert-AreEntered, erase-AreEntered,
}

module _ {ℓ} {Q : Type ℓ} where
  pub record IsSoundHeap (objects : List (PrioritySchedulingQueue Q)) (queue_map : Dict ℕ)
      : Type ℓ where
    pub sound :
        (i : ℕ) (q : PrioritySchedulingQueue Q) → get_elem? objects i ≡ some q → IsSoundObject q
    pub mapped :
        (k : String) (i : ℕ)
        → lookup k queue_map ≡ some i
        → (q : PrioritySchedulingQueue Q) × (get_elem? objects i ≡ some q) × (q.name ≡ k)
    pub entered : AreEntered (length objects) queue_map

  abbrev pub IsSoundPosition : List (Option ℕ) → Position Q → Type 0
  IsSoundPosition variables looping = Unit {0}
  IsSoundPosition variables popping = IsAssigned variables (length variables - 1)
  IsSoundPosition variables (filtering u) =
      IsAssigned variables (length variables - 1) × HasConsumer u.unit
  IsSoundPosition variables (reserving u) = IsAssigned variables (length variables - 1)
  IsSoundPosition variables (failing u) = IsAssigned variables (length variables - 1)

  abbrev pub IsSoundGoroutine : List (Option ℕ) → Goroutine Q → Type 0
  IsSoundGoroutine variables (dequeuing r u) = IsAssigned variables r
  IsSoundGoroutine variables (unreserving r u) = IsAssigned variables r
  IsSoundGoroutine variables (storing r u) = IsAssigned variables r
  IsSoundGoroutine variables (putting i u) = Unit {0}
  IsSoundGoroutine variables finished = Unit {0}

  pub record IsSoundControl (todo : List ℕ) (position : Position Q) (variables : List (Option ℕ))
      (goroutines : List (Goroutine Q)) : Type ℓ where
    pub opened : (n i : ℕ) → get_elem? todo n ≡ some i → 0 < length variables
    pub stands : IsSoundPosition variables position
    pub waits :
        (j : ℕ) (g : Goroutine Q) → get_elem? goroutines j ≡ some g → IsSoundGoroutine variables g

  -- The unit that a method brings has a consumer.
  abbrev pub IsSoundMethod : Method Q → Type 0
  IsSoundMethod (adding u now later) = HasConsumer u
  IsSoundMethod (updating old new now later) = HasConsumer new
  IsSoundMethod (deleting u) = Unit {0}

  -- The handlers that have found a queue have an address below a bound.
  abbrev pub AreSoundHandlers : ℕ → List (Handler Q) → Type ℓ
  AreSoundHandlers bound handlers =
      (j i : ℕ) (m : Method Q)
      → get_elem? handlers j ≡ some (calling i m)
      → (i < bound) × IsSoundMethod m

  pub record IsSoundSystem {S : Type ℓ} (s : System Q S) : Type ℓ where
    pub heap : IsSoundHeap s.objects s.queue_map
    pub calls : AreSoundHandlers (length s.objects) s.handlers
    pub below : AreBelow (length s.objects) s.todo s.variables
    pub control : IsSoundControl s.todo s.position s.variables s.goroutines

  -- The policies are strict weak orders, the filters end on a unit with a consumer, and sort.Slice
  -- returns elements of its list.
  pub record IsSoundSetup {S : Type ℓ} (setup : Setup Q S) : Type ℓ where
    pub policies :
        (policy : String) (less : QueueLess Q)
        → setup.queue_sort_func_map policy ≡ some less
        → IsStrictWeak less
    pub filters :
        (s : S) (u : QueueUnitInfo Q)
        → HasConsumer u.unit
        → (status : Status) × (run_filter_plugins setup.fw s u ≡ value status)
    pub sorts :
        (round : ℕ) (less : ℕ → ℕ → Bool) (l : List ℕ) (n i : ℕ)
        → get_elem? (setup.sort_slice round less l) n ≡ some i
        → (m : ℕ) × (get_elem? l m ≡ some i)

  -- The events have policies and consumers, and so have the answers of the API.
  abbrev pub IsPossible : (String → Option (QueueLess Q)) → Label Q → Type ℓ
  IsPossible policies (handled e) = IsAdmissible policies e
  IsPossible policies (put_back get now) = AnswersHaveConsumers get
  IsPossible policies (ran j get update now) = AnswersHaveConsumers get
  IsPossible policies _ = Unit {ℓ}

  abbrev pub ArePossible : (String → Option (QueueLess Q)) → List (Label Q) → Type ℓ
  ArePossible policies [] = Unit {ℓ}
  ArePossible policies (l ∷ ls) = IsPossible policies l × ArePossible policies ls

  module _ {objects : List (PrioritySchedulingQueue Q)} {queue_map : Dict ℕ}
      (h : IsSoundHeap objects queue_map) where
    pub set-IsSoundHeap :
        (i : ℕ) (q q' : PrioritySchedulingQueue Q)
        → get_elem? objects i ≡ some q
        → IsKeptObject q q'
        → IsSoundHeap (set objects i q') queue_map
    set-IsSoundHeap i q q' there (sound', named) = record {
      sound = λ j x e. elim (ℕ_discrete i j) [
        | yes same ↦ let object_is : q' ≡ x = ground (arith, now j) in rw (← object_is) sound'
        | no other ↦ h.sound j x (ground (arith, now j))
      ];
      mapped = λ k j e.
          let (x, held, x_named) = h.mapped k j e in
          elim (ℕ_discrete i j) [
            | yes same ↦
                let object_is : q ≡ x = ground arith in
                (q', ground (arith, now j), named ∙ rw object_is x_named)
            | no other ↦ (x, ground (arith, now j), x_named)
          ];
      entered = rw (length-set objects i q') h.entered;
    }
      where
        now :
            (j : ℕ)
            → get_elem? (set objects i q') j ≡ ite (ℕ_discrete i j) (some q') (get_elem? objects j)
        now j = get_elem?-set objects i j q' (lt_of_get_elem? objects i there)

    pub append-IsSoundHeap :
        (q : PrioritySchedulingQueue Q)
        → IsSoundObject q
        → IsSoundHeap (objects ++ q ∷ []) (insert q.name (length objects) queue_map)
    append-IsSoundHeap q new = record {
      sound = λ j x e. elim (ℕ_discrete (length objects) j) [
        | yes same ↦ let object_is : q ≡ x = ground (arith, now j) in rw (← object_is) new
        | no other ↦ h.sound j x (ground (arith, now j))
      ];
      mapped = λ k j e. elim (text_dec q.name k) [
        | yes same ↦
            (q, ground (arith, now j, lookup-insert q.name k (length objects) queue_map), same)
        | no other ↦
            let (x, held, x_named) =
              h.mapped k j (ground (arith, lookup-insert q.name k (length objects) queue_map)) in
            (x, ground (arith, now j, lt_of_get_elem? objects j held), x_named)
      ];
      entered =
          let longer = length-append objects (q ∷ []) in
          insert-AreEntered _ q.name (length objects) queue_map (omega (arith, longer))
            (AreEntered-mono queue_map (omega (arith, longer)) h.entered);
    }
      where
        now :
            (j : ℕ)
            → get_elem? (objects ++ q ∷ []) j
              ≡ ite (ℕ_discrete (length objects) j) (some q) (get_elem? objects j)
        now j = get_elem?-append objects q j

    pub erase-IsSoundHeap : (name : String) → IsSoundHeap objects (erase name queue_map)
    erase-IsSoundHeap name = record {
      sound = h.sound;
      mapped = λ k i e. h.mapped k i (ground (arith, lookup-erase name k queue_map));
      entered = erase-AreEntered _ name queue_map h.entered;
    }

  pub run_objects-IsSoundHeap :
      {queue_map : Dict ℕ} (d : Dict ℕ) (objects : List (PrioritySchedulingQueue Q))
      → IsSoundHeap objects queue_map
      → IsSoundHeap (run_objects d objects) queue_map
  unfolding run_objects
  run_objects-IsSoundHeap [] objects h = h
  run_objects-IsSoundHeap ((k, i) ∷ d) objects h = elim (Option-cases (get_elem? objects i)) [
    | inl out ↦ rw (out, run_objects) (run_objects-IsSoundHeap d objects h)
    | inr (q, there) ↦
        rw (there, run_objects)
          (run_objects-IsSoundHeap d (set objects i (run_queue q)) (
            set-IsSoundHeap h i q (run_queue q) there
              (run_queue-IsKeptObject q (h.sound i q there))))
  ]

  pub length-run_objects :
      (d : Dict ℕ) (objects : List (PrioritySchedulingQueue Q))
      → length (run_objects d objects) ≡ length objects
  unfolding run_objects
  length-run_objects [] objects = refl
  length-run_objects ((k, i) ∷ d) objects = elim (Option-cases (get_elem? objects i)) [
    | inl out ↦ rw (out, run_objects) (length-run_objects d objects)
    | inr (q, there) ↦
        rw (there, run_objects)
          (length-run_objects d (set objects i (run_queue q)) ∙ length-set objects i (run_queue q))
  ]
