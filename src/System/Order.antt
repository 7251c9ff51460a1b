-- ===== src/System/Order.antt =====
-- The order in which a call of schedule of pkg/scheduler/scheduler.go visits the queues: SortedQueue
-- of pkg/queue/multischedulingqueue/multi_scheduling_queue.go with the order of the plugin Priority.
use kube_queue.Base.{
  ℕ, suc, ◌<◌, Bool, true, false, String, some, List, [], ◌∷◌, Dict, lookup, length, get_elem?,
  get_elem?-some, text_dec, ◌≡◌, refl, ◌∙◌, sym, arith,
}
use kube_queue.Base.Int.{◌≤ℤ◌}
use kube_queue.SchedulingQueue.{PrioritySchedulingQueue}
use kube_queue.Plugins.Priority.{multi_queue_less, multi_queue_less-IsStrictWeak, priority_or_zero}
use kube_queue.System.State.{Setup, System}
use kube_queue.System.Rounds.{addresses, less_at, begin}
use kube_queue.System.Addresses.{addresses-AreEntered}
use kube_queue.System.Invariant.{IsSoundSystem}

-- A strict weak order on the elements of a list.
pub record IsStrictWeakOn (l : List ℕ) (less : ℕ → ℕ → Bool) : Type 0 where
  pub asym :
      (n m i j : ℕ)
      → get_elem? l n ≡ some i
      → get_elem? l m ≡ some j
      → less i j ≡ true
      → less j i ≡ false
  pub trans :
      (n m o i j k : ℕ)
      → get_elem? l n ≡ some i
      → get_elem? l m ≡ some j
      → get_elem? l o ≡ some k
      → less j i ≡ false
      → less k j ≡ false
      → less k i ≡ false

-- What sort.Slice promises of a call: the elements of the list, in an order in which none is less
-- than one before it where `less` is a strict weak order on them.
pub record IsSorting (less : ℕ → ℕ → Bool) (l out : List ℕ) : Type 0 where
  pub keeps : (n i : ℕ) → get_elem? l n ≡ some i → (m : ℕ) × (get_elem? out m ≡ some i)
  pub same_length : length out ≡ length l
  pub ordered :
      IsStrictWeakOn l less
      → (a b i j : ℕ) → a < b
      → get_elem? out a ≡ some i
      → get_elem? out b ≡ some j
      → less j i ≡ false

addresses-lookup :
    (d : Dict ℕ) (k : String) (i : ℕ)
    → lookup k d ≡ some i
    → (m : ℕ) × (get_elem? (addresses d) m ≡ some i)
unfolding addresses lookup
addresses-lookup [] k i e = absurd (ground arith)
addresses-lookup ((j, x) ∷ d) k i e = elim (text_dec j k) [
  | yes same ↦ (0, ground (arith, e, same))
  | no other ↦ let (m, there) = addresses-lookup d k i (ground (arith, e, other)) in (suc m, there)
]

length-addresses : (d : Dict ℕ) → length (addresses d) ≡ length d
unfolding addresses
length-addresses [] = refl
length-addresses ((k, i) ∷ d) = omega (arith, length-addresses d)

module _ {ℓ} {Q S : Type ℓ} (setup : Setup Q S) (s : System Q S) (inv : IsSoundSystem s)
    (by_priority : setup.less_func ≡ multi_queue_less) where
  less_at-multi_queue_less :
      (i j : ℕ) (q1 q2 : PrioritySchedulingQueue Q)
      → get_elem? s.objects i ≡ some q1
      → get_elem? s.objects j ≡ some q2
      → less_at setup s.objects i j ≡ multi_queue_less q1.queue q2.queue
  unfolding less_at
  less_at-multi_queue_less i j q1 q2 e1 e2 = rw (e1, e2, less_at, by_priority) refl

  mapped_object :
      (n i : ℕ)
      → get_elem? (addresses s.queue_map) n ≡ some i
      → (q : PrioritySchedulingQueue Q) × (get_elem? s.objects i ≡ some q)
  mapped_object n i e =
      get_elem?-some s.objects i
        (addresses-AreEntered (length s.objects) s.queue_map n i inv.heap.entered e)

  less_at-IsStrictWeakOn : IsStrictWeakOn (addresses s.queue_map) (less_at setup s.objects)
  less_at-IsStrictWeakOn = record {
    asym = λ n m i j ei ej h.
        let (qi, hi) = mapped_object n i ei in
        let (qj, hj) = mapped_object m j ej in
        rw (less_at-multi_queue_less j i qj qi hj hi) (
          multi_queue_less-IsStrictWeak.asym qi.queue qj.queue
            (sym (less_at-multi_queue_less i j qi qj hi hj) ∙ h));
    trans = λ n m o i j k ei ej ek h h'.
        let (qi, hi) = mapped_object n i ei in
        let (qj, hj) = mapped_object m j ej in
        let (qk, hk) = mapped_object o k ek in
        rw (less_at-multi_queue_less k i qk qi hk hi) (
          multi_queue_less-IsStrictWeak.trans qi.queue qj.queue qk.queue
            (sym (less_at-multi_queue_less j i qj qi hj hi) ∙ h)
            (sym (less_at-multi_queue_less k j qk qj hk hj) ∙ h'));
  }

  -- The queues that the loop is to visit: each queue of the map, as many as the map has, and none
  -- after one of lower priority.
  pub record IsByPriority (todo : List ℕ) : Type ℓ where
    pub every :
        (k : String) (i : ℕ) → lookup k s.queue_map ≡ some i → (n : ℕ) × (get_elem? todo n ≡ some i)
    pub same_length : length todo ≡ length s.queue_map
    pub falling :
        (a b i j : ℕ) (q1 q2 : PrioritySchedulingQueue Q)
        → a < b
        → get_elem? todo a ≡ some i
        → get_elem? todo b ≡ some j
        → get_elem? s.objects i ≡ some q1
        → get_elem? s.objects j ≡ some q2
        → priority_or_zero q2.queue.queue.priority ≤ℤ priority_or_zero q1.queue.queue.priority

  not_less-falling :
      (q1 q2 : PrioritySchedulingQueue Q)
      → multi_queue_less q2.queue q1.queue ≡ false
      → priority_or_zero q2.queue.queue.priority ≤ℤ priority_or_zero q1.queue.queue.priority
  unfolding multi_queue_less
  not_less-falling q1 q2 h = ground arith

  -- Where sort.Slice keeps its promise for this call, and the queues are ordered by the plugin
  -- Priority, a call of schedule in a sound system begins with every queue of the map to visit, as
  -- many as the map has, and none of them comes after one of lower priority.
  pub begin-IsByPriority :
      IsSorting
        (less_at setup s.objects)
        (addresses s.queue_map)
        (setup.sort_slice (length s.variables) (less_at setup s.objects) (addresses s.queue_map))
      → IsByPriority (begin setup s).todo
  unfolding begin
  begin-IsByPriority sorting = record {
    every = λ k i there.
        let (m, listed) = addresses-lookup s.queue_map k i there in sorting.keeps m i listed;
    same_length = sorting.same_length ∙ length-addresses s.queue_map;
    falling = λ a b i j q1 q2 before at_a at_b e1 e2. not_less-falling q1 q2 (
        sym (less_at-multi_queue_less j i q2 q1 e2 e1)
        ∙ sorting.ordered less_at-IsStrictWeakOn a b i j before at_a at_b);
  }
