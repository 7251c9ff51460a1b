-- ===== src/System/Calls.antt =====
-- The handlers of pkg/controller/eventhandler.go that have found their queue, between two steps.
use kube_queue.Base.{
  ℕ, ◌<◌, ◌≤◌, some, List, [], ◌∷◌, ◌++◌, length, get_elem?, set, get_elem?-set, get_elem?-append,
  lt_of_get_elem?, ℕ_discrete, ◌≡◌, arith, Yields,
}
use kube_queue.SchedulingQueue.{PrioritySchedulingQueue}
use kube_queue.System.State.{Method, adding, updating, deleting, Handler, calling, returned}
use kube_queue.System.Handlers.{call_method}
use kube_queue.System.Objects.{
  IsSoundObject, IsKeptObject, add-IsKeptObject, delete-IsKeptObject, update-IsKeptObject,
}
use kube_queue.System.Invariant.{IsSoundMethod, AreSoundHandlers}

module _ {ℓ} {Q : Type ℓ} where
  pub AreSoundHandlers-mono :
      {n m : ℕ} (handlers : List (Handler Q))
      → n ≤ m
      → AreSoundHandlers n handlers
      → AreSoundHandlers m handlers
  AreSoundHandlers-mono handlers h sound j i m e =
      let (below, has) = sound j i m e in (omega arith, has)

  pub append-AreSoundHandlers :
      (bound : ℕ) (handlers : List (Handler Q)) (i : ℕ) (m : Method Q)
      → i < bound
      → IsSoundMethod m
      → AreSoundHandlers bound handlers
      → AreSoundHandlers bound (handlers ++ calling i m ∷ [])
  append-AreSoundHandlers bound handlers i m below has sound j i' m' e =
      let now = get_elem?-append handlers (calling i m) j in
      elim (ℕ_discrete (length handlers) j) [
        | yes same ↦
            let address_is : i ≡ i' = ground (arith, now) in
            let method_is : m ≡ m' = ground (arith, now) in
            rw (← address_is, ← method_is) (below, has)
        | no other ↦ sound j i' m' (ground (arith, now))
      ]

  pub returned-AreSoundHandlers :
      (bound : ℕ) (handlers : List (Handler Q)) (k i : ℕ) (m : Method Q)
      → get_elem? handlers k ≡ some (calling i m)
      → AreSoundHandlers bound handlers
      → AreSoundHandlers bound (set handlers k returned)
  returned-AreSoundHandlers bound handlers k i m there sound j i' m' e =
      let now = get_elem?-set handlers k j returned (lt_of_get_elem? handlers k there) in
      elim (ℕ_discrete k j) [
        | yes same ↦ absurd (ground (arith, now))
        | no other ↦ sound j i' m' (ground (arith, now))
      ]

  pub call_method-IsKeptObject :
      (m : Method Q) (q : PrioritySchedulingQueue Q)
      → IsSoundObject q
      → IsSoundMethod m
      → Yields (λ r. IsKeptObject q r.0) (call_method m q)
  unfolding call_method
  call_method-IsKeptObject (adding u now later) q sound has =
      add-IsKeptObject q sound u now later has
  call_method-IsKeptObject (updating old new now later) q sound has =
      update-IsKeptObject q sound old new now later has
  call_method-IsKeptObject (deleting u) q sound has = delete-IsKeptObject q sound u
