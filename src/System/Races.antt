-- ===== src/System/Races.antt =====
-- What can come between the Length and the Pop of a queue in the loop of pkg/scheduler/scheduler.go.
use mathlib.Core.Path.{subst}
use kube_queue.Base.{
  value, Yields, Yields-held, ℕ, String, none, some, [], ◌∷◌, get_elem?, set, get_elem?-set,
  lt_of_get_elem?, dec_lt, ◌≡◌, ◌≢◌, refl, arith, panic, Yields-value, text_dec,
}
use kube_queue.Framework.{QueueUnit, object_key}
use kube_queue.SchedulingQueue
use kube_queue.SchedulingQueue.{PrioritySchedulingQueue, QueueLess}
use kube_queue.SchedulingQueue.Invariant.{active, IsValid}
use kube_queue.SchedulingQueue.Methods.{delete-IsNow, pop-IsNow}
use kube_queue.Container.Order.{IsStrictWeak}
use kube_queue.System.State.{popping, returned, calling, deleting, called, popped, Setup, System}
use kube_queue.System.Handlers.{call_handler, call_method}
use kube_queue.System.Rounds.{current}
use kube_queue.System.Step.{step, run}
use kube_queue.System.Invariant.{IsSoundSystem, IsSoundSetup}
use kube_queue.System.Runs.{popped-panic}
use kube_queue.System.Soundness.{step-IsSoundSystem}

module _ {ℓ} {Q S : Type ℓ} (setup : Setup Q S) (ok_setup : IsSoundSetup setup) where
  -- A valid queue without active units has length 0.
  len-empty :
      {less : QueueLess Q} (q : PrioritySchedulingQueue Q)
      → IsStrictWeak less
      → IsValid less q
      → ((k : String) → active q k ≡ none)
      → SchedulingQueue.len q ≡ 0
  len-empty q weak v empty = elim (dec_lt 0 (SchedulingQueue.len q)) [
    | yes busy ↦
        let (r, e, (k, held, first, n)) = Yields-value (pop-IsNow weak q v busy) in
        absurd (ground (arith, empty k))
    | no idle ↦ omega arith
  ]

  -- In a sound system where the loop has found the queue at `i` not empty and comes to its Pop, and
  -- a handler waits to call Delete of this queue with the only active unit of it: when the handler
  -- goes first, the Pop panics.
  pub called-popped-panic :
      (s : System Q S) (i j : ℕ) (q : PrioritySchedulingQueue Q) (u : QueueUnit Q)
      → IsSoundSystem s
      → s.position ≡ popping
      → get_elem? s.variables (current s) ≡ some (some i)
      → get_elem? s.objects i ≡ some q
      → get_elem? s.handlers j ≡ some (calling i (deleting u))
      → ((k : String) → object_key u.namespace u.name ≢ k → active q k ≡ none)
      → run setup (called j ∷ popped ∷ []) s ≡ panic
  unfolding run step call_handler call_method
  called-popped-panic s i j q u inv stands set_to there waits alone =
      let sound = inv.heap.sound i q there in
      let ((q', err), deleted, n) = Yields-value (delete-IsNow sound.weak q sound.valid u) in
      let s' = record s { objects = set s.objects i q'; handlers = set s.handlers j returned } in
      let goes : step setup (called j) s ≡ value s' =
        rw (waits, step) (rw (there, deleted, call_handler) refl) in
      let inv' = Yields-held (
        subst (Yields IsSoundSystem) goes
          (step-IsSoundSystem setup ok_setup (called j) s inv tt tt)) in
      let empty = len-empty q' sound.weak n.valid (λ k.
        rw n.active_now (elim (text_dec (object_key u.namespace u.name) k) [
          | yes same ↦ ground arith
          | no other ↦ ground (arith, alone k other)
        ])) in
      let there' : get_elem? s'.objects i ≡ some q' =
        ground (arith, get_elem?-set s.objects i i q' (lt_of_get_elem? s.objects i there)) in
      rw goes (rw (popped-panic setup ok_setup s' inv' (i, q', stands, set_to, there', empty)) refl)
