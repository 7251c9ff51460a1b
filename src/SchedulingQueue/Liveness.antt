-- ===== src/SchedulingQueue/Liveness.antt =====
-- What keeps units from waiting for ever in a scheduling queue: a flush after the last backoff.
use kube_queue.Base.{
  ℕ, String, false, none, some, ◌≡◌, arith, Yields, Yields-weaken, Option-cases, inl, inr,
}
use kube_queue.Base.Int.{ltb_ℤ}
use kube_queue.Container.Order.{IsStrictWeak}
use kube_queue.Framework.{QueueUnitInfo, Time}
use kube_queue.SchedulingQueue.{PrioritySchedulingQueue, QueueLess, flush_backoff_q_completed}
use kube_queue.SchedulingQueue.Invariant.{active, waiting, IsValid}
use kube_queue.SchedulingQueue.Flush.{done_at, flush_backoff_q_completed-IsFlushed}

-- A flush of a valid queue whose policy is a strict weak order, at a time when the backoff of every
-- unit has ended, leaves no unit in the backoff heap, and each unit that was there is active.
pub flush_backoff_q_completed-none_waiting {ℓ} :
    {Q : Type ℓ} {less : QueueLess Q} (weak : IsStrictWeak less) (clock : ℕ → Time)
    (p : PrioritySchedulingQueue Q)
    → IsValid less p
    → ((n : ℕ) (k : String) (u : QueueUnitInfo Q)
        → waiting p k ≡ some u
        → ltb_ℤ (clock n) (done_at p u) ≡ false)
    → Yields
        (λ p'.
          ((k : String) → waiting p' k ≡ none)
          × ((k : String) (u : QueueUnitInfo Q) → waiting p k ≡ some u → active p' k ≡ some u))
        (flush_backoff_q_completed clock p)
flush_backoff_q_completed-none_waiting weak clock p v over =
    Yields-weaken (flush_backoff_q_completed-IsFlushed weak clock p v) λ p' f. (
      λ k. elim (Option-cases (waiting p' k)) [
        | inl gone ↦ gone
        | inr (u, left) ↦ elim (f.moved k) [
          | inl (a, w) ↦ absurd (ground (arith, f.left k u, over f.last k u))
          | inr (x, n, w, a, w', d) ↦ absurd (ground arith)
        ]
      ],
      λ k u there. elim (f.moved k) [
        | inl (a, w) ↦ absurd (ground (arith, f.left k u, over f.last k u))
        | inr (x, n, w, a, w', d) ↦ ground arith
      ],
    )
