-- ===== src/SchedulingQueue/Bounds.antt =====
-- Bounds of the backoff of priority_scheduling_queue.go, from the seconds of the options on.
use kube_queue.Base.{
  ℕ, ◌-◌, ◌*◌, ◌^◌, ◌≤◌, ◌≡◌, ◌∙◌, refl, Bool, true, false, if◌then◌else◌, leb, Bool-cases, inl,
  inr, arith, String, Option,
}
use kube_queue.Base.Int.{pos, wrap64-pos}
use Prim.Native.Nat.{min}
use native.Mathlib.Nat.{
  pow-le-pow_right, mul-le-mul_left, le-mul_of_pos_right, min-le_left, min-le_right, le-min,
  one-le-pow, le_trans,
}
use kube_queue.Framework.{QueueUnitInfo, Queue}
use kube_queue.SchedulingQueue.{PrioritySchedulingQueue, QueueLess, new_priority_scheduling_queue}
use kube_queue.SchedulingQueue.Backoff.{
  seconds, calculate_backoff_duration, calculate_backoff_duration-min,
}

-- The backoff in nanoseconds, without machine integers.
abbrev pub backoff : ℕ → ℕ → ℕ → ℕ
backoff initial max attempts =
    if leb attempts 1 then initial else min (initial * 2 ^ (attempts - 1)) max

module _ (initial max : ℕ) (ordered : initial ≤ max) where
  grows : (k : ℕ) → initial ≤ initial * 2 ^ k
  grows k = le-mul_of_pos_right initial (one-le-pow k 2 (omega arith))

  backoff_bounds : (n : ℕ) → (initial ≤ backoff initial max n) × (backoff initial max n ≤ max)
  backoff_bounds n = elim (Bool-cases (leb n 1)) [
    | inl few ↦ rw few (omega arith, ordered)
    | inr many ↦ rw many (le-min (grows (n - 1)) ordered, min-le_right (initial * 2 ^ (n - 1)) max)
  ]

  backoff_mono : (n m : ℕ) → n ≤ m → backoff initial max n ≤ backoff initial max m
  backoff_mono n m h = elim (Bool-cases (leb n 1)) [
    | inl few ↦ rw few ((backoff_bounds m).0)
    | inr many ↦
        let many' : leb m 1 ≡ false = ground arith in
        let power : initial * 2 ^ (n - 1) ≤ initial * 2 ^ (m - 1) =
          mul-le-mul_left initial (pow-le-pow_right (omega arith) (omega arith)) in
        rw (many, many')
          (le-min (le_trans (min-le_left (initial * 2 ^ (n - 1)) max) power)
            (min-le_right (initial * 2 ^ (n - 1)) max))
  ]

if-pos : (b : Bool) (x y : ℕ) → (if b then pos x else pos y) ≡ pos (if b then x else y)
if-pos true x y = refl
if-pos false x y = refl

seconds-pos : (n : ℕ) → n ≤ 4_611_686_018 → seconds (pos n) ≡ pos (n * 1_000_000_000)
unfolding seconds
seconds-pos n h = wrap64-pos (n * 1_000_000_000) (omega arith)

-- Every unit waits between the initial and the maximal duration, and not less after more attempts.
pub record IsBounded {ℓ} {Q : Type ℓ} (p : PrioritySchedulingQueue Q) (initial max : ℕ)
    : Type ℓ where
  pub duration : QueueUnitInfo Q → ℕ
  pub computed :
      (u : QueueUnitInfo Q)
      → calculate_backoff_duration p.pod_initial_backoff_duration p.pod_max_backoff_duration u
        ≡ pos (duration u)
  pub low : (u : QueueUnitInfo Q) → initial ≤ duration u
  pub high : (u : QueueUnitInfo Q) → duration u ≤ max
  pub mono : (u u' : QueueUnitInfo Q) → u.attempts ≤ u'.attempts → duration u ≤ duration u'

-- A queue that is made with an initial backoff of at most the maximal one, and a maximal one of at
-- most 4611686018 seconds, computes every backoff without an overflow: it lies between the two, and
-- does not fall with the attempts.
pub new_priority_scheduling_queue-IsBounded {ℓ} :
    {Q : Type ℓ} (policies : String → Option (QueueLess Q)) (name plugin_name : String)
    (initial max : ℕ) (queue : Queue)
    → initial ≤ max
    → max ≤ 4_611_686_018
    → IsBounded
        (new_priority_scheduling_queue policies name plugin_name (pos initial) (pos max) queue)
        (initial * 1_000_000_000)
        (max * 1_000_000_000)
unfolding new_priority_scheduling_queue
new_priority_scheduling_queue-IsBounded policies name plugin_name initial max queue ordered small =
    let low = initial * 1_000_000_000 in
    let high = max * 1_000_000_000 in
    let ordered' : low ≤ high = omega arith in
    record {
      duration = λ u. backoff low high u.attempts;
      computed = λ u.
          rw (seconds-pos initial (omega arith), seconds-pos max small)
            (calculate_backoff_duration-min low high u (omega arith) (omega arith)
              ∙ if-pos (leb u.attempts 1) low (min (low * 2 ^ (u.attempts - 1)) high));
      low = λ u. (backoff_bounds low high ordered' u.attempts).0;
      high = λ u. (backoff_bounds low high ordered' u.attempts).1;
      mono = λ u u' h. backoff_mono low high ordered' u.attempts u'.attempts h;
    }
