-- ===== src/SchedulingQueue/Backoff.antt =====
-- The backoff of pkg/queue/schedulingqueue/priority_scheduling_queue.go: getBackoffTime,
-- calculateBackoffDuration and podsCompareBackoffCompleted, for the two durations of the queue.
use kube_queue.Base.{
  ℕ, zero, suc, ◌-◌, ◌*◌, ◌^◌, ◌<◌, ◌≤◌, ◌≡◌, Bool, refl, inl, inr, Bool-cases, arith, ltb, leb,
  if◌then◌else◌,
}
use kube_queue.Base.Int.{ℤ, pos, negsuc, ◌+ℤ◌, ltb_ℤ, wrap64, wrap64-pos, +ℤ_parts, eq_of_parts}
use Prim.Native.Nat.{min}
use native.Mathlib.Nat.{pow-suc, le-mul_of_pos_right}
use kube_queue.Framework.{Time, QueueUnitInfo}
use kube_queue.Container.Order.{IsStrictWeak}

-- `time.Duration(n) * time.Second`
unfoldable pub seconds : ℤ → ℤ
unfolding wrap64
seconds (pos n) = wrap64 (pos (n * 1_000_000_000))
seconds (negsuc n) = wrap64 (negsuc (suc n * 1_000_000_000 - 1))

-- `duration * 2`
double : ℤ → ℤ
double d = wrap64 (d +ℤ d)

-- The `for` of calculateBackoffDuration, by the rounds that are left.
backoff_rounds : ℕ → ℤ → ℤ → ℤ
unfolding double
backoff_rounds zero max duration = duration
backoff_rounds (suc rounds) max duration =
    let doubled = double duration in
    let rest = backoff_rounds rounds max doubled in if ltb_ℤ max doubled then max else rest

module _ {ℓ} {Q : Type ℓ} (initial max : ℤ) where
  unfoldable pub calculate_backoff_duration : QueueUnitInfo Q → ℤ
  unfolding backoff_rounds double wrap64 ◌+ℤ◌
  calculate_backoff_duration info = backoff_rounds (info.attempts - 1) max initial

  unfoldable pub get_backoff_time : QueueUnitInfo Q → Time
  unfolding calculate_backoff_duration ◌+ℤ◌
  get_backoff_time info = info.timestamp +ℤ calculate_backoff_duration info

  unfoldable pub pods_compare_backoff_completed : QueueUnitInfo Q → QueueUnitInfo Q → Bool
  pods_compare_backoff_completed info1 info2 =
      ltb_ℤ (get_backoff_time info1) (get_backoff_time info2)

  -- The order of the backoff queue is a strict weak order.
  pub pods_compare_backoff_completed-IsStrictWeak : IsStrictWeak pods_compare_backoff_completed
  unfolding pods_compare_backoff_completed
  pods_compare_backoff_completed-IsStrictWeak = record {
    asym = λ x y h. ground arith;
    trans = λ x y z h k. ground arith;
  }

double-pos : (d : ℕ) → d < 2 ^ 62 → double (pos d) ≡ pos (2 * d)
unfolding double
double-pos d h =
    let sum : pos d +ℤ pos d ≡ pos (2 * d) =
      eq_of_parts (pos d +ℤ pos d) (pos (2 * d)) (omega (arith, +ℤ_parts (pos d) (pos d))) in
    rw sum (wrap64-pos (2 * d) (omega arith))

pow_pos : (k : ℕ) → 1 ≤ 2 ^ k
pow_pos zero = omega arith
pow_pos (suc k) = rw pow-suc (omega (arith, pow_pos k))

-- One more round: the duration is capped as soon as it passes the maximum.
backoff_rounds-step :
    (rounds m d : ℕ)
    → d < 2 ^ 62
    → backoff_rounds (suc rounds) (pos m) (pos d)
      ≡ (if ltb m (2 * d) then pos m else backoff_rounds rounds (pos m) (pos (2 * d)))
unfolding backoff_rounds
backoff_rounds-step rounds m d q = rw (double-pos d q) (ground arith)

backoff_rounds-zero : (max duration : ℤ) → backoff_rounds zero max duration ≡ duration
unfolding backoff_rounds
backoff_rounds-zero max duration = refl

backoff_rounds-min :
    (rounds m d : ℕ)
    → m < 2 ^ 62
    → d < 2 ^ 62
    → backoff_rounds (suc rounds) (pos m) (pos d) ≡ pos (min (d * 2 ^ suc rounds) m)
backoff_rounds-min zero m d p q =
    rw (backoff_rounds-step 0 m d q, backoff_rounds-zero) (ground arith)
backoff_rounds-min (suc rounds) m d p q =
    let power = 2 ^ suc rounds in
    let shift : d * 2 ^ suc (suc rounds) ≡ 2 * d * power =
      rw (pow-suc 2 (suc rounds)) (omega arith) in
    let grows : 2 * d ≤ 2 * d * power = le-mul_of_pos_right (2 * d) (pow_pos (suc rounds)) in
    rw (backoff_rounds-step (suc rounds) m d q, shift)
      (elim (Bool-cases (ltb m (2 * d))) [
        | inl over ↦ ground arith
        | inr under ↦ rw under (backoff_rounds-min rounds m (2 * d) p (ground arith))
      ])

attempts-min :
    (attempts initial max : ℕ)
    → initial < 2 ^ 62
    → max < 2 ^ 62
    → backoff_rounds (attempts - 1) (pos max) (pos initial)
      ≡ (if leb attempts 1 then pos initial else pos (min (initial * 2 ^ (attempts - 1)) max))
attempts-min zero initial max p q = backoff_rounds-zero _ _
attempts-min (suc zero) initial max p q = backoff_rounds-zero _ _
attempts-min (suc (suc rounds)) initial max p q =
    let left : suc (suc rounds) - 1 ≡ suc rounds = omega arith in
    rw (left, backoff_rounds-min rounds max initial q p) (ground arith)

-- Each failed attempt after the first doubles the backoff, up to the maximum: where both durations
-- are below 2 ^ 62 nanoseconds, no step overflows, and a unit with one attempt or none waits the
-- initial duration, also where that is above the maximum.
pub calculate_backoff_duration-min {ℓ} :
    {Q : Type ℓ} (initial max : ℕ) (info : QueueUnitInfo Q)
    → initial < 2 ^ 62
    → max < 2 ^ 62
    → calculate_backoff_duration (pos initial) (pos max) info ≡ (
        if leb info.attempts 1
        then pos initial
        else pos (min (initial * 2 ^ (info.attempts - 1)) max))
unfolding calculate_backoff_duration
calculate_backoff_duration-min initial max info = attempts-min info.attempts initial max
