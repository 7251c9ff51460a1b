-- ===== src/Plugins/Priority.antt =====
-- pkg/framework/plugins/priority/priority.go: the order of the queues and of the units of a queue.
use kube_queue.Base.{
  Bool, Option, none, some, String, ◌&&◌, ◌||◌, ◌≡◌, refl, true, false, arith, ◌↔◌, ◌⊎◌, inl, inr,
}
use kube_queue.Base.Int.{ℤ, pos, ltb_ℤ, eqb_ℤ, ◌≤ℤ◌, ◌<ℤ◌, eq_of_parts}
use kube_queue.Container.Order.{IsStrictWeak}
use kube_queue.Framework.{QueueInfo, QueueUnitInfo}

-- The name of the plugin in the registry.
abbrev pub name : String
name = "Priority"

-- `var p int32 = 0; if ptr != nil { p = *ptr }`
abbrev pub priority_or_zero : Option ℤ → ℤ
priority_or_zero none = pos 0
priority_or_zero (some p) = p

unfoldable pub multi_queue_less : QueueInfo → QueueInfo → Bool
multi_queue_less q1 q2 =
    let p1 = priority_or_zero q1.queue.priority in
    let p2 = priority_or_zero q2.queue.priority in ltb_ℤ p2 p1

unfoldable pub queue_less {ℓ} : {Q : Type ℓ} → QueueUnitInfo Q → QueueUnitInfo Q → Bool
queue_less u1 u2 =
    let p1 = priority_or_zero u1.unit.priority in
    let p2 = priority_or_zero u2.unit.priority in
    ltb_ℤ p2 p1 || (eqb_ℤ p1 p2 && ltb_ℤ u1.initial_attempt_timestamp u2.initial_attempt_timestamp)

-- The order of the queues is a strict weak order.
pub multi_queue_less-IsStrictWeak : IsStrictWeak multi_queue_less
unfolding multi_queue_less
multi_queue_less-IsStrictWeak = record {
  asym = λ x y h. ground arith;
  trans = λ x y z h k. ground arith;
}

module _ {ℓ} {Q : Type ℓ} (u1 u2 : QueueUnitInfo Q) where
  -- The priority of a unit, with 0 for none.
  abbrev p1 : ℤ
  p1 = priority_or_zero u1.unit.priority

  abbrev p2 : ℤ
  p2 = priority_or_zero u2.unit.priority

  abbrev t1 : ℤ
  t1 = u1.initial_attempt_timestamp

  abbrev t2 : ℤ
  t2 = u2.initial_attempt_timestamp

  le_of_not_less : queue_less u1 u2 ≡ false → (p1 ≤ℤ p2) × (p2 ≤ℤ p1 → t2 ≤ℤ t1)
  unfolding queue_less
  le_of_not_less h = (ground arith, λ e. ground arith)

  not_less_of_le : p1 ≤ℤ p2 → (p2 ≤ℤ p1 → t2 ≤ℤ t1) → queue_less u1 u2 ≡ false
  unfolding queue_less
  not_less_of_le h k = ground arith

  queue_less_parts : (queue_less u1 u2 ≡ true) ↔ (p2 <ℤ p1) ⊎ ((p1 ≡ p2) × (t1 <ℤ t2))
  unfolding queue_less
  queue_less_parts = (
    λ h. ground (arith, eq_of_parts p1 p2),
    λ h. elim h [ inl higher ↦ ground arith | inr (same, earlier) ↦ rw same (ground arith) ],
  )

-- The order of the units is a strict weak order.
pub queue_less-IsStrictWeak {ℓ} : {Q : Type ℓ} → IsStrictWeak (queue_less {Q = Q})
queue_less-IsStrictWeak = record {
  asym = λ x y h. elim ((queue_less_parts x y).0 h) [
    | inl higher ↦ not_less_of_le y x (omega arith) (λ e. absurd (omega arith))
    | inr (same, earlier) ↦ not_less_of_le y x (rw same (omega arith)) (λ e. omega arith)
  ];
  trans = λ x y z h k.
      let (a, b) = le_of_not_less y x h in
      let (c, d) = le_of_not_less z y k in
      not_less_of_le z x (omega arith) (λ e. omega (arith, b (omega arith), d (omega arith)));
}

-- The priority that a specification gives, which is 0 where it gives none.
pub data HasPriority : Option ℤ → ℤ → Type 0 where
  given : {p : ℤ} → HasPriority (some p) p
  default : HasPriority none (pos 0)

HasPriority-priority_or_zero : {o : Option ℤ} {p : ℤ} → HasPriority o p → priority_or_zero o ≡ p
HasPriority-priority_or_zero given = refl
HasPriority-priority_or_zero default = refl

-- For two units with the priorities `p` and `q`, where a unit that gives none has priority 0, the
-- first goes before the second exactly when `p` is higher, or they are equal and the first was
-- attempted earlier.
pub queue_less_iff {ℓ} :
    {Q : Type ℓ} (u1 u2 : QueueUnitInfo Q) (p q : ℤ)
    → HasPriority u1.unit.priority p
    → HasPriority u2.unit.priority q
    → (queue_less u1 u2 ≡ true)
      ↔ (q <ℤ p) ⊎ ((p ≡ q) × (u1.initial_attempt_timestamp <ℤ u2.initial_attempt_timestamp))
queue_less_iff u1 u2 p q has_p has_q =
    rw (← HasPriority-priority_or_zero has_p, ← HasPriority-priority_or_zero has_q)
      (queue_less_parts u1 u2)
