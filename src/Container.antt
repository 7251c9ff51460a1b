-- ===== src/Container.antt =====
-- Go's container/heap, which pkg/queue/heap/heap.go instantiates: the exported operations over any
-- value of heap.Interface, with the sift loops of the standard library on fuel.
pub mod Order
pub mod Up
pub mod Down
pub mod Contract
pub mod Operations
use kube_queue.Base.{
  ℕ, zero, suc, ◌+◌, ◌-◌, ◌*◌, ◌/◌, Bool, true, false, Option, Outcome, value, panic, out_of_fuel,
  ◌>>=◌, ltb, ◌==◌, if◌then◌else◌,
}

-- heap.Interface over a state `S`, an element `X` that Push takes, and a value `A` that Pop yields
-- (`none` is the nil interface).
pub record Interface {ℓ} (S X A : Type ℓ) : Type ℓ where
  pub len : S → ℕ
  pub less : S → ℕ → ℕ → Outcome Bool
  pub swap : S → ℕ → ℕ → Outcome S
  pub push : S → X → S
  pub pop : S → Outcome (Option A × S)

module _ {ℓ} {S X A : Type ℓ} (h : Interface S X A) where
  -- The loop of `up`; the parent of 0 is 0.
  unfoldable pub up_loop : ℕ → S → ℕ → Outcome S
  up_loop zero s j = out_of_fuel
  up_loop (suc fuel) s j =
      let i = (j - 1) / 2 in
      let rise = h.swap s i j >>= λ t. up_loop fuel t i in
      let step = h.less s j i >>= λ b. if b then rise else value s in
      if i == j then value s else step

  unfoldable pub up : S → ℕ → Outcome S
  up s j = up_loop (j + 1) s j

  -- `j := j1; if j2 := j1 + 1; j2 < n && h.Less(j2, j1) { j = j2 }`
  unfoldable pub lesser_child : S → ℕ → ℕ → Outcome ℕ
  lesser_child s i n =
      let j1 = 2 * i + 1 in
      let j2 = j1 + 1 in
      if ltb j2 n then (h.less s j2 j1 >>= λ b. value (if b then j2 else j1)) else value j1

  -- The loop of `down`, which also yields where the sinking element came to rest. An index stays
  -- below `2 * n`, so `int` does not overflow.
  unfoldable pub down_loop : ℕ → S → ℕ → ℕ → Outcome (S × ℕ)
  down_loop zero s i n = out_of_fuel
  down_loop (suc fuel) s i n =
      let sink = λ (j : ℕ). h.swap s i j >>= λ t. down_loop fuel t j n in
      let step : Outcome (S × ℕ) =
        lesser_child s i n >>= λ j. h.less s j i >>= λ b. if b then sink j else value (s, i) in
      if ltb (2 * i + 1) n then step else value (s, i)

  -- `return i > i0`
  unfoldable pub down : S → ℕ → ℕ → Outcome (S × Bool)
  down s i0 n = do (t, i) ← down_loop (n + 1) s i0 n; value (t, ltb i0 i)

  -- `if !down(h, i, n) { up(h, i) }`
  unfoldable pub down_or_up : S → ℕ → ℕ → Outcome S
  down_or_up s i n = do (t, moved) ← down s i n; if moved then value t else up t i

  unfoldable pub fix : S → ℕ → Outcome S
  fix s i = down_or_up s i (h.len s)

  unfoldable pub push : S → X → Outcome S
  push s x = let t = h.push s x in up t (h.len t - 1)

  -- On an empty heap `n` is -1 in Go, and Swap(0, -1) panics.
  unfoldable pub pop : S → Outcome (Option A × S)
  pop s =
      let n = h.len s - 1 in
      if h.len s == 0 then panic else (do t ← h.swap s 0 n; (u, _) ← down t 0 n; h.pop u)

  unfoldable pub remove : S → ℕ → Outcome (Option A × S)
  remove s i =
      let n = h.len s - 1 in
      let sifted : Outcome S = h.swap s i n >>= λ t. down_or_up t i n in
      if h.len s == 0 then panic else (do u ← (if n == i then value s else sifted); h.pop u)
