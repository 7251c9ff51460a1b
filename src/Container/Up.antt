-- ===== src/Container/Up.antt =====
-- `up` of container/heap restores the heap order where one element is too far from the root.
use kube_queue.Base.{
  ℕ, zero, suc, ◌+◌, ◌≤◌, ◌<◌, Bool, Yields, yields, Yields-bind, Yields-weaken, Yields-if, arith,
  ◌==◌,
}
use kube_queue.Container.{Interface, up_loop, up}
use kube_queue.Container.Order.{IsStrictWeak, parent, IsHeap, UpInv, exchange-UpInv}
use kube_queue.Container.Contract.{IsLawful, IsKept, IsKept-refl, IsKept-trans, IsKept-swap}

module _ {ℓ} {S X A B V : Type ℓ} (h : Interface S X A) (Valid : S → Type ℓ) (at : S → ℕ → B)
    (view : S → V) {lt : B → B → Bool} (weak : IsStrictWeak lt)
    (laws : IsLawful h Valid at view lt) where
  -- A state reached from `s` by exchanges below `n`, whose first `n` elements are a heap.
  abbrev pub Heaped : ℕ → S → S → Type ℓ
  Heaped n s t = IsKept h Valid at view n s t × IsHeap lt n (at t)

  up_loop_restores :
      (fuel n : ℕ) (s : S) (j : ℕ)
      → j < fuel
      → j < n
      → n ≤ h.len s
      → Valid s
      → UpInv lt n (at s) j
      → Yields (Heaped n s) (up_loop h fuel s j)
  unfolding up_loop
  up_loop_restores zero n s j f p q v inv = absurd (omega arith)
  up_loop_restores (suc fuel) n s j f p q v inv =
      let above : parent j < h.len s = omega arith in
      rw (laws.less_ok s j (parent j) v (omega arith) above) (
        Yields-if (parent j == j)
          (λ root. yields (IsKept-refl h Valid at view v, λ c a b. inv.edges c a b (ground arith)))
          λ inner.
            Yields-if (lt (at s j) (at s (parent j)))
              (λ below. Yields-bind (laws.swap_ok s (parent j) j v above (omega arith)) λ t w.
                Yields-weaken
                  (up_loop_restores fuel n t (parent j) (ground arith) (omega arith)
                    (omega (arith, w.same_len)) w.valid
                    (rw w.exchanged (exchange-UpInv lt weak n (at s) j inv (ground arith) p below)))
                  λ u (kept, heap). (
                    IsKept-trans h Valid at view (IsKept-swap h Valid at view w (omega arith) p)
                        kept,
                    heap,
                  ))
              λ settled.
                yields (IsKept-refl h Valid at view v, λ c a b. ground (arith, inv.edges c)))

  -- `up` from `j`, with only the edge above `j` out of order, makes the first `n` elements a heap.
  pub up_restores :
      (n : ℕ) (s : S) (j : ℕ)
      → j < n
      → n ≤ h.len s
      → Valid s
      → UpInv lt n (at s) j
      → Yields (Heaped n s) (up h s j)
  unfolding up
  up_restores n s j = up_loop_restores (j + 1) n s j (omega arith)
