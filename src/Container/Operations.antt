-- ===== src/Container/Operations.antt =====
-- The exported operations of container/heap up to the point where they call the Pop of the
-- interface, for any interface that is lawful.
use kube_queue.Base.{
  ℕ, suc, ◌-◌, ◌≤◌, ◌<◌, ◌≡◌, refl, ap, ◌∙◌, if_pos, Bool, Option, Yields, yields, Yields-bind,
  Yields-weaken, Yields-if, arith, ◌==◌, ℕ_discrete,
}
use kube_queue.Container.{Interface, fix, push, pop, remove}
use kube_queue.Container.Order.{IsStrictWeak, parent, exchange, IsHeap, DownInv, FixInv}
use kube_queue.Container.Contract.{IsSwapped, IsLawful, IsKept}
use kube_queue.Container.Up.{Heaped, up_restores}
use kube_queue.Container.Down.{down_restores, down_or_up_restores}

module _ {ℓ} {S X A B V : Type ℓ} (h : Interface S X A) (Valid : S → Type ℓ) (at : S → ℕ → B)
    (view : S → V) {lt : B → B → Bool} (weak : IsStrictWeak lt)
    (laws : IsLawful h Valid at view lt) where
  -- The element that was at `i` is last, and the `n` others are a heap.
  pub record IsReady (n i : ℕ) (s u : S) : Type ℓ where
    pub valid : Valid u
    pub size : h.len u ≡ suc n
    pub same_view : view u ≡ view s
    pub last : at u n ≡ at s i
    pub heap : IsHeap lt n (at u)

  -- Fix makes a heap of one in which only the element at `i` is out of place.
  pub fix_restores :
      (s : S) (i : ℕ)
      → i < h.len s
      → Valid s
      → FixInv lt (h.len s) (at s) i
      → Yields (Heaped h Valid at view weak laws (h.len s) s) (fix h s i)
  unfolding fix
  fix_restores s i p v inv =
      down_or_up_restores h Valid at view weak laws (h.len s) s i p (omega arith) v inv

  -- Push makes a heap of one in which only the appended element is out of place.
  pub push_restores :
      (s : S) (x : X) (n : ℕ)
      → Valid (h.push s x)
      → h.len (h.push s x) ≡ suc n
      → IsHeap lt n (at (h.push s x))
      → Yields (Heaped h Valid at view weak laws (suc n) (h.push s x)) (push h s x)
  unfolding push
  push_restores s x n v size heap =
      let last : h.len (h.push s x) - 1 ≡ n = omega arith in
      rw last (
        up_restores h Valid at view weak laws (suc n) (h.push s x) n (omega arith) (omega arith) v
          (record {
            edges = λ c p q ne. heap c p (omega arith);
            bridged = λ c a b e r. absurd (omega arith);
          }))

  exchange-FixInv :
      (n i : ℕ) (v : ℕ → B) → i < n → IsHeap lt (suc n) v → FixInv lt n (exchange v i n) i
  exchange-FixInv n i v p heap = record {
    edges = λ c a b r s. ground (arith, heap c);
    bridged = λ c a b r s. ground (arith, heap c, heap i, weak.trans (v (parent i)) (v i) (v c));
  }

  exchange-DownInv_root :
      (n : ℕ) (v : ℕ → B) → IsHeap lt (suc n) v → DownInv lt n (exchange v 0 n) 0
  exchange-DownInv_root n v heap = record {
    edges = λ c a b r. ground (arith, heap c);
    bridged = λ c a b r s. absurd (omega arith);
  }

  ready :
      (s t u : S) (n i : ℕ)
      → h.len s ≡ suc n
      → IsSwapped h Valid at view i n s t
      → IsKept h Valid at view n t u
      → IsHeap lt n (at u)
      → IsReady n i s u
  ready s t u n i size w kept heap = record {
    valid = kept.valid;
    size = kept.same_len ∙ w.same_len ∙ size;
    same_view = kept.same_view ∙ w.same_view;
    last = kept.beyond n (omega arith) ∙ rw w.exchanged (if_pos (ℕ_discrete n n) refl _ _);
    heap = heap;
  }

  -- Pop exchanges the root with the last element, and restores the heap of the others.
  pub pop-IsReady {κ} :
      {Q : Option A × S → Type κ} (s : S) (n : ℕ)
      → h.len s ≡ suc n
      → Valid s
      → IsHeap lt (suc n) (at s)
      → ((u : S) → IsReady n 0 s u → Yields Q (h.pop u))
      → Yields Q (pop h s)
  unfolding pop
  pop-IsReady s n size v heap next =
      let last : h.len s - 1 ≡ n = omega arith in
      rw last (
        Yields-if (h.len s == 0) (λ e. absurd (ground arith))
          λ _. Yields-bind (laws.swap_ok s 0 n v (omega arith) (omega arith)) λ t w.
            Yields-bind
              (down_restores h Valid at view weak laws n t 0 (omega (arith, w.same_len)) w.valid
                (rw w.exchanged (exchange-DownInv_root n (at s) heap)))
              λ (u, _) (kept, restored). next u (ready s t u n 0 size w kept restored))

  -- Remove does so with the element at `i` in place of the root.
  pub remove-IsReady {κ} :
      {Q : Option A × S → Type κ} (s : S) (n i : ℕ)
      → h.len s ≡ suc n
      → i ≤ n
      → Valid s
      → IsHeap lt (suc n) (at s)
      → ((u : S) → IsReady n i s u → Yields Q (h.pop u))
      → Yields Q (remove h s i)
  unfolding remove
  remove-IsReady s n i size p v heap next =
      let last : h.len s - 1 ≡ n = omega arith in
      rw last (
        Yields-if (h.len s == 0) (λ e. absurd (ground arith))
          λ _.
            Yields-bind {P = IsReady n i s}
              (Yields-if (n == i)
                (λ e.
                  let same : n ≡ i = ground arith in
                  yields (record {
                    valid = v;
                    size = size;
                    same_view = refl;
                    last = ap (at s) same;
                    heap = λ c a b. heap c a (omega arith);
                  }))
                λ e.
                  let inside : i < n = ground arith in
                  Yields-bind (laws.swap_ok s i n v (omega arith) (omega arith)) λ t w.
                    Yields-weaken
                      (down_or_up_restores h Valid at view weak laws n t i inside
                        (omega (arith, w.same_len)) w.valid
                        (rw w.exchanged (exchange-FixInv n i (at s) inside heap)))
                      λ u (kept, restored). ready s t u n i size w kept restored)
              next)
