-- ===== src/Container/Down.antt =====
-- `down` of container/heap, and `down` followed by `up` if nothing sank.
use kube_queue.Base.{
  ℕ, zero, suc, ◌+◌, ◌-◌, ◌*◌, ◌≤◌, ◌<◌, ◌≡◌, ◌≢◌, refl, inl, inr, Bool, true, false, Bool-cases,
  Yields, yields, Yields-bind, Yields-weaken, Yields-if, arith, ltb, ℕ_discrete,
}
use kube_queue.Container.{Interface, lesser_child, down_loop, down, down_or_up}
use kube_queue.Container.Order.{
  IsStrictWeak, parent, IsHeap, UpInv, DownInv, FixInv, IsLesserChild, exchange-DownInv,
}
use kube_queue.Container.Contract.{
  IsSwapped, IsLawful, IsKept, IsKept-refl, IsKept-trans, IsKept-swap,
}
use kube_queue.Container.Up.{Heaped, up_restores}

module _ {ℓ} {S X A B V : Type ℓ} (h : Interface S X A) (Valid : S → Type ℓ) (at : S → ℕ → B)
    (view : S → V) {lt : B → B → Bool} (weak : IsStrictWeak lt)
    (laws : IsLawful h Valid at view lt) where
  lesser_child-IsLesserChild :
      (n : ℕ) (s : S) (i : ℕ)
      → 2 * i + 1 < n
      → n ≤ h.len s
      → Valid s
      → Yields (IsLesserChild lt n (at s) i) (lesser_child h s i n)
  unfolding lesser_child
  lesser_child-IsLesserChild n s i p q v =
      Yields-if (ltb (2 * i + 1 + 1) n)
        (λ both.
          rw (laws.less_ok s (2 * i + 1 + 1) (2 * i + 1) v (ground arith) (omega arith))
            (elim (Bool-cases (lt (at s (2 * i + 1 + 1)) (at s (2 * i + 1)))) [
              | inl right ↦ rw right (
                  yields (
                    ground (
                      arith,
                      weak.asym (at s (2 * i + 1 + 1)) (at s (2 * i + 1)),
                      weak.asym (at s (2 * i + 1 + 1)) (at s (2 * i + 1 + 1)),
                    )))
              | inr left ↦
                  rw left (yields (ground (arith, weak.asym (at s (2 * i + 1)) (at s (2 * i + 1)))))
            ]))
        λ one. yields (ground (arith, weak.asym (at s (2 * i + 1)) (at s (2 * i + 1))))

  -- What the loop of `down` returns from index `i`: where it ends below `i` the order is
  -- restored, and where it ends at `i` nothing has changed and only the edge above `i` is open.
  record IsSunk (n i : ℕ) (s : S) (r : S × ℕ) : Type ℓ where
    kept : IsKept h Valid at view n s r.0
    lower : i ≤ r.1
    moved : r.1 ≢ i → IsHeap lt n (at r.0)
    stayed : r.1 ≡ i → (r.0 ≡ s) × UpInv lt n (at s) i

  DownInv→FixInv : (n : ℕ) (v : ℕ → B) (i : ℕ) → DownInv lt n v i → FixInv lt n v i
  DownInv→FixInv n v i inv = record { edges = λ c a b ne. inv.edges c a b; bridged = inv.bridged }

  IsSunk-stayed :
      (n : ℕ) (s : S) (i : ℕ)
      → Valid s
      → FixInv lt n (at s) i
      → ((c : ℕ) → 0 < c → c < n → parent c ≡ i → lt (at s c) (at s i) ≡ false)
      → IsSunk n i s (s, i)
  IsSunk-stayed n s i v inv settled = record {
    kept = IsKept-refl h Valid at view v;
    lower = omega arith;
    moved = λ ne. absurd (ne refl);
    stayed = λ e. (
      refl,
      record { edges = λ c a b ne. ground (arith, inv.edges c, settled c); bridged = inv.bridged },
    );
  }

  IsSunk-moved :
      (n : ℕ) (s t : S) (i m : ℕ) (r : S × ℕ)
      → i < m
      → m < n
      → IsSwapped h Valid at view i m s t
      → DownInv lt n (at t) m
      → IsSunk n m t r
      → IsSunk n i s r
  IsSunk-moved n s t i m r below inside w inv sunk = record {
    kept =
        IsKept-trans h Valid at view (IsKept-swap h Valid at view w (omega arith) inside) sunk.kept;
    lower = omega (arith, sunk.lower);
    moved = λ ne. elim (ℕ_discrete r.1 m) [
      | no other ↦ sunk.moved other
      | yes e ↦
          let (same, up) = sunk.stayed e in
          rw same (λ c a b. ground (arith, inv.edges c, up.edges c))
    ];
    stayed = λ e. absurd (omega (arith, sunk.lower));
  }

  down_loop-IsSunk :
      (fuel n : ℕ) (s : S) (i : ℕ)
      → n - i < fuel
      → n ≤ h.len s
      → Valid s
      → FixInv lt n (at s) i
      → Yields (IsSunk n i s) (down_loop h fuel s i n)
  unfolding down_loop
  down_loop-IsSunk zero n s i f q v inv = absurd (omega arith)
  down_loop-IsSunk (suc fuel) n s i f q v inv =
      Yields-if (ltb (2 * i + 1) n)
        (λ inner. Yields-bind (lesser_child-IsLesserChild n s i (ground arith) q v) λ m child.
          rw
            (laws.less_ok s m i v (omega (arith, child.inside))
              (omega (arith, child.inside, child.place)))
            (Yields-if (lt (at s m) (at s i))
              (λ below.
                Yields-bind
                  (laws.swap_ok s i m v (omega (arith, child.inside, child.place))
                    (omega (arith, child.inside)))
                  λ t w.
                    let deeper : i < m = omega (arith, child.place) in
                    let next : DownInv lt n (at t) m =
                      rw w.exchanged (exchange-DownInv lt weak n (at s) i m inv child below) in
                    Yields-weaken
                      (down_loop-IsSunk fuel n t m (omega (arith, child.inside))
                        (omega (arith, w.same_len)) w.valid (DownInv→FixInv n (at t) m next))
                      λ r. IsSunk-moved n s t i m r deeper child.inside w next)
              λ settled. yields (
                IsSunk-stayed n s i v inv
                  λ c a b e. weak.trans (at s i) (at s m) (at s c) settled (child.least c a b e))))
        λ leaf. yields (IsSunk-stayed n s i v inv λ c a b e. absurd (ground arith))

  -- `down` reports whether anything sank: if so the first `n` elements are a heap, and if not only
  -- the edge above `i` is open.
  pub down-FixInv :
      (n : ℕ) (s : S) (i : ℕ)
      → n ≤ h.len s
      → Valid s
      → FixInv lt n (at s) i
      → Yields
          (λ r.
            IsKept h Valid at view n s r.0
            × (r.1 ≡ true → IsHeap lt n (at r.0))
            × (r.1 ≡ false → (r.0 ≡ s) × UpInv lt n (at s) i))
          (down h s i n)
  unfolding down
  down-FixInv n s i q v inv =
      Yields-bind (down_loop-IsSunk (n + 1) n s i (omega arith) q v inv) λ (t, j) sunk.
        let lower : i ≤ j = sunk.lower in
        yields (sunk.kept, λ e. sunk.moved (λ same. ground arith), λ e. sunk.stayed (ground arith))

  -- From an index below which alone the order is open, `down` makes the first `n` elements a heap.
  pub down_restores :
      (n : ℕ) (s : S) (i : ℕ)
      → n ≤ h.len s
      → Valid s
      → DownInv lt n (at s) i
      → Yields (λ r. Heaped h Valid at view weak laws n s r.0) (down h s i n)
  down_restores n s i q v inv =
      Yields-weaken (down-FixInv n s i q v (DownInv→FixInv n (at s) i inv))
        λ (t, b) (kept, moved, stayed). elim (Bool-cases b) [
          | inl e ↦ (kept, moved e)
          | inr e ↦
              let (same, up) = stayed e in
              (kept, rw same (λ c a d. ground (arith, inv.edges c, up.edges c)))
        ]

  -- `down`, and `up` if nothing sank, from an index at which the order is open on both sides.
  pub down_or_up_restores :
      (n : ℕ) (s : S) (i : ℕ)
      → i < n
      → n ≤ h.len s
      → Valid s
      → FixInv lt n (at s) i
      → Yields (Heaped h Valid at view weak laws n s) (down_or_up h s i n)
  unfolding down_or_up
  down_or_up_restores n s i p q v inv =
      Yields-bind (down-FixInv n s i q v inv) λ (t, b) (kept, moved, stayed).
        Yields-if b (λ e. yields (kept, moved e))
          λ e.
            let (same, open_above) = stayed e in
            rw same (up_restores h Valid at view weak laws n s i p q v open_above)
