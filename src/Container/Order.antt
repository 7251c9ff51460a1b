-- ===== src/Container/Order.antt =====
-- The heap order on the elements at the indices below `n`, for any strict weak order.
use kube_queue.Base.{
  ℕ, zero, suc, ◌+◌, ◌-◌, ◌*◌, ◌/◌, ◌<◌, ◌≡◌, ◌≢◌, ◌⊎◌, ite, Bool, true, false, arith, ℕ_discrete,
}

-- `lt` orders some of its arguments, and "not after" is transitive.
pub record IsStrictWeak {ℓ} {B : Type ℓ} (lt : B → B → Bool) : Type ℓ where
  pub asym : (x y : B) → lt x y ≡ true → lt y x ≡ false
  pub trans : (x y z : B) → lt y x ≡ false → lt z y ≡ false → lt z x ≡ false

abbrev pub parent : ℕ → ℕ
parent c = (c - 1) / 2

-- The elements after the exchange of those at `i` and `j`.
abbrev pub exchange {ℓ} : {B : Type ℓ} → (ℕ → B) → ℕ → ℕ → ℕ → B
exchange v i j c = ite (ℕ_discrete j c) (v i) (ite (ℕ_discrete i c) (v j) (v c))

module _ {ℓ} {B : Type ℓ} (lt : B → B → Bool) where
  -- No element is before its parent.
  abbrev pub IsHeap : ℕ → (ℕ → B) → Type 0
  IsHeap n v = (c : ℕ) → 0 < c → c < n → lt (v c) (v (parent c)) ≡ false

  -- The children of `i` are not before the parent of `i`.
  abbrev pub IsBridged : ℕ → (ℕ → B) → ℕ → Type 0
  IsBridged n v i = (c : ℕ) → 0 < c → c < n → parent c ≡ i → 0 < i → lt (v c) (v (parent i)) ≡ false

  -- Only the edge above `i` may be out of order.
  pub record UpInv (n : ℕ) (v : ℕ → B) (i : ℕ) : Type 0 where
    pub edges : (c : ℕ) → 0 < c → c < n → c ≢ i → lt (v c) (v (parent c)) ≡ false
    pub bridged : IsBridged n v i

  -- Only the edges below `i` may be out of order.
  pub record DownInv (n : ℕ) (v : ℕ → B) (i : ℕ) : Type 0 where
    pub edges : (c : ℕ) → 0 < c → c < n → parent c ≢ i → lt (v c) (v (parent c)) ≡ false
    pub bridged : IsBridged n v i

  -- The edges above and below `i` may be out of order.
  pub record FixInv (n : ℕ) (v : ℕ → B) (i : ℕ) : Type 0 where
    pub edges : (c : ℕ) → 0 < c → c < n → c ≢ i → parent c ≢ i → lt (v c) (v (parent c)) ≡ false
    pub bridged : IsBridged n v i

  -- `m` is a child of `i`, and no child of `i` is before it.
  pub record IsLesserChild (n : ℕ) (v : ℕ → B) (i m : ℕ) : Type 0 where
    pub inside : m < n
    pub place : (m ≡ 2 * i + 1) ⊎ (m ≡ 2 * i + 2)
    pub least : (c : ℕ) → 0 < c → c < n → parent c ≡ i → lt (v c) (v m) ≡ false

  module _ (weak : IsStrictWeak lt) where
    root_first_below :
        (k n : ℕ) (v : ℕ → B) (i : ℕ) → IsHeap n v → i < k → i < n → lt (v i) (v 0) ≡ false
    root_first_below zero n v i h f p = absurd (omega arith)
    root_first_below (suc k) n v zero h f p = ground (arith, weak.asym (v 0) (v 0))
    root_first_below (suc k) n v (suc i) h f p =
        weak.trans (v 0) (v (parent (suc i))) (v (suc i))
          (root_first_below k n v (parent (suc i)) h (omega arith) (omega arith))
          (h (suc i) (omega arith) p)

    -- No element of a heap is before its root.
    pub root_first : (n : ℕ) (v : ℕ → B) (i : ℕ) → IsHeap n v → i < n → lt (v i) (v 0) ≡ false
    root_first n v i h p = root_first_below (suc i) n v i h (omega arith) p

    pub exchange-UpInv :
        (n : ℕ) (v : ℕ → B) (i : ℕ)
        → UpInv n v i
        → 0 < i
        → i < n
        → lt (v i) (v (parent i)) ≡ true
        → UpInv n (exchange v (parent i) i) (parent i)
    exchange-UpInv n v i inv pos inside below = record {
      edges = λ c p q r. ground (
        arith,
        inv.edges c,
        inv.bridged c,
        weak.asym (v i) (v (parent i)),
        weak.trans (v i) (v (parent i)) (v c),
      );
      bridged = λ c p q r s. ground (
        arith,
        inv.edges c,
        inv.edges (parent i),
        weak.trans (v (parent (parent i))) (v (parent i)) (v c),
      );
    }

    -- Sinking the element at `i` below its lesser child `m` leaves only the edges below `m`.
    pub exchange-DownInv :
        (n : ℕ) (v : ℕ → B) (i m : ℕ)
        → FixInv n v i
        → IsLesserChild n v i m
        → lt (v m) (v i) ≡ true
        → DownInv n (exchange v i m) m
    exchange-DownInv n v i m inv child below = record {
      edges = λ c p q r. ground (
        arith,
        child.place,
        child.inside,
        inv.edges c,
        inv.bridged m,
        child.least c,
        weak.asym (v m) (v i),
        weak.trans (v (parent i)) (v i) (v m),
      );
      bridged = λ c p q r s. ground (arith, child.place, child.inside, inv.edges c);
    }
