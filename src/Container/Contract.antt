-- ===== src/Container/Contract.antt =====
-- What container/heap relies on when it calls the methods of a heap.Interface: the elements that
-- Less compares and Swap exchanges, and an abstract content that Swap leaves alone.
use kube_queue.Base.{ℕ, ◌≤◌, ◌<◌, ◌≡◌, refl, ◌∙◌, Bool, value, Yields, arith}
use kube_queue.Container.{Interface}
use kube_queue.Container.Order.{exchange}

module _ {ℓ} {S X A B V : Type ℓ} (h : Interface S X A) (Valid : S → Type ℓ) (at : S → ℕ → B)
    (view : S → V) where
  -- `t` is the valid state `s` with the elements at `i` and `j` exchanged.
  pub record IsSwapped (i j : ℕ) (s t : S) : Type ℓ where
    pub valid : Valid t
    pub same_len : h.len t ≡ h.len s
    pub same_view : view t ≡ view s
    pub exchanged : at t ≡ exchange (at s) i j

  -- The laws of Less and Swap, for the order `lt` on the elements.
  pub record IsLawful (lt : B → B → Bool) : Type ℓ where
    pub less_ok :
        (s : S) (i j : ℕ)
        → Valid s
        → i < h.len s
        → j < h.len s
        → h.less s i j ≡ value (lt (at s i) (at s j))
    pub swap_ok :
        (s : S) (i j : ℕ)
        → Valid s
        → i < h.len s
        → j < h.len s
        → Yields (IsSwapped i j s) (h.swap s i j)

  -- `t` is valid, holds what `s` holds, and agrees with it from index `n` on.
  pub record IsKept (n : ℕ) (s t : S) : Type ℓ where
    pub valid : Valid t
    pub same_len : h.len t ≡ h.len s
    pub same_view : view t ≡ view s
    pub beyond : (c : ℕ) → n ≤ c → at t c ≡ at s c

  pub IsKept-refl : {n : ℕ} {s : S} → Valid s → IsKept n s s
  IsKept-refl v = record { valid = v; same_len = refl; same_view = refl; beyond = λ c p. refl }

  pub IsKept-trans : {n : ℕ} {s t u : S} → IsKept n s t → IsKept n t u → IsKept n s u
  IsKept-trans k l = record {
    valid = l.valid;
    same_len = l.same_len ∙ k.same_len;
    same_view = l.same_view ∙ k.same_view;
    beyond = λ c p. l.beyond c p ∙ k.beyond c p;
  }

  pub IsKept-swap : {n i j : ℕ} {s t : S} → IsSwapped i j s t → i < n → j < n → IsKept n s t
  IsKept-swap {i} {j} {s} w p q = record {
    valid = w.valid;
    same_len = w.same_len;
    same_view = w.same_view;
    beyond = λ c r. rw w.exchanged (ground arith);
  }
