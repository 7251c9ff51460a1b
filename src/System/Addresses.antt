-- ===== src/System/Addresses.antt =====
-- Addresses of queues: those of the map, and those that the scheduler holds.
use kube_queue.Base.{
  ℕ, zero, suc, ◌<◌, ◌≤◌, String, Option, some, List, [], ◌∷◌, Dict, insert, erase, get_elem?, ite,
  text_dec, ◌≡◌, arith,
}
use kube_queue.System.Rounds.{addresses}

-- The addresses that the scheduler holds are addresses of queues.
pub record AreBelow (bound : ℕ) (todo : List ℕ) (variables : List (Option ℕ)) : Type 0 where
  pub todo_below : (n i : ℕ) → get_elem? todo n ≡ some i → i < bound
  pub variables_below : (r i : ℕ) → get_elem? variables r ≡ some (some i) → i < bound

-- The loop variable of a round has been set.
abbrev pub IsAssigned : List (Option ℕ) → ℕ → Type 0
IsAssigned variables r = (i : ℕ) × (get_elem? variables r ≡ some (some i))

-- Every entry of the map is an address below a bound.
unfoldable pub AreEntered : ℕ → Dict ℕ → Type 0
AreEntered bound [] = Unit {0}
AreEntered bound ((k, i) ∷ d) = (i < bound) × AreEntered bound d

pub AreEntered-mono : {n m : ℕ} (d : Dict ℕ) → n ≤ m → AreEntered n d → AreEntered m d
unfolding AreEntered
AreEntered-mono [] h e = tt
AreEntered-mono ((k, i) ∷ d) h (here, e) = (omega arith, AreEntered-mono d h e)

ite-AreEntered :
    (n : ℕ) {P : Type 0} (dec : Dec P) (d d' : Dict ℕ)
    → AreEntered n d
    → AreEntered n d'
    → AreEntered n (ite dec d d')
ite-AreEntered n (yes p) d d' e e' = e
ite-AreEntered n (no p) d d' e e' = e'

pub insert-AreEntered :
    (n : ℕ) (k : String) (i : ℕ) (d : Dict ℕ) → i < n → AreEntered n d → AreEntered n (insert k i d)
unfolding AreEntered insert
insert-AreEntered n k i [] below e = (below, tt)
insert-AreEntered n k i ((j, x) ∷ d) below (here, e) =
    ite-AreEntered n (text_dec j k) _ _ (below, e) (here, insert-AreEntered n k i d below e)

pub erase-AreEntered : (n : ℕ) (k : String) (d : Dict ℕ) → AreEntered n d → AreEntered n (erase k d)
unfolding AreEntered erase
erase-AreEntered n k [] e = tt
erase-AreEntered n k ((j, x) ∷ d) (here, e) =
    ite-AreEntered n (text_dec j k) _ _ (erase-AreEntered n k d e) (here, erase-AreEntered n k d e)

pub addresses-AreEntered :
    (n : ℕ) (d : Dict ℕ) (m i : ℕ) → AreEntered n d → get_elem? (addresses d) m ≡ some i → i < n
unfolding AreEntered addresses
addresses-AreEntered n [] m i e there = absurd (ground arith)
addresses-AreEntered n ((k, x) ∷ d) zero i (here, e) there = ground arith
addresses-AreEntered n ((k, x) ∷ d) (suc m) i (here, e) there = addresses-AreEntered n d m i e there

-- A queue more does no harm to the addresses.
pub AreBelow-mono :
    {n m : ℕ} {todo : List ℕ} {variables : List (Option ℕ)}
    → n ≤ m
    → AreBelow n todo variables
    → AreBelow m todo variables
AreBelow-mono h b = record {
  todo_below = λ j i e. omega (arith, b.todo_below j i e);
  variables_below = λ r i e. omega (arith, b.variables_below r i e);
}
