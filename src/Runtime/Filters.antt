-- ===== src/Runtime/Filters.antt =====
-- The loop of RunFilterPlugins in framework.go.
use kube_queue.Base.{List, [], ◌∷◌, ◌≡◌, Outcome, value}
use kube_queue.Framework.{QueueUnitInfo, Status, success}
use kube_queue.Runtime.{FilterPlugin}

module _ {ℓ} {Q S : Type ℓ} (s : S) (unit : QueueUnitInfo Q) where
  -- Every plugin of a list lets the unit through.
  pub data AllPass : List (FilterPlugin Q S) → Type ℓ where
    none_left : AllPass []
    next :
        {pl : FilterPlugin Q S} {rest : List (FilterPlugin Q S)} (status : Status)
        → pl s unit ≡ value status
        → status.code ≡ success
        → AllPass rest
        → AllPass (pl ∷ rest)

  -- A call ends with a status of success.
  abbrev pub Passes : Outcome Status → Type 0
  Passes m = (status : Status) × (m ≡ value status) × (status.code ≡ success)
