-- ===== src/Base/Maps.antt =====
-- Go maps with text keys, as association lists. An entry that is written again keeps its place.
use Prim.Native.String.{String}
use mathlib.Core.Path.{◌≡◌, refl}
use mathlib.Core.Logic.{ite}
use mathlib.Core.List.{List, [], ◌∷◌}
use mathlib.Core.Option.{Option, none, some}
use native.Mathlib.Omega.{arith}
use kube_queue.Base.Tests.{text_dec}

abbrev pub Dict {ℓ} : Type ℓ → Type ℓ
Dict V = List (String × V)

module _ {ℓ} {V : Type ℓ} where
  -- `v, ok := d[k]`
  unfoldable pub lookup : String → Dict V → Option V
  unfolding text_dec
  lookup k [] = none
  lookup k ((j, v) ∷ d) = ite (text_dec j k) (some v) (lookup k d)

  -- `d[k] = v`
  unfoldable pub insert : String → V → Dict V → Dict V
  unfolding text_dec
  insert k v [] = (k, v) ∷ []
  insert k v ((j, w) ∷ d) = ite (text_dec j k) ((j, v) ∷ d) ((j, w) ∷ insert k v d)

  -- `delete(d, k)`
  unfoldable pub erase : String → Dict V → Dict V
  unfolding text_dec
  erase k [] = []
  erase k ((j, w) ∷ d) = ite (text_dec j k) (erase k d) ((j, w) ∷ erase k d)

  pub lookup-insert :
      (k j : String) (v : V) (d : Dict V)
      → lookup j (insert k v d) ≡ ite (text_dec k j) (some v) (lookup j d)
  unfolding lookup insert
  lookup-insert k j v [] = refl
  lookup-insert k j v ((i, w) ∷ d) = ground (arith, lookup-insert k j v d)

  pub lookup-insert_same : (k : String) (v : V) (d : Dict V) → lookup k (insert k v d) ≡ some v
  lookup-insert_same k v d = ground (arith, lookup-insert k k v d)

  pub lookup-erase :
      (k j : String) (d : Dict V) → lookup j (erase k d) ≡ ite (text_dec k j) none (lookup j d)
  unfolding lookup erase
  lookup-erase k j [] = ground arith
  lookup-erase k j ((i, w) ∷ d) = ground (arith, lookup-erase k j d)
