-- ===== src/Plugins/ResourceQuota/Selection.antt =====
-- SelectResourceQuota of resource_quota.go.
use kube_queue.Base.{
  ℕ, zero, suc, String, none, some, List, [], ◌∷◌, get_elem?, length, ◌<◌, text_dec, ◌≡◌, ◌≢◌, refl,
  Option-cases, inl, inr, arith,
}
use kube_queue.Base.{Result, ok, failed}
use kube_queue.Plugins.ResourceQuota.{QuotaObject, find_named, select_resource_quota}

module _ {ℓ} {Q : Type ℓ} (ns : String) where
  -- Some object of the list.
  abbrev pub IsIn : QuotaObject Q → List (QuotaObject Q) → Type ℓ
  IsIn rq rqs = (i : ℕ) × (get_elem? rqs i ≡ some rq)

  -- What the call may return: the only object, or one of several that has the name; an error only
  -- if no object is there or none of several has the name.
  pub data IsSelected (rqs : List (QuotaObject Q)) : Result (QuotaObject Q) → Type ℓ where
    only : {rq : QuotaObject Q} → rqs ≡ rq ∷ [] → IsSelected rqs (ok rq)
    named : {rq : QuotaObject Q} → IsIn rq rqs → rq.name ≡ ns → IsSelected rqs (ok rq)
    missing : {message : String} → rqs ≡ [] → IsSelected rqs (failed message)
    unnamed :
        {message : String}
        → 1 < length rqs
        → ((rq : QuotaObject Q) → IsIn rq rqs → rq.name ≢ ns)
        → IsSelected rqs (failed message)

  find_named-some :
      (rqs : List (QuotaObject Q)) (rq : QuotaObject Q)
      → find_named rqs ns ≡ some rq
      → IsIn rq rqs × (rq.name ≡ ns)
  unfolding find_named
  find_named-some [] rq e = absurd (ground arith)
  find_named-some (rq' ∷ rqs) rq e = elim (text_dec rq'.name ns) [
    | yes same ↦ let found : rq' ≡ rq = ground arith in ((0, ground arith), rw (← found) same)
    | no other ↦
        let ((i, here), same) = find_named-some rqs rq (ground arith) in ((suc i, here), same)
  ]

  find_named-none :
      (rqs : List (QuotaObject Q)) (rq : QuotaObject Q) (i : ℕ)
      → find_named rqs ns ≡ none
      → get_elem? rqs i ≡ some rq
      → rq.name ≢ ns
  unfolding find_named
  find_named-none [] rq i e here = absurd (ground arith)
  find_named-none (rq' ∷ rqs) rq zero e here = λ same. absurd (ground arith)
  find_named-none (rq' ∷ rqs) rq (suc i) e here = find_named-none rqs rq i (ground arith) here

  -- SelectResourceQuota returns the only object, whatever its name, or one of the list that has the
  -- name of the namespace, and an error only where no object is there, or where there are several
  -- and none has that name.
  pub select_resource_quota-IsSelected :
      (rqs : List (QuotaObject Q)) → IsSelected rqs (select_resource_quota rqs ns)
  unfolding select_resource_quota
  select_resource_quota-IsSelected [] = missing refl
  select_resource_quota-IsSelected (rq ∷ []) = only refl
  select_resource_quota-IsSelected (rq ∷ rq' ∷ rqs) =
      elim (Option-cases (find_named (rq ∷ rq' ∷ rqs) ns)) [
        | inl e ↦
            rw (e, select_resource_quota)
              (unnamed (omega arith) (λ x (i, here). find_named-none (rq ∷ rq' ∷ rqs) x i e here))
        | inr (x, e) ↦
            let (place, same) = find_named-some (rq ∷ rq' ∷ rqs) x e in
            rw (e, select_resource_quota) (named place same)
      ]
