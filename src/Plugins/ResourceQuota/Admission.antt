-- ===== src/Plugins/ResourceQuota/Admission.antt =====
-- Filter of resource_quota.go: which units are let through, and that
-- Reserve after Filter keeps the reservations of a namespace within its quota.
use kube_queue.Base.{
  String, false, some, List, ◌∷◌, Dict, lookup, text_dec, is_some, ◌≡◌, ◌↔◌, refl, Bool-cases,
  Option-cases, inl, inr, arith, value,
}
use kube_queue.Base.Int.{ℤ, pos, ◌+ℤ◌, ltb_ℤ, ◌≤ℤ◌, +ℤ-zero}
use kube_queue.Framework.{QueueUnitInfo, ObjectReference, Status, success}
use kube_queue.Base.{ok}
use kube_queue.Plugins.ResourceQuota.{
  Quantity, IsExact, IsByValue, QuotaObject, ResourceQuota, queue_unit_to_key, reserve,
  get_reserved_by_resource_name, select_resource_quota, filter_entries, filter_in, filter,
}
use kube_queue.Plugins.ResourceQuota.Entries.{IsMap, empty, entry}
use kube_queue.Plugins.ResourceQuota.Reservation.{held, requested, reserve-IsReserve}

module _ {ℓ} {Q : Type ℓ} (ops : Quantity Q) {amount : Q → ℤ} (exact : IsExact ops amount) where
  -- Each requested resource that has a limit stays within it, with what is reserved.
  abbrev pub Fits : ResourceQuota Q → String → Dict Q → Dict Q → Type ℓ
  Fits rq ns hard entries =
      (r : String) (q limit : Q)
      → lookup r entries ≡ some q
      → lookup r hard ≡ some limit
      → held ops exact rq ns r +ℤ amount q ≤ℤ amount limit

  -- The reservations of a namespace are within the limits.
  abbrev pub IsWithin : ResourceQuota Q → String → Dict Q → Type ℓ
  IsWithin rq ns hard =
      (r : String) (limit : Q) → lookup r hard ≡ some limit → held ops exact rq ns r ≤ℤ amount limit

  -- The comparison that Filter makes for one entry.
  over_limit :
      (rq : ResourceQuota Q) (ns r : String) (q limit : Q)
      → ltb_ℤ (ops.cmp limit (ops.add (get_reserved_by_resource_name ops rq ns r) q)) (pos 0)
        ≡ ltb_ℤ (amount limit) (held ops exact rq ns r +ℤ amount q)
  over_limit rq ns r q limit = rw (exact.of_cmp, exact.of_add) refl

  module _ (rq : ResourceQuota Q) (ns basket : String) (hard : Dict Q) where
    -- One entry stays within its limit.
    abbrev EntryFits : String → Q → Type ℓ
    EntryFits k v =
        (limit : Q)
        → lookup k hard ≡ some limit
        → held ops exact rq ns k +ℤ amount v ≤ℤ amount limit

    passed_entry :
        (k : String) (v : Q) (d : Dict Q)
        → (filter_entries ops rq ns basket hard ((k, v) ∷ d)).code ≡ success
        → EntryFits k v × ((filter_entries ops rq ns basket hard d).code ≡ success)
    unfolding filter_entries
    passed_entry k v d passed = elim (Option-cases (lookup k hard)) [
      | inl e ↦ (λ limit limited. absurd (ground arith), ground arith)
      | inr (limit, e) ↦
          elim (Bool-cases (ltb_ℤ (amount limit) (held ops exact rq ns k +ℤ amount v))) [
            | inl over ↦ absurd (ground (arith, over_limit rq ns k v limit))
            | inr within ↦
                (λ limit' limited. ground arith, ground (arith, over_limit rq ns k v limit))
          ]
    ]

    pass_entry :
        (k : String) (v : Q) (d : Dict Q)
        → EntryFits k v
        → (filter_entries ops rq ns basket hard d).code ≡ success
        → (filter_entries ops rq ns basket hard ((k, v) ∷ d)).code ≡ success
    unfolding filter_entries
    pass_entry k v d fits passed = elim (Option-cases (lookup k hard)) [
      | inl e ↦ ground arith
      | inr (limit, e) ↦ let below = fits limit e in ground (arith, over_limit rq ns k v limit)
    ]

    filter_entries-Fits :
        {d : Dict Q}
        → IsMap d
        → (filter_entries ops rq ns basket hard d).code ≡ success
        → Fits rq ns hard d
    unfolding filter_entries lookup
    filter_entries-Fits empty passed r q limit there limited = absurd (ground arith)
    filter_entries-Fits (entry {k} {v} {d} fresh m) passed r q limit there limited =
        let (head, tail) = passed_entry k v d passed in
        elim (text_dec k r) [
          | yes same ↦
              let requested_is : v ≡ q = ground arith in
              rw (← same, ← requested_is) (head limit (ground arith))
          | no other ↦ filter_entries-Fits m tail r q limit (ground arith) limited
        ]

    Fits-filter_entries :
        {d : Dict Q}
        → IsMap d
        → Fits rq ns hard d
        → (filter_entries ops rq ns basket hard d).code ≡ success
    unfolding filter_entries lookup
    Fits-filter_entries empty fits = refl
    Fits-filter_entries (entry {k} {v} {d} fresh m) fits =
        pass_entry k v d (λ limit limited. fits k v limit (ground arith) limited)
          (Fits-filter_entries m (λ r q limit there limited. fits r q limit (ground arith) limited))

  module _ (rq : ResourceQuota Q) (qu : QueueUnitInfo Q) (map : IsMap qu.unit.resource)
      (consumer : ObjectReference) (rqs : List (QuotaObject Q)) (basket : QuotaObject Q)
      (hard : Dict Q) (consumed : qu.unit.consumer_ref ≡ some consumer)
      (listed : rq.rq_lister consumer.namespace ≡ ok rqs)
      (selected : select_resource_quota rqs consumer.namespace ≡ ok basket)
      (limits : basket.hard ≡ some hard) where
    filter_is :
        filter ops rq qu
        ≡ value (filter_entries ops rq consumer.namespace basket.name hard qu.unit.resource)
    unfolding filter filter_in
    filter_is = rw (consumed, filter) (rw (listed, filter_in) (rw selected (rw limits refl)))

    -- Where quantities are exact and a list of resources has distinct keys, and where the lister
    -- returns quota objects of which one with limits is selected, Filter lets a unit with a
    -- consumer through exactly when each resource that it requests and that has a limit stays
    -- within it, with what is reserved.
    pub filter-Fits :
        (status : Status) × (filter ops rq qu ≡ value status)
        × ((status.code ≡ success) ↔ Fits rq consumer.namespace hard qu.unit.resource)
    filter-Fits = (
      filter_entries ops rq consumer.namespace basket.name hard qu.unit.resource,
      filter_is,
      (
        filter_entries-Fits rq consumer.namespace basket.name hard map,
        Fits-filter_entries rq consumer.namespace basket.name hard map,
      ),
    )

    IsWithin-reserved :
        Fits rq consumer.namespace hard qu.unit.resource
        → qu.unit.namespace ≡ consumer.namespace
        → is_some (lookup (queue_unit_to_key qu) rq.qu_record) ≡ false
        → IsWithin rq consumer.namespace hard
        → IsWithin (reserve ops rq qu).0 consumer.namespace hard
    IsWithin-reserved fits same fresh within r limit limited =
        let now = (reserve-IsReserve ops exact rq qu map).held_now consumer.namespace r in
        let total : held ops exact (reserve ops rq qu).0 consumer.namespace r
            ≡ held ops exact rq consumer.namespace r +ℤ requested ops exact qu r =
          ground (arith, now, fresh) in
        rw total (elim (Option-cases (lookup r qu.unit.resource)) [
          | inl absent ↦ rw (absent, +ℤ-zero) (within r limit limited)
          | inr (q, there) ↦ rw there (fits r q limit there limited)
        ])

    -- Where quantities are exact and held by value (no inf.Dec behind a pointer), and a list of
    -- resources has distinct keys, the reservations of a namespace stay within the limits of the selected quota object when a unit that is not
    -- recorded, and whose consumer is in its own namespace, is reserved after Filter has let it
    -- through.
    pub filter-reserve-IsWithin :
        IsByValue ops
        → (status : Status) → filter ops rq qu ≡ value status
        → status.code ≡ success
        → qu.unit.namespace ≡ consumer.namespace
        → is_some (lookup (queue_unit_to_key qu) rq.qu_record) ≡ false
        → IsWithin rq consumer.namespace hard
        → IsWithin (reserve ops rq qu).0 consumer.namespace hard
    filter-reserve-IsWithin by_value status ran passed same fresh within =
        let (status', ran', fits) = filter-Fits in
        let status_is : status' ≡ status = cc (ran, ran') in
        IsWithin-reserved (fits.0 (rw status_is passed)) same fresh within
