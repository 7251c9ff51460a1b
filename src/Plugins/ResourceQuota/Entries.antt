-- ===== src/Plugins/ResourceQuota/Entries.antt =====
-- What the loops of Reserve and Unreserve in resource_quota.go do to each entry.
use kube_queue.Base.{
  String, Option, none, some, [], ◌∷◌, Dict, lookup, lookup-insert, lookup-erase, ite, text_dec,
  if◌then◌else◌, ◌≡◌, refl, Option-cases, inl, inr, arith,
}
use kube_queue.Base.Int.{pos, leb_ℤ}
use kube_queue.Plugins.ResourceQuota.{
  Quantity, reserve_entry, reserve_entries, unreserve_entry, unreserve_entries,
}

-- The keys of a list of entries are distinct, as they are in a Go map.
pub data IsMap {ℓ} {V : Type ℓ} : Dict V → Type ℓ where
  empty : IsMap []
  entry : {k : String} {v : V} {d : Dict V} → lookup k d ≡ none → IsMap d → IsMap ((k, v) ∷ d)

module _ {ℓ} {Q : Type ℓ} (ops : Quantity Q) where
  -- The reservation of a resource after Reserve, from the request and the reservation before.
  abbrev pub reserved_with : Option Q → Option Q → Option Q
  reserved_with none held = held
  reserved_with (some q) none = some q
  reserved_with (some q) (some val) = some (ops.add q val)

  -- The reservation of a resource after Unreserve: nothing is kept at zero or below.
  abbrev pub unreserved_with : Option Q → Option Q → Option Q
  unreserved_with none held = held
  unreserved_with (some q) none = none
  unreserved_with (some q) (some val) =
      if leb_ℤ (ops.sign (ops.sub val q)) (pos 0) then none else some (ops.sub val q)

  lookup-reserve_entry :
      (k : String) (q : Q) (j : String) (acc : Dict Q)
      → lookup j (reserve_entry ops k q acc)
        ≡ ite (text_dec k j) (reserved_with (some q) (lookup j acc)) (lookup j acc)
  unfolding reserve_entry
  lookup-reserve_entry k q j acc = elim (Option-cases (lookup k acc)) [
    | inl e ↦ rw (e, reserve_entry) (ground (arith, lookup-insert k j q acc))
    | inr (val, e) ↦ rw (e, reserve_entry) (ground (arith, lookup-insert k j (ops.add q val) acc))
  ]

  lookup-unreserve_entry :
      (k : String) (q : Q) (j : String) (acc : Dict Q)
      → lookup j (unreserve_entry ops k q acc)
        ≡ ite (text_dec k j) (unreserved_with (some q) (lookup j acc)) (lookup j acc)
  unfolding unreserve_entry
  lookup-unreserve_entry k q j acc = elim (Option-cases (lookup k acc)) [
    | inl e ↦ rw (e, unreserve_entry) (ground arith)
    | inr (val, e) ↦
        rw (e, unreserve_entry)
          (ground (arith, lookup-insert k j (ops.sub val q) acc, lookup-erase k j acc))
  ]

  -- Each reservation after the loop of Reserve.
  pub lookup-reserve_entries :
      {d : Dict Q}
      → IsMap d
      → (j : String) (acc : Dict Q)
      → lookup j (reserve_entries ops d acc) ≡ reserved_with (lookup j d) (lookup j acc)
  unfolding reserve_entries lookup
  lookup-reserve_entries empty j acc = refl
  lookup-reserve_entries (entry {k} {v} {d} fresh m) j acc = ground (
    arith,
    fresh,
    lookup-reserve_entries m j (reserve_entry ops k v acc),
    lookup-reserve_entry k v j acc,
  )

  -- Each reservation after the loop of Unreserve.
  pub lookup-unreserve_entries :
      {d : Dict Q}
      → IsMap d
      → (j : String) (acc : Dict Q)
      → lookup j (unreserve_entries ops d acc) ≡ unreserved_with (lookup j d) (lookup j acc)
  unfolding unreserve_entries lookup
  lookup-unreserve_entries empty j acc = refl
  lookup-unreserve_entries (entry {k} {v} {d} fresh m) j acc = ground (
    arith,
    fresh,
    lookup-unreserve_entries m j (unreserve_entry ops k v acc),
    lookup-unreserve_entry k v j acc,
  )
