-- ===== src/Plugins/ResourceQuota/Reservation.antt =====
-- Reserve, Unreserve and GetReservedByResourceName of resource_quota.go, on the amounts that are
-- reserved.
use kube_queue.Base.{
  String, Bool, true, false, Option, none, some, lookup, insert, lookup-insert, lookup-insert_same,
  lookup-erase, ite, text_dec, if◌then◌else◌, is_some, ◌≡◌, refl, ◌∙◌, Bool-cases, Option-cases,
  inl, inr, arith, sym,
}
use kube_queue.Base.Int.{
  ℤ, pos, ◌+ℤ◌, ◌-ℤ◌, leb_ℤ, ◌≤ℤ◌, zero-+ℤ, +ℤ-zero, +ℤ_comm, +ℤ--ℤ_cancel, eq_of_parts, -ℤ_parts,
}
use kube_queue.Framework.{QueueUnitInfo, Status, success, error}
use kube_queue.Plugins.ResourceQuota.{
  Quantity, IsExact, IsByValue, ResourceQuota, nil, queue_unit_to_key, entries_or_empty, reserve,
  unreserve, reserve_entries, unreserve_entries, get_reserved_by_resource_name,
}
use kube_queue.Plugins.ResourceQuota.Entries.{
  IsMap, reserved_with, unreserved_with, lookup-reserve_entries, lookup-unreserve_entries,
}

module _ {ℓ} {Q : Type ℓ} (ops : Quantity Q) {amount : Q → ℤ} (exact : IsExact ops amount) where
  -- The amount reserved of a resource in a namespace.
  abbrev pub held : ResourceQuota Q → String → String → ℤ
  held rq ns r = amount (get_reserved_by_resource_name ops rq ns r)

  -- The amount in an entry, 0 if there is none.
  abbrev amount_in : Option Q → ℤ
  amount_in none = pos 0
  amount_in (some q) = amount q

  -- The amount that a unit requests of a resource.
  abbrev pub requested : QueueUnitInfo Q → String → ℤ
  requested qu r = amount_in (lookup r qu.unit.resource)

  amount_in-reserved_with :
      (a b : Option Q) → amount_in (reserved_with ops a b) ≡ amount_in b +ℤ amount_in a
  amount_in-reserved_with none b = sym (+ℤ-zero (amount_in b))
  amount_in-reserved_with (some q) none = sym (zero-+ℤ (amount q))
  amount_in-reserved_with (some q) (some val) = exact.of_add q val ∙ +ℤ_comm (amount q) (amount val)

  -- An entry that is dropped at zero or below keeps an amount that is not negative.
  kept :
      (left : Q) (a : ℤ)
      → amount left ≡ a
      → pos 0 ≤ℤ a
      → amount_in (if leb_ℤ (ops.sign left) (pos 0) then none else some left) ≡ a
  kept left a e p = rw (exact.of_sign left) (elim (Bool-cases (leb_ℤ (amount left) (pos 0))) [
    | inl zero_left ↦ rw zero_left (eq_of_parts (pos 0) a (ground arith))
    | inr more ↦ rw more e
  ])

  -- Unreserve takes away what Reserve has put in.
  amount_in-unreserved_with :
      (a b : Option Q)
      → pos 0 ≤ℤ amount_in b
      → amount_in (unreserved_with ops a (reserved_with ops a b)) ≡ amount_in b
  amount_in-unreserved_with none b p = refl
  amount_in-unreserved_with (some q) none p =
      kept (ops.sub q q) (pos 0)
        (exact.of_sub q q
          ∙ eq_of_parts (amount q -ℤ amount q) (pos 0)
              (omega (arith, -ℤ_parts (amount q) (amount q))))
        p
  amount_in-unreserved_with (some q) (some val) p =
      kept (ops.sub (ops.add q val) q) (amount val)
        (rw (exact.of_sub, exact.of_add)
          (rw (+ℤ_comm (amount q) (amount val)) (+ℤ--ℤ_cancel (amount val) (amount q))))
        p

  held_as :
      (rq : ResourceQuota Q) (ns r : String)
      → held rq ns r ≡ amount_in (lookup r (entries_or_empty (lookup ns rq.reserved)))
  unfolding get_reserved_by_resource_name
  held_as rq ns r = elim (Option-cases (lookup r (entries_or_empty (lookup ns rq.reserved)))) [
    | inl e ↦ rw (e, get_reserved_by_resource_name) exact.of_zero
    | inr (q, e) ↦ rw (e, get_reserved_by_resource_name) refl
  ]

  module _ (rq : ResourceQuota Q) (qu : QueueUnitInfo Q) (map : IsMap qu.unit.resource) where
    abbrev key : String
    key = queue_unit_to_key qu

    abbrev is_reserved : Bool
    is_reserved = is_some (lookup key rq.qu_record)

    pub record IsReserve (r : ResourceQuota Q × Status) : Type ℓ where
      pub code : r.1.code ≡ (if is_reserved then error else success)
      pub recorded :
          (k : String)
          → is_some (lookup k r.0.qu_record)
            ≡ ite (text_dec key k) true (is_some (lookup k rq.qu_record))
      pub held_now :
          (ns n : String)
          → held r.0 ns n ≡ (
              if is_reserved
              then held rq ns n
              else ite
                  (text_dec qu.unit.namespace ns)
                  (held rq ns n +ℤ requested qu n)
                  (held rq ns n))

    -- The reservations of one namespace after the loop of Reserve.
    held_entries :
        (r : ResourceQuota Q) (ns n : String)
        → r.reserved
          ≡ insert qu.unit.namespace
              (reserve_entries ops qu.unit.resource
                (entries_or_empty (lookup qu.unit.namespace rq.reserved)))
              rq.reserved
        → held r ns n
          ≡ ite (text_dec qu.unit.namespace ns) (held rq ns n +ℤ requested qu n) (held rq ns n)
    held_entries r ns n e =
        let acc = entries_or_empty (lookup qu.unit.namespace rq.reserved) in
        let entries = reserve_entries ops qu.unit.resource acc in
        rw (held_as r ns n, e, lookup-insert qu.unit.namespace ns entries rq.reserved)
          (ground (
            arith,
            held_as rq ns n,
            lookup-reserve_entries ops map n acc,
            amount_in-reserved_with (lookup n qu.unit.resource) (lookup n acc),
          ))

    -- Where quantities are exact and a list of resources has distinct keys, Reserve of a unit that
    -- is recorded fails and changes no amount and no record; otherwise it succeeds, records the
    -- unit, and adds what the unit requests to what is reserved in its namespace.
    pub reserve-IsReserve : IsReserve (reserve ops rq qu)
    unfolding reserve
    reserve-IsReserve = elim (Option-cases (lookup key rq.qu_record)) [
      | inl fresh ↦
          rw (fresh, reserve)
            (record {
              code = rw fresh refl;
              recorded = λ k. ground (arith, lookup-insert key k nil rq.qu_record);
              held_now = λ ns n. rw fresh (held_entries _ ns n refl);
            })
      | inr (q, found) ↦
          rw (found, reserve)
            (record {
              code = rw found refl;
              recorded = λ k. ground arith;
              held_now = λ ns n. rw found refl;
            })
    ]

    -- The reservations of one namespace after the loops of Reserve and Unreserve.
    held_restored :
        (r : ResourceQuota Q) (ns n : String)
        → pos 0 ≤ℤ held rq ns n
        → r.reserved
          ≡ insert qu.unit.namespace
              (unreserve_entries ops qu.unit.resource (
                reserve_entries ops qu.unit.resource
                  (entries_or_empty (lookup qu.unit.namespace rq.reserved))))
              (insert qu.unit.namespace
                (reserve_entries ops qu.unit.resource
                  (entries_or_empty (lookup qu.unit.namespace rq.reserved)))
                rq.reserved)
        → held r ns n ≡ held rq ns n
    held_restored r ns n p e =
        let acc = entries_or_empty (lookup qu.unit.namespace rq.reserved) in
        let entries = reserve_entries ops qu.unit.resource acc in
        let back = unreserve_entries ops qu.unit.resource entries in
        rw
          (
            held_as r ns n,
            e,
            lookup-insert qu.unit.namespace ns back (insert qu.unit.namespace entries rq.reserved),
            lookup-insert qu.unit.namespace ns entries rq.reserved,
          )
          (ground (
            arith,
            held_as rq ns n,
            lookup-reserve_entries ops map n acc,
            lookup-unreserve_entries ops map n entries,
            amount_in-unreserved_with (lookup n qu.unit.resource) (lookup n acc),
          ))

    -- Where quantities are exact and held by value (no inf.Dec behind a pointer), a list of resources
    -- has distinct keys, and no reservation is negative, Unreserve after the Reserve of a unit that was not recorded gives back each
    -- reserved amount, and the recorded units are those of before.
    pub unreserve-reserve :
        IsByValue ops
        → is_reserved ≡ false
        → ((ns n : String) → pos 0 ≤ℤ held rq ns n)
        → ((ns n : String) → held (unreserve ops (reserve ops rq qu).0 qu) ns n ≡ held rq ns n)
          × ((k : String)
              → is_some (lookup k (unreserve ops (reserve ops rq qu).0 qu).qu_record)
                ≡ is_some (lookup k rq.qu_record))
    unfolding reserve unreserve
    unreserve-reserve by_value fresh p =
        let absent : lookup key rq.qu_record ≡ none = ground arith in
        let ns = qu.unit.namespace in
        let entries =
          reserve_entries ops qu.unit.resource (entries_or_empty (lookup ns rq.reserved)) in
        let record_now = insert key nil rq.qu_record in
        rw (absent, reserve)
          (rw
            (
              lookup-insert_same key nil rq.qu_record,
              unreserve,
              lookup-insert_same ns entries rq.reserved,
            )
            (
              λ ns n. held_restored _ ns n (p ns n) refl,
              λ k.
                  ground
                    (arith, lookup-erase key k record_now, lookup-insert key k nil rq.qu_record),
            ))
