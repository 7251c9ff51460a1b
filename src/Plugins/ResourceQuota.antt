-- ===== src/Plugins/ResourceQuota.antt =====
-- pkg/framework/plugins/resourcequota/resource_quota.go: the plugin that reserves the resources of a
-- unit and filters the units that do not fit the quota of their namespace. Reserve, Unreserve and
-- GetReservedByResourceName hold the lock; Filter does not, and is one step here all the same. The
-- order of the entries of a ResourceList is the order in which Go ranges over it.
-- resource.Quantity and the lister are not of this repository: the first is the interface
-- `Quantity`, with the laws `IsExact`, the second the function `rq_lister`: what the lister answers
-- now, which no method of the plugin changes and the informer behind it does, in a step of its own.
--
-- A Go copy of a Quantity with a large or a binary fractional amount shares the inf.Dec behind its
-- pointer, and Add and Sub write through it: in Filter into the stored reservation, in Reserve into
-- the resources of the unit, which the stored reservation then shares, and in Unreserve from a
-- number that may be subtracted from itself. Here Add and Sub return a new quantity, which is what
-- the code does for quantities with an amount held by value (`IsByValue`), and for the others only
-- what one call answers and stores, not what it writes into the copies that others hold.

pub mod Entries
pub mod Reservation
pub mod Admission
pub mod Selection
use kube_queue.Base.{
  String, text_dec, Option, none, some, List, [], ◌∷◌, Dict, lookup, insert, erase, if◌then◌else◌,
  is_some, Bool, false, Outcome, value, panic, ◌≡◌, ◌>>=◌,
}
use kube_queue.Base.{Result, ok, failed}
use kube_queue.Base.Int.{ℤ, pos, ◌+ℤ◌, ◌-ℤ◌, ltb_ℤ, leb_ℤ}
use Prim.Native.String.{◌++◌}
use kube_queue.Framework.{QueueUnitInfo, Status, new_status, success, error, object_key}

-- The operations of resource.Quantity that the plugin uses. Add and Sub change the receiver in Go,
-- which is a struct copy wherever the plugin calls them. `value_text` prints what Value returns, and
-- `by_pointer` says whether the amount is an inf.Dec behind a pointer, which the copies share.
pub record Quantity {ℓ} (Q : Type ℓ) : Type ℓ where
  pub new_quantity : ℤ → Q
  pub add : Q → Q → Q
  pub sub : Q → Q → Q
  pub sign : Q → ℤ
  pub cmp : Q → Q → ℤ
  pub value_text : Q → String
  pub by_pointer : Q → Bool

-- All quantities, sums and differences included, hold their amount in the struct, as an int64.
pub record IsByValue {ℓ} {Q : Type ℓ} (ops : Quantity Q) : Type ℓ where
  pub in_struct : (q : Q) → ops.by_pointer q ≡ false

-- What the documentation of resource.Quantity says of these operations, for the amount that a
-- quantity stands for, in its smallest unit.
pub record IsExact {ℓ} {Q : Type ℓ} (ops : Quantity Q) (amount : Q → ℤ) : Type ℓ where
  pub of_zero : amount (ops.new_quantity (pos 0)) ≡ pos 0
  pub of_add : (a b : Q) → amount (ops.add a b) ≡ amount a +ℤ amount b
  pub of_sub : (a b : Q) → amount (ops.sub a b) ≡ amount a -ℤ amount b
  pub of_sign : (a : Q) → leb_ℤ (ops.sign a) (pos 0) ≡ leb_ℤ (amount a) (pos 0)
  pub of_cmp : (a b : Q) → ltb_ℤ (ops.cmp a b) (pos 0) ≡ ltb_ℤ (amount a) (amount b)

-- corev1.ResourceQuota, with the fields that the plugin reads.
pub record QuotaObject {ℓ} (Q : Type ℓ) : Type ℓ where
  pub name : String
  pub namespace : String
  pub hard : Option (Dict Q)

-- The value of an `interface{}` that is nil.
pub data Nil : Type 0 where
  nil : Nil

pub record ResourceQuota {ℓ} (Q : Type ℓ) : Type ℓ where
  pub reserved : Dict (Dict Q)
  pub qu_record : Dict Nil
  pub rq_lister : String → Result (List (QuotaObject Q))

abbrev pub name : String
name = "ResourceQuota"

module _ {ℓ} {Q : Type ℓ} where
  unfoldable pub new : (String → Result (List (QuotaObject Q))) → ResourceQuota Q
  new lister = record { reserved = []; qu_record = []; rq_lister = lister }

  unfoldable pub queue_unit_to_key : QueueUnitInfo Q → String
  queue_unit_to_key qu = object_key qu.unit.namespace qu.unit.name

  -- `if !exist { reservedNS = make(corev1.ResourceList) }`
  abbrev pub entries_or_empty : Option (Dict Q) → Dict Q
  entries_or_empty none = []
  entries_or_empty (some entries) = entries

  -- The loop of SelectResourceQuota.
  unfoldable pub find_named : List (QuotaObject Q) → String → Option (QuotaObject Q)
  find_named [] ns = none
  find_named (rq ∷ rqs) ns = elim (text_dec rq.name ns) [
    | yes same ↦ some rq
    | no other ↦ find_named rqs ns
  ]

  unfoldable pub select_resource_quota : List (QuotaObject Q) → String → Result (QuotaObject Q)
  unfolding find_named
  select_resource_quota [] ns =
      failed ("found 0 resources quota in ns: " ++ ns ++ ", expecting more than 0")
  select_resource_quota (rq ∷ []) ns = ok rq
  select_resource_quota (rq ∷ rq' ∷ rqs) ns = elim (find_named (rq ∷ rq' ∷ rqs) ns) [
    | some found ↦ ok found
    | none ↦ failed ("cannot find proper resource quota in namespace " ++ ns)
  ]

module _ {ℓ} {Q : Type ℓ} (ops : Quantity Q) where
  -- One round of the loop of Reserve, with rQuantity a copy that shares nothing.
  unfoldable pub reserve_entry : String → Q → Dict Q → Dict Q
  reserve_entry r_name r_quantity reserved_ns = elim (lookup r_name reserved_ns) [
    | some val ↦ insert r_name (ops.add r_quantity val) reserved_ns
    | none ↦ insert r_name r_quantity reserved_ns
  ]

  unfoldable pub reserve_entries : Dict Q → Dict Q → Dict Q
  unfolding reserve_entry
  reserve_entries [] reserved_ns = reserved_ns
  reserve_entries ((r_name, r_quantity) ∷ rest) reserved_ns =
      reserve_entries rest (reserve_entry r_name r_quantity reserved_ns)

  unfoldable pub reserve : ResourceQuota Q → QueueUnitInfo Q → ResourceQuota Q × Status
  unfolding reserve_entries queue_unit_to_key
  reserve rq qu =
      let key = queue_unit_to_key qu in
      elim (lookup key rq.qu_record) [
        | some _ ↦ (rq, new_status error ("queue unit " ++ key ++ " already reserved"))
        | none ↦
            let ns = qu.unit.namespace in
            let reserved_ns =
              reserve_entries qu.unit.resource (entries_or_empty (lookup ns rq.reserved)) in
            (
              record rq {
                reserved = insert ns reserved_ns rq.reserved;
                qu_record = insert key nil rq.qu_record;
              },
              new_status success "",
            )
      ]

  -- One round of the loop of Unreserve, with val a copy that shares nothing.
  unfoldable pub unreserve_entry : String → Q → Dict Q → Dict Q
  unreserve_entry r_name r_quantity reserved_ns = elim (lookup r_name reserved_ns) [
    | none ↦ reserved_ns
    | some val ↦
        let left = ops.sub val r_quantity in
        if leb_ℤ (ops.sign left) (pos 0)
        then erase r_name reserved_ns
        else insert r_name left reserved_ns
  ]

  unfoldable pub unreserve_entries : Dict Q → Dict Q → Dict Q
  unfolding unreserve_entry
  unreserve_entries [] reserved_ns = reserved_ns
  unreserve_entries ((r_name, r_quantity) ∷ rest) reserved_ns =
      unreserve_entries rest (unreserve_entry r_name r_quantity reserved_ns)

  unfoldable pub unreserve : ResourceQuota Q → QueueUnitInfo Q → ResourceQuota Q
  unfolding unreserve_entries queue_unit_to_key
  unreserve rq qu =
      let key = queue_unit_to_key qu in
      elim (lookup key rq.qu_record) [
        | none ↦ rq
        | some _ ↦
            let ns = qu.unit.namespace in
            elim (lookup ns rq.reserved) [
              | none ↦ rq
              | some reserved_ns ↦ record rq {
                reserved = insert ns (unreserve_entries qu.unit.resource reserved_ns) rq.reserved;
                qu_record = erase key rq.qu_record;
              }
            ]
      ]

  unfoldable pub get_reserved_by_resource_name : ResourceQuota Q → String → String → Q
  get_reserved_by_resource_name rq ns r_name =
      elim (lookup r_name (entries_or_empty (lookup ns rq.reserved))) [
        | some val ↦ val
        | none ↦ ops.new_quantity (pos 0)
      ]

  -- The loop of Filter, for the name of the quota object and its limits, with reservedQuantity a copy
  -- that shares nothing.
  unfoldable pub filter_entries : ResourceQuota Q → String → String → Dict Q → Dict Q → Status
  unfolding get_reserved_by_resource_name
  filter_entries rq ns basket hard [] = new_status success ""
  filter_entries rq ns basket hard ((r_name, r_quantity) ∷ rest) =
      let status = filter_entries rq ns basket hard rest in
      elim (lookup r_name hard) [
        | none ↦ status
        | some basket_quantity ↦
            let reserved_quantity =
              ops.add (get_reserved_by_resource_name rq ns r_name) r_quantity in
            if ltb_ℤ (ops.cmp basket_quantity reserved_quantity) (pos 0)
            then new_status error (
                "insufficient resource left for "
                ++ r_name
                ++ " in resource quota "
                ++ basket
                ++ " reserved "
                ++ ops.value_text reserved_quantity
                ++ "/"
                ++ ops.value_text basket_quantity
                ++ ", request "
                ++ ops.value_text r_quantity)
            else status
      ]

  -- Filter with the namespace that it has read from the consumer.
  unfoldable pub filter_in : ResourceQuota Q → QueueUnitInfo Q → String → Status
  unfolding filter_entries select_resource_quota
  filter_in rq qu ns = elim (rq.rq_lister ns) [
    | failed err ↦ new_status error err
    | ok rqs ↦ elim (select_resource_quota rqs ns) [
      | failed err ↦ new_status error err
      | ok basket ↦ elim basket.hard [
        | none ↦
            new_status error
              ("cannot find hard limit in the status of resource quota " ++ basket.name)
        | some hard ↦ filter_entries rq ns basket.name hard qu.unit.resource
      ]
    ]
  ]

  -- A unit without a consumer makes Filter read a nil pointer.
  unfoldable pub filter : ResourceQuota Q → QueueUnitInfo Q → Outcome Status
  unfolding filter_in
  filter rq qu = elim qu.unit.consumer_ref [
    | none ↦ panic
    | some consumer ↦ value (filter_in rq qu consumer.namespace)
  ]
