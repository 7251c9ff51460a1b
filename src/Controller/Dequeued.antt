-- ===== src/Controller/Dequeued.antt =====
-- The handlers of dequeued units in eventhandler.go, with the plugins of the tree.
use kube_queue.Base.{String, true, lookup, is_some, ◌≡◌, refl, ◌∙◌, arith}
use kube_queue.Base.Int.{ℤ}
use kube_queue.Framework.{QueueUnit, QueueUnitInfo, Time, new_queue_unit_info}
use kube_queue.Plugins.ResourceQuota.{Quantity, IsExact, ResourceQuota, queue_unit_to_key, reserve}
use kube_queue.Plugins.ResourceQuota.Entries.{IsMap}
use kube_queue.Plugins.ResourceQuota.Reservation.{held, reserve-IsReserve}
use kube_queue.Plugins.Registry.{IsInTree}
use kube_queue.Runtime.{FrameworkImpl}
use kube_queue.Controller.{add_dequeued_queue_unit}

module _ {ℓ} {Q : Type ℓ} (ops : Quantity Q) {amount : Q → ℤ} (exact : IsExact ops amount)
    (fw : FrameworkImpl Q (ResourceQuota Q)) (tree : IsInTree ops fw) where
  reserve-twice :
      (rq : ResourceQuota Q) (a b : QueueUnitInfo Q)
      → IsMap a.unit.resource
      → IsMap b.unit.resource
      → queue_unit_to_key b ≡ queue_unit_to_key a
      → (ns n : String)
      → held ops exact (reserve ops (reserve ops rq a).0 b).0 ns n
        ≡ held ops exact (reserve ops rq a).0 ns n
  reserve-twice rq a b map_a map_b same ns n =
      let first = (reserve-IsReserve ops exact rq a map_a).recorded (queue_unit_to_key b) in
      let again = (reserve-IsReserve ops exact (reserve ops rq a).0 b map_b).held_now ns n in
      let recorded : is_some (lookup (queue_unit_to_key b) (reserve ops rq a).0.qu_record) ≡ true =
        ground (arith, first, same) in
      again ∙ rw recorded refl

  -- Where quantities are exact and a list of resources has distinct keys, when the informer reports
  -- a unit as dequeued whose namespace and name are those of a unit on which Reserve was called,
  -- its handler changes no reserved amount, with the plugins of the tree.
  pub add_dequeued_queue_unit-reserve :
      (rq : ResourceQuota Q) (qu : QueueUnitInfo Q) (unit : QueueUnit Q) (now later : Time)
      → IsMap qu.unit.resource
      → IsMap unit.resource
      → unit.namespace ≡ qu.unit.namespace
      → unit.name ≡ qu.unit.name
      → (ns n : String)
      → held ops exact (add_dequeued_queue_unit fw (reserve ops rq qu).0 unit now later) ns n
        ≡ held ops exact (reserve ops rq qu).0 ns n
  unfolding add_dequeued_queue_unit queue_unit_to_key new_queue_unit_info
  add_dequeued_queue_unit-reserve rq qu unit now later map map' same_ns same_name ns n =
      rw ((tree.reserves (reserve ops rq qu).0 (new_queue_unit_info unit now later)).0) (
        reserve-twice rq qu (new_queue_unit_info unit now later) map map'
          (rw (same_ns, same_name) refl) ns n)
