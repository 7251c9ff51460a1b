-- ===== src/System/Reservations.antt =====
-- The reservation of a unit that the API server then refuses to dequeue, with the plugins of the
-- tree.
use kube_queue.Base.{
  ℕ, String, false, Option, some, [], ◌∷◌, ◌++◌, length, get_elem?, set, length-set, ◌<◌,
  get_elem?-set, get_elem?-append, lt_of_get_elem?, lookup, is_some, ◌≡◌, refl, ◌∙◌, ap, Result,
  arith, value,
}
use kube_queue.Base.Int.{ℤ, pos, ◌≤ℤ◌}
use kube_queue.Framework.{QueueUnit, QueueUnitInfo, Time, success}
use kube_queue.Plugins.ResourceQuota.{
  Quantity, IsExact, IsByValue, ResourceQuota, queue_unit_to_key, reserve, unreserve,
}
use kube_queue.Plugins.ResourceQuota.Entries.{IsMap}
use kube_queue.Plugins.ResourceQuota.Reservation.{held, reserve-IsReserve, unreserve-reserve}
use kube_queue.Plugins.Registry.{IsInTree}
use kube_queue.Runtime.{run_reserve_plugins_reserve, run_reserve_plugins_unreserve}
use kube_queue.Scheduler.{dequeue}
use kube_queue.System.State.{
  Position, looping, reserving, dequeuing, unreserving, storing, reserved, ran, Setup, System,
}
use kube_queue.System.Rounds.{current, reserve_unit, run_goroutine, schedule_step}
use kube_queue.System.Step.{step, run}

module _ {ℓ} {Q S : Type ℓ} (setup : Setup Q S) where
  reserved-reserve_unit :
      (s : System Q S) (position : Position Q) (u : QueueUnitInfo Q)
      → position ≡ reserving u
      → schedule_step setup reserved position s.todo s ≡ value (reserve_unit setup s u)
  unfolding schedule_step
  reserved-reserve_unit s position u stands = rw (stands, schedule_step) refl

  -- The two steps of a goroutine that fails to dequeue its unit.
  refused-run :
      (s : System Q S) (j r : ℕ) (u : QueueUnitInfo Q) (get : QueueUnit Q → Result (QueueUnit Q))
      (update : QueueUnit Q → Option String) (err : String) (now later : Time)
      → get_elem? s.goroutines j ≡ some (dequeuing r u)
      → dequeue get update u.unit ≡ some err
      → run setup (ran j get update now ∷ ran j get update later ∷ []) s
        ≡ value (record s {
          plugins = run_reserve_plugins_unreserve setup.fw s.plugins u;
          goroutines = set (set s.goroutines j (unreserving r u)) j (storing r u);
        })
  unfolding run step run_goroutine
  refused-run s j r u get update err now later waits refused =
      let next : get_elem? (set s.goroutines j (unreserving r u)) j ≡ some (unreserving r u) =
        ground (
          arith,
          get_elem?-set s.goroutines j j (unreserving r u) (lt_of_get_elem? s.goroutines j waits),
        ) in
      rw (waits, refused, step, run_goroutine) (rw (next, step, run_goroutine) refl)

  -- The reserve plugins let the unit pass, and its goroutine starts.
  reserve_unit-success :
      (s : System Q S) (u : QueueUnitInfo Q)
      → (run_reserve_plugins_reserve setup.fw s.plugins u).1.code ≡ success
      → reserve_unit setup s u ≡ record s {
        plugins = (run_reserve_plugins_reserve setup.fw s.plugins u).0;
        position = looping;
        goroutines = s.goroutines ++ dequeuing (current s) u ∷ [];
      }
  unfolding reserve_unit
  reserve_unit-success s u good = rw (good, reserve_unit) refl

module _ {ℓ} {Q : Type ℓ} (ops : Quantity Q) {amount : Q → ℤ} (exact : IsExact ops amount)
    (setup : Setup Q (ResourceQuota Q)) (tree : IsInTree ops setup.fw) where
  -- The amounts and the records of two states of the plugin are the same.
  abbrev pub SameReservations : ResourceQuota Q → ResourceQuota Q → Type 0
  SameReservations rq rq' =
      ((ns n : String) → held ops exact rq' ns n ≡ held ops exact rq ns n)
      × ((k : String) → is_some (lookup k rq'.qu_record) ≡ is_some (lookup k rq.qu_record))

  -- Where quantities are exact and held by value (no inf.Dec behind a pointer), a list of resources has distinct keys and no reservation is
  -- negative, when the loop reserves a unit that is not recorded and its goroutine fails to dequeue
  -- it, the plugins of the tree have the amounts and the records that they had before, and the
  -- goroutine goes on to put the unit back.
  pub refused-SameReservations :
      (s : System Q (ResourceQuota Q)) (u : QueueUnitInfo Q)
      (get : QueueUnit Q → Result (QueueUnit Q)) (update : QueueUnit Q → Option String)
      (err : String) (now later : Time)
      → IsByValue ops
      → s.position ≡ reserving u
      → IsMap u.unit.resource
      → is_some (lookup (queue_unit_to_key u) s.plugins.qu_record) ≡ false
      → ((ns n : String) → pos 0 ≤ℤ held ops exact s.plugins ns n)
      → dequeue get update u.unit ≡ some err
      → (s' : System Q (ResourceQuota Q)) × (run setup
            (reserved
              ∷ ran (length s.goroutines) get update now
              ∷ ran (length s.goroutines) get update later
              ∷ [])
            s
          ≡ value s')
        × SameReservations s.plugins s'.plugins
        × (get_elem? s'.goroutines (length s.goroutines) ≡ some (storing (current s) u))
  unfolding run step
  refused-SameReservations s u get update err now later by_value stands map fresh positive refused =
      let j = length s.goroutines in
      let gs = s.goroutines ++ dequeuing (current s) u ∷ [] in
      let done = reserve-IsReserve ops exact s.plugins u map in
      let (state, code) = tree.reserves s.plugins u in
      let good : (run_reserve_plugins_reserve setup.fw s.plugins u).1.code ≡ success =
        code ∙ done.code ∙ rw fresh refl in
      let waits : get_elem? gs j ≡ some (dequeuing (current s) u) =
        ground (arith, get_elem?-append s.goroutines (dequeuing (current s) u) j) in
      let plugins_are : run_reserve_plugins_unreserve setup.fw
            (run_reserve_plugins_reserve setup.fw s.plugins u).0 u
          ≡ unreserve ops (reserve ops s.plugins u).0 u =
        tree.unreserves _ u ∙ ap (λ rq. unreserve ops rq u) state in
      let (amounts, records) =
        unreserve-reserve ops exact s.plugins u map by_value fresh positive in
      let inside : j < length (set gs j (unreserving (current s) u)) =
        omega (arith, lt_of_get_elem? gs j waits, length-set gs j (unreserving (current s) u)) in
      (
        record s {
          plugins =
              run_reserve_plugins_unreserve setup.fw
                (run_reserve_plugins_reserve setup.fw s.plugins u).0 u;
          position = looping;
          goroutines = set (set gs j (unreserving (current s) u)) j (storing (current s) u);
        },
        rw (reserved-reserve_unit setup s s.position u stands, reserve_unit-success setup s u good)
            (refused-run setup
              (record s {
                plugins = (run_reserve_plugins_reserve setup.fw s.plugins u).0;
                position = looping;
                goroutines = gs;
              })
              j (current s) u get update err now later waits refused),
        rw plugins_are (amounts, records),
        ground (
          arith,
          get_elem?-set (set gs j (unreserving (current s) u)) j j (storing (current s) u) inside,
        ),
      )
