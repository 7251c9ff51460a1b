-- ===== src/Controller/Construction.antt =====
-- NewController of pkg/controller/controller.go: the framework of the registry, and the multi
-- scheduling queue that is made from it.
use kube_queue.Base.{
  ℕ, String, Bool, none, some, List, lookup, get_elem?, ite, text_dec, ◌≡◌, refl, arith, Result, ok,
  failed, Outcome, value, or_panic, ◌>>=◌, Option-cases, inl, inr,
}
use kube_queue.Base.Int.{ℤ}
use kube_queue.Plugins.Priority.{queue_less, queue_less-IsStrictWeak, multi_queue_less}
use kube_queue.Plugins.ResourceQuota.{Quantity, ResourceQuota, filter, filter_in}
use kube_queue.Plugins.Registry.{IsInTree, new_in_tree_registry, new_framework-IsInTree}
use kube_queue.Runtime.{Registry, new_framework, queue_sort_func_map}
use kube_queue.System.State.{Setup}
use kube_queue.System.Invariant.{IsSoundSetup}

module _ {ℓ} {Q S : Type ℓ} where
  -- MultiQueueSortFunc reads a nil interface where no plugin orders the queues; klog.Fatalf ends
  -- the process with an error. `relist` is what the informers do to the listers of the plugins.
  unfoldable pub new_controller :
      Registry Q S
      → ℤ
      → ℤ
      → (ℕ → (ℕ → ℕ → Bool) → List ℕ → List ℕ)
      → (ℕ → S → S)
      → Outcome (Result (Setup Q S))
  unfolding new_framework queue_sort_func_map lookup
  new_controller r initial max sort_slice relist = elim (new_framework r) [
    | failed err ↦ value (failed err)
    | ok fw ↦ or_panic fw.multi_queue_sort_plugin >>= (λ less_func. value (
        ok (record {
          fw = fw;
          queue_sort_func_map = λ policy. lookup policy (queue_sort_func_map fw);
          less_func = less_func;
          pod_initial_backoff_seconds = initial;
          pod_max_backoff_seconds = max;
          sort_slice = sort_slice;
          relist = relist;
        })))
  ]

module _ {ℓ} {Q : Type ℓ} (ops : Quantity Q) where
  -- With the plugins of the tree, whichever factory Go runs first, NewController ends without an
  -- error in a setup whose only policy is Priority, which orders the queues by priority, whose
  -- seconds are those it was given, and which is sound where sort.Slice returns elements of its
  -- list: its policies are strict weak orders and its filters end on every unit with a consumer.
  pub new_controller-IsSoundSetup :
      (backwards : Bool) (initial max : ℤ) (sort_slice : ℕ → (ℕ → ℕ → Bool) → List ℕ → List ℕ)
      (relist : ℕ → ResourceQuota Q → ResourceQuota Q)
      → ((round : ℕ) (less : ℕ → ℕ → Bool) (l : List ℕ) (n i : ℕ)
          → get_elem? (sort_slice round less l) n ≡ some i
          → (m : ℕ) × (get_elem? l m ≡ some i))
      → (setup : Setup Q (ResourceQuota Q)) × (new_controller
            (new_in_tree_registry ops backwards)
            initial
            max
            sort_slice
            relist
          ≡ value (ok setup))
        × ((policy : String)
            → setup.queue_sort_func_map policy
              ≡ ite (text_dec "Priority" policy) (some queue_less) none)
        × (setup.less_func ≡ multi_queue_less)
        × IsSoundSetup setup
        × (setup.pod_initial_backoff_seconds ≡ initial)
        × (setup.pod_max_backoff_seconds ≡ max)
        × IsInTree ops setup.fw
  unfolding new_controller filter
  new_controller-IsSoundSetup backwards initial max sort_slice relist sorts =
      let (fw, made, tree) = new_framework-IsInTree ops backwards in
      (
        record {
          fw = fw;
          queue_sort_func_map = λ policy. lookup policy (queue_sort_func_map fw);
          less_func = multi_queue_less;
          pod_initial_backoff_seconds = initial;
          pod_max_backoff_seconds = max;
          sort_slice = sort_slice;
          relist = relist;
        },
        rw (made, tree.multi, new_controller) refl,
        tree.policies,
        refl,
        record {
          policies = λ policy less known.
              let less_is : queue_less ≡ less = ground (arith, tree.policies policy) in
              rw (← less_is) queue_less-IsStrictWeak;
          filters = λ s u has. elim (Option-cases u.unit.consumer_ref) [
            | inl missing ↦ absurd (ground (arith, missing))
            | inr (consumer, there) ↦
                let (status, ran, code) =
                  tree.filters s u (filter_in ops s u consumer.namespace) (rw there refl) in
                (status, ran)
          ];
          sorts = sorts;
        },
        refl,
        refl,
        tree,
      )
