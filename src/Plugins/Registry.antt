-- ===== src/Plugins/Registry.antt =====
-- pkg/framework/plugins/registry.go, the plugins as the framework sees them, and the framework that
-- they make.
use kube_queue.Base.{
  String, Bool, true, false, none, some, [], ◌∷◌, lookup, insert, ite, text_dec, ok, ◌≡◌, refl,
  arith, value, inl, inr,
}
use kube_queue.Base.Int.{ℤ}
use kube_queue.Framework.{QueueUnitInfo, Status, Code-cases}
use kube_queue.Plugins.Priority
use kube_queue.Plugins.Priority.{queue_less, queue_less-IsStrictWeak, multi_queue_less}
use kube_queue.Plugins.ResourceQuota
use kube_queue.Plugins.ResourceQuota.{Quantity, ResourceQuota, reserve, unreserve, filter}
use kube_queue.MultiSchedulingQueue.{new_multi_scheduling_queue}
use kube_queue.MultiSchedulingQueue.Queues.{IsSound}
use kube_queue.MultiSchedulingQueue.Lifecycle.{new_multi_scheduling_queue-IsSound}
use kube_queue.Runtime.{
  Plugin, Registry, FrameworkImpl, new_framework, queue_sort_func_map, run_filter_plugins,
  run_reserve_plugins_reserve, run_reserve_plugins_unreserve,
}

module _ {ℓ} {Q : Type ℓ} (ops : Quantity Q) where
  abbrev pub priority_plugin : Plugin Q (ResourceQuota Q)
  priority_plugin = record {
    name = Priority.name;
    queue_sort = some queue_less;
    multi_queue_sort = some multi_queue_less;
    filter = none;
    reserving = none;
  }

  abbrev pub resource_quota_plugin : Plugin Q (ResourceQuota Q)
  resource_quota_plugin = record {
    name = ResourceQuota.name;
    queue_sort = none;
    multi_queue_sort = none;
    filter = some (filter ops);
    reserving = some (record { reserve = reserve ops; unreserve = unreserve ops });
  }

  -- `backwards` is the order in which Go ranges over the two factories.
  abbrev pub new_in_tree_registry : Bool → Registry Q (ResourceQuota Q)
  new_in_tree_registry false =
      (ResourceQuota.name, ok resource_quota_plugin) ∷ (Priority.name, ok priority_plugin) ∷ []
  new_in_tree_registry true =
      (Priority.name, ok priority_plugin) ∷ (ResourceQuota.name, ok resource_quota_plugin) ∷ []

  -- The framework of the tree: one policy, the order of the queues by priority, and the three
  -- calls of the quota plugin.
  pub record IsInTree (f : FrameworkImpl Q (ResourceQuota Q)) : Type ℓ where
    pub policies :
        (policy : String)
        → lookup policy (queue_sort_func_map f)
          ≡ ite (text_dec "Priority" policy) (some queue_less) none
    pub multi : f.multi_queue_sort_plugin ≡ some multi_queue_less
    pub filters :
        (s : ResourceQuota Q) (u : QueueUnitInfo Q) (status : Status)
        → filter ops s u ≡ value status
        → (status' : Status) × (run_filter_plugins f s u ≡ value status')
          × (status'.code ≡ status.code)
    pub reserves :
        (s : ResourceQuota Q) (u : QueueUnitInfo Q)
        → ((run_reserve_plugins_reserve f s u).0 ≡ (reserve ops s u).0)
          × ((run_reserve_plugins_reserve f s u).1.code ≡ (reserve ops s u).1.code)
    pub unreserves :
        (s : ResourceQuota Q) (u : QueueUnitInfo Q)
        → run_reserve_plugins_unreserve f s u ≡ unreserve ops s u

  in_tree : FrameworkImpl Q (ResourceQuota Q)
  in_tree = record {
    multi_queue_sort_plugin = some multi_queue_less;
    filter_plugins = filter ops ∷ [];
    queue_sort_plugins = ("Priority", queue_less) ∷ [];
    reserve_plugins = record { reserve = reserve ops; unreserve = unreserve ops } ∷ [];
  }

  in_tree-new_framework :
      (backwards : Bool) → new_framework (new_in_tree_registry backwards) ≡ ok in_tree
  unfolding new_framework in_tree
  in_tree-new_framework false = refl
  in_tree-new_framework true = refl

  in_tree-IsInTree : IsInTree in_tree
  unfolding in_tree queue_sort_func_map run_filter_plugins run_reserve_plugins_reserve
      run_reserve_plugins_unreserve lookup insert
  in_tree-IsInTree = record {
    policies = λ policy. refl;
    multi = refl;
    filters = λ s u status ran. elim (Code-cases status.code) [
      | inl good ↦ rw ran (rw good (_, refl, refl))
      | inr bad ↦ (status, rw ran (ground arith), refl)
    ];
    reserves = λ s u. elim (Code-cases (reserve ops s u).1.code) [
      | inl good ↦ rw good (refl, refl)
      | inr bad ↦ rw bad (refl, refl)
    ];
    unreserves = λ s u. refl;
  }

  -- The framework that is made of the plugins of the tree, whichever factory Go runs first, has the
  -- policy Priority and no other, orders the queues by priority, and its loops return the code of
  -- the quota plugin and its state.
  pub new_framework-IsInTree :
      (backwards : Bool)
      → (f : FrameworkImpl Q (ResourceQuota Q)) × (new_framework (new_in_tree_registry backwards)
          ≡ ok f)
        × IsInTree f
  new_framework-IsInTree backwards = (in_tree, in_tree-new_framework backwards, in_tree-IsInTree)

  -- The multi scheduling queue that is made with the policies of a framework of the plugins of the
  -- tree is sound.
  pub in_tree-IsSound :
      (f : FrameworkImpl Q (ResourceQuota Q)) (initial max : ℤ)
      → IsInTree f
      → IsSound (
          new_multi_scheduling_queue
            (λ policy. lookup policy (queue_sort_func_map f))
            multi_queue_less
            initial
            max)
  in_tree-IsSound f initial max t =
      new_multi_scheduling_queue-IsSound _ multi_queue_less initial max λ policy less known.
        let less_is : queue_less ≡ less = ground (arith, t.policies policy) in
        rw (← less_is) queue_less-IsStrictWeak
