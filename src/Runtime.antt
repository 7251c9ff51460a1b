-- ===== src/Runtime.antt =====
-- pkg/framework/runtime/framework.go and registry.go: the framework that calls the plugins. `S` is
-- the state of the plugins. A type assertion on a plugin is an optional part of it.
pub mod Filters
use kube_queue.Base.{
  String, Bool, true, false, Option, none, some, List, [], ◌∷◌, ◌++◌, Dict, insert, lookup,
  if◌then◌else◌, Outcome, value, ◌>>=◌,
}
use kube_queue.Base.{Result, ok, failed}
use kube_queue.Framework.{QueueInfo, QueueUnitInfo, Status, Code, new_status, success, is_success}
use kube_queue.SchedulingQueue.{QueueLess}

module _ {ℓ} (Q S : Type ℓ) where
  abbrev pub FilterPlugin : Type ℓ
  FilterPlugin = S → QueueUnitInfo Q → Outcome Status

  pub record ReservePlugin : Type ℓ where
    pub reserve : S → QueueUnitInfo Q → S × Status
    pub unreserve : S → QueueUnitInfo Q → S

  -- A plugin, with the interfaces that it implements.
  pub record Plugin : Type ℓ where
    pub name : String
    pub queue_sort : Option (QueueLess Q)
    pub multi_queue_sort : Option (QueueInfo → QueueInfo → Bool)
    pub filter : Option FilterPlugin
    pub reserving : Option ReservePlugin

  -- The factories by name, in the order in which Go ranges over them, each applied to its arguments.
  abbrev pub Registry : Type ℓ
  Registry = Dict (Result Plugin)

  pub record FrameworkImpl : Type ℓ where
    pub multi_queue_sort_plugin : Option (QueueInfo → QueueInfo → Bool)
    pub filter_plugins : List FilterPlugin
    pub queue_sort_plugins : List (String × QueueLess Q)
    pub reserve_plugins : List ReservePlugin

-- `if i, ok := p.(T); ok { list = append(list, i) }`
abbrev appended {ℓ} : {A : Type ℓ} → List A → Option A → List A
appended l none = l
appended l (some a) = l ++ a ∷ []

-- `if i, ok := p.(T); ok { v = i }`
abbrev replaced {ℓ} : {A : Type ℓ} → Option A → Option A → Option A
replaced v none = v
replaced v (some a) = some a

-- A plugin with its name.
abbrev named {ℓ} : {A : Type ℓ} → String → Option A → Option (String × A)
named name none = none
named name (some a) = some (name, a)

-- The loop of QueueSortFuncMap, from the map so far.
unfoldable pub queue_sort_entries {ℓ} :
    {Q : Type ℓ} → List (String × QueueLess Q) → Dict (QueueLess Q) → Dict (QueueLess Q)
queue_sort_entries [] acc = acc
queue_sort_entries ((name, less) ∷ rest) acc = queue_sort_entries rest (insert name less acc)

module _ {ℓ} {Q S : Type ℓ} where
  unfoldable pub queue_sort_func_map : FrameworkImpl Q S → Dict (QueueLess Q)
  unfolding queue_sort_entries
  queue_sort_func_map f = queue_sort_entries f.queue_sort_plugins []

  unfoldable pub run_filters : List (FilterPlugin Q S) → S → QueueUnitInfo Q → Outcome Status
  run_filters [] s unit = value (new_status success "")
  run_filters (pl ∷ rest) s unit = pl s unit >>= λ status. elim (is_success status.code) [
    | true ↦ run_filters rest s unit
    | false ↦ value status
  ]

  unfoldable pub run_filter_plugins : FrameworkImpl Q S → S → QueueUnitInfo Q → Outcome Status
  unfolding run_filters
  run_filter_plugins f s unit = run_filters f.filter_plugins s unit

  -- The reservations of the plugins before one that fails stay.
  unfoldable pub run_reserves : List (ReservePlugin Q S) → S → QueueUnitInfo Q → S × Status
  run_reserves [] s unit = (s, new_status success "")
  run_reserves (pl ∷ rest) s unit =
      let (s', status) = pl.reserve s unit in
      let later = run_reserves rest s' unit in
      if is_success status.code then later else (s', status)

  unfoldable pub run_reserve_plugins_reserve : FrameworkImpl Q S → S → QueueUnitInfo Q → S × Status
  unfolding run_reserves
  run_reserve_plugins_reserve f s unit = run_reserves f.reserve_plugins s unit

  unfoldable pub run_unreserves : List (ReservePlugin Q S) → S → QueueUnitInfo Q → S
  run_unreserves [] s unit = s
  run_unreserves (pl ∷ rest) s unit = run_unreserves rest (pl.unreserve s unit) unit

  unfoldable pub run_reserve_plugins_unreserve : FrameworkImpl Q S → S → QueueUnitInfo Q → S
  unfolding run_unreserves
  run_reserve_plugins_unreserve f s unit = run_unreserves f.reserve_plugins s unit

  -- One plugin in the loop of NewFramework.
  unfoldable pub register : FrameworkImpl Q S → Plugin Q S → FrameworkImpl Q S
  register f p = record {
    multi_queue_sort_plugin = replaced f.multi_queue_sort_plugin p.multi_queue_sort;
    filter_plugins = appended f.filter_plugins p.filter;
    queue_sort_plugins = appended f.queue_sort_plugins (named p.name p.queue_sort);
    reserve_plugins = appended f.reserve_plugins p.reserving;
  }

  unfoldable pub register_all : Registry Q S → FrameworkImpl Q S → Result (FrameworkImpl Q S)
  unfolding register
  register_all [] f = ok f
  register_all ((k, failed err) ∷ rest) f = failed err
  register_all ((k, ok p) ∷ rest) f = register_all rest (register f p)

  unfoldable pub new_framework : Registry Q S → Result (FrameworkImpl Q S)
  unfolding register_all
  new_framework r = register_all r (record {
    multi_queue_sort_plugin = none;
    filter_plugins = [];
    queue_sort_plugins = [];
    reserve_plugins = [];
  })
