-- ===== src/Tests/Data.antt =====
-- The concrete states that the tests use: two units of one namespace, a queue with one of them
-- active and one in backoff, and a quota plugin over whole numbers.
use kube_queue.Base.{
  ℕ, zero, suc, String, true, false, Option, none, some, [], ◌∷◌, Dict, lookup, text_dec, ite, ◌≡◌,
  refl, arith, get_elem?, ok,
}
use kube_queue.Base.Int.{ℤ, pos, ◌+ℤ◌, ◌-ℤ◌, -ℤ_parts}
use kube_queue.Heap
use kube_queue.Heap.{Data}
use kube_queue.Heap.View.{view, index_of, IsWellFormed}
use kube_queue.Framework.{ObjectReference, QueueUnit, QueueUnitInfo, Queue}
use kube_queue.SchedulingQueue.{PrioritySchedulingQueue, QueueLess, nil_channel}
use kube_queue.SchedulingQueue.Invariant.{IsValid, IsKeyed}
use kube_queue.MultiSchedulingQueue.{MultiSchedulingQueue, get_queue_by_name}
use kube_queue.MultiSchedulingQueue.Queues.{IsSound}
use kube_queue.Plugins.Priority.{queue_less, queue_less-IsStrictWeak, multi_queue_less}
use kube_queue.Plugins.ResourceQuota.{Quantity, IsExact, IsByValue, QuotaObject, ResourceQuota}
use kube_queue.Plugins.ResourceQuota.Entries.{IsMap, empty, entry}

abbrev pub consumer : ObjectReference
consumer = record { namespace = "team"; name = "job" }

abbrev pub unit_a : QueueUnit ℤ
unit_a = record {
  namespace = "team";
  name = "a";
  consumer_ref = some consumer;
  priority = some (pos 1);
  resource = ("cpu", pos 2) ∷ [];
  phase = "";
  message = "";
}

abbrev pub unit_b : QueueUnit ℤ
unit_b = record unit_a { name = "b"; priority = none }

abbrev pub info_a : QueueUnitInfo ℤ
info_a = record {
  name = "team/a";
  unit = unit_a;
  timestamp = pos 0;
  attempts = 0;
  initial_attempt_timestamp = pos 0;
}

abbrev pub info_b : QueueUnitInfo ℤ
info_b = record {
  name = "team/b";
  unit = unit_b;
  timestamp = pos 5;
  attempts = 3;
  initial_attempt_timestamp = pos 1;
}

-- A heap with one object.
abbrev pub single : String → QueueUnitInfo ℤ → Data (QueueUnitInfo ℤ)
single k u = record { items = (k, record { obj = u; index = 0 }) ∷ []; queue = k ∷ [] }

single-listed :
    (k : String) (u : QueueUnitInfo ℤ) (i : ℕ) (j : String)
    → get_elem? (single k u).queue i ≡ some j
    → index_of (single k u) j ≡ some i
unfolding index_of lookup
single-listed k u zero j e = ground arith
single-listed k u (suc i) j e = absurd (ground arith)

single-placed :
    (k : String) (u : QueueUnitInfo ℤ) (i : ℕ) (j : String)
    → index_of (single k u) j ≡ some i
    → get_elem? (single k u).queue i ≡ some j
unfolding index_of lookup
single-placed k u zero j e = ground arith
single-placed k u (suc i) j e = absurd (ground arith)

pub single-IsWellFormed :
    (lt : QueueLess ℤ) (k : String) (u : QueueUnitInfo ℤ) → IsWellFormed lt (single k u)
unfolding Heap.len
single-IsWellFormed lt k u = record {
  consistent = record { listed = single-listed k u; placed = single-placed k u };
  heap = λ c a b. absurd (omega arith);
}

single-IsKeyed : (k : String) (u : QueueUnitInfo ℤ) → u.name ≡ k → IsKeyed (view (single k u))
unfolding view lookup
single-IsKeyed k u e j x h = ground arith

abbrev pub team : Queue
team = record { namespace = "team"; name = "team"; queue_policy = "Priority"; priority = none }

abbrev pub queue_ab : PrioritySchedulingQueue ℤ
queue_ab = record {
  name = "team";
  plugin_name = "Priority";
  less_fn = some queue_less;
  items = single "team/a" info_a;
  backoff_q = single "team/b" info_b;
  queue = record { name = "team"; queue = team };
  pod_initial_backoff_duration = pos 1_000_000_000;
  pod_max_backoff_duration = pos 10_000_000_000;
  stop = nil_channel;
  closed = false;
  run = true;
  flushers = 1;
}

pub queue_ab-IsValid : IsValid queue_less queue_ab
queue_ab-IsValid = record {
  policy = refl;
  items_wf = single-IsWellFormed _ "team/a" info_a;
  backoff_wf = single-IsWellFormed _ "team/b" info_b;
  items_keyed = single-IsKeyed "team/a" info_a refl;
  backoff_keyed = single-IsKeyed "team/b" info_b refl;
}

abbrev pub policies : String → Option (QueueLess ℤ)
policies policy = ite (text_dec "Priority" policy) (some queue_less) none

abbrev pub queues : MultiSchedulingQueue ℤ
queues = record {
  queue_sort_func_map = policies;
  queue_map = ("team", queue_ab) ∷ [];
  less_func = multi_queue_less;
  pod_initial_backoff_seconds = pos 1;
  pod_max_backoff_seconds = pos 10;
}

pub queues-IsSound : IsSound queues
unfolding get_queue_by_name lookup
queues-IsSound = record {
  policies = λ policy less known.
      let less_is : queue_less ≡ less = ground arith in rw (← less_is) queue_less-IsStrictWeak;
  queues = λ k q e.
      let key_is : "team" ≡ k = ground arith in
      let queue_is : queue_ab ≡ q = ground arith in
      rw (← key_is, ← queue_is)
        (record {
          less = queue_less;
          weak = queue_less-IsStrictWeak;
          valid = queue_ab-IsValid;
          named = refl;
          flushed = refl;
          stopless = refl;
        });
}

-- Quantities that are whole numbers.
abbrev pub whole : Quantity ℤ
whole = record {
  new_quantity = λ n. n;
  add = ◌+ℤ◌;
  sub = ◌-ℤ◌;
  sign = λ a. a;
  cmp = ◌-ℤ◌;
  value_text = λ a. "";
  by_pointer = λ a. false;
}

pub whole-IsByValue : IsByValue whole
whole-IsByValue = record { in_struct = λ a. refl }

pub whole-IsExact : IsExact whole (λ a. a)
whole-IsExact = record {
  of_zero = refl;
  of_add = λ a b. refl;
  of_sub = λ a b. refl;
  of_sign = λ a. refl;
  of_cmp = λ a b. ground (arith, -ℤ_parts a b);
}

abbrev pub limits : Dict ℤ
limits = ("cpu", pos 10) ∷ []

abbrev pub basket : QuotaObject ℤ
basket = record { name = "team"; namespace = "team"; hard = some limits }

-- A plugin that has reserved 3 of a resource for another unit.
abbrev pub quota : ResourceQuota ℤ
quota = record {
  reserved = ("team", ("cpu", pos 3) ∷ []) ∷ [];
  qu_record = [];
  rq_lister = λ ns. ok (basket ∷ []);
}

-- An informer that delivers or removes the one object of the lister.
abbrev pub relisted_quota : ℕ → ResourceQuota ℤ → ResourceQuota ℤ
relisted_quota zero rq = record rq { rq_lister = λ ns. ok [] }
relisted_quota (suc n) rq = record rq { rq_lister = λ ns. ok (basket ∷ []) }

pub resource_a-IsMap : IsMap unit_a.resource
unfolding lookup
resource_a-IsMap = entry refl empty
