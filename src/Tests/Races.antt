-- ===== src/Tests/Races.antt =====
-- The theorems on Length and Pop of the loop, at a queue with one unit.
use kube_queue.Base.{
  ℕ, zero, suc, none, some, [], ◌∷◌, get_elem?, set, ◌≡◌, ◌≢◌, refl, arith, panic, value, String,
  Option, Yields-value, Yields-both,
}
use kube_queue.Base.Int.{ℤ, pos}
use kube_queue.Framework.{QueueUnitInfo, object_key, new_queue_unit_info}
use kube_queue.Heap.{GoError}
use kube_queue.Heap.View.{written}
use kube_queue.MultiSchedulingQueue.Queues.{new-view}
use kube_queue.Plugins.ResourceQuota.{ResourceQuota}
use kube_queue.SchedulingQueue
use kube_queue.SchedulingQueue.{PrioritySchedulingQueue, new_priority_scheduling_queue}
use kube_queue.SchedulingQueue.Invariant.{active, waiting, IsNow}
use kube_queue.SchedulingQueue.Methods.{add-IsNow}
use kube_queue.System.State.{Method, deleting, calling, called, popped, popping, System, start}
use kube_queue.System.Handlers.{allocate}
use kube_queue.System.Step.{run}
use kube_queue.System.Objects.{IsSoundObject, IsKeptObject, add-IsKeptObject}
use kube_queue.System.Invariant.{IsSoundSystem, set-IsSoundHeap}
use kube_queue.System.Races.{called-popped-panic}
use kube_queue.Tests.Data.{unit_a}
use kube_queue.Tests.Programs.{
  tree_setup, tree_setup-IsSoundSetup, joined_team, joined_team-IsSoundSystem, new_team, team_held,
  variables_are,
}

team_sound : IsSoundObject new_team
team_sound = joined_team-IsSoundSystem.heap.sound 0 new_team team_held

-- The queue with the first unit.
added_team :
    (r : PrioritySchedulingQueue ℤ × Option (GoError (QueueUnitInfo ℤ))) × (SchedulingQueue.add
        new_team unit_a
        (pos 1)
        (pos 1)
      ≡ value r)
    × IsNow team_sound.less new_team
        (written "team/a" (new_queue_unit_info unit_a (pos 1) (pos 1)) (active new_team))
        (waiting new_team)
        r
    × IsKeptObject new_team r.0
added_team =
    let (r, e, (now, kept)) = Yields-value (
      Yields-both (add-IsNow team_sound.weak new_team team_sound.valid unit_a (pos 1) (pos 1))
        (add-IsKeptObject new_team team_sound unit_a (pos 1) (pos 1) refl)) in
    (r, e, now, kept)

abbrev team_a : PrioritySchedulingQueue ℤ
team_a = (added_team.0).0

-- The loop is about to pop the queue, and a handler is about to delete its unit.
abbrev popping_team : System ℤ (ResourceQuota ℤ)
popping_team = record joined_team {
  objects = set joined_team.objects 0 team_a;
  handlers = calling 0 (deleting unit_a) ∷ [];
  position = popping;
  variables = some 0 ∷ [];
}

handlers_are :
    (j i : ℕ) (m : Method ℤ)
    → get_elem? (calling 0 (deleting unit_a) ∷ []) j ≡ some (calling i m)
    → (0 ≡ i) × (deleting unit_a ≡ m)
handlers_are zero i m e = (ground arith, ground arith)
handlers_are (suc j) i m e = absurd (ground arith)

popping_team-IsSoundSystem : IsSoundSystem popping_team
unfolding allocate start
popping_team-IsSoundSystem = record {
  heap = set-IsSoundHeap joined_team-IsSoundSystem.heap 0 new_team team_a team_held (added_team.3);
  calls = λ j i m e.
      let (address_is, method_is) = handlers_are j i m e in
      rw (← address_is, ← method_is) (omega arith, tt);
  below = record {
    todo_below = λ n i e. absurd (ground arith);
    variables_below = λ n i e. omega (arith, variables_are n i e);
  };
  control = record {
    opened = λ n i e. absurd (ground arith);
    stands = (0, refl);
    waits = λ j g e. absurd (ground arith);
  };
}

team_a-alone : (k : String) → object_key "team" "a" ≢ k → active team_a k ≡ none
unfolding new_priority_scheduling_queue
team_a-alone k other = rw (added_team.2).active_now (ground (arith, new-view {Q = ℤ} k, other))

called-popped-panic_example : run tree_setup (called 0 ∷ popped ∷ []) popping_team ≡ panic
unfolding allocate start
called-popped-panic_example =
    called-popped-panic tree_setup tree_setup-IsSoundSetup popping_team 0 0 team_a unit_a
      popping_team-IsSoundSystem refl refl refl refl team_a-alone
