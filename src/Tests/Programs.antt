-- ===== src/Tests/Programs.antt =====
-- The theorems on the whole program, at the setup of the plugins of the tree and concrete steps.
use kube_queue.Base.{
  zero, suc, ℕ, suc, true, Option, none, some, List, [], ◌∷◌, length, get_elem?, set, text_dec, ◌≡◌,
  ◌⊎◌, refl, arith, Yields, Yields-value, value, panic, Result, ok,
}
use kube_queue.Base.Int.{ℤ, pos}
use kube_queue.Framework.{QueueUnit, QueueUnitInfo}
use kube_queue.Heap.{GoError}
use kube_queue.Plugins.Priority.{queue_less}
use kube_queue.SchedulingQueue
use kube_queue.SchedulingQueue.{PrioritySchedulingQueue, new_priority_scheduling_queue}
use kube_queue.Controller.Events.{
  queue_added, queue_updated, unit_added, unit_deleted, added, updated, joined, left,
}
use kube_queue.Controller.Construction.{new_controller-IsSoundSetup}
use kube_queue.Plugins.ResourceQuota.{ResourceQuota}
use kube_queue.Scheduler.{failed_unit}
use kube_queue.System.State.{
  Goroutine, storing, Label, handled, called, ticked, relisted, began, visited, popped, filtered,
  reserved, ran, Setup, System, start, looping,
}
use kube_queue.System.Handlers.{allocate}
use kube_queue.System.Rounds.{begin}
use kube_queue.System.Step.{run}
use kube_queue.System.Objects.{AnswersHaveConsumers, IsKeptObject, add-IsKeptObject}
use kube_queue.System.Invariant.{IsSoundSetup, IsSoundSystem, IsSoundGoroutine, ArePossible}
use kube_queue.System.Kept.{start-IsSoundSystem, allocate-IsSoundSystem, set-IsSoundSystem}
use kube_queue.System.Race.{Races}
use kube_queue.System.Runs.{start-run}
use kube_queue.SchedulingQueue.Invariant.{active, waiting}
use kube_queue.MultiSchedulingQueue.Queues.{new-view}
use kube_queue.System.LoopVariable.{HasWaiting, visited-ran-HasWaiting}
use kube_queue.System.Pass.{pass_steps, EndsPass, schedule-EndsPass}
use kube_queue.Tests.Data.{info_b, consumer, unit_a, unit_b, team, quota, relisted_quota, whole}

-- The setup of the plugins of the tree, with a sort that leaves the list as it is.
abbrev pub tree_setup : Setup ℤ (ResourceQuota ℤ)
tree_setup =
    (new_controller-IsSoundSetup whole true (pos 1) (pos 20) (λ round less l. l) relisted_quota
      λ round less l n i e. (n, e)).0

pub tree_setup-IsSoundSetup : IsSoundSetup tree_setup
tree_setup-IsSoundSetup =
    (new_controller-IsSoundSetup whole true (pos 1) (pos 20) (λ round less l. l) relisted_quota
      λ round less l n i e. (n, e)).4

pub known : tree_setup.queue_sort_func_map "Priority" ≡ some queue_less
unfolding text_dec
known =
    (new_controller-IsSoundSetup whole true (pos 1) (pos 20) (λ round less l. l) relisted_quota
        λ round less l n i e. (n, e)).2
      "Priority"

-- The API returns the object that it was asked for, with a consumer.
abbrev pub get_team : QueueUnit ℤ → Result (QueueUnit ℤ)
get_team unit = ok (record unit { consumer_ref = some consumer })

pub get_team-AnswersHaveConsumers : AnswersHaveConsumers get_team
get_team-AnswersHaveConsumers unit unit' e =
    let unit_is : record unit { consumer_ref = some consumer } ≡ unit' = ground (arith, e) in
    rw (← unit_is) refl

-- A queue joins with two units; while the first one is scheduled, the queue is replaced.
abbrev interleaved : List (Label ℤ)
interleaved =
    handled (queue_added team)
    ∷ handled (unit_added unit_a (pos 1) (pos 1))
    ∷ called 0
    ∷ handled (unit_added unit_b (pos 2) (pos 2))
    ∷ began
    ∷ visited
    ∷ called 1
    ∷ popped
    ∷ filtered
    ∷ handled (queue_updated team team)
    ∷ reserved
    ∷ ticked 0 (λ n. pos 9)
    ∷ ran 0 get_team (λ unit. some "conflict") (pos 3)
    ∷ ran 0 get_team (λ unit. none) (pos 4)
    ∷ ran 0 get_team (λ unit. none) (pos 5)
    ∷ ran 0 get_team (λ unit. none) (pos 6)
    ∷ handled (unit_deleted unit_b)
    ∷ called 2
    ∷ relisted 0
    ∷ []

interleaved-ArePossible : ArePossible tree_setup.queue_sort_func_map interleaved
interleaved-ArePossible = (
  added known,
  (
    joined refl,
    (
      tt,
      (
        joined refl,
        (
          tt,
          (
            tt,
            (
              tt,
              (
                tt,
                (
                  tt,
                  (
                    updated known,
                    (
                      tt,
                      (
                        tt,
                        (
                          get_team-AnswersHaveConsumers,
                          (
                            get_team-AnswersHaveConsumers,
                            (
                              get_team-AnswersHaveConsumers,
                              (get_team-AnswersHaveConsumers, (left refl, (tt, (tt, tt)))),
                            ),
                          ),
                        ),
                      ),
                    ),
                  ),
                ),
              ),
            ),
          ),
        ),
      ),
    ),
  ),
)

start-run_example :
    Yields IsSoundSystem (run tree_setup interleaved (start quota))
    ⊎ (Races tree_setup interleaved (start quota)
        × (run tree_setup interleaved (start quota) ≡ panic))
start-run_example =
    start-run tree_setup tree_setup-IsSoundSetup interleaved quota interleaved-ArePossible

-- The program once a queue has joined, and once it has a unit.
abbrev pub joined_team : System ℤ (ResourceQuota ℤ)
joined_team = allocate tree_setup (start quota) team

pub joined_team-IsSoundSystem : IsSoundSystem joined_team
joined_team-IsSoundSystem =
    allocate-IsSoundSystem tree_setup tree_setup-IsSoundSetup (start quota)
      (start-IsSoundSystem tree_setup tree_setup-IsSoundSetup quota) team queue_less known

abbrev pub new_team : PrioritySchedulingQueue ℤ
new_team =
    new_priority_scheduling_queue tree_setup.queue_sort_func_map "team" "Priority"
      tree_setup.pod_initial_backoff_seconds tree_setup.pod_max_backoff_seconds team

pub team_held : get_elem? joined_team.objects 0 ≡ some new_team
unfolding allocate start
team_held = refl

team_add :
    (r : PrioritySchedulingQueue ℤ × Option (GoError (QueueUnitInfo ℤ))) × (SchedulingQueue.add
        new_team unit_a
        (pos 1)
        (pos 1)
      ≡ value r)
    × IsKeptObject new_team r.0
team_add = Yields-value (
    add-IsKeptObject new_team (joined_team-IsSoundSystem.heap.sound 0 new_team team_held) unit_a
      (pos 1) (pos 1) refl)

abbrev busy_team : System ℤ (ResourceQuota ℤ)
busy_team = record joined_team { objects = set joined_team.objects 0 (team_add.0).0 }

busy_team-IsSoundSystem : IsSoundSystem busy_team
busy_team-IsSoundSystem =
    set-IsSoundSystem tree_setup tree_setup-IsSoundSetup joined_team joined_team-IsSoundSystem 0
      new_team (team_add.0).0 team_held team_add.2

busy_team-looping : (busy_team.position ≡ looping) × (busy_team.todo ≡ [])
unfolding allocate start
busy_team-looping = (refl, refl)

schedule-EndsPass_example :
    Yields
      (EndsPass tree_setup tree_setup-IsSoundSetup
        (λ n. get_team)
        (λ n. pos 9)
        (λ n. get_team-AnswersHaveConsumers)
        (suc (length busy_team.variables)))
      (run tree_setup
        (began ∷ pass_steps (λ n. get_team) (λ n. pos 9) (length (begin tree_setup busy_team).todo))
        busy_team)
schedule-EndsPass_example =
    schedule-EndsPass tree_setup tree_setup-IsSoundSetup (λ n. get_team) (λ n. pos 9)
      (λ n. get_team-AnswersHaveConsumers) busy_team busy_team-IsSoundSystem busy_team-looping.0
      busy_team-looping.1

-- The loop at the only queue, and a goroutine of this call of schedule that holds a unit.
abbrev pub loop_team : System ℤ (ResourceQuota ℤ)
loop_team = record joined_team {
  todo = 0 ∷ [];
  variables = some 0 ∷ [];
  goroutines = storing 0 info_b ∷ [];
}

pub todo_is : (n i : ℕ) → get_elem? (0 ∷ []) n ≡ some i → i ≡ 0
todo_is zero i e = ground arith
todo_is (suc n) i e = absurd (ground arith)

pub variables_are : (n i : ℕ) → get_elem? (some 0 ∷ []) n ≡ some (some i) → i ≡ 0
variables_are zero i e = ground arith
variables_are (suc n) i e = absurd (ground arith)

goroutines_are :
    (n : ℕ) (g : Goroutine ℤ)
    → get_elem? (storing 0 info_b ∷ []) n ≡ some g
    → IsSoundGoroutine (some 0 ∷ []) g
goroutines_are zero g e =
    let goroutine_is : storing 0 info_b ≡ g = ground arith in rw (← goroutine_is) (0, refl)
goroutines_are (suc n) g e = absurd (ground arith)

pub loop_team-IsSoundSystem : IsSoundSystem loop_team
unfolding allocate start
loop_team-IsSoundSystem = record {
  heap = joined_team-IsSoundSystem.heap;
  calls = λ j i m e. absurd (ground arith);
  below = record {
    todo_below = λ n i e. omega (arith, todo_is n i e);
    variables_below = λ n i e. omega (arith, variables_are n i e);
  };
  control = record { opened = λ n i e. omega arith; stands = tt; waits = goroutines_are };
}

team_empty : (active new_team "team/b" ≡ none) × (waiting new_team "team/b" ≡ none)
unfolding new_priority_scheduling_queue
team_empty = (new-view {Q = ℤ} "team/b", new-view {Q = ℤ} "team/b")

visited-ran-HasWaiting_example :
    Yields (HasWaiting tree_setup 0 (failed_unit info_b (pos 9) unit_b)) (
      run tree_setup
        (visited
          ∷ ran 0 (λ unit. ok unit) (λ unit. none) (pos 8)
          ∷ ran 0 (λ unit. ok unit) (λ unit. none) (pos 9)
          ∷ [])
        loop_team)
visited-ran-HasWaiting_example =
    visited-ran-HasWaiting tree_setup info_b (λ unit. ok unit) (λ unit. none) (pos 8) (pos 9) unit_b
      refl loop_team 0 0 [] new_team loop_team-IsSoundSystem busy_team-looping.0 refl refl team_held
      team_empty.0 team_empty.1
