-- ===== src/Tests/Visits.antt =====
-- The order of the queues, at two queues of different priority.
use kube_queue.Base.{ℕ, zero, suc, ◌<◌, false, some, [], ◌∷◌, text_dec, get_elem?, ◌≡◌, refl, arith}
use kube_queue.Base.Int.{ℤ, pos}
use kube_queue.Framework.{Queue}
use kube_queue.Plugins.Priority.{queue_less, multi_queue_less}
use kube_queue.Plugins.ResourceQuota.{ResourceQuota}
use kube_queue.SchedulingQueue.{new_priority_scheduling_queue}
use kube_queue.System.State.{Setup, System, start}
use kube_queue.System.Handlers.{allocate}
use kube_queue.System.Rounds.{addresses, less_at, begin}
use kube_queue.System.Invariant.{IsSoundSystem}
use kube_queue.System.Kept.{allocate-IsSoundSystem}
use kube_queue.System.Order.{IsSorting, IsByPriority, begin-IsByPriority}
use kube_queue.Tests.Data.{team}
use kube_queue.Tests.Programs.{
  tree_setup, tree_setup-IsSoundSetup, joined_team, joined_team-IsSoundSystem, known,
}

abbrev slow : Queue
slow = record team { namespace = "slow"; name = "slow"; priority = some (pos 0) }

abbrev two_teams : System ℤ (ResourceQuota ℤ)
two_teams = allocate tree_setup joined_team slow

two_teams-IsSoundSystem : IsSoundSystem two_teams
two_teams-IsSoundSystem =
    allocate-IsSoundSystem tree_setup tree_setup-IsSoundSetup joined_team joined_team-IsSoundSystem
      slow queue_less known

-- The plugin's order of queues, and a sort that suits the two queues.
abbrev visit_setup : Setup ℤ (ResourceQuota ℤ)
visit_setup = record tree_setup { less_func = multi_queue_less; sort_slice = λ round less l. l }

listed : addresses two_teams.queue_map ≡ 0 ∷ 1 ∷ []
unfolding addresses allocate start new_priority_scheduling_queue text_dec
listed = refl

not_less : less_at visit_setup two_teams.objects 1 0 ≡ false
unfolding less_at allocate start new_priority_scheduling_queue multi_queue_less
not_less = refl

ascending :
    (a b i j : ℕ)
    → a < b
    → get_elem? (0 ∷ 1 ∷ []) a ≡ some i
    → get_elem? (0 ∷ 1 ∷ []) b ≡ some j
    → (i ≡ 0) × (j ≡ 1)
ascending zero (suc zero) i j h e e' = (ground arith, ground arith)
ascending zero zero i j h e e' = absurd (omega arith)
ascending zero (suc (suc b)) i j h e e' = absurd (ground arith)
ascending (suc a) zero i j h e e' = absurd (omega arith)
ascending (suc a) (suc zero) i j h e e' = absurd (omega arith)
ascending (suc a) (suc (suc b)) i j h e e' = absurd (ground arith)

two_teams-IsSorting :
    IsSorting
      (less_at visit_setup two_teams.objects)
      (addresses two_teams.queue_map)
      (addresses two_teams.queue_map)
two_teams-IsSorting = record {
  keeps = λ n i e. (n, e);
  same_length = refl;
  ordered = λ weak a b i j h e e'.
      let (i_is, j_is) = ascending a b i j h (rw (← listed) e) (rw (← listed) e') in
      rw (i_is, j_is) not_less;
}

begin-IsByPriority_example :
    IsByPriority visit_setup two_teams two_teams-IsSoundSystem refl
      (begin visit_setup two_teams).todo
begin-IsByPriority_example =
    begin-IsByPriority visit_setup two_teams two_teams-IsSoundSystem refl two_teams-IsSorting
