-- ===== src/Tests/Cares.antt =====
-- The care for a unit, at a goroutine that puts its unit back after a flush.
use kube_queue.Base.{none, List, [], ◌∷◌, inr, refl}
use kube_queue.Base.Int.{ℤ, pos}
use kube_queue.System.State.{Label, ticked, ran, storing}
use kube_queue.System.Custody.{IsCaredFor, run-IsCaredFor}
use kube_queue.Tests.Data.{info_b}
use kube_queue.Tests.Programs.{
  tree_setup, tree_setup-IsSoundSetup, loop_team, loop_team-IsSoundSystem, get_team,
  get_team-AnswersHaveConsumers,
}

abbrev puts_back : List (Label ℤ)
puts_back =
    ticked 0 (λ n. pos 9)
    ∷ ran 0 get_team (λ unit. none) (pos 8)
    ∷ ran 0 get_team (λ unit. none) (pos 9)
    ∷ []

run-IsCaredFor_example : IsCaredFor tree_setup info_b puts_back loop_team
run-IsCaredFor_example =
    run-IsCaredFor tree_setup info_b tree_setup-IsSoundSetup puts_back loop_team
      loop_team-IsSoundSystem
      (tt, (get_team-AnswersHaveConsumers, (get_team-AnswersHaveConsumers, tt)))
      (inr (0, storing 0 info_b, refl, refl))
