-- ===== src/System/Step.antt =====
-- The steps of the program, in any order.
use kube_queue.Base.{none, some, List, [], ◌∷◌, get_elem?, Outcome, value, ◌>>=◌}
use kube_queue.Controller.{add_dequeued_queue_unit, delete_dequeued_queue_unit}
use kube_queue.System.State.{
  Label, handled, dequeued_added, dequeued_deleted, called, ticked, relisted, began, visited,
  popped, filtered, reserved, put_back, ran, Setup, System,
}
use kube_queue.System.Handlers.{call_handler, handle, tick}
use kube_queue.System.Rounds.{run_goroutine, schedule_step}

module _ {ℓ} {Q S : Type ℓ} where
  -- A step of the program; a label of which nothing waits changes nothing.
  unfoldable pub step : Setup Q S → Label Q → System Q S → Outcome (System Q S)
  unfolding handle call_handler tick schedule_step run_goroutine add_dequeued_queue_unit
      delete_dequeued_queue_unit
  step setup (handled e) s = handle setup s e
  step setup (dequeued_added u now later) s =
      value (record s { plugins = add_dequeued_queue_unit setup.fw s.plugins u now later })
  step setup (dequeued_deleted u now later) s =
      value (record s { plugins = delete_dequeued_queue_unit setup.fw s.plugins u now later })
  step setup (called j) s = elim (get_elem? s.handlers j) [
    | none ↦ value s
    | some h ↦ call_handler s j h
  ]
  step setup (ticked i clock) s = tick s i clock
  step setup (relisted n) s = value (record s { plugins = setup.relist n s.plugins })
  step setup (ran j get update now) s = elim (get_elem? s.goroutines j) [
    | none ↦ value s
    | some g ↦ run_goroutine setup s j g get update now
  ]
  step setup began s = schedule_step setup began s.position s.todo s
  step setup visited s = schedule_step setup visited s.position s.todo s
  step setup popped s = schedule_step setup popped s.position s.todo s
  step setup filtered s = schedule_step setup filtered s.position s.todo s
  step setup reserved s = schedule_step setup reserved s.position s.todo s
  step setup (put_back get now) s = schedule_step setup (put_back get now) s.position s.todo s

  -- A run of the program.
  unfoldable pub run : Setup Q S → List (Label Q) → System Q S → Outcome (System Q S)
  unfolding step
  run setup [] s = value s
  run setup (l ∷ ls) s = step setup l s >>= λ s'. run setup ls s'
