-- ===== src/System/Pass.antt =====
-- One pass of the scheduler over the sorted queues, step by step with nothing in between.
use mathlib.Core.Path.{subst}
use kube_queue.Base.{
  ℕ, zero, suc, ◌-◌, Option, none, some, List, [], ◌∷◌, ◌++◌, Dict, length, set, length-set,
  length-append, get_elem?-some, ◌≡◌, refl, ◌∙◌, sym, Result, arith, Outcome, value, panic,
  out_of_fuel, ◌>>=◌, Yields, yields, Yields-weaken, Yields-bind, Yields-value, Yields-held,
  bind-value,
}
use kube_queue.Framework.{QueueUnit, Time}
use kube_queue.SchedulingQueue.{PrioritySchedulingQueue}
use kube_queue.Scheduler.{Scheduled, schedule_queue}
use kube_queue.System.State.{
  Handler, Position, looping, Goroutine, Label, began, visited, popped, filtered, reserved,
  put_back, Setup, System,
}
use kube_queue.System.Rounds.{begin, schedule_step}
use kube_queue.System.Step.{step, run}
use kube_queue.System.Objects.{AnswersHaveConsumers}
use kube_queue.System.Invariant.{IsSoundSetup, IsSoundSystem}
use kube_queue.System.Soundness.{step-IsSoundSystem}
use kube_queue.System.Popping.{visited-visit, visit-IsSoundSystem}
use kube_queue.System.Alone.{started, left_by, schedule_queue-run}
use kube_queue.System.Loop.{begin-IsSoundSystem}

module _ {ℓ} {Q : Type ℓ} where
  -- The steps for one queue, and for `n` queues, with the answers of the API and the clock.
  abbrev pub queue_steps : (QueueUnit Q → Result (QueueUnit Q)) → Time → List (Label Q)
  queue_steps get now = visited ∷ popped ∷ filtered ∷ reserved ∷ put_back get now ∷ []

  abbrev pub pass_steps : (ℕ → QueueUnit Q → Result (QueueUnit Q)) → (ℕ → Time) → ℕ → List (Label Q)
  pass_steps get now zero = []
  pass_steps get now (suc n) = queue_steps (get n) (now n) ++ pass_steps get now n

bind-run {ℓ} :
    {A : Type ℓ} (m : Outcome A) (f g h : A → Outcome A)
    → ((a : A) → f a ≡ (g a >>= h))
    → (m >>= f) ≡ ((m >>= g) >>= h)
bind-run panic f g h same = refl
bind-run out_of_fuel f g h same = refl
bind-run (value a) f g h same = same a

module _ {ℓ} {Q S : Type ℓ} where
  run-append :
      (setup : Setup Q S) (ls ls' : List (Label Q)) (s : System Q S)
      → run setup (ls ++ ls') s ≡ (run setup ls s >>= (λ s'. run setup ls' s'))
  unfolding run
  run-append setup [] ls' s = refl
  run-append setup (l ∷ ls) ls' s = bind-run (step setup l s) _ _ _ (run-append setup ls ls')

module _ {ℓ} {Q S : Type ℓ} (setup : Setup Q S) (ok_setup : IsSoundSetup setup)
    (get : ℕ → QueueUnit Q → Result (QueueUnit Q)) (now : ℕ → Time)
    (have : (n : ℕ) → AnswersHaveConsumers (get n)) where
  -- A sound system at the end of a pass.
  abbrev pub EndsPass : ℕ → System Q S → Type ℓ
  EndsPass round s =
      IsSoundSystem s × (s.position ≡ looping) × (s.todo ≡ []) × (length s.variables ≡ round)

  abbrev program :
      List (PrioritySchedulingQueue Q)
      → Dict ℕ
      → List (Handler Q)
      → S
      → List ℕ
      → List (Option ℕ)
      → List (Goroutine Q)
      → System Q S
  program objects queue_map handlers plugins todo variables goroutines = record {
    objects = objects;
    queue_map = queue_map;
    handlers = handlers;
    plugins = plugins;
    position = looping;
    todo = todo;
    variables = variables;
    goroutines = goroutines;
  }

  queue_steps-IsSoundSystem :
      (i : ℕ) (rest : List ℕ) (s : System Q S) (n : ℕ)
      → IsSoundSystem s
      → s.position ≡ looping
      → s.todo ≡ i ∷ rest
      → Yields IsSoundSystem (run setup (queue_steps (get n) (now n)) s)
  unfolding run step
  queue_steps-IsSoundSystem i rest s n inv stands left_is =
      let next = step-IsSoundSystem setup ok_setup in
      rw (visited-visit setup s s.position s.todo i rest stands left_is) (
        Yields-bind (visit-IsSoundSystem setup ok_setup s inv i rest stands left_is)
          λ s1 (inv1, pops). Yields-bind (next popped s1 inv1 tt pops) λ s2 inv2.
            Yields-bind (next filtered s2 inv2 tt tt) λ s3 inv3.
              Yields-bind (next reserved s3 inv3 tt tt) λ s4 inv4.
                Yields-bind (next (put_back (get n) (now n)) s4 inv4 (have n) tt)
                  λ s5 inv5. yields inv5)

  -- The steps for one queue end in what schedule_queue leaves.
  queue_steps-left_by :
      (i : ℕ) (rest : List ℕ) (objects : List (PrioritySchedulingQueue Q)) (queue_map : Dict ℕ)
      (handlers : List (Handler Q)) (plugins : S) (variables : List (Option ℕ))
      (goroutines : List (Goroutine Q)) (n : ℕ)
      → IsSoundSystem (program objects queue_map handlers plugins (i ∷ rest) variables goroutines)
      → (r : Scheduled Q S) × (run setup
            (queue_steps (get n) (now n))
            (program objects queue_map handlers plugins (i ∷ rest) variables goroutines)
          ≡ value (left_by setup objects queue_map handlers rest variables goroutines i r))
        × IsSoundSystem (left_by setup objects queue_map handlers rest variables goroutines i r)
  queue_steps-left_by i rest objects queue_map handlers plugins variables goroutines n inv =
      let below = inv.below.todo_below 0 i refl in
      let opened = inv.control.opened 0 i refl in
      let (q, there) = get_elem?-some objects i below in
      let sound =
        queue_steps-IsSoundSystem i rest
          (program objects queue_map handlers plugins (i ∷ rest) variables goroutines) n inv refl
          refl in
      let (s', ran, inv') = Yields-value sound in
      let (r, scheduled, left_is) = bind-value (schedule_queue setup.fw (get n) (now n) q plugins) (
        sym (
          schedule_queue-run setup objects queue_map handlers rest variables goroutines i (get n)
            (now n) below opened q plugins there)
        ∙ ran) in
      (r, ran ∙ sym left_is, Yields-held (subst (Yields IsSoundSystem) (ran ∙ sym left_is) sound))

  pass_steps-EndsPass :
      (todo : List ℕ) (objects : List (PrioritySchedulingQueue Q)) (queue_map : Dict ℕ)
      (handlers : List (Handler Q)) (plugins : S) (variables : List (Option ℕ))
      (goroutines : List (Goroutine Q))
      → IsSoundSystem (program objects queue_map handlers plugins todo variables goroutines)
      → Yields (EndsPass (length variables)) (
          run setup
            (pass_steps get now (length todo))
            (program objects queue_map handlers plugins todo variables goroutines))
  unfolding run
  pass_steps-EndsPass [] objects queue_map handlers plugins variables goroutines inv =
      yields (inv, refl, refl, refl)
  pass_steps-EndsPass (i ∷ rest) objects queue_map handlers plugins variables goroutines inv =
      let n = length rest in
      let (r, ran, inv') =
        queue_steps-left_by i rest objects queue_map handlers plugins variables goroutines n inv in
      rw (run-append setup (queue_steps (get n) (now n)) (pass_steps get now n), ran)
        (Yields-weaken
          (pass_steps-EndsPass rest (set objects i r.queue) queue_map handlers r.plugins
            (set variables (length variables - 1) (some i))
            (started setup objects queue_map handlers rest variables goroutines i r.dequeued) inv')
          λ s' (inv, stands, done, same_length).
            (inv, stands, done, same_length ∙ length-set variables (length variables - 1) (some i)))

  pass_steps-EndsPass_from :
      (s : System Q S) (position : Position Q)
      → position ≡ looping
      → IsSoundSystem (record s { position = position })
      → Yields
          (EndsPass (length s.variables))
          (run setup (pass_steps get now (length s.todo)) (record s { position = position }))
  pass_steps-EndsPass_from s position stands inv =
      subst
        (λ p.
          IsSoundSystem (record s { position = p })
          → Yields (EndsPass (length s.variables))
              (run setup (pass_steps get now (length s.todo)) (record s { position = p })))
        (sym stands)
        (pass_steps-EndsPass s.todo s.objects s.queue_map s.handlers s.plugins s.variables
          s.goroutines)
        inv

  began-begin :
      (s : System Q S) (position : Position Q) (todo : List ℕ)
      → position ≡ looping
      → todo ≡ []
      → schedule_step setup began position todo s ≡ value (begin setup s)
  unfolding schedule_step
  began-begin s position todo stands done = rw (stands, done, schedule_step) refl

  -- From a sound system whose loop has no queue left, one call of schedule, which sorts the queues
  -- and then takes the steps for each of them with no other step in between, ends without a
  -- panic: in a sound system whose loop has no queue left again, with one loop variable more. The
  -- policies are strict weak orders, the filters end on a unit with a consumer, sort.Slice returns
  -- elements of its list, and the units that Get returns have consumers.
  pub schedule-EndsPass :
      (s : System Q S)
      → IsSoundSystem s
      → s.position ≡ looping
      → s.todo ≡ []
      → Yields
          (EndsPass (suc (length s.variables)))
          (run setup (began ∷ pass_steps get now (length (begin setup s).todo)) s)
  unfolding run step begin
  schedule-EndsPass s inv stands done = rw (began-begin s s.position s.todo stands done) (
      Yields-weaken
        (pass_steps-EndsPass_from (begin setup s) s.position stands
          (begin-IsSoundSystem setup ok_setup s inv stands))
        λ s' (inv', stands', done', same_length).
          (inv', stands', done', omega (arith, same_length, length-append s.variables (none ∷ []))))
