-- ===== src/Command/Start.antt =====
-- The start of the program, from the command line to its runs.
use kube_queue.Base.{ℕ, Bool, String, Option, some, List, [], get_elem?, ◌≡◌, ◌≢◌, ok, failed}
use kube_queue.Base.Int.{ℤ, pos}
use kube_queue.Plugins.ResourceQuota.{Quantity, ResourceQuota}
use kube_queue.Plugins.Registry.{IsInTree}
use kube_queue.System.State
use kube_queue.System.State.{Setup, System}
use kube_queue.System.Step
use kube_queue.System.Invariant.{IsSoundSetup}
use kube_queue.Command.{
  ServerOption, FlagSet, new_server_option, add_flags, parse, Libraries, End, usage, fatal,
  returned_error, running,
}

module _ {ℓ} {Q : Type ℓ} (ops : Quantity Q) (backwards : Bool) {Config Kube Units : Type 0}
    (lib : Libraries Config Kube Units) (sort_slice : ℕ → (ℕ → ℕ → Bool) → List ℕ → List ℕ)
    (relist : ℕ → ResourceQuota Q → ResourceQuota Q)
    (sorts : (round : ℕ) (less : ℕ → ℕ → Bool) (l : List ℕ) (n i : ℕ)
      → get_elem? (sort_slice round less l) n ≡ some i
      → (m : ℕ) × (get_elem? l m ≡ some i)) where
  -- A sound setup with the plugins of the tree and the seconds of the options.
  pub record IsStarted (opt : ServerOption) (setup : Setup Q (ResourceQuota Q)) : Type ℓ where
    pub sound : IsSoundSetup setup
    pub tree : IsInTree ops setup.fw
    pub initial : setup.pod_initial_backoff_seconds ≡ opt.pod_initial_backoff_seconds
    pub max : setup.pod_max_backoff_seconds ≡ opt.pod_max_backoff_seconds

  -- The flags with their defaults.
  abbrev pub declared : FlagSet
  declared = add_flags (record { flags = []; option = new_server_option })

  -- The libraries read the kubeconfig and make the clients.
  pub record IsConnected : Type 0 where
    pub reads :
        (reading : ℕ) (path : String)
        → (cfg : Config) × (lib.build_config_from_flags reading "" path ≡ ok cfg)
    pub makes_kube : (cfg : Config) → (client : Kube) × (lib.new_kube_client cfg ≡ ok client)
    pub makes_units :
        (cfg : Config) → (client : Units) × (lib.new_queue_unit_client cfg ≡ ok client)

  -- The options before the command line is read.
  abbrev pub defaults : ServerOption
  defaults = record {
    kube_config = "";
    qps = pos 5;
    burst = pos 10;
    pod_initial_backoff_seconds = pos 1;
    pod_max_backoff_seconds = pos 20;
  }

  -- The options of the command line, with the path of the environment if it has one.
  pub record IsChosen (given opt : ServerOption) : Type 0 where
    pub unset : lib.getenv "KUBECONFIG" ≡ "" → opt ≡ given
    pub is_set :
        lib.getenv "KUBECONFIG" ≢ "" → opt ≡ record given { kube_config = lib.getenv "KUBECONFIG" }

  -- How main ends: the command line is rejected; the process exits with an error, where some library
  -- does not answer; or the controller runs.
  pub data EndsWell (parse_int : String → Option ℤ) (arguments : List (String × String))
      : End Q (ResourceQuota Q) → Type ℓ where
    rejects :
        {err : String}
        → parse parse_int declared.flags arguments defaults ≡ failed err
        → EndsWell parse_int arguments (usage err)
    exits : {err : String} → ¬ IsConnected → EndsWell parse_int arguments (fatal err)
    runs :
        {given opt : ServerOption} {setup : Setup Q (ResourceQuota Q)}
        → parse parse_int declared.flags arguments defaults ≡ ok given
        → IsChosen given opt
        → IsStarted opt setup
        → EndsWell parse_int arguments (running opt setup)

  -- Run: an error where some library does not answer, or the controller.
  abbrev RunsOrFails : ServerOption → End Q (ResourceQuota Q) → Type ℓ
  RunsOrFails opt (usage err) = Unit {ℓ} × ⊥
  RunsOrFails opt (fatal err) = Unit {ℓ} × (¬ IsConnected)
  RunsOrFails opt (returned_error err) = Unit {ℓ} × (¬ IsConnected)
  RunsOrFails opt (running opt' setup) = (opt ≡ opt') × IsStarted opt' setup
