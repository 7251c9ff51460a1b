-- ===== src/Command.antt =====
-- The command: cmd/app/options/options.go, cmd/app/server/server.go and cmd/main.go. The flag package
-- is written for what they use of it, a command line is the texts that it gives to flags, by name,
-- and the client libraries are the parameters Libraries.
use kube_queue.Base.{
  ℕ, Bool, String, Option, none, some, List, [], ◌∷◌, ◌++◌, ite, text_dec, Result, ok, failed,
  Outcome, value, ◌>>=◌,
}
use kube_queue.Base.Int.{ℤ, pos}
use kube_queue.Runtime.{Registry}
use kube_queue.System.State.{Setup}
use kube_queue.Controller.Construction.{new_controller}
pub mod Start

pub record ServerOption : Type 0 where
  pub kube_config : String
  pub qps : ℤ
  pub burst : ℤ
  pub pod_initial_backoff_seconds : ℤ
  pub pod_max_backoff_seconds : ℤ

-- A flag and the field that it stands for.
pub data Flag : Type 0 where
  string_flag : String → (String → ServerOption → ServerOption) → Flag
  int_flag : String → (ℤ → ServerOption → ServerOption) → Flag

-- The flags that are declared, with the option that their variables are in.
pub record FlagSet : Type 0 where
  pub flags : List Flag
  pub option : ServerOption

unfoldable pub new_server_option : ServerOption
new_server_option = record {
  kube_config = "";
  qps = pos 0;
  burst = pos 0;
  pod_initial_backoff_seconds = pos 0;
  pod_max_backoff_seconds = pos 0;
}

-- StringVar and IntVar declare a flag, and its variable takes the default value.
abbrev string_var : String → String → (String → ServerOption → ServerOption) → FlagSet → FlagSet
string_var name default store fs = record {
  flags = fs.flags ++ string_flag name store ∷ [];
  option = store default fs.option;
}

abbrev int_var : String → ℤ → (ℤ → ServerOption → ServerOption) → FlagSet → FlagSet
int_var name default store fs = record {
  flags = fs.flags ++ int_flag name store ∷ [];
  option = store default fs.option;
}

unfoldable pub add_flags : FlagSet → FlagSet
add_flags fs =
    let fs = string_var "kubeconfig" "" (λ v s. record s { kube_config = v }) fs in
    let fs = int_var "qps" (pos 5) (λ v s. record s { qps = v }) fs in
    let fs = int_var "burst" (pos 10) (λ v s. record s { burst = v }) fs in
    let fs =
      int_var "podInitialBackoffSeconds" (pos 1)
        (λ v s. record s { pod_initial_backoff_seconds = v }) fs in
    int_var "podMaxBackoffSeconds" (pos 20) (λ v s. record s { pod_max_backoff_seconds = v }) fs

-- Parse stores a text in the variable of a flag, as a number where the flag wants one.
unfoldable pub set_flag :
    (String → Option ℤ) → String → String → List Flag → ServerOption → Result ServerOption
unfolding text_dec
set_flag parse_int name text [] s = failed "flag provided but not defined"
set_flag parse_int name text (string_flag n store ∷ flags) s =
    ite (text_dec n name) (ok (store text s)) (set_flag parse_int name text flags s)
set_flag parse_int name text (int_flag n store ∷ flags) s =
    ite (text_dec n name)
      (elim (parse_int text) [ none ↦ failed "parse error" | some v ↦ ok (store v s) ])
      (set_flag parse_int name text flags s)

unfoldable pub parse :
    (String → Option ℤ) → List Flag → List (String × String) → ServerOption → Result ServerOption
unfolding set_flag
parse parse_int flags [] s = ok s
parse parse_int flags ((name, text) ∷ arguments) s = elim (set_flag parse_int name text flags s) [
  | failed err ↦ failed err
  | ok s' ↦ parse parse_int flags arguments s'
]

-- The environment and the client libraries; a kubeconfig is read twice, and may have changed.
pub record Libraries (Config Kube Units : Type 0) : Type 0 where
  pub getenv : String → String
  pub build_config_from_flags : (reading : ℕ) → (master path : String) → Result Config
  pub with_limits : (qps burst : ℤ) → Config → Config
  pub new_kube_client : Config → Result Kube
  pub new_queue_unit_client : Config → Result Units

-- How the command ends: Parse rejects the command line, the process exits with an error, Run returns
-- an error, or the controller runs, which does not end.
pub data End {ℓ} (Q S : Type ℓ) : Type ℓ where
  usage fatal returned_error : String → End Q S
  running : ServerOption → Setup Q S → End Q S

-- main ends the process where Run returns an error.
unfoldable pub exit {ℓ} : {Q S : Type ℓ} → End Q S → End Q S
exit (returned_error err) = fatal err
exit end = end

-- The variable KUBECONFIG, if it is set, goes before the flag.
module _ {Config Kube Units : Type 0} (lib : Libraries Config Kube Units) where
  unfoldable pub with_environment : ServerOption → ServerOption
  unfolding text_dec
  with_environment opt =
      ite (text_dec (lib.getenv "KUBECONFIG") "") opt
        (record opt { kube_config = lib.getenv "KUBECONFIG" })

module _ {ℓ} {Q S : Type ℓ} {Config Kube Units : Type 0} (lib : Libraries Config Kube Units)
    (r : Registry Q S) (sort_slice : ℕ → (ℕ → ℕ → Bool) → List ℕ → List ℕ)
    (relist : ℕ → S → S) where
  -- NewController and Start, once the clients are made.
  unfoldable pub start_controller : ServerOption → Outcome (End Q S)
  unfolding new_controller
  start_controller opt =
      new_controller r opt.pod_initial_backoff_seconds opt.pod_max_backoff_seconds sort_slice relist
      >>= λ made. value (elim made [ failed err ↦ fatal err | ok setup ↦ running opt setup ])

  -- The client of queue units, with a config of its own.
  unfoldable pub start_with_units : ServerOption → Outcome (End Q S)
  unfolding start_controller
  start_with_units opt = elim (lib.build_config_from_flags 1 "" opt.kube_config) [
    | failed err ↦ value (returned_error err)
    | ok cfg ↦ elim (lib.new_queue_unit_client (lib.with_limits opt.qps opt.burst cfg)) [
      | failed err ↦ value (returned_error err)
      | ok client ↦ start_controller opt
    ]
  ]

  unfoldable pub run : ServerOption → Outcome (End Q S)
  unfolding with_environment start_with_units
  run opt =
      let opt = with_environment lib opt in
      elim (lib.build_config_from_flags 0 "" opt.kube_config) [
        | failed err ↦ value (fatal err)
        | ok cfg ↦ elim (lib.new_kube_client (lib.with_limits opt.qps opt.burst cfg)) [
          | failed err ↦ value (fatal err)
          | ok client ↦ start_with_units opt
        ]
      ]

  unfoldable pub main : (String → Option ℤ) → List (String × String) → Outcome (End Q S)
  unfolding add_flags new_server_option parse run exit
  main parse_int arguments =
      let fs = add_flags (record { flags = []; option = new_server_option }) in
      elim (parse parse_int fs.flags arguments fs.option) [
        | failed err ↦ value (usage err)
        | ok opt ↦ run opt >>= (λ end. value (exit end))
      ]
