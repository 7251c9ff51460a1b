-- ===== src/Tests/Commands.antt =====
-- The theorems on the command, at a library that answers every call.
use kube_queue.Base.{ℕ, String, Bool, Option, some, List, ok}
use kube_queue.Base.Int.{ℤ, pos}
use kube_queue.Plugins.ResourceQuota.{ResourceQuota}
use kube_queue.System.State
use kube_queue.System.Step
use kube_queue.Command.{Libraries}

-- A config is its path.
abbrev answering : Libraries String String String
answering = record {
  getenv = λ name. "";
  build_config_from_flags = λ reading master path. ok path;
  with_limits = λ qps burst cfg. cfg;
  new_kube_client = λ cfg. ok cfg;
  new_queue_unit_client = λ cfg. ok cfg;
}

abbrev one : String → Option ℤ
one text = some (pos 1)

abbrev as_is : ℕ → (ℕ → ℕ → Bool) → List ℕ → List ℕ
as_is round less l = l
