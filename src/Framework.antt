-- ===== src/Framework.antt =====
-- pkg/framework/type.go and pkg/framework/interface.go: the objects that the controller queues and
-- the result of a plugin. The API types are those of github.com/kube-queue/api, as doc/queueunit.md
-- and doc/queue.md describe them, with the fields that the code reads. `Q` is resource.Quantity.
use kube_queue.Base.{◌≡◌, ◌⊎◌, inl, inr, refl, ℕ, Bool, true, false, Option, String, Dict}
use kube_queue.Base.Int.{ℤ}
use Prim.Native.String.{◌++◌}

-- time.Time and time.Duration, in nanoseconds.
abbrev pub Time : Type 0
Time = ℤ

-- corev1.ObjectReference, of which the code reads the namespace.
pub record ObjectReference : Type 0 where
  pub namespace : String
  pub name : String

-- v1alpha1.QueueUnit; a nil pointer is `none`.
pub record QueueUnit {ℓ} (Q : Type ℓ) : Type ℓ where
  pub namespace : String
  pub name : String
  pub consumer_ref : Option ObjectReference
  pub priority : Option ℤ
  pub resource : Dict Q
  pub phase : String
  pub message : String

-- v1alpha1.Queue.
pub record Queue : Type 0 where
  pub namespace : String
  pub name : String
  pub queue_policy : String
  pub priority : Option ℤ

pub record QueueInfo : Type 0 where
  pub name : String
  pub queue : Queue

pub record QueueUnitInfo {ℓ} (Q : Type ℓ) : Type ℓ where
  pub name : String
  pub unit : QueueUnit Q
  pub timestamp : Time
  pub attempts : ℕ
  pub initial_attempt_timestamp : Time

-- `namespace + "/" + name`, which the code also writes with fmt.Sprintf.
abbrev pub object_key : String → String → String
object_key namespace name = namespace ++ "/" ++ name

-- `now` and `later` are the readings of the two calls of time.Now.
unfoldable pub new_queue_unit_info {ℓ} : {Q : Type ℓ} → QueueUnit Q → Time → Time → QueueUnitInfo Q
new_queue_unit_info unit now later = record {
  name = object_key unit.namespace unit.name;
  unit = unit;
  timestamp = now;
  attempts = 0;
  initial_attempt_timestamp = later;
}

unfoldable pub new_queue_info : Queue → QueueInfo
new_queue_info queue = record { name = queue.namespace; queue = queue }

-- The codes of a Status, in the order of the iota.
pub data Code : Type 0 where
  success error unschedulable unschedulable_and_unresolvable wait skip : Code

pub record Status : Type 0 where
  pub message : String
  pub code : Code

abbrev pub new_status : Code → String → Status
new_status code message = record { message = message; code = code }

-- `status.Code() == Success`
abbrev pub is_success : Code → Bool
is_success success = true
is_success _ = false

pub Code-cases : (c : Code) → (c ≡ success) ⊎ (is_success c ≡ false)
Code-cases success = inl refl
Code-cases error = inr refl
Code-cases unschedulable = inr refl
Code-cases unschedulable_and_unresolvable = inr refl
Code-cases wait = inr refl
Code-cases skip = inr refl
