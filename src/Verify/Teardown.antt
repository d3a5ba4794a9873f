-- ===== src/Verify/Teardown.antt =====
-- bin/erw-verify/teardown.rs: the deletion of what the setup installed. The cluster and the clock are
-- an interface. The polling runs on fuel; Polling shows that 91 polls are enough.
pub mod Polling
pub mod Removal
use emergency_ration_webhook.Common.{
  ℕ, zero, suc, ◌+◌, String, Option, none, some, List, [], ◌∷◌, ◌++◌, Bool, leb, ◌==◌, is_empty,
  length, if◌then◌else◌,
}
use emergency_ration_webhook.Common.Result.{Result, ok, err}
use emergency_ration_webhook.Common.Text.{codes, Text, show_ℕ}
use emergency_ration_webhook.Controllers.Singleton.{KubeError, is_not_found}

-- What is deleted.
pub data Kind : Type 0 where
  webhook_configuration deployment service secret cluster_role_binding cluster_role service_account
        allocation cluster_capacity crd namespace :
      Kind

pub record Target : Type 0 where
  pub kind : Kind
  pub name : Text

-- `Api::delete`, `Api::get`, the text of an error, and tokio's clock in milliseconds.
pub record Cluster : Type 1 where
  pub World : Type 0
  pub delete : Target → World → Result KubeError Unit × World
  pub get : Target → World → Result KubeError Unit × World
  pub display : KubeError → Text
  pub now : World → ℕ
  pub sleep : ℕ → World → World

-- `DELETE_TIMEOUT`.
abbrev pub delete_timeout : ℕ
delete_timeout = 180000

module _ (cluster : Cluster) where
  open cluster use {World}

  abbrev timed_out : Target → Text
  timed_out target = codes "timed out waiting for " ++ target.name ++ codes " to be fully deleted"

  -- One poll of the loop, at the answer of `get`, the world after it, and the rest of the loop.
  abbrev pub after_poll :
      Target
      → ℕ
      → Result KubeError Unit × World
      → (World → Option (Result Text Unit × World))
      → Option (Result Text Unit × World)
  after_poll target deadline (ok there, w) rest =
      if leb deadline (cluster.now w)
      then some (err (timed_out target), w)
      else rest (cluster.sleep 2000 w)
  after_poll target deadline (err e, w) rest =
      if is_not_found e then some (ok tt, w) else some (err (cluster.display e), w)

  -- The loop of `delete_and_wait`, or nothing where the fuel runs out.
  unfoldable pub poll : ℕ → Target → ℕ → World → Option (Result Text Unit × World)
  poll zero target deadline w = none
  poll (suc fuel) target deadline w =
      after_poll target deadline (cluster.get target w) (poll fuel target deadline)

  -- The match on the deletion.
  abbrev pub after_delete :
      ℕ → Target → Result KubeError Unit × World → Option (Result Text Unit × World)
  after_delete fuel target (ok done, w) = poll fuel target (cluster.now w + delete_timeout) w
  after_delete fuel target (err e, w) =
      if is_not_found e then some (ok tt, w) else some (err (cluster.display e), w)

  unfoldable pub delete_and_wait : ℕ → Target → World → Option (Result Text Unit × World)
  unfolding poll
  delete_and_wait fuel target w = after_delete fuel target (cluster.delete target w)

  -- `try_delete`, at the errors so far.
  abbrev pub record_error : Target → List Text → Result Text Unit → List Text
  record_error target errors (ok done) = errors
  record_error target errors (err e) = errors ++ (target.name ++ codes ": " ++ e) ∷ []

  abbrev pub Progress : Type 0
  Progress = Option (List Text × World)

  abbrev pub note_result : Target → List Text → Option (Result Text Unit × World) → Progress
  note_result target errors none = none
  note_result target errors (some (result, w)) = some (record_error target errors result, w)

  unfoldable pub try_delete : ℕ → Target → List Text → World → Progress
  try_delete fuel target errors w = note_result target errors (delete_and_wait fuel target w)

  abbrev pub and_next : Progress → (List Text → World → Progress) → Progress
  and_next none k = none
  and_next (some (errors, w)) k = k errors w

  unfoldable pub delete_all : ℕ → List Target → List Text → World → Progress
  delete_all fuel [] errors w = some (errors, w)
  delete_all fuel (t ∷ targets) errors w =
      and_next (try_delete fuel t errors w) (delete_all fuel targets)

abbrev target : Kind → String → Target
target kind name = record { kind = kind; name = codes name }

-- The objects in the order of `teardown`.
abbrev pub targets : List Target
targets =
    target webhook_configuration "capacity-admission.emergency-ration.dev"
    ∷ target deployment "capacity-admission-webhook"
    ∷ target service "capacity-admission-webhook"
    ∷ target secret "capacity-admission-webhook-tls"
    ∷ target cluster_role_binding "capacity-admission-webhook"
    ∷ target cluster_role "capacity-admission-webhook"
    ∷ target service_account "capacity-admission-webhook"
    ∷ target allocation "cluster-allocation"
    ∷ target cluster_capacity "cluster-capacity"
    ∷ target crd "allocations.emergency-ration.dev"
    ∷ target crd "clustercapacities.emergency-ration.dev"
    ∷ target namespace "capacity-admission"
    ∷ []

-- `[String]::join`.
abbrev join : Text → List Text → Text
join separator [] = []
join separator (t ∷ []) = t
join separator (t ∷ u ∷ ts) = t ++ separator ++ join separator (u ∷ ts)

-- The error of a teardown, at the errors of the single deletions.
abbrev pub conclude_errors : List Text → Result Text Unit
conclude_errors [] = ok tt
conclude_errors (e ∷ es) = err (
    codes "teardown completed with "
    ++ codes (show_ℕ (length (e ∷ es)))
    ++ codes " error(s): "
    ++ join (codes "; ") (e ∷ es))

module _ (cluster : Cluster) where
  abbrev pub conclude : Progress cluster → Option (Result Text Unit × cluster.World)
  conclude none = none
  conclude (some (errors, w)) = some (conclude_errors errors, w)

  unfoldable pub teardown : ℕ → cluster.World → Option (Result Text Unit × cluster.World)
  teardown fuel w = conclude (delete_all cluster fuel targets [] w)
