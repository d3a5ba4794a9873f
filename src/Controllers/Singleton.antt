-- ===== src/Controllers/Singleton.antt =====
-- The singletons of controllers/allocation.rs and controllers/node_capacity.rs: the two files have
-- the same functions over their own resource. The API server is an interface.
pub mod Preservation
pub mod Answering
use emergency_ration_webhook.Common.{
  ℕ, String, Option, none, some, Bool, true, false, ◌≡◌, ◌==◌, if◌then◌else◌,
}
use emergency_ration_webhook.Common.Result.{Result, ok, err}

-- `kube::Error`, by what the controllers read of it: the HTTP code of an API error.
pub data KubeError : Type 0 where
  api : (code : ℕ) → KubeError
  transport : KubeError

-- `Api<Obj>` at one singleton name: each call reads and changes the server.
pub record Api (Obj Status : Type 0) : Type 1 where
  pub Server : Type 0
  pub get : Server → Result KubeError Obj × Server
  pub create : Obj → Server → Result KubeError Obj × Server
  -- `patch_status` with the merge patch `{"status": …}`
  pub patch_status : Status → Server → Result KubeError Obj × Server

pub data SingletonCheck : Type 0 where
  exists missing error : SingletonCheck

unfoldable pub is_not_found : KubeError → Bool
is_not_found (api code) = code == 404
is_not_found transport = false

unfoldable pub classify_check : {A : Type 0} → Result KubeError A → SingletonCheck
unfolding is_not_found
classify_check (ok a) = exists
classify_check (err e) = if is_not_found e then missing else error

pub data CreateOutcome : Type 0 where
  created already_exists failed : CreateOutcome

unfoldable pub classify_create : {A : Type 0} → Result KubeError A → CreateOutcome
classify_create (ok a) = created
classify_create (err (api code)) = if code == 409 then already_exists else failed
classify_create (err transport) = failed

module _ {Obj Status : Type 0} (server : Api Obj Status) where
  -- What `ensure_singleton` reports in its log.
  pub data Report : Type 0 where
    present : Report
    creation : CreateOutcome → Report
    unchecked : Report

  abbrev after_check : Obj → SingletonCheck → server.Server → Report × server.Server
  after_check default exists s = (present, s)
  after_check default missing s =
      let (result, s') = server.create default s in (creation (classify_create result), s')
  after_check default error s = (unchecked, s)

  unfoldable pub ensure_singleton : Obj → server.Server → Report × server.Server
  unfolding classify_check classify_create
  ensure_singleton default s =
      let (lookup, s') = server.get s in after_check default (classify_check lookup) s'
