-- ===== src/Controllers/Singleton/Preservation.antt =====
-- What the API server promises, and that the singletons' controllers never overwrite a spec.
use emergency_ration_webhook.Common.{Option, none, some, true, ◌≡◌, ◌⊎◌, inl, inr, refl}
use emergency_ration_webhook.Common.Result.{ok, err}
use emergency_ration_webhook.Controllers.Singleton.{
  KubeError, Api, SingletonCheck, exists, missing, error, is_not_found, classify_check, after_check,
  ensure_singleton,
}

-- The documented behaviour of the API server at one object: `get` changes nothing and finds what is
-- stored, with 404 only if nothing is; `create` stores the object only where nothing was; a status
-- patch keeps the spec, and stores the status where it succeeds.
pub record ApiLaws {Obj Status Spec : Type 0} (server : Api Obj Status) (spec : Obj → Spec)
    (status : Obj → Option Status) : Type 0 where
  pub stored : server.Server → Option Obj
  pub get-stored : (s : server.Server) → stored (server.get s).1 ≡ stored s
  pub get-ok : (s : server.Server) {o : Obj} → (server.get s).0 ≡ ok o → stored s ≡ some o
  pub get-not_found :
      (s : server.Server) {e : KubeError}
      → (server.get s).0 ≡ err e
      → is_not_found e ≡ true
      → stored s ≡ none
  pub create-stored :
      (s : server.Server) (o : Obj)
      → (stored (server.create o s).1 ≡ stored s)
        ⊎ ((stored s ≡ none) × (stored (server.create o s).1 ≡ some o))
  pub patch-none :
      (s : server.Server) (t : Status) → stored s ≡ none → stored (server.patch_status t s).1 ≡ none
  pub patch-spec :
      (s : server.Server) (t : Status) {o : Obj}
      → stored s ≡ some o
      → (o' : Obj) × (stored (server.patch_status t s).1 ≡ some o') × (spec o' ≡ spec o)
  pub patch-status :
      (s : server.Server) (t : Status) {o : Obj}
      → (server.patch_status t s).0 ≡ ok o
      → (o' : Obj) × (stored (server.patch_status t s).1 ≡ some o') × (status o' ≡ some t)

module _ {Obj Status Spec : Type 0} (server : Api Obj Status) {spec : Obj → Spec}
    {status : Obj → Option Status} (laws : ApiLaws server spec status) where
  open laws use {stored}

  after_check-stored :
      (default : Obj) (c : SingletonCheck) (s : server.Server)
      → (stored (after_check server default c s).1 ≡ stored s)
        ⊎ ((stored s ≡ none) × (stored (after_check server default c s).1 ≡ some default))
  after_check-stored default exists s = inl refl
  after_check-stored default missing s = laws.create-stored s default
  after_check-stored default error s = inl refl

  -- `ensure_singleton` leaves the stored object as it was, or there was none and the default is
  -- stored now.
  pub ensure_singleton-stored :
      (default : Obj) (s : server.Server)
      → (stored (ensure_singleton server default s).1 ≡ stored s)
        ⊎ ((stored s ≡ none) × (stored (ensure_singleton server default s).1 ≡ some default))
  unfolding ensure_singleton
  ensure_singleton-stored default s =
      rw (← laws.get-stored s)
        (after_check-stored default (classify_check (server.get s).0) (server.get s).1)

  -- An existing object survives `ensure_singleton` unchanged.
  pub ensure_singleton-keeps :
      (default : Obj) (s : server.Server) {o : Obj}
      → stored s ≡ some o
      → stored (ensure_singleton server default s).1 ≡ some o
  ensure_singleton-keeps default s h = elim (ensure_singleton-stored default s) [
    | inl same ↦ cc
    | inr (empty, _) ↦ cc
  ]
