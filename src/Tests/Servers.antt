-- ===== src/Tests/Servers.antt =====
-- Servers for the runs: each holds at most one object, and answers.
use emergency_ration_webhook.Common.{Option, none, some, true, ◌≡◌, ◌⊎◌, inl, inr, refl}
use emergency_ration_webhook.Common.Int.{ℤ}
use emergency_ration_webhook.Common.Result.{Result, ok, err}
use emergency_ration_webhook.Crd.Allocation.{AllocationStatus, AllocationSpec, Allocation}
use emergency_ration_webhook.Crd.ClusterCapacity.{
  ClusterCapacity, ClusterCapacitySpec, ClusterCapacityStatus,
}
use emergency_ration_webhook.Controllers.Singleton.{KubeError, api, Api, is_not_found}
use emergency_ration_webhook.Controllers.Singleton.Preservation.{ApiLaws}
use emergency_ration_webhook.Controllers.Singleton.Answering.{IsAnswering}

-- A server that holds at most one object.
module _ {Obj Status : Type 0} (set : Status → Obj → Obj) where
  abbrev pub look : Option Obj → Result KubeError Obj × Option Obj
  look none = (err (api 404), none)
  look (some o) = (ok o, some o)

  abbrev pub add : Obj → Option Obj → Result KubeError Obj × Option Obj
  add o none = (ok o, some o)
  add o (some held) = (err (api 409), some held)

  abbrev pub patch : Status → Option Obj → Result KubeError Obj × Option Obj
  patch t none = (err (api 404), none)
  patch t (some o) = (ok (set t o), some (set t o))

  abbrev pub server_of : Api Obj Status
  server_of = record { Server = Option Obj; get = look; create = add; patch_status = patch }

  module _ {Spec : Type 0} (spec : Obj → Spec) (status : Obj → Option Status)
      (set-spec : (t : Status) (o : Obj) → spec (set t o) ≡ spec o)
      (set-status : (t : Status) (o : Obj) → status (set t o) ≡ some t) where
    pub look-same : (s : Option Obj) → (look s).1 ≡ s
    look-same none = refl
    look-same (some o) = refl

    pub look-ok : (s : Option Obj) {o : Obj} → (look s).0 ≡ ok o → s ≡ some o
    look-ok none h = cc
    look-ok (some p) h = cc

    pub look-not_found :
        (s : Option Obj) {e : KubeError} → (look s).0 ≡ err e → is_not_found e ≡ true → s ≡ none
    look-not_found none h g = refl
    look-not_found (some o) h g = cc

    pub add-stored :
        (s : Option Obj) (o : Obj) → ((add o s).1 ≡ s) ⊎ ((s ≡ none) × ((add o s).1 ≡ some o))
    add-stored none o = inr (refl, refl)
    add-stored (some held) o = inl refl

    pub patch-spec :
        (s : Option Obj) (t : Status) {o : Obj}
        → s ≡ some o
        → (o' : Obj) × ((patch t s).1 ≡ some o') × (spec o' ≡ spec o)
    patch-spec s t {o = o} h = rw h (set t o, refl, set-spec t o)

    pub patch-none : (s : Option Obj) (t : Status) → s ≡ none → (patch t s).1 ≡ none
    patch-none s t h = rw h refl

    pub patch-status :
        (s : Option Obj) (t : Status) {o : Obj}
        → (patch t s).0 ≡ ok o
        → (o' : Obj) × ((patch t s).1 ≡ some o') × (status o' ≡ some t)
    patch-status none t h = cc
    patch-status (some p) t h = (set t p, refl, set-status t p)

    finds : (s : Option Obj) {o : Obj} → s ≡ some o → (look s).0 ≡ ok o
    finds s h = rw h refl

    misses :
        (s : Option Obj)
        → s ≡ none
        → (e : KubeError) × ((look s).0 ≡ err e) × (is_not_found e ≡ true)
    unfolding is_not_found
    misses s h = (api 404, rw h refl, refl)

    creates : (s : Option Obj) (o : Obj) → s ≡ none → (add o s).1 ≡ some o
    creates s o h = rw h refl

    patches :
        (s : Option Obj) (t : Status) {o : Obj} → s ≡ some o → (o' : Obj) × ((patch t s).0 ≡ ok o')
    patches s t {o = o} h = rw h (set t o, refl)

    patch_misses :
        (s : Option Obj) (t : Status)
        → s ≡ none
        → (e : KubeError) × ((patch t s).0 ≡ err e) × (is_not_found e ≡ true)
    unfolding is_not_found
    patch_misses s t h = (api 404, rw h refl, refl)

    abbrev pub laws_of : ApiLaws server_of spec status
    laws_of = record {
      stored = λ s. s;
      get-stored = look-same;
      get-ok = look-ok;
      get-not_found = look-not_found;
      create-stored = add-stored;
      patch-none = patch-none;
      patch-spec = patch-spec;
      patch-status = patch-status;
    }

    pub laws_of-IsAnswering : IsAnswering laws_of
    laws_of-IsAnswering = record {
      finds = finds;
      misses = misses;
      creates = creates;
      patches = patches;
      patch_misses = patch_misses;
    }

abbrev pub allocations : Api (Allocation ℤ) (AllocationStatus ℤ)
allocations = server_of (λ t a. record a { status = some t })

abbrev pub allocations_laws :
    ApiLaws {Spec = AllocationSpec} allocations (λ a. a.spec) (λ a. a.status)
allocations_laws =
    laws_of (λ t a. record a { status = some t }) (λ a. a.spec) (λ a. a.status) (λ t o. refl)
      (λ t o. refl)

abbrev pub clusters : Api ClusterCapacity ClusterCapacityStatus
clusters = server_of (λ t c. record c { status = some t })

abbrev pub clusters_laws :
    ApiLaws {Spec = ClusterCapacitySpec} clusters (λ c. c.spec) (λ c. c.status)
clusters_laws =
    laws_of (λ t c. record c { status = some t }) (λ c. c.spec) (λ c. c.status) (λ t o. refl)
      (λ t o. refl)

pub allocations_laws-IsAnswering : IsAnswering allocations_laws
allocations_laws-IsAnswering =
    laws_of-IsAnswering (λ t a. record a { status = some t }) (λ a. a.spec) (λ a. a.status)
      (λ t o. refl) (λ t o. refl)

pub clusters_laws-IsAnswering : IsAnswering clusters_laws
clusters_laws-IsAnswering =
    laws_of-IsAnswering (λ t c. record c { status = some t }) (λ c. c.spec) (λ c. c.status)
      (λ t o. refl) (λ t o. refl)
