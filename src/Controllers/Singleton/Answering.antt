-- ===== src/Controllers/Singleton/Answering.antt =====
-- An API server that answers, and what the singletons' controllers do on it.
use emergency_ration_webhook.Common.{Option, none, some, true, ◌≡◌, ◌∙◌}
use emergency_ration_webhook.Common.Result.{ok, err}
use emergency_ration_webhook.Controllers.Singleton.{
  KubeError, Api, is_not_found, classify_check, ensure_singleton,
}
use emergency_ration_webhook.Controllers.Singleton.Preservation.{ApiLaws}

-- The server answers: it finds what is stored, or says 404; it creates what is missing; it patches
-- what is stored, or says 404.
pub record IsAnswering {Obj Status Spec : Type 0} {server : Api Obj Status} {spec : Obj → Spec}
    {status : Obj → Option Status} (laws : ApiLaws server spec status) : Type 0 where
  pub finds : (s : server.Server) {o : Obj} → laws.stored s ≡ some o → (server.get s).0 ≡ ok o
  pub misses :
      (s : server.Server)
      → laws.stored s ≡ none
      → (e : KubeError) × ((server.get s).0 ≡ err e) × (is_not_found e ≡ true)
  pub creates :
      (s : server.Server) (o : Obj)
      → laws.stored s ≡ none
      → laws.stored (server.create o s).1 ≡ some o
  pub patches :
      (s : server.Server) (t : Status) {o : Obj}
      → laws.stored s ≡ some o
      → (o' : Obj) × ((server.patch_status t s).0 ≡ ok o')
  pub patch_misses :
      (s : server.Server) (t : Status)
      → laws.stored s ≡ none
      → (e : KubeError) × ((server.patch_status t s).0 ≡ err e) × (is_not_found e ≡ true)

-- Such a server stores the default where nothing is stored.
pub ensure_singleton-creates :
    {Obj Status Spec : Type 0} {server : Api Obj Status} {spec : Obj → Spec}
    {status : Obj → Option Status} (laws : ApiLaws server spec status)
    → IsAnswering laws
    → (default : Obj) (s : server.Server) → laws.stored s ≡ none
    → laws.stored (ensure_singleton server default s).1 ≡ some default
unfolding ensure_singleton classify_check
ensure_singleton-creates {server = server} laws up default s gone =
    let (e, failed, not_found) = up.misses s gone in
    rw (failed, not_found) (up.creates (server.get s).1 default (laws.get-stored s ∙ gone))

-- A status patch on a stored object keeps its spec and sets its status.
pub patch_status-stored :
    {Obj Status Spec : Type 0} {server : Api Obj Status} {spec : Obj → Spec}
    {status : Obj → Option Status} (laws : ApiLaws server spec status)
    → IsAnswering laws
    → (t : Status) (s : server.Server) {o : Obj} → laws.stored s ≡ some o
    → (o' : Obj) × (laws.stored (server.patch_status t s).1 ≡ some o')
      × (spec o' ≡ spec o)
      × (status o' ≡ some t)
patch_status-stored laws up t s held =
    let (_, answer) = up.patches s t held in
    let (o', now_held, written) = laws.patch-status s t answer in
    let (o₂, also_held, kept) = laws.patch-spec s t held in
    let one : o' ≡ o₂ = cc in (o', now_held, rw one kept, written)
