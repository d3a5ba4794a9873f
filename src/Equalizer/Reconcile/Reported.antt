-- ===== src/Equalizer/Reconcile/Reported.antt =====
-- What a reconcile of equalizer/reconcile.rs patches, against what it reports.
use emergency_ration_webhook.Common.{
  String, Option, none, some, List, [], ◌∷◌, map, ◌≡◌, inl, inr, refl,
}
use emergency_ration_webhook.Common.Lists.{All, AnyOf}
use emergency_ration_webhook.Common.Int.{ℤ}
use emergency_ration_webhook.Common.Float.{Float}
use emergency_ration_webhook.Equalizer.Algorithm.{ComputedBudget}
use emergency_ration_webhook.Common.Result.{Result, ok, err, ◌>>=◌, and_then}
use emergency_ration_webhook.K8s.{Dict, get}
use emergency_ration_webhook.Equalizer.Resolve.{
  TargetCluster, ResolvedTarget, read, failed, World, resolve_target, on_capacity, on_allocation,
  on_client, on_kubeconfig, on_secret,
}
use emergency_ration_webhook.Equalizer.Reconcile.{
  EqualizerConfigSpec, ClusterObservation, Patch, equalize_fleet, patches_of, build_observation,
  observations_of, reconcile,
}
use emergency_ration_webhook.Equalizer.Reconcile.Condition.{IsLost}

-- The name and the two budgets of a patch.
pub record Budgets : Type 0 where
  pub name : String
  pub cpu_budget : ℤ
  pub memory_budget : ℤ

abbrev pub budgets_of : {C : Type 0} → Patch C → Budgets
budgets_of p = record { name = p.name; cpu_budget = p.cpu_budget; memory_budget = p.memory_budget }

module _ {F : Type 0} where
  abbrev reported_one : Option String → ClusterObservation F → List Budgets → List Budgets
  reported_one none c rest =
      record {
        name = c.name;
        cpu_budget = c.computed_cpu_budget_percent;
        memory_budget = c.computed_memory_budget_percent;
      }
      ∷ rest
  reported_one (some error) c rest = rest

  -- The budgets that the observations without an error report.
  abbrev pub reported : List (ClusterObservation F) → List Budgets
  reported [] = []
  reported (c ∷ cs) = reported_one c.last_error c (reported cs)

module _ {C F : Type 0} where
  -- The name that a resolved target carries.
  abbrev pub name_of : ResolvedTarget C F → String
  name_of (read name client cpu_util mem_util cpu_alloc mem_alloc) = name
  name_of (failed name state error) = name

  -- Each target resolved under its own name, in order.
  abbrev pub Resolves : List TargetCluster → List (ResolvedTarget C F) → Type 0
  Resolves [] [] = Unit
  Resolves [] (r ∷ reads) = ⊥
  Resolves (target ∷ targets) [] = ⊥
  Resolves (target ∷ targets) (r ∷ reads) = (name_of r ≡ target.name) × Resolves targets reads

  -- A target that could not be read, and whether it is recorded with a lost state.
  abbrev pub IsFailed : ResolvedTarget C F → Type 0
  IsFailed (read name client cpu_util mem_util cpu_alloc mem_alloc) = ⊥
  IsFailed (failed name state error) = IsLost state

module _ {C : Type 0} (fl : Float) (spec : EqualizerConfigSpec) (cpu mem : List ComputedBudget)
    (now : String) where
  patches_of-eq :
      (targets : List TargetCluster) (reads : List (ResolvedTarget C fl.F))
      → Resolves targets reads
      → map budgets_of (patches_of fl spec cpu mem reads)
        ≡ reported (observations_of fl spec cpu mem now targets reads)
  unfolding patches_of observations_of build_observation
  patches_of-eq [] [] h = refl
  patches_of-eq [] (r ∷ reads) h = absurd h
  patches_of-eq (target ∷ targets) [] h = absurd h
  patches_of-eq (target ∷ targets) (read name client a b c d ∷ reads) (e, h) =
      rw (e, patches_of-eq targets reads h) refl
  patches_of-eq (target ∷ targets) (failed name state error ∷ reads) (e, h) =
      patches_of-eq targets reads h

module _ {C F : Type 0} (world : World C F) where
  on_capacity-name :
      (name : String) (client : C) (utils : F × F) (r : Result String (ℤ × ℤ))
      → name_of (on_capacity name client utils r) ≡ name
  on_capacity-name name client utils (ok totals) = refl
  on_capacity-name name client utils (err e) = refl

  on_allocation-name :
      (name : String) (client : C) (r : Result String (F × F))
      → name_of (on_allocation world name client r) ≡ name
  on_allocation-name name client (ok utils) = on_capacity-name name client utils _
  on_allocation-name name client (err e) = refl

  on_client-name : (name : String) (r : Result String C) → name_of (on_client world name r) ≡ name
  on_client-name name (ok client) = on_allocation-name name client _
  on_client-name name (err e) = refl

  on_kubeconfig-name :
      (target : TargetCluster) (o : Option String)
      → name_of (on_kubeconfig world target o) ≡ target.name
  on_kubeconfig-name target (some bytes) = on_client-name target.name _
  on_kubeconfig-name target none = refl

  on_secret-name :
      (target : TargetCluster) (r : Result String (Option (Dict String)))
      → name_of (on_secret world target r) ≡ target.name
  on_secret-name target (ok data_map) = on_kubeconfig-name target _
  on_secret-name target (err e) = refl

  resolve_target-name :
      (target : TargetCluster) → name_of (resolve_target world target) ≡ target.name
  unfolding resolve_target
  resolve_target-name target = on_secret-name target _

  resolve_target-Resolves :
      (targets : List TargetCluster) → Resolves targets (map (resolve_target world) targets)
  resolve_target-Resolves [] = tt
  resolve_target-Resolves (target ∷ targets) =
      (resolve_target-name target, resolve_target-Resolves targets)

-- What a target's kubeconfig Secret holds under the key of the reference.
abbrev kubeconfig_of : {C F : Type 0} → World C F → TargetCluster → Result String (Option String)
kubeconfig_of world target =
    let r = target.kubeconfig_secret_ref in
    do data_map ← world.secret r.namespace r.name; ok (and_then data_map (get r.key))

-- The patch carries the target's name, and the client built from its kubeconfig.
pub record IsSentTo {C F : Type 0} (world : World C F) (target : TargetCluster) (p : Patch C)
    : Type 0 where
  pub same_name : p.name ≡ target.name
  pub kubeconfig : String
  pub found : kubeconfig_of world target ≡ ok (some kubeconfig)
  pub built : world.client kubeconfig ≡ ok p.client

module _ {C F : Type 0} (world : World C F) (target : TargetCluster) where
  -- The client was built from the target's kubeconfig.
  abbrev Built : C → Type 0
  Built client =
      (kubeconfig : String) × (kubeconfig_of world target ≡ ok (some kubeconfig))
      × (world.client kubeconfig ≡ ok client)

  abbrev Uses : ResolvedTarget C F → Type 0
  Uses (read name client cpu_util mem_util cpu_alloc mem_alloc) =
      (name ≡ target.name) × Built client
  Uses (failed name state error) = Unit

  on_capacity-Uses :
      (client : C) (utils : F × F) (r : Result String (ℤ × ℤ))
      → Built client
      → Uses (on_capacity target.name client utils r)
  on_capacity-Uses client utils (ok totals) h = (refl, h)
  on_capacity-Uses client utils (err e) h = tt

  on_allocation-Uses :
      (client : C) (r : Result String (F × F))
      → Built client
      → Uses (on_allocation world target.name client r)
  on_allocation-Uses client (ok utils) h = on_capacity-Uses client utils _ h
  on_allocation-Uses client (err e) h = tt

  on_client-Uses :
      (kubeconfig : String) (r : Result String C)
      → kubeconfig_of world target ≡ ok (some kubeconfig)
      → world.client kubeconfig ≡ r
      → Uses (on_client world target.name r)
  on_client-Uses kubeconfig (ok client) found e = on_allocation-Uses client _ (kubeconfig, found, e)
  on_client-Uses kubeconfig (err x) found e = tt

  on_kubeconfig-Uses :
      (o : Option String) → kubeconfig_of world target ≡ ok o → Uses (on_kubeconfig world target o)
  on_kubeconfig-Uses (some kubeconfig) found = on_client-Uses kubeconfig _ found refl
  on_kubeconfig-Uses none found = tt

  on_secret-Uses :
      (r : Result String (Option (Dict String)))
      → world.secret (target.kubeconfig_secret_ref).namespace (target.kubeconfig_secret_ref).name
        ≡ r
      → Uses (on_secret world target r)
  on_secret-Uses (ok data_map) e = on_kubeconfig-Uses _ (rw e refl)
  on_secret-Uses (err x) e = tt

  resolve_target-Uses : Uses (resolve_target world target)
  unfolding resolve_target
  resolve_target-Uses = on_secret-Uses _ refl

All-map :
    {A : Type 0} (P Q : A → Type 0) → ((a : A) → P a → Q a) → (xs : List A) → All P xs → All Q xs
All-map P Q f [] h = tt
All-map P Q f (x ∷ xs) (h, hs) = (f x h, All-map P Q f xs hs)

module _ {C : Type 0} (fl : Float) (spec : EqualizerConfigSpec) (cpu mem : List ComputedBudget)
    (world : World C fl.F) where
  abbrev SentToOne : List TargetCluster → Patch C → Type 0
  SentToOne targets p = AnyOf (λ target. IsSentTo world target p) targets

  add_patch-AreSent :
      (target : TargetCluster) (r : ResolvedTarget C fl.F) (targets : List TargetCluster)
      (reads : List (ResolvedTarget C fl.F))
      → Uses world target r
      → All (SentToOne targets) (patches_of fl spec cpu mem reads)
      → All (SentToOne (target ∷ targets)) (patches_of fl spec cpu mem (r ∷ reads))
  unfolding patches_of
  add_patch-AreSent target (read name client a b c d) targets reads (e, (kubeconfig, found, built))
        h =
      (
        inl (record { same_name = e; kubeconfig = kubeconfig; found = found; built = built }),
        All-map _ _ (λ p sent. inr sent) _ h,
      )
  add_patch-AreSent target (failed name state error) targets reads u h =
      All-map _ _ (λ p sent. inr sent) _ h

  patches_of-AreSent :
      (targets : List TargetCluster)
      → All (SentToOne targets) (patches_of fl spec cpu mem (map (resolve_target world) targets))
  unfolding patches_of
  patches_of-AreSent [] = tt
  patches_of-AreSent (target ∷ targets) =
      add_patch-AreSent target (resolve_target world target) targets _
        (resolve_target-Uses world target) (patches_of-AreSent targets)

module _ {C : Type 0} (fl : Float) (world : World C fl.F) (spec : EqualizerConfigSpec)
    (now : String) where
  -- A reconcile patches exactly the clusters that its status reports without an error, in the order
  -- of the targets, each with the two budgets that the status reports for it, and each through the
  -- client that was built from the kubeconfig of a target of that name.
  pub reconcile-patches_reported :
      let (patches, status, failures) = reconcile fl world spec now in
      (map budgets_of patches ≡ reported status.clusters)
      × All (λ p. AnyOf (λ target. IsSentTo world target p) spec.targets) patches
  unfolding reconcile equalize_fleet
  reconcile-patches_reported = (
    patches_of-eq fl spec _ _ now spec.targets _ (resolve_target-Resolves world spec.targets),
    patches_of-AreSent fl spec _ _ world spec.targets,
  )
