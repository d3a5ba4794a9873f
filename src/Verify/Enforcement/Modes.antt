-- ===== src/Verify/Enforcement/Modes.antt =====
-- The enforcement mode that the scenario S6 of bin/erw-verify/scenarios/enforcement.rs leaves behind.
use emergency_ration_webhook.Common.{
  ℕ, suc, ◌+◌, some, ◌++◌, Bool, true, false, ◌≡◌, ◌∙◌, refl, arith, leb, inl, inr, if◌then◌else◌,
}
use emergency_ration_webhook.Common.Result.{Result, ok, err, Result-cases}
use emergency_ration_webhook.Common.Task.{Outcome, attempt, pure, fail, continue-eq-ok}
use emergency_ration_webhook.Common.Text.{codes, Text}
use emergency_ration_webhook.K8s.{Pod}
use emergency_ration_webhook.Crd.Allocation.{EnforcementMode, enforce, dry_run}
use emergency_ration_webhook.Verify.Degradation.{SubmitError}
use emergency_ration_webhook.Verify.Enforcement.{
  Cluster, test_pod, is_denied_403, or_fail, create_pod, delete_pod, patch_enforcement,
}
use emergency_ration_webhook.Verify.Enforcement.Scenarios.{
  proxy_get, dry_run_deny_count, probe_dry_run, s6,
}

-- The stored mode: a patch that succeeds sets it, and what else S6 calls does not change it.
pub record TracksMode {F : Type 0} (cluster : Cluster F) : Type 0 where
  pub mode : cluster.World → EnforcementMode
  pub patch-ok :
      (m : EnforcementMode) (w : cluster.World)
      → (cluster.patch_mode m w).0 ≡ ok tt
      → mode (cluster.patch_mode m w).1 ≡ m
  pub create-keeps :
      (n : Text) (p : Pod) (w : cluster.World) → mode (cluster.create n p w).1 ≡ mode w
  pub delete-keeps : (n : Text) (w : cluster.World) → mode (cluster.delete n w).1 ≡ mode w
  pub proxy-keeps : (path : Text) (w : cluster.World) → mode (cluster.proxy_get path w).1 ≡ mode w

module _ {F : Type 0} (cluster : Cluster F) (tracks : TracksMode cluster) where
  open cluster use {World}

  -- The reading of the metrics comes back from the world after the one call.
  Returns : {A : Type 0} → World → Outcome World A → Type 0
  Returns {A} v o = (r : Result Text A) × (o ≡ some (r, v))

  dry_run_deny_count-Returns :
      (w : World) → Returns (cluster.proxy_get (codes "metrics") w).1 (dry_run_deny_count cluster w)
  unfolding Returns dry_run_deny_count proxy_get
  dry_run_deny_count-Returns w = elim (Result-cases (cluster.proxy_get (codes "metrics") w).0) [
    | inl (body, e) ↦ rw e (_, refl)
    | inr (x, e) ↦ rw e (_, refl)
  ]

  not_late : (n : ℕ) → leb (n + 15000) n ≡ false
  not_late n = ground arith

  -- Where the switch to dry-run succeeds and the API server then answers the submission with an error
  -- that is not a 403, S6 returns at once with that error, and the mode stays at dry-run, in which the
  -- webhook denies nothing.
  pub s6-leaves_dry_run :
      (fuel : ℕ) (w : World) (e : SubmitError)
      → (cluster.patch_mode dry_run w).0 ≡ ok tt
      → ((v : World)
          → (cluster.create (codes "erw-verify-s6") (test_pod "999" "999Gi") v).0 ≡ err e)
      → is_denied_403 e ≡ false
      → (v : World) × (s6 cluster (suc fuel) w
          ≡ some (err (codes "dry-run pod create: unexpected error " ++ cluster.display e), v))
        × (tracks.mode v ≡ dry_run)
  unfolding s6 patch_enforcement or_fail probe_dry_run create_pod delete_pod Returns
  s6-leaves_dry_run fuel w e switched refused other =
      let started = (cluster.patch_mode dry_run w).1 in
      let (count, returned) = dry_run_deny_count-Returns started in
      let scraped = (cluster.proxy_get (codes "metrics") started).1 in
      let answered = (cluster.create (codes "erw-verify-s6") (test_pod "999" "999Gi") scraped).1 in
      (
        (cluster.delete (codes "erw-verify-s6") answered).1,
        rw (switched, returned, not_late, refused, other) refl,
        tracks.delete-keeps (codes "erw-verify-s6") answered
            ∙ (tracks.create-keeps (codes "erw-verify-s6") (test_pod "999" "999Gi") scraped
                ∙ (tracks.proxy-keeps (codes "metrics") started
                    ∙ tracks.patch-ok dry_run w switched)),
      )

  -- A switch that succeeds sets the mode.
  switched :
      (m : EnforcementMode) (w : World) {a : Unit {0}} {v : World}
      → patch_enforcement cluster m w ≡ some (ok a, v)
      → tracks.mode v ≡ m
  unfolding patch_enforcement or_fail
  switched m w {v = v} h = elim (Result-cases (cluster.patch_mode m w).0) [
    | inl (done, e) ↦
        let same : (cluster.patch_mode m w).1 ≡ v = cc (rw e at h) in
        rw (← same) (tracks.patch-ok m w e)
    | inr (x, e) ↦ cc (rw e at h)
  ]

  -- The end of S6 changes nothing more.
  verdict-same :
      (c : Bool) (good bad : Text) {detail : Text} {u v : World}
      → (if c then pure good else fail bad) u ≡ some (ok detail, v)
      → u ≡ v
  verdict-same true good bad h = cc
  verdict-same false good bad h = cc

  -- When S6 passes, the stored mode is enforce.
  pub s6-IsRestored :
      (fuel : ℕ) (w : World) {detail : Text} {v : World}
      → s6 cluster fuel w ≡ some (ok detail, v)
      → tracks.mode v ≡ enforce
  unfolding s6
  s6-IsRestored fuel w {v = v} h =
      let (_, w₁, _, h₁) = continue-eq-ok (patch_enforcement cluster dry_run w) _ h in
      let (first, w₂, _, h₂) = continue-eq-ok (attempt (dry_run_deny_count cluster) w₁) _ h₁ in
      let (admitted, w₃, _, h₃) =
        continue-eq-ok (probe_dry_run cluster fuel (cluster.now w₂ + 15000) w₂) _ h₂ in
      let (last, w₄, _, h₄) = continue-eq-ok (attempt (dry_run_deny_count cluster) w₃) _ h₃ in
      let (_, w₅, back, h₅) = continue-eq-ok (patch_enforcement cluster enforce w₄) _ h₄ in
      let same : w₅ ≡ v = verdict-same _ _ _ h₅ in rw (← same) (switched enforce w₄ back)
