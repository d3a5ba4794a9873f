-- ===== src/Verify/Degradation/Ending.antt =====
-- The degradation scenarios of bin/erw-verify/scenarios/degradation.rs come to an end.
use emergency_ration_webhook.Common.{
  ℕ, zero, suc, ◌+◌, ◌*◌, ◌≤◌, Option, none, some, Bool, true, false, Bool-cases, inl, inr, ◌≡◌,
  refl, arith, leb,
}
use emergency_ration_webhook.Common.Result.{Result, ok, err}
use emergency_ration_webhook.Common.Text.{codes, Text}
use emergency_ration_webhook.Crd.Allocation.{Allocation}
use emergency_ration_webhook.Verify.Degradation.{
  SubmitError, Site, Outcome, after_create, expect_unreachable, expect_capacity_unavailable,
  expect_stale,
}
use emergency_ration_webhook.Verify.Degradation.Restore.{
  is_healthy, Wait, after_check, await_health, drop_result, restore_readiness, is_fresh,
  await_fresh,
}
use emergency_ration_webhook.Verify.Degradation.Sequence.{
  with_world, clean_up, after_kill, s9, s10, backdate_last_updated, after_backdate, probe_stale,
  clean_up_stale, s11,
}
use emergency_ration_webhook.Verify.Degradation.Probing.{
  IsTimed, nothing_first, Refused, RefusedFrom, EndsWith, EndsWith-map, after_create-EndsWith,
  probe_rejection-EndsWith,
}

abbrev Ends : {A : Type 0} → Option A → Type 0
Ends {A} o = (a : A) × (o ≡ some a)

ok_unit : (u : Unit {0}) → ◌≡◌ {A = Result SubmitError Unit} (ok u) (ok tt)
ok_unit u = refl

module _ {F : Type 0} (site : Site F) (timely : IsTimed site) where
  open site use {World}

  is_healthy-now : (w : World) → site.now w ≤ site.now (is_healthy site w).1
  unfolding is_healthy
  is_healthy-now w =
      let first = timely.list-now w in
      let second = timely.endpoints-now (site.list_pods w).1 in
      let third = timely.get-now (site.get_endpoints (site.list_pods w).1).1 in ground arith

  is_fresh-now : (r : Result SubmitError (Allocation F)) (w : World) → (is_fresh site (r, w)).1 ≡ w
  is_fresh-now (ok allocation) w = refl
  is_fresh-now (err e) w = refl

  after_check-Ends :
      (c : Bool) (w : World) (rest : World → Wait site)
      → Ends (rest (site.sleep 2000 w))
      → Ends (after_check site (c, w) rest)
  after_check-Ends true w rest h = (_, refl)
  after_check-Ends false w rest h = h

  await_health-Ends :
      (fuel deadline : ℕ) (w : World)
      → deadline ≤ site.now w + fuel * 2000
      → Ends (await_health site (suc fuel) deadline w)
  unfolding await_health
  await_health-Ends zero deadline w h = elim (Bool-cases (leb deadline (site.now w))) [
    | inl late ↦ rw late (_, refl)
    | inr early ↦ ground arith
  ]
  await_health-Ends (suc fuel) deadline w h = elim (Bool-cases (leb deadline (site.now w))) [
    | inl late ↦ rw late (_, refl)
    | inr early ↦
        let checked = is_healthy site w in
        rw early (
          after_check-Ends checked.0 checked.1 (await_health site (suc fuel) deadline) (
            await_health-Ends fuel deadline (site.sleep 2000 checked.1)
              (omega (arith, is_healthy-now w, timely.sleep-now 2000 checked.1))))
  ]

  await_fresh-Ends :
      (fuel deadline : ℕ) (w : World)
      → deadline ≤ site.now w + fuel * 2000
      → Ends (await_fresh site (suc fuel) deadline w)
  unfolding await_fresh
  await_fresh-Ends zero deadline w h = elim (Bool-cases (leb deadline (site.now w))) [
    | inl late ↦ rw late (_, refl)
    | inr early ↦ ground arith
  ]
  await_fresh-Ends (suc fuel) deadline w h = elim (Bool-cases (leb deadline (site.now w))) [
    | inl late ↦ rw late (_, refl)
    | inr early ↦
        let answer = site.get_allocation w in
        let checked = is_fresh site answer in
        let same : checked.1 ≡ answer.1 = is_fresh-now answer.0 answer.1 in
        let later : site.now answer.1 ≤ site.now checked.1 = rw same (omega arith) in
        rw early (
          after_check-Ends checked.0 checked.1 (await_fresh site (suc fuel) deadline) (
            await_fresh-Ends fuel deadline (site.sleep 2000 checked.1)
              (omega (arith, timely.get-now w, timely.sleep-now 2000 checked.1))))
  ]

  drop_result-Ends : (o : Wait site) → Ends o → Ends (drop_result site o)
  drop_result-Ends o ((r, w), e) = rw e (w, refl)

  with_world-EndsWith :
      (P : Type 0) (outcome : Result Text Text) (o : Option World) (w : World)
      → Ends o
      → EndsWith site timely P (some (outcome, w))
      → EndsWith site timely P (with_world site outcome o)
  with_world-EndsWith P (ok detail) o w (v, e) h = rw e h
  with_world-EndsWith P (err x) o w (v, e) h = rw e tt

  restore_readiness-Ends : (w : World) → Ends (restore_readiness site 61 w)
  unfolding restore_readiness
  restore_readiness-Ends w = drop_result-Ends _ (await_health-Ends 60 _ w (omega arith))

  clean_up-EndsWith :
      (P : Type 0) (name : Text) (o : Outcome site)
      → EndsWith site timely P o
      → EndsWith site timely P (clean_up site 61 name o)
  clean_up-EndsWith P name none h = h
  clean_up-EndsWith P name (some (outcome, w)) h =
      with_world-EndsWith P outcome _ w (restore_readiness-Ends _) h

  backdate_last_updated-now : (w : World) → site.now w ≤ site.now (backdate_last_updated site w).1
  unfolding backdate_last_updated
  backdate_last_updated-now w = timely.patch-now _ w

  -- The pods of the webhook are deleted, and from there on the probe's pod is refused.
  abbrev pub S9Refused : World → Type 0
  S9Refused w =
      ((site.delete_webhook_pods w).0 ≡ ok tt)
      × RefusedFrom site timely (nothing_first site timely) (codes "erw-verify-s9")
          expect_unreachable (site.delete_webhook_pods w).1

  -- After the deletion of both singletons, whether or not it succeeded.
  abbrev pub S10Refused : World → Type 0
  S10Refused w =
      RefusedFrom site timely (nothing_first site timely) (codes "erw-verify-s10")
        expect_capacity_unavailable (site.delete_capacity (site.delete_allocation w).1).1

  -- Each submission right after the time stamp of the status was put back.
  abbrev pub S11Refused : World → Type 0
  S11Refused w =
      RefusedFrom site timely (backdate_last_updated site) (codes "erw-verify-s11") expect_stale w

  after_kill-EndsWith :
      (r : Result SubmitError Unit) (w : World)
      → EndsWith site timely
          ((r ≡ ok tt)
            × RefusedFrom site timely
                (nothing_first site timely)
                (codes "erw-verify-s9")
                expect_unreachable
                w)
          (after_kill site 61 (r, w))
  after_kill-EndsWith (ok deleted) w =
      let from =
        RefusedFrom site timely (nothing_first site timely) (codes "erw-verify-s9")
          expect_unreachable w in
      clean_up-EndsWith _ (codes "erw-verify-s9") _ (
        EndsWith-map site timely from
          ((◌≡◌ {A = Result SubmitError Unit} (ok deleted) (ok tt)) × from)
          (λ later. (ok_unit deleted, later)) _
          (probe_rejection-EndsWith site timely (codes "erw-verify-s9") expect_unreachable w))
  after_kill-EndsWith (err e) w = tt

  pub s9-EndsWith : (w : World) → EndsWith site timely (S9Refused w) (s9 site 61 w)
  unfolding s9
  s9-EndsWith w = after_kill-EndsWith (site.delete_webhook_pods w).0 (site.delete_webhook_pods w).1

  pub s10-EndsWith : (w : World) → EndsWith site timely (S10Refused w) (s10 site 61 w)
  unfolding s10
  s10-EndsWith w =
      clean_up-EndsWith _ (codes "erw-verify-s10") _ (
        probe_rejection-EndsWith site timely (codes "erw-verify-s10") expect_capacity_unavailable _)

  after_backdate-EndsWith :
      (P : Type 0) (r : Result SubmitError Unit) (u : World) (rest : World → Outcome site)
      → (r ≡ ok tt
          → EndsWith site timely P (
              after_create site
                (codes "erw-verify-s11")
                expect_stale
                (site.create_pod (codes "erw-verify-s11") u)
                rest))
      → EndsWith site timely P (after_backdate site (r, u) rest)
  after_backdate-EndsWith P (ok done) u rest h = h (ok_unit done)
  after_backdate-EndsWith P (err e) u rest h = tt

  probe_stale-EndsWith :
      (fuel deadline : ℕ) (w : World)
      → deadline ≤ site.now w + fuel * 500
      → EndsWith site timely
          (Refused site timely
            (backdate_last_updated site)
            (codes "erw-verify-s11")
            expect_stale
            deadline
            w)
          (probe_stale site (suc fuel) deadline w)
  unfolding probe_stale
  probe_stale-EndsWith zero deadline w h = elim (Bool-cases (leb deadline (site.now w))) [
    | inl late ↦ rw late tt
    | inr early ↦ ground arith
  ]
  probe_stale-EndsWith (suc fuel) deadline w h = elim (Bool-cases (leb deadline (site.now w))) [
    | inl late ↦ rw late tt
    | inr early ↦
        let patched = backdate_last_updated site w in
        let answer = site.create_pod (codes "erw-verify-s11") patched.1 in
        let gone = site.delete_pod (codes "erw-verify-s11") answer.1 in
        rw early (
          after_backdate-EndsWith _ patched.0 patched.1 (probe_stale site (suc fuel) deadline) (λ e.
            after_create-EndsWith site timely (backdate_last_updated site) (codes "erw-verify-s11")
              expect_stale deadline w (probe_stale site (suc fuel) deadline) (ground arith) e
              (probe_stale-EndsWith fuel deadline (site.sleep 500 gone.1) (
                omega (
                  arith,
                  backdate_last_updated-now w,
                  timely.create-now (codes "erw-verify-s11") patched.1,
                  timely.delete-now (codes "erw-verify-s11") answer.1,
                  timely.sleep-now 500 gone.1,
                )))))
  ]

  clean_up_stale-EndsWith :
      (P : Type 0) (o : Outcome site)
      → EndsWith site timely P o
      → EndsWith site timely P (clean_up_stale site 61 o)
  clean_up_stale-EndsWith P none h = h
  clean_up_stale-EndsWith P (some (outcome, w)) h =
      with_world-EndsWith P outcome _ w (drop_result-Ends _ (await_fresh-Ends 60 _ _ (omega arith)))
        h

  pub s11-EndsWith : (w : World) → EndsWith site timely (S11Refused w) (s11 site 61 w)
  unfolding s11
  s11-EndsWith w = clean_up_stale-EndsWith _ _ (probe_stale-EndsWith 60 _ w (omega arith))
