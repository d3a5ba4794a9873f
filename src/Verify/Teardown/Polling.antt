-- ===== src/Verify/Teardown/Polling.antt =====
-- The polling of bin/erw-verify/teardown.rs ends, and what a successful teardown says.
use emergency_ration_webhook.Common.{
  ℕ, zero, suc, ◌+◌, ◌*◌, ◌≤◌, Option, some, List, [], ◌∷◌, false, Bool-cases, inl, inr, ◌≡◌, refl,
  arith, leb,
}
use emergency_ration_webhook.Common.Result.{Result, ok, err}
use emergency_ration_webhook.Common.Text.{Text}
use emergency_ration_webhook.Controllers.Singleton.{KubeError, is_not_found}
use emergency_ration_webhook.Verify.Teardown.{
  Target, Cluster, after_poll, poll, after_delete, delete_and_wait, try_delete, delete_all, targets,
  teardown,
}

-- The clock: a call takes no negative time, and a sleep takes at least its time.
pub record IsTimed (cluster : Cluster) : Type 0 where
  pub get-now : (t : Target) (w : cluster.World) → cluster.now w ≤ cluster.now (cluster.get t w).1
  pub sleep-now :
      (ms : ℕ) (w : cluster.World) → cluster.now w + ms ≤ cluster.now (cluster.sleep ms w)

abbrev pub Ends : {A : Type 0} → Option A → Type 0
Ends {A} o = (a : A) × (o ≡ some a)

module _ (cluster : Cluster) (timed : IsTimed cluster) where
  open cluster use {World}

  after_poll-Ends :
      (t : Target) (deadline : ℕ) (r : Result KubeError Unit × World)
      (rest : World → Option (Result Text Unit × World))
      → (leb deadline (cluster.now r.1) ≡ false → Ends (rest (cluster.sleep 2000 r.1)))
      → Ends (after_poll cluster t deadline r rest)
  after_poll-Ends t deadline (ok there, w) rest h =
      elim (Bool-cases (leb deadline (cluster.now w))) [
        | inl late ↦ rw late (_, refl)
        | inr early ↦ rw early (h early)
      ]
  after_poll-Ends t deadline (err e, w) rest h = elim (Bool-cases (is_not_found e)) [
    | inl gone ↦ rw gone (_, refl)
    | inr failed ↦ rw failed (_, refl)
  ]

  poll-Ends :
      (fuel : ℕ) (t : Target) (deadline : ℕ) (w : World)
      → deadline ≤ cluster.now w + fuel * 2000
      → Ends (poll cluster (suc fuel) t deadline w)
  unfolding poll
  poll-Ends zero t deadline w h =
      after_poll-Ends t deadline (cluster.get t w) _ (λ early. ground (arith, timed.get-now t w))
  poll-Ends (suc fuel) t deadline w h = after_poll-Ends t deadline (cluster.get t w) _ (λ early.
      poll-Ends fuel t deadline _
        (omega (arith, timed.get-now t w, timed.sleep-now 2000 (cluster.get t w).1)))

  after_delete-Ends :
      (t : Target) (r : Result KubeError Unit × World) → Ends (after_delete cluster 91 t r)
  after_delete-Ends t (ok done, w) = poll-Ends 90 t _ w (omega arith)
  after_delete-Ends t (err e, w) = elim (Bool-cases (is_not_found e)) [
    | inl gone ↦ rw gone (_, refl)
    | inr failed ↦ rw failed (_, refl)
  ]

  delete_and_wait-Ends : (t : Target) (w : World) → Ends (delete_and_wait cluster 91 t w)
  unfolding delete_and_wait
  delete_and_wait-Ends t w = after_delete-Ends t (cluster.delete t w)

  delete_all-Ends :
      (ts : List Target) (errors : List Text) (w : World) → Ends (delete_all cluster 91 ts errors w)
  unfolding delete_all try_delete
  delete_all-Ends [] errors w = (_, refl)
  delete_all-Ends (t ∷ ts) errors w =
      let ((r, w'), e) = delete_and_wait-Ends t w in rw e (delete_all-Ends ts _ w')

  -- Where no call takes negative time and a sleep takes at least its time, the teardown ends: no
  -- deletion is polled more than 91 times before it is done, fails or is given up after 180 seconds.
  pub teardown-Ends : (w : World) → Ends (teardown cluster 91 w)
  unfolding teardown
  teardown-Ends w = let (progress, e) = delete_all-Ends targets [] w in rw e (_, refl)
