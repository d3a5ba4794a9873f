-- ===== src/Verify/Teardown/Removal.antt =====
-- What a teardown of bin/erw-verify/teardown.rs that reports success has removed.
use emergency_ration_webhook.Common.{
  ℕ, zero, suc, ◌++◌, Option, none, some, List, [], ◌∷◌, All, true, Bool-cases, inl, inr, ◌≡◌, refl,
  arith, leb,
}
use emergency_ration_webhook.Common.Result.{Result, ok, err}
use emergency_ration_webhook.Common.Text.{Text}
use emergency_ration_webhook.Controllers.Singleton.{KubeError, is_not_found}
use emergency_ration_webhook.Verify.Teardown.{
  Target, Cluster, after_poll, poll, after_delete, delete_and_wait, note_result, Progress, and_next,
  try_delete, delete_all, targets, conclude, teardown,
}

-- The API server tells the truth: an answer of 404 means that the object is not there, and nobody
-- brings an object back during the teardown.
pub record IsTruthful (cluster : Cluster) : Type 1 where
  pub Gone : Target → cluster.World → Type 0
  pub delete-Gone :
      (t : Target) (w : cluster.World) {e : KubeError}
      → (cluster.delete t w).0 ≡ err e
      → is_not_found e ≡ true
      → Gone t (cluster.delete t w).1
  pub get-Gone :
      (t : Target) (w : cluster.World) {e : KubeError}
      → (cluster.get t w).0 ≡ err e
      → is_not_found e ≡ true
      → Gone t (cluster.get t w).1
  pub delete-stays : (t u : Target) (w : cluster.World) → Gone t w → Gone t (cluster.delete u w).1
  pub get-stays : (t u : Target) (w : cluster.World) → Gone t w → Gone t (cluster.get u w).1
  pub sleep-stays :
      (t : Target) (ms : ℕ) (w : cluster.World) → Gone t w → Gone t (cluster.sleep ms w)

append_some : {A : Type 0} (xs : List A) (x : A) → (xs ++ x ∷ []) ≡ [] → ⊥
append_some [] x h = cc
append_some (y ∷ xs) x h = cc

conclude-ok :
    (cluster : Cluster) (p : Progress cluster) (w : cluster.World)
    → conclude cluster p ≡ some (ok tt, w)
    → p ≡ some ([], w)
conclude-ok cluster none w h = cc
conclude-ok cluster (some ([], v)) w h = cc
conclude-ok cluster (some (e ∷ es, v)) w h = cc

module _ (cluster : Cluster) (truthful : IsTruthful cluster) where
  open cluster use {World}
  open truthful use {Gone}

  -- What a deletion leaves: the object is gone where it succeeds, and an object that was gone before
  -- is gone.
  abbrev Leaves : Target → World → Option (Result Text Unit × World) → Type 0
  Leaves t w none = Unit
  Leaves t w (some (r, w')) = (r ≡ ok tt → Gone t w') × ((u : Target) → Gone u w → Gone u w')

  Leaves-from :
      (t : Target) (w w' : World) (o : Option (Result Text Unit × World))
      → ((u : Target) → Gone u w → Gone u w')
      → Leaves t w' o
      → Leaves t w o
  Leaves-from t w w' none k h = tt
  Leaves-from t w w' (some (r, v)) k (gone, keeps) = (gone, λ u g. keeps u (k u g))

  after_poll-Leaves :
      (t : Target) (deadline : ℕ) (r : Result KubeError Unit) (w w' : World)
      (rest : World → Option (Result Text Unit × World))
      → ((e : KubeError) → r ≡ err e → is_not_found e ≡ true → Gone t w')
      → ((u : Target) → Gone u w → Gone u w')
      → Leaves t (cluster.sleep 2000 w') (rest (cluster.sleep 2000 w'))
      → Leaves t w (after_poll cluster t deadline (r, w') rest)
  after_poll-Leaves t deadline (ok there) w w' rest g k h =
      elim (Bool-cases (leb deadline (cluster.now w'))) [
        | inl late ↦ rw late ((λ bad. cc), k)
        | inr early ↦ rw early (
            Leaves-from t w (cluster.sleep 2000 w') (rest (cluster.sleep 2000 w'))
              (λ u gone. truthful.sleep-stays u 2000 w' (k u gone)) h)
      ]
  after_poll-Leaves t deadline (err e) w w' rest g k h = elim (Bool-cases (is_not_found e)) [
    | inl gone ↦ rw gone ((λ _. g e refl gone), k)
    | inr failed ↦ rw failed ((λ bad. cc), k)
  ]

  poll-Leaves :
      (fuel : ℕ) (t : Target) (deadline : ℕ) (w : World)
      → Leaves t w (poll cluster fuel t deadline w)
  unfolding poll
  poll-Leaves zero t deadline w = tt
  poll-Leaves (suc fuel) t deadline w =
      after_poll-Leaves t deadline (cluster.get t w).0 w (cluster.get t w).1 _
        (λ e h g. truthful.get-Gone t w h g) (λ u g. truthful.get-stays u t w g)
        (poll-Leaves fuel t deadline _)

  after_delete-Leaves :
      (fuel : ℕ) (t : Target) (r : Result KubeError Unit) (w w' : World)
      → ((e : KubeError) → r ≡ err e → is_not_found e ≡ true → Gone t w')
      → ((u : Target) → Gone u w → Gone u w')
      → Leaves t w (after_delete cluster fuel t (r, w'))
  after_delete-Leaves fuel t (ok done) w w' g k = Leaves-from t w w' _ k (poll-Leaves fuel t _ w')
  after_delete-Leaves fuel t (err e) w w' g k = elim (Bool-cases (is_not_found e)) [
    | inl gone ↦ rw gone ((λ _. g e refl gone), k)
    | inr failed ↦ rw failed ((λ bad. cc), k)
  ]

  delete_and_wait-Leaves :
      (fuel : ℕ) (t : Target) (w : World) → Leaves t w (delete_and_wait cluster fuel t w)
  unfolding delete_and_wait
  delete_and_wait-Leaves fuel t w =
      after_delete-Leaves fuel t (cluster.delete t w).0 w (cluster.delete t w).1
        (λ e h g. truthful.delete-Gone t w h g) (λ u g. truthful.delete-stays u t w g)

  -- What is left by a run of deletions that ends without an error.
  Cleared : List Target → List Text → World → Progress cluster → Type 0
  Cleared ts errors w progress =
      (w' : World)
      → progress ≡ some ([], w')
      → (errors ≡ []) × All (λ t. Gone t w') ts × ((u : Target) → Gone u w → Gone u w')

  and_next-Cleared :
      (t : Target) (ts : List Target) (errors : List Text) (w : World)
      (o : Option (Result Text Unit × World)) (k : List Text → World → Progress cluster)
      → Leaves t w o
      → ((errs : List Text) (v : World) → Cleared ts errs v (k errs v))
      → Cleared (t ∷ ts) errors w (and_next cluster (note_result cluster t errors o) k)
  unfolding Cleared
  and_next-Cleared t ts errors w none k l h w' e = cc
  and_next-Cleared t ts errors w (some (ok tt, v)) k (gone, keeps) h w' e =
      let (none_yet, rest, on) = h errors v w' e in
      (none_yet, (on t (gone refl), rest), λ u g. on u (keeps u g))
  and_next-Cleared t ts errors w (some (err x, v)) k l h w' e =
      let (empty, _, _) = h _ v w' e in ground (arith, append_some errors _ empty)

  delete_all-Cleared :
      (fuel : ℕ) (ts : List Target) (errors : List Text) (w : World)
      → Cleared ts errors w (delete_all cluster fuel ts errors w)
  unfolding delete_all try_delete Cleared
  delete_all-Cleared fuel [] errors w =
      λ w' e. let same : w ≡ w' = cc in (cc, tt, λ u g. rw (← same) g)
  delete_all-Cleared fuel (t ∷ ts) errors w =
      and_next-Cleared t ts errors w (delete_and_wait cluster fuel t w) _
        (delete_and_wait-Leaves fuel t w) (delete_all-Cleared fuel ts)

  -- On a server that tells the truth, a teardown that reports success leaves none of its twelve
  -- objects behind.
  pub teardown-Gone :
      (fuel : ℕ) (w w' : World)
      → teardown cluster fuel w ≡ some (ok tt, w')
      → All (λ t. Gone t w') targets
  unfolding teardown Cleared
  teardown-Gone fuel w w' h =
      let (_, gone, _) = delete_all-Cleared fuel targets [] w w' (conclude-ok cluster _ w' h) in
      gone
