-- ===== src/Verify/Setup/Readiness.antt =====
-- The wait for readiness in bin/erw-verify/setup.rs ends, and what its success says.
use emergency_ration_webhook.Common.{
  ℕ, zero, suc, ◌+◌, ◌*◌, ◌≤◌, Option, none, some, List, true, Bool-cases, inl, inr, ◌≡◌, refl,
  arith, leb,
}
use emergency_ration_webhook.Common.Result.{Result, ok, err}
use emergency_ration_webhook.Common.Text.{Text}
use emergency_ration_webhook.Verify.Setup.{
  PodStatus, Site, Outcome, is_known, wait_for_ceiling, are_ready, after_list, wait_for_pods,
  wait_for_readiness,
}

-- The clock: a call takes no negative time, and a sleep takes at least its time.
pub record IsTimed {F : Type 0} (site : Site F) : Type 0 where
  pub list-now : (w : site.World) → site.now w ≤ site.now (site.list_pods w).1
  pub get-now : (w : site.World) → site.now w ≤ site.now (site.get_allocation w).1
  pub sleep-now : (ms : ℕ) (w : site.World) → site.now w + ms ≤ site.now (site.sleep ms w)

module _ {F : Type 0} (site : Site F) (timed : IsTimed site) where
  open site use {World}

  -- The last answer read before this world was an allocation with a positive ceiling.
  abbrev pub KnowsCeiling : World → Type 0
  KnowsCeiling w =
      (v : World) × (is_known site (site.get_allocation v).0 ≡ true)
      × ((site.get_allocation v).1 ≡ w)

  -- At some point the pods were listed, there were some, and all were ready.
  abbrev pub SawReadyPods : Type 0
  SawReadyPods =
      (v : World) × (items : List (Option PodStatus)) × ((site.list_pods v).0 ≡ ok items)
      × (are_ready site items ≡ true)

  -- An outcome is there, and a success says that `P` holds of its world.
  abbrev pub EndsWith : (World → Type 0) → Outcome site → Type 0
  EndsWith P none = ⊥
  EndsWith P (some (ok done, w)) = P w
  EndsWith P (some (err e, w)) = Unit

  wait_for_ceiling-EndsWith :
      (fuel deadline : ℕ) (w : World)
      → deadline ≤ site.now w + fuel * 2000
      → EndsWith KnowsCeiling (wait_for_ceiling site (suc fuel) deadline w)
  unfolding wait_for_ceiling
  wait_for_ceiling-EndsWith zero deadline w h = elim (Bool-cases (leb deadline (site.now w))) [
    | inl late ↦ rw late tt
    | inr early ↦ ground arith
  ]
  wait_for_ceiling-EndsWith (suc fuel) deadline w h =
      elim (Bool-cases (leb deadline (site.now w))) [
        | inl late ↦ rw late tt
        | inr early ↦ elim (Bool-cases (is_known site (site.get_allocation w).0)) [
          | inl known ↦ rw (early, known) (w, known, refl)
          | inr unknown ↦
              rw (early, unknown)
                (wait_for_ceiling-EndsWith fuel deadline _
                  (omega (arith, timed.get-now w, timed.sleep-now 2000 (site.get_allocation w).1)))
        ]
      ]

  Success : World → Type 0
  Success w = SawReadyPods × KnowsCeiling w

  -- What was seen before stays seen.
  with_pods : (o : Outcome site) → SawReadyPods → EndsWith KnowsCeiling o → EndsWith Success o
  unfolding Success
  with_pods none s h = h
  with_pods (some (ok done, w)) s h = (s, h)
  with_pods (some (err e, w)) s h = tt

  after_list-EndsWith :
      (v : World) (r : Result Text (List (Option PodStatus))) (w : World)
      (next rest : World → Outcome site)
      → (site.list_pods v).0 ≡ r
      → EndsWith KnowsCeiling (next w)
      → EndsWith Success (rest (site.sleep 2000 w))
      → EndsWith Success (after_list site (r, w) next rest)
  after_list-EndsWith v (ok items) w next rest e h k = elim (Bool-cases (are_ready site items)) [
    | inl ready ↦ rw ready (with_pods (next w) (v, items, e, ready) h)
    | inr waiting ↦ rw waiting k
  ]
  after_list-EndsWith v (err x) w next rest e h k = tt

  wait_for_pods-EndsWith :
      (fuel deadline : ℕ) (next : World → Outcome site) (w : World)
      → deadline ≤ site.now w + fuel * 2000
      → ((v : World) → site.now w ≤ site.now v → EndsWith KnowsCeiling (next v))
      → EndsWith Success (wait_for_pods site (suc fuel) deadline next w)
  unfolding wait_for_pods
  wait_for_pods-EndsWith zero deadline next w h k = elim (Bool-cases (leb deadline (site.now w))) [
    | inl late ↦ rw late tt
    | inr early ↦ ground arith
  ]
  wait_for_pods-EndsWith (suc fuel) deadline next w h k =
      elim (Bool-cases (leb deadline (site.now w))) [
        | inl late ↦ rw late tt
        | inr early ↦
            let listed : site.now w ≤ site.now (site.list_pods w).1 = timed.list-now w in
            let slept = timed.sleep-now 2000 (site.list_pods w).1 in
            rw early (
              after_list-EndsWith w (site.list_pods w).0 (site.list_pods w).1 next _ refl
                (k (site.list_pods w).1 listed)
                (wait_for_pods-EndsWith fuel deadline next _ (omega arith)
                  (λ v later. k v (omega arith))))
      ]

  -- Where no call takes negative time and a sleep takes at least its time, the wait ends, each of its
  -- loops within one round more than the timeout has seconds; and if it succeeds, then at some point
  -- there were pods and all were ready, and the last thing it did was to read an allocation whose
  -- ceiling of CPU is positive.
  pub wait_for_readiness-EndsWith :
      (timeout_secs : ℕ) (w : World)
      → EndsWith
          (λ v. SawReadyPods × KnowsCeiling v)
          (wait_for_readiness site (suc timeout_secs) timeout_secs w)
  unfolding wait_for_readiness Success
  wait_for_readiness-EndsWith timeout_secs w =
      wait_for_pods-EndsWith timeout_secs _ _ w (omega arith)
        (λ v later. wait_for_ceiling-EndsWith timeout_secs _ v (omega arith))
