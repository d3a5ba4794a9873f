-- ===== src/Verify/Degradation/Verdicts.antt =====
-- What the results of the degradation scenarios of bin/erw-verify/scenarios/degradation.rs say.
use emergency_ration_webhook.Common.{ℕ, String, Option, none, some, List, [], ◌∷◌, ◌≡◌, refl}
use emergency_ration_webhook.Common.Result.{ok, err}
use emergency_ration_webhook.Verify.Scenarios.{ScenarioResult, ScenarioStatus, pass, fail, skip}
use emergency_ration_webhook.Verify.Degradation.{Site, Outcome}
use emergency_ration_webhook.Verify.Degradation.Sequence.{s9, s10, s11, result_of, timed, run}
use emergency_ration_webhook.Verify.Degradation.Probing.{IsTimed, EndsWith}
use emergency_ration_webhook.Verify.Degradation.Ending.{
  S9Refused, S10Refused, S11Refused, s9-EndsWith, s10-EndsWith, s11-EndsWith,
}

-- A scenario passes only for a reason, and none is skipped.
abbrev pub Justified : Type 0 → ScenarioStatus → Type 0
Justified P pass = P
Justified P fail = Unit
Justified P skip = ⊥

module _ {F : Type 0} (site : Site F) (timely : IsTimed site) where
  open site use {World}

  -- A single result of this id, which `P` justifies.
  abbrev pub IsReported : Type 0 → String → ScenarioResult → Type 0
  IsReported P id r = (r.id ≡ id) × Justified P r.status

  -- A scenario that ran from one world to another with this result, and what its pass says.
  abbrev pub Ran :
      Option (ScenarioResult × World) → Type 0 → String → ScenarioResult → World → Type 0
  Ran o P id r v = (o ≡ some (r, v)) × IsReported P id r

  -- S9, S10 and S11 ran one after the other, from the first world to the last.
  abbrev pub AreReported : World → List ScenarioResult → World → Type 0
  AreReported w (a ∷ b ∷ c ∷ []) x =
      (u v : World) × Ran
        (timed site "S9" "webhook pods killed → admission rejected" (s9 site 61) w)
        (S9Refused site timely w) "S9" a u
      × Ran (timed site "S10" "CRD instances deleted → admission rejected" (s10 site 61) u)
          (S10Refused site timely u) "S10" b v
      × Ran (timed site "S11" "stale capacity → admission rejected" (s11 site 61) v)
          (S11Refused site timely v) "S11" c x
  AreReported w _ x = ⊥

  result_of-IsReported :
      (P : Type 0) (id name : String) (start : ℕ) (o : Outcome site)
      → EndsWith site timely P o
      → (r : ScenarioResult) × (v : World) × (result_of site id name start o ≡ some (r, v))
        × IsReported P id r
  result_of-IsReported P id name start none h = elim h [ ]
  result_of-IsReported P id name start (some (ok detail, w)) h = (_, _, refl, (refl, h))
  result_of-IsReported P id name start (some (err x, w)) h = (_, _, refl, (refl, tt))

  timed-IsReported :
      (P : Type 0) (id name : String) (body : World → Outcome site) (w : World)
      → EndsWith site timely P (body w)
      → (r : ScenarioResult) × (v : World) × (timed site id name body w ≡ some (r, v))
        × IsReported P id r
  unfolding timed
  timed-IsReported P id name body w h = result_of-IsReported P id name _ (body w) h

  -- Where no call takes negative time and a sleep takes at least its time, the run ends, each loop
  -- within 61 rounds, and reports the three scenarios in their order, each run in the world that the one
  -- before left. Where S9 passes, the deletion of the webhook's pods succeeded, and in the 30 seconds
  -- after it the pod was submitted and admitted some number of times, none or more, and then refused by
  -- the API server with an answer whose first line the scenario expects; where S10 passes, the same
  -- holds after its two deletions, and where S11 passes, of submissions each right after a successful
  -- backdating.
  pub run-AreReported :
      (w : World)
      → (results : List ScenarioResult) × (x : World) × (run site 61 w ≡ some (results, x))
        × AreReported w results x
  unfolding run
  run-AreReported w =
      let (a, u, e, ha) =
        timed-IsReported _ "S9" "webhook pods killed → admission rejected" (s9 site 61) w
          (s9-EndsWith site timely w) in
      let (b, v, f, hb) =
        timed-IsReported _ "S10" "CRD instances deleted → admission rejected" (s10 site 61) u
          (s10-EndsWith site timely u) in
      let (c, x, g, hc) =
        timed-IsReported _ "S11" "stale capacity → admission rejected" (s11 site 61) v
          (s11-EndsWith site timely v) in
      (a ∷ b ∷ c ∷ [], x, rw (e, f, g) refl, (u, v, (e, ha), (f, hb), (g, hc)))
