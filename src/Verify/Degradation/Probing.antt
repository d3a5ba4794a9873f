-- ===== src/Verify/Degradation/Probing.antt =====
-- The probing of bin/erw-verify/scenarios/degradation.rs ends, and what its success says.
use emergency_ration_webhook.Common.{
  ℕ, zero, suc, ◌+◌, ◌*◌, ◌≤◌, ◌<◌, String, none, some, Bool-cases, inl, inr, ◌≡◌, ◌⊎◌, refl, arith,
  leb,
}
use emergency_ration_webhook.Common.Result.{Result, ok, err, Result-cases}
use emergency_ration_webhook.Common.Text.{Text, lines}
use emergency_ration_webhook.Verify.Degradation.{
  SubmitError, api_status, transport, ProbeKind, expected, unexpected, first_line, rejection_detail,
  Site, classify_rejection, Outcome, after_create, probe, probe_rejection, probe_interval,
  probe_window,
}

-- The clock: a call takes no negative time, and a sleep takes at least its time.
pub record IsTimed {F : Type 0} (site : Site F) : Type 0 where
  pub create-now : (n : Text) (w : site.World) → site.now w ≤ site.now (site.create_pod n w).1
  pub delete-now : (n : Text) (w : site.World) → site.now w ≤ site.now (site.delete_pod n w).1
  pub list-now : (w : site.World) → site.now w ≤ site.now (site.list_pods w).1
  pub endpoints-now : (w : site.World) → site.now w ≤ site.now (site.get_endpoints w).1
  pub get-now : (w : site.World) → site.now w ≤ site.now (site.get_allocation w).1
  pub patch-now :
      (s : String) (w : site.World) → site.now w ≤ site.now (site.patch_last_updated s w).1
  pub sleep-now : (ms : ℕ) (w : site.World) → site.now w + ms ≤ site.now (site.sleep ms w)

ProbeKind-cases : (k : ProbeKind) → (k ≡ expected) ⊎ (k ≡ unexpected)
ProbeKind-cases expected = inl refl
ProbeKind-cases unexpected = inr refl

module _ {F : Type 0} (site : Site F) (timed : IsTimed site) where
  open site use {World}

  -- What a round of a probing begins with, before the submission.
  abbrev pub Prepare : Type 0
  Prepare = World → Result SubmitError Unit × World

  abbrev pub nothing_first : Prepare
  nothing_first w = (ok tt, w)

  -- The world after a round whose submission was admitted.
  abbrev pub next_round : Prepare → Text → World → World
  next_round prepare name w =
      site.sleep probe_interval (site.delete_pod name (site.create_pod name (prepare w).1).1).1

  -- From this world on, the rounds before the deadline submit the pod and have it admitted, until one
  -- has it refused by the API server with an answer whose first line is of the kind.
  pub data Refused (prepare : Prepare) (name : Text) (classify : Text → ProbeKind) (deadline : ℕ)
      : World → Type 0 where
    refused :
        (w : World) (code : ℕ) (message : Text)
        → site.now w < deadline
        → (prepare w).0 ≡ ok tt
        → (site.create_pod name (prepare w).1).0 ≡ err (api_status code message)
        → classify (first_line (lines message)) ≡ expected
        → Refused prepare name classify deadline w
    retried :
        (w : World)
        → site.now w < deadline
        → (prepare w).0 ≡ ok tt
        → (site.create_pod name (prepare w).1).0 ≡ ok tt
        → Refused prepare name classify deadline (next_round prepare name w)
        → Refused prepare name classify deadline w

  -- An outcome is there, and a success says that `P` holds.
  abbrev pub EndsWith : Type 0 → Outcome site → Type 0
  EndsWith P none = ⊥
  EndsWith P (some (ok detail, w)) = P
  EndsWith P (some (err e, w)) = Unit

  pub EndsWith-map : (P Q : Type 0) → (P → Q) → (o : Outcome site) → EndsWith P o → EndsWith Q o
  EndsWith-map P Q f none h = h
  EndsWith-map P Q f (some (ok detail, w)) h = f h
  EndsWith-map P Q f (some (err e, w)) h = tt

  classify_rejection-EndsWith :
      (prepare : Prepare) (name : Text) (classify : Text → ProbeKind) (deadline : ℕ) (v w : World)
      (e : SubmitError)
      → site.now v < deadline
      → (prepare v).0 ≡ ok tt
      → (site.create_pod name (prepare v).1).0 ≡ err e
      → EndsWith
          (Refused prepare name classify deadline v)
          (some (classify_rejection site e classify, w))
  unfolding classify_rejection rejection_detail
  classify_rejection-EndsWith prepare name classify deadline v w transport early ready h = tt
  classify_rejection-EndsWith prepare name classify deadline v w (api_status code message) early
        ready h =
      elim (ProbeKind-cases (classify (first_line (lines message)))) [
        | inl wanted ↦ rw wanted (refused v code message early ready h wanted)
        | inr other ↦ rw other tt
      ]

  pub after_create-EndsWith :
      (prepare : Prepare) (name : Text) (classify : Text → ProbeKind) (deadline : ℕ) (v : World)
      (rest : World → Outcome site)
      → site.now v < deadline
      → (prepare v).0 ≡ ok tt
      → EndsWith
          (Refused prepare name classify deadline (next_round prepare name v))
          (rest (next_round prepare name v))
      → EndsWith
          (Refused prepare name classify deadline v)
          (after_create site name classify (site.create_pod name (prepare v).1) rest)
  after_create-EndsWith prepare name classify deadline v rest early ready h =
      elim (Result-cases (site.create_pod name (prepare v).1).0) [
        | inl (done, e) ↦ rw e (EndsWith-map _ _ (λ later. retried v early ready e later) _ h)
        | inr (x, e) ↦
            rw e (classify_rejection-EndsWith prepare name classify deadline v _ x early ready e)
      ]

  probe-EndsWith :
      (fuel : ℕ) (name : Text) (classify : Text → ProbeKind) (deadline : ℕ) (w : World)
      → deadline ≤ site.now w + fuel * 500
      → EndsWith
          (Refused nothing_first name classify deadline w)
          (probe site (suc fuel) name classify deadline w)
  unfolding probe
  probe-EndsWith zero name classify deadline w h = elim (Bool-cases (leb deadline (site.now w))) [
    | inl late ↦ rw late tt
    | inr early ↦ ground arith
  ]
  probe-EndsWith (suc fuel) name classify deadline w h =
      elim (Bool-cases (leb deadline (site.now w))) [
        | inl late ↦ rw late tt
        | inr early ↦
            let answer = site.create_pod name w in
            let gone = site.delete_pod name answer.1 in
            rw early (
              after_create-EndsWith nothing_first name classify deadline w
                (probe site (suc fuel) name classify deadline) (ground arith) refl
                (probe-EndsWith fuel name classify deadline _ (
                  omega (
                    arith,
                    timed.create-now name w,
                    timed.delete-now name answer.1,
                    timed.sleep-now 500 gone.1,
                  ))))
      ]

  -- Refused within the window that begins in this world.
  abbrev pub RefusedFrom : Prepare → Text → (Text → ProbeKind) → World → Type 0
  RefusedFrom prepare name classify w = Refused prepare name classify (site.now w + probe_window) w

  -- Sixty-one submissions outlast the window of 30 seconds.
  pub probe_rejection-EndsWith :
      (name : Text) (classify : Text → ProbeKind) (w : World)
      → EndsWith
          (RefusedFrom nothing_first name classify w)
          (probe_rejection site 61 name classify w)
  unfolding probe_rejection
  probe_rejection-EndsWith name classify w = probe-EndsWith 60 name classify _ w (omega arith)
