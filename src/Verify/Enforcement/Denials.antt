-- ===== src/Verify/Enforcement/Denials.antt =====
-- The scenario S9 of bin/erw-verify/scenarios/enforcement.rs against the messages of webhook/error.rs.
use mathlib.Core.List.{append-nil}
use emergency_ration_webhook.Common.{
  ℕ, String, List, Bool, [], ◌∷◌, ◌++◌, true, false, ◌&&◌, ◌≡◌, ◌↔◌, ◌∙◌, inl, inr, refl, ap, sym,
  arith,
}
use emergency_ration_webhook.Common.Lists.{All}
use emergency_ration_webhook.Common.Text.{Text, codes, contains, lines, show_ℤ}
use emergency_ration_webhook.Common.Text.Decimal.{codes-append}
use emergency_ration_webhook.Common.Text.Search.{
  contains-append, contains-absent, head_line, head_line-append, head_line-same, IsPlain,
  append-IsPlain, codes-IsPlain, show_ℤ-IsPlain,
}
use emergency_ration_webhook.Webhook.Failure.{
  cpu, memory, BudgetViolation, message_line, join_lines, over_budget, message, ◌<>◌,
}
use emergency_ration_webhook.Webhook.Admission.{
  Figures, deny, check_budget, violation, violation_of,
}
use emergency_ration_webhook.Webhook.Admission.Budget.{
  Exceeds, verdict_of-eq-deny, violation_of-cases,
}
use emergency_ration_webhook.Verify.Degradation.{first_line}
use emergency_ration_webhook.Verify.Enforcement.Scenarios.{is_memory_only}

-- A text in pieces.
abbrev concat : String → List String → String
concat s [] = s
concat s (t ∷ ts) = s <> concat t ts

concat-IsPlain :
    (s : String) (ts : List String)
    → IsPlain (codes s)
    → All (λ t. IsPlain (codes t)) ts
    → IsPlain (codes (concat s ts))
concat-IsPlain s [] h k = h
concat-IsPlain s (t ∷ ts) h (k, ks) = codes-IsPlain s (concat t ts) h (concat-IsPlain t ts k ks)

-- The line of a violation behind the name of its resource.
abbrev figures_pieces : String → BudgetViolation → List String
figures_pieces unit v =
    show_ℤ v.allocated
    ∷ unit
    ∷ ", requested "
    ∷ show_ℤ v.requested
    ∷ unit
    ∷ ", projected "
    ∷ show_ℤ v.projected
    ∷ unit
    ∷ ", ceiling "
    ∷ show_ℤ v.ceiling
    ∷ unit
    ∷ []

abbrev figures_text : String → BudgetViolation → String
figures_text unit v = concat " budget exceeded: allocated " (figures_pieces unit v)

figures_text-IsPlain :
    (unit : String) (v : BudgetViolation)
    → IsPlain (codes unit)
    → IsPlain (codes (figures_text unit v))
figures_text-IsPlain unit v u =
    concat-IsPlain " budget exceeded: allocated " (figures_pieces unit v) (refl, refl, refl)
      (
        show_ℤ-IsPlain v.allocated,
        (
          u,
          (
            (refl, refl, refl),
            (
              show_ℤ-IsPlain v.requested,
              (
                u,
                (
                  (refl, refl, refl),
                  (
                    show_ℤ-IsPlain v.projected,
                    (u, ((refl, refl, refl), (show_ℤ-IsPlain v.ceiling, (u, tt)))),
                  ),
                ),
              ),
            ),
          ),
        ),
      )

message_line-memory :
    (v : BudgetViolation)
    → v.resource ≡ memory
    → message_line v ≡ "memory" <> figures_text " bytes" v
unfolding message_line
message_line-memory v h = rw h refl

message_line-cpu :
    (v : BudgetViolation) → v.resource ≡ cpu → message_line v ≡ "CPU" <> figures_text "m" v
unfolding message_line
message_line-cpu v h = rw h refl

-- The first line that the API server hands on, which may put a text before the message.
abbrev pub seen : Text → Text → Text
seen before message = first_line (lines (before ++ message))

first_line-head : (c : ℕ) (s : Text) → first_line (lines (c ∷ s)) ≡ head_line (lines (c ∷ s))
unfolding lines
first_line-head c [] = ground arith
first_line-head c (d ∷ s) = ground arith

seen-head :
    (before : Text) (c : ℕ) (s : Text) → seen before (c ∷ s) ≡ head_line (lines (before ++ c ∷ s))
seen-head [] c s = first_line-head c s
seen-head (b ∷ before) c s = first_line-head b (before ++ c ∷ s)

seen-line :
    (before : Text) (c : ℕ) (s : Text)
    → IsPlain before
    → seen before (c ∷ s) ≡ before ++ head_line (lines (c ∷ s))
seen-line before c s (_, feed, return) =
    seen-head before c s ∙ head_line-append before (c ∷ s) feed return

seen-plain :
    (before line : Text) (c : ℕ) (s : Text)
    → line ≡ c ∷ s
    → IsPlain before
    → IsPlain line
    → seen before line ≡ before ++ line
seen-plain before line c s e h (_, feed, return) =
    rw e (seen-line before c s h) ∙ ap (before ++◌) (head_line-same line feed return)

-- The two parts of a line: what S9 looks for, and the figures.
abbrev figures_tail : String → BudgetViolation → Text
figures_tail unit v = codes (
    concat (show_ℤ v.allocated) (
      unit
      ∷ ", requested "
      ∷ show_ℤ v.requested
      ∷ unit
      ∷ ", projected "
      ∷ show_ℤ v.projected
      ∷ unit
      ∷ ", ceiling "
      ∷ show_ℤ v.ceiling
      ∷ unit
      ∷ []))

codes-line :
    (name unit : String) (v : BudgetViolation)
    → codes (name <> figures_text unit v)
      ≡ codes name ++ (codes " budget exceeded: allocated " ++ figures_tail unit v)
codes-line name unit v =
    codes-append name (figures_text unit v)
    ∙ ap (codes name ++◌) (codes-append " budget exceeded: allocated " _)

-- A line about memory alone.
memory_line-is_memory_only :
    (before : Text) (v : BudgetViolation)
    → IsPlain before
    → v.resource ≡ memory
    → is_memory_only (seen before (codes (message_line v))) ≡ true
unfolding is_memory_only
memory_line-is_memory_only before v h e =
    let line = codes ("memory" <> figures_text " bytes" v) in
    let plain : IsPlain line =
      codes-IsPlain "memory" (figures_text " bytes" v) (refl, refl, refl)
        (figures_text-IsPlain " bytes" v (refl, refl, refl)) in
    let whole : seen before line ≡ before ++ line =
      seen-plain before line 109
        (codes "emory" ++ (codes " budget exceeded: allocated " ++ figures_tail " bytes" v))
        (codes-line "memory" " bytes" v) h plain in
    let found : contains (codes "memory budget exceeded") (before ++ line) ≡ true =
      rw (codes-line "memory" " bytes" v)
        (contains-append (codes "memory budget exceeded") before _ refl) in
    let absent : contains (codes "CPU budget exceeded") (before ++ line) ≡ false =
      contains-absent 67 (codes "PU budget exceeded") (before ++ line)
        (append-IsPlain before line h plain).0 in
    rw (message_line-memory v e, whole, found, absent) refl

no_use : (b : Bool) → (b && false) ≡ false
no_use b = ground arith

-- A line about CPU, whatever follows it.
cpu_line-is_memory_only :
    (before rest : Text) (v : BudgetViolation)
    → IsPlain before
    → v.resource ≡ cpu
    → is_memory_only (seen before (codes (message_line v) ++ rest)) ≡ false
unfolding is_memory_only
cpu_line-is_memory_only before rest v h e =
    let named = codes "CPU" ++ codes " budget exceeded: allocated " in
    let tail = figures_tail "m" v ++ rest in
    let whole : seen before (codes (message_line v) ++ rest)
        ≡ before ++ (named ++ head_line (lines tail)) =
      rw (message_line-cpu v e, codes-line "CPU" "m" v)
        (seen-line before 67 (codes "PU" ++ (codes " budget exceeded: allocated " ++ tail)) h
          ∙ ap (before ++◌) (head_line-append named tail refl refl)) in
    let found : contains (codes "CPU budget exceeded") (before ++ (named ++ head_line (lines tail)))
        ≡ true =
      contains-append (codes "CPU budget exceeded") before (named ++ head_line (lines tail)) refl in
    rw (whole, found)
      (no_use
        (contains (codes "memory budget exceeded") (before ++ (named ++ head_line (lines tail)))))

-- Where CPU is exceeded, the text is not taken, as it should be.
cpu_only :
    {P : Type 0} (before text rest : Text) (v : BudgetViolation)
    → IsPlain before
    → v.resource ≡ cpu
    → text ≡ codes (message_line v) ++ rest
    → P
    → (is_memory_only (seen before text) ≡ true) ↔ ¬ P
cpu_only before text rest v plain e same x =
    let taken = cpu_line-is_memory_only before rest v plain e in
    ((λ t. cc taken), λ n. absurd (n x))

-- What the API server puts before the message holds no capital C and no line end: then S9 takes the
-- first line of the webhook's denial as one for memory alone exactly when the CPU projection is within
-- its ceiling.
pub check_budget-is_memory_only :
    (before : Text) (a r c : Figures) (vs : List BudgetViolation)
    → IsPlain before
    → check_budget a r c ≡ deny vs
    → (is_memory_only (seen before (codes (message (over_budget vs)))) ≡ true) ↔ ¬ Exceeds cpu a r c
unfolding check_budget message join_lines
check_budget-is_memory_only before a r c vs plain h =
    let e =
      verdict_of-eq-deny (violation_of cpu a.0 r.0 c.0 ++ violation_of memory a.1 r.1 c.1) vs h in
    let over_cpu = violation cpu a.0 r.0 c.0 in
    let over_memory = violation memory a.1 r.1 c.1 in
    rw (← e) (elim (violation_of-cases cpu a.0 r.0 c.0) [
      | inl (p, np) ↦ elim (violation_of-cases memory a.1 r.1 c.1) [
        | inl (q, nq) ↦ cc (rw (p, q) at h)
        | inr (q, y) ↦
            rw (p, q) ((λ _. np), λ _. memory_line-is_memory_only before over_memory plain refl)
      ]
      | inr (p, x) ↦ elim (violation_of-cases memory a.1 r.1 c.1) [
        | inl (q, nq) ↦ rw (p, q) (cpu_only before _ [] over_cpu plain refl (sym (append-nil _)) x)
        | inr (q, y) ↦
            rw (p, q)
              (cpu_only before _ _ over_cpu plain refl (codes-append (message_line over_cpu) _) x)
      ]
    ])
