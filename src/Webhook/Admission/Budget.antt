-- ===== src/Webhook/Admission/Budget.antt =====
-- What the budget check of webhook/admission.rs decides.
use emergency_ration_webhook.Common.{
  ◌≡◌, refl, ◌||◌, ◌↔◌, ◌⊎◌, inl, inr, List, [], ◌∷◌, Bool, true, any, arith, All,
}
use emergency_ration_webhook.Common.Int.{ℤ, ◌+ℤ◌, ◌≤ℤ◌, ◌<ℤ◌}
use emergency_ration_webhook.Common.Word.{i64_max, IsI64, saturating_add}
use emergency_ration_webhook.Webhook.Failure.{ResourceType, cpu, memory, BudgetViolation}
use emergency_ration_webhook.Webhook.Admission.{
  Figures, admit, deny, violation, violation_of, verdict_of, check_budget,
}
use emergency_ration_webhook.Webhook.Summary.{of_resource, within, same_resource, mark_over}

-- Below the largest ceiling, the saturating sum exceeds the ceiling only if the sum does.
saturating_add-le : (a r c : ℤ) → IsI64 c → c <ℤ i64_max → (saturating_add a r ≤ℤ c) ↔ (a +ℤ r ≤ℤ c)
unfolding saturating_add
saturating_add-le a r c h lt = ground arith

check_budget-eq-admit :
    (a r c : Figures)
    → (check_budget a r c ≡ admit)
      ↔ ((saturating_add a.0 r.0 ≤ℤ c.0) × (saturating_add a.1 r.1 ≤ℤ c.1))
unfolding check_budget violation_of
check_budget-eq-admit a r c = ground arith

-- For i64 ceilings below i64::MAX the check admits exactly when, in unbounded integers, the
-- allocation and the request together are at most the ceiling, for CPU and for memory.
pub check_budget-admit_iff :
    (a r c : Figures)
    → IsI64 c.0
    → IsI64 c.1
    → c.0 <ℤ i64_max
    → c.1 <ℤ i64_max
    → (check_budget a r c ≡ admit) ↔ ((a.0 +ℤ r.0 ≤ℤ c.0) × (a.1 +ℤ r.1 ≤ℤ c.1))
check_budget-admit_iff a r c h₀ h₁ l₀ l₁ = ground (
  arith,
  check_budget-eq-admit a r c,
  saturating_add-le a.0 r.0 c.0,
  saturating_add-le a.1 r.1 c.1,
)

-- The projection of one resource exceeds its ceiling.
abbrev pub Exceeds : ResourceType → Figures → Figures → Figures → Type 0
Exceeds k a r c = of_resource k c <ℤ saturating_add (of_resource k a) (of_resource k r)

-- The list names a resource.
abbrev pub names : ResourceType → List BudgetViolation → Bool
names k = any (λ v. same_resource v.resource k)

-- What a violation must say.
abbrev pub IsViolation : Figures → Figures → Figures → BudgetViolation → Type 0
IsViolation a r c v =
    (v.allocated ≡ of_resource v.resource a)
    × (v.requested ≡ of_resource v.resource r)
    × (v.projected ≡ saturating_add v.allocated v.requested)
    × (v.ceiling ≡ of_resource v.resource c)
    × (v.ceiling <ℤ v.projected)

pub verdict_of-eq-deny : (ws vs : List BudgetViolation) → verdict_of ws ≡ deny vs → ws ≡ vs
verdict_of-eq-deny [] vs h = cc
verdict_of-eq-deny (w ∷ ws) vs h = cc

-- The two lists that `violation_of` can return.
pub violation_of-cases :
    (k : ResourceType) (a r c : ℤ)
    → ((violation_of k a r c ≡ []) × ¬ (c <ℤ saturating_add a r))
      ⊎ ((violation_of k a r c ≡ violation k a r c ∷ []) × (c <ℤ saturating_add a r))
unfolding violation_of
violation_of-cases k a r c = ground arith

by_resource : (P : ResourceType → Type 0) → P cpu → P memory → (k : ResourceType) → P k
by_resource P p q cpu = p
by_resource P p q memory = q

-- A denial reports violations with the figures of the inputs, each over its ceiling, and names a
-- resource exactly when that resource exceeds its ceiling.
pub check_budget-deny_exact :
    (a r c : Figures) (vs : List BudgetViolation)
    → check_budget a r c ≡ deny vs
    → All (IsViolation a r c) vs × ((k : ResourceType) → (names k vs ≡ true) ↔ Exceeds k a r c)
unfolding check_budget
check_budget-deny_exact a r c vs h =
    let e = verdict_of-eq-deny _ vs h in
    rw (← e) (elim (violation_of-cases cpu a.0 r.0 c.0) [
      | inl (p, np) ↦ elim (violation_of-cases memory a.1 r.1 c.1) [
        | inl (q, nq) ↦ rw (p, q) (tt, by_resource _ (ground arith) (ground arith))
        | inr (q, y) ↦ rw (p, q) (ground arith, by_resource _ (ground arith) (ground arith))
      ]
      | inr (p, x) ↦ elim (violation_of-cases memory a.1 r.1 c.1) [
        | inl (q, nq) ↦ rw (p, q) (ground arith, by_resource _ (ground arith) (ground arith))
        | inr (q, y) ↦ rw (p, q) (ground arith, by_resource _ (ground arith) (ground arith))
      ]
    ])

-- In the summary of a denial a resource is marked as over exactly when its projected allocation,
-- as the summary shows it, exceeds the ceiling that the summary shows.
mark_over-check_budget :
    (k : ResourceType) (a r c : Figures) (total : ℤ) (vs : List BudgetViolation)
    → check_budget a r c ≡ deny vs
    → let f = mark_over vs (within k a r c total) in (f.over ≡ true) ↔ (f.ceiling <ℤ f.projected)
unfolding mark_over within
mark_over-check_budget k a r c total vs h = (check_budget-deny_exact a r c vs h).1 k

-- A denial names at least one resource.
pub check_budget-deny_names :
    (a r c : Figures) (vs : List BudgetViolation)
    → check_budget a r c ≡ deny vs
    → (names cpu vs ≡ true) ⊎ (names memory vs ≡ true)
unfolding check_budget
check_budget-deny_names a r c [] h = cc (verdict_of-eq-deny _ _ h)
check_budget-deny_names a r c (v ∷ vs) h = some_resource v.resource
  where
    some_resource :
        (k : ResourceType)
        → (same_resource k cpu || names cpu vs ≡ true)
          ⊎ (same_resource k memory || names memory vs ≡ true)
    some_resource cpu = inl refl
    some_resource memory = inr refl
