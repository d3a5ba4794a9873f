-- ===== src/Equalizer/Algorithm/Budgets.antt =====
-- The budgets that equalizer/algorithm.rs computes: one for each cluster, each a percentage.
use emergency_ration_webhook.Common.{
  ℕ, suc, ◌+◌, ◌-◌, ◌*◌, ◌/◌, ◌≤◌, ◌<◌, String, List, [], ◌∷◌, ◌++◌, map, Bool, true, false, All,
  ◌≡◌, ◌∙◌, refl, arith, if◌then◌else◌, length,
}
use emergency_ration_webhook.Common.Int.{ℤ, pos, ◌-ℤ◌, ◌*ℤ◌, tdiv, ◌≤ℤ◌, ltb_ℤ}
use emergency_ration_webhook.Common.Word.{clamp, wrap32, wrap32-eq, wrap128-eq}
use emergency_ration_webhook.Common.Float.{Float}
use emergency_ration_webhook.Equalizer.Algorithm.{
  ClusterResourceObservation, ComputedBudget, select, good_budget, good_result, Observation,
  is_over, clamp_float, frozen, overflow_abs, results, equalize,
}

abbrev pub IsPercent : ℤ → Type 0
IsPercent z = (pos 0 ≤ℤ z) × (z ≤ℤ pos 100)

good_budget-IsPercent :
    (target share allocatable : ℤ) → IsPercent (good_budget target share allocatable)
unfolding good_budget clamp
good_budget-IsPercent target share allocatable = ground arith

div_parts : (s a : ℕ) → tdiv (pos s) a ≡ pos (s / a)
unfolding tdiv
div_parts s a = ground arith

times_100 : (s : ℕ) → pos s *ℤ pos 100 ≡ pos (s * 100)
unfolding ◌*ℤ◌
times_100 s = ground arith

clamped_difference :
    (t r : ℕ)
    → t ≤ 100
    → r ≤ 2147483647
    → clamp (pos 0) (pos 100) (wrap32 (pos t -ℤ pos r)) ≡ pos (t - r)
unfolding clamp wrap32 ◌-ℤ◌
clamped_difference t r h k = ground arith

positive : (a : ℕ) → 1 ≤ a → ltb_ℤ (pos 0) (pos a) ≡ true
positive a h = ground arith

-- For a target `t` of at most 100, a share `s` of the overflow with s * 100 below 2^127, and a
-- capacity `a` above 0, where the share is at most 2^31 - 1 percent of the capacity: the budget is
-- the target less the whole percents that the share is of the capacity, and 0 where that is more
-- than the target.
pub good_budget-exact :
    (t s a : ℕ)
    → t ≤ 100
    → 1 ≤ a
    → s * 100 < 170141183460469231731687303715884105728
    → s * 100 / a ≤ 2147483647
    → good_budget (pos t) (pos s) (pos a) ≡ pos (t - s * 100 / a)
unfolding good_budget
good_budget-exact t s a ht ha hs hr =
    rw
      (
        positive a ha,
        times_100 s,
        wrap128-eq (s * 100) hs,
        div_parts (s * 100) a,
        wrap32-eq (pos (s * 100 / a)) (omega arith),
      )
      (clamped_difference t (s * 100 / a) ht hr)

wrapped_reduction :
    (r : ℕ) → 2147483648 ≤ r → r < 4294967296 → wrap32 (pos r) ≡ pos 0 -ℤ pos (4294967296 - r)
unfolding wrap32 ◌-ℤ◌
wrapped_reduction r h k = ground arith

clamped_increase :
    (t k : ℕ)
    → 100 ≤ k
    → t + k ≤ 2147483647
    → clamp (pos 0) (pos 100) (wrap32 (pos t -ℤ (pos 0 -ℤ pos k))) ≡ pos 100
unfolding clamp wrap32 ◌-ℤ◌
clamped_increase t k h b = ground arith

-- Where the share of the overflow is more than 2^31 + 100 and at most 2^32 - 100 percent of the
-- capacity of a good cluster, the budget of that cluster is 100, whatever the target from 0 to 100.
pub good_budget-wraps :
    (t s a : ℕ)
    → t ≤ 100
    → 1 ≤ a
    → s * 100 < 170141183460469231731687303715884105728
    → 2147483748 < s * 100 / a
    → s * 100 / a ≤ 4294967196
    → good_budget (pos t) (pos s) (pos a) ≡ pos 100
unfolding good_budget
good_budget-wraps t s a ht ha hs hlo hhi =
    rw
      (
        positive a ha,
        times_100 s,
        wrap128-eq (s * 100) hs,
        div_parts (s * 100) a,
        wrapped_reduction (s * 100 / a) (omega arith) (omega arith),
      )
      (clamped_increase t (4294967296 - s * 100 / a) (omega arith) (omega arith))

-- The number of entries with a name.
abbrev pub entries : {A : Type 0} → (A → Bool) → List A → ℕ
entries p [] = 0
entries p (x ∷ xs) = let rest = entries p xs in if p x then suc rest else rest

entries-append :
    {A : Type 0} (p : A → Bool) (xs ys : List A)
    → entries p (xs ++ ys) ≡ entries p xs + entries p ys
entries-append p [] ys = omega arith
entries-append p (x ∷ xs) ys = ground (arith, entries-append p xs ys)

entries-map :
    {A B : Type 0} (f : A → B) (p : B → Bool) (xs : List A)
    → entries p (map f xs) ≡ entries (λ x. p (f x)) xs
entries-map f p [] = refl
entries-map f p (x ∷ xs) = ground (arith, entries-map f p xs)

entries-select :
    {A : Type 0} (p q : A → Bool) (xs : List A)
    → entries p (select q true xs) + entries p (select q false xs) ≡ entries p xs
entries-select p q [] = omega arith
entries-select p q (x ∷ xs) = ground (arith, entries-select p q xs)

module _ (fl : Float) where
  results-entries :
      (target : ℤ) (p : String → Bool) (overs goods : List (Observation fl))
      → entries (λ b. p b.name) (results fl target overs goods)
        ≡ entries (λ o. p o.name) overs + entries (λ o. p o.name) goods
  results-entries target p overs [] = entries-map (frozen fl) (λ b. p b.name) overs ∙ omega arith
  results-entries target p overs (g ∷ gs) =
      let share = tdiv (overflow_abs fl target overs) (length (g ∷ gs)) in
      omega (
        arith,
        entries-append (λ b. p b.name) (map (frozen fl) overs)
            (map (good_result target share) (g ∷ gs)),
        entries-map (frozen fl) (λ b. p b.name) overs,
        entries-map (good_result target share) (λ b. p b.name) (g ∷ gs),
      )

  -- The budgets are those of the observed clusters, one for each: whatever set of names is counted,
  -- as many budgets as observations have a name in it.
  pub equalize-entries :
      (observations : List (Observation fl)) (target : ℤ) (p : String → Bool)
      → entries (λ b. p b.name) (equalize fl observations target)
        ≡ entries (λ o. p o.name) observations
  unfolding equalize
  equalize-entries observations target p =
      results-entries target p (select (is_over fl target) true observations)
        (select (is_over fl target) false observations)
      ∙ entries-select (λ o. p o.name) (is_over fl target) observations

-- A list of results whose budgets are percentages.
abbrev pub ArePercents : List ComputedBudget → Type 0
ArePercents = All (λ b. IsPercent b.budget_percent)

append-ArePercents :
    (xs ys : List ComputedBudget) → ArePercents xs → ArePercents ys → ArePercents (xs ++ ys)
append-ArePercents [] ys h k = k
append-ArePercents (x ∷ xs) ys (hx, h) k = (hx, append-ArePercents xs ys h k)

good-ArePercents :
    {F : Type 0} (target share : ℤ) (gs : List (ClusterResourceObservation F))
    → ArePercents (map (good_result target share) gs)
good-ArePercents target share [] = tt
good-ArePercents target share (g ∷ gs) =
    (good_budget-IsPercent target share g.total_allocatable, good-ArePercents target share gs)

-- A float held to 0..100 casts to an i32 in 0..100, NaN to 0.
abbrev pub CastsPercents : Float → Type 0
CastsPercents fl =
    (x : fl.F) → IsPercent (fl.to_i32 (clamp_float fl (fl.of_ℤ (pos 0)) (fl.of_ℤ (pos 100)) x))

module _ (fl : Float) (casts : CastsPercents fl) where
  frozen-ArePercents : (os : List (Observation fl)) → ArePercents (map (frozen fl) os)
  frozen-ArePercents [] = tt
  frozen-ArePercents (o ∷ os) = (casts (fl.floor o.utilization_percent), frozen-ArePercents os)

  results-ArePercents :
      (target : ℤ) (overs goods : List (Observation fl))
      → ArePercents (results fl target overs goods)
  results-ArePercents target overs [] = frozen-ArePercents overs
  results-ArePercents target overs (g ∷ gs) =
      append-ArePercents (map (frozen fl) overs)
        (map (good_result target (tdiv (overflow_abs fl target overs) (length (g ∷ gs)))) (g ∷ gs))
        (frozen-ArePercents overs) (good-ArePercents target _ (g ∷ gs))

  -- Where floats held to 0..100 cast to integers in 0..100, every budget is between 0 and 100,
  -- whatever the observations and the target.
  pub equalize-ArePercents :
      (observations : List (Observation fl)) (target : ℤ)
      → ArePercents (equalize fl observations target)
  unfolding equalize
  equalize-ArePercents observations target =
      results-ArePercents target (select (is_over fl target) true observations)
        (select (is_over fl target) false observations)
