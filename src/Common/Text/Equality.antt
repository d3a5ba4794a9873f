-- ===== src/Common/Text/Equality.antt =====
-- The comparison of texts decides whether they are equal.
use mathlib.Core.Path.{◌≡◌, ◌∙◌, refl, sym}
use mathlib.Core.Logic.{inl, inr}
use mathlib.Core.Bool.{true, false}
use mathlib.Core.List.{[], ◌∷◌}
use native.Mathlib.Omega.{arith}
use emergency_ration_webhook.Common.Tests.{Bool-cases}
use emergency_ration_webhook.Common.Text.{Text, same}

pub same-eq : (s t : Text) → same s t ≡ true → s ≡ t
same-eq [] [] h = refl
same-eq [] (d ∷ t) h = cc
same-eq (c ∷ s) [] h = cc
same-eq (c ∷ s) (d ∷ t) h = ground (arith, same-eq s t)

pub same_refl : (s : Text) → same s s ≡ true
same_refl [] = refl
same_refl (c ∷ s) = ground (arith, same_refl s)

pub same-apart : (i j k : Text) → same i j ≡ false → same i k ≡ true → same j k ≡ false
same-apart i j k e h = elim (Bool-cases (same j k)) [
  | inl also ↦ let one : i ≡ j = same-eq i k h ∙ sym (same-eq j k also) in cc (e, one, same_refl j)
  | inr other ↦ other
]
