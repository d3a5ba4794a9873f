-- ===== src/Config/Flags.antt =====
-- Which value of a flag src/config.rs reads from the command line.
use emergency_ration_webhook.Common.{
  some, List, [], ◌∷◌, ◌++◌, false, Bool-cases, inl, inr, ◌≡◌, ◌↔◌, ap, refl, arith,
}
use emergency_ration_webhook.Common.Lists.{any}
use emergency_ration_webhook.Common.Text.{Text, same}
use emergency_ration_webhook.Common.Text.Equality.{same-eq, same_refl}
use emergency_ration_webhook.Config.{cli_value}

-- The first occurrence of the flag has the value right behind it.
abbrev pub Gives : List Text → Text → Text → Type 0
Gives args flag value =
    (before : List Text) × (after : List Text) × (args ≡ before ++ flag ∷ value ∷ after)
    × (any (λ arg. same arg flag) before ≡ false)

cli_value_found :
    (before after : List Text) (flag value : Text)
    → any (λ arg. same arg flag) before ≡ false
    → cli_value (before ++ flag ∷ value ∷ after) flag ≡ some value
unfolding cli_value
cli_value_found [] after flag value h = rw (same_refl flag) refl
cli_value_found (arg ∷ before) after flag value h =
    ground (arith, cli_value_found before after flag value)

cli_value_sound :
    (args : List Text) (flag value : Text)
    → cli_value args flag ≡ some value
    → Gives args flag value
unfolding cli_value
cli_value_sound [] flag value h = cc
cli_value_sound (arg ∷ []) flag value h = ground arith
cli_value_sound (arg ∷ v ∷ rest) flag value h = elim (Bool-cases (same arg flag)) [
  | inl e ↦ ([], rest, cc (same-eq arg flag e, rw e at h), refl)
  | inr e ↦
      let (before, after, split, absent) = cli_value_sound (v ∷ rest) flag value (rw e at h) in
      (arg ∷ before, after, ap (◌∷◌ arg) split, rw e absent)
]

-- The command line gives a flag a value exactly when its first occurrence there has this value right
-- behind it.
pub cli_value_iff :
    (args : List Text) (flag value : Text)
    → (cli_value args flag ≡ some value) ↔ Gives args flag value
cli_value_iff args flag value = (
  cli_value_sound args flag value,
  λ (before, after, split, absent). rw split (cli_value_found before after flag value absent),
)
