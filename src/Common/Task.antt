-- ===== src/Common/Task.antt =====
-- Code that runs in a world and may fail with a text or run out of fuel: `?` and `await` as bind.
use mathlib.Core.Path.{◌≡◌, refl}
use mathlib.Core.Option.{Option, none, some}
use emergency_ration_webhook.Common.Result.{Result, ok, err}
use emergency_ration_webhook.Common.Text.{Text}

-- A result and the world it leaves, or nothing where the fuel runs out or the code panics.
abbrev pub Outcome : Type 0 → Type 0 → Type 0
Outcome World A = Option (Result Text A × World)

abbrev pub Task : Type 0 → Type 0 → Type 0
Task World A = World → Outcome World A

abbrev pub continue : {World A B : Type 0} → Outcome World A → (A → Task World B) → Outcome World B
continue none k = none
continue (some (ok a, w)) k = k a w
continue (some (err e, w)) k = some (err e, w)

infixl 5 ◌>>=◌
abbrev pub ◌>>=◌ : {World A B : Type 0} → Task World A → (A → Task World B) → Task World B
(m >>= k) w = continue (m w) k

abbrev pub pure : {World A : Type 0} → A → Task World A
pure a w = some (ok a, w)

abbrev pub fail : {World A : Type 0} → Text → Task World A
fail e w = some (err e, w)

-- A call that always returns.
abbrev pub call : {World A : Type 0} → (World → A × World) → Task World A
call f w = let (a, v) = f w in some (ok a, v)

-- A change of the world, and a reading of it.
abbrev pub perform : {World : Type 0} → (World → World) → Task World Unit
perform f w = some (ok tt, f w)

abbrev pub read : {World A : Type 0} → (World → A) → Task World A
read f w = some (ok (f w), w)

-- The result of a task as a value, as where the caller matches on it.
abbrev pub caught : {World A : Type 0} → Outcome World A → Outcome World (Result Text A)
caught none = none
caught (some (r, w)) = some (ok r, w)

abbrev pub attempt : {World A : Type 0} → Task World A → Task World (Result Text A)
attempt m w = caught (m w)

-- An outcome is there and meets a condition.
abbrev pub Meets : {World A : Type 0} → (Result Text A → World → Type 0) → Outcome World A → Type 0
Meets Q none = ⊥
Meets Q (some (r, w)) = Q r w

-- Where a task goes on, `R` is to hold; where it fails, what the whole is to meet.
abbrev pub Split :
    {World A B : Type 0}
    → (A → World → Type 0)
    → (Result Text B → World → Type 0)
    → Result Text A
    → World
    → Type 0
Split R Q (ok a) w = R a w
Split R Q (err e) w = Q (err e) w

pub continue-Meets :
    {World A B : Type 0} (R : A → World → Type 0) (Q : Result Text B → World → Type 0)
    (o : Outcome World A) (k : A → Task World B)
    → Meets (Split R Q) o
    → ((a : A) (w : World) → R a w → Meets Q (k a w))
    → Meets Q (continue o k)
continue-Meets R Q none k h f = h
continue-Meets R Q (some (ok a, w)) k h f = f a w h
continue-Meets R Q (some (err e, w)) k h f = h

-- The outcome is there.
abbrev pub Ends : {World A : Type 0} → Task World A → Type 0
Ends {World} {A} m = (w : World) → Meets (λ r v. Unit {0}) (m w)

pub continue-Ends :
    {World A B : Type 0} (o : Outcome World A) (k : A → Task World B)
    → Meets (λ r v. Unit {0}) o
    → ((a : A) → Ends (k a))
    → Meets (λ r v. Unit {0}) (continue o k)
continue-Ends none k h f = h
continue-Ends (some (ok a, w)) k h f = f a w
continue-Ends (some (err e, w)) k h f = tt

pub bind-Ends :
    {World A B : Type 0} (m : Task World A) (k : A → Task World B)
    → Ends m
    → ((a : A) → Ends (k a))
    → Ends (m >>= k)
bind-Ends m k h f w = continue-Ends (m w) k (h w) f

-- A bind that succeeds goes through a success of its first part.
pub continue-eq-ok :
    {World A B : Type 0} (o : Outcome World A) (k : A → Task World B) {b : B} {v : World}
    → continue o k ≡ some (ok b, v)
    → (a : A) × (u : World) × (o ≡ some (ok a, u)) × (k a u ≡ some (ok b, v))
continue-eq-ok none k h = cc
continue-eq-ok (some (ok a, u)) k h = (a, u, refl, h)
continue-eq-ok (some (err e, u)) k h = cc
