-- ===== src/Common/Result.antt =====
-- Rust's `Result`, with the `?` operator as bind, and the combinators of `Option` that the source
-- uses.
use mathlib.Core.Path.{◌≡◌, refl}
use mathlib.Core.Logic.{◌⊎◌, inl, inr}
use mathlib.Core.Bool.{Bool, true, false}
use mathlib.Core.Option.{Option, none, some}

pub data Result (E A : Type 0) : Type 0 where
  ok : A → Result E A
  err : E → Result E A

module _ {E : Type 0} where
  infixl 5 ◌>>=◌
  abbrev pub ◌>>=◌ : {A B : Type 0} → Result E A → (A → Result E B) → Result E B
  ok a >>= k = k a
  err e >>= k = err e

  pub >>=-eq-ok :
      {A B : Type 0} (m : Result E A) (k : A → Result E B) {b : B}
      → (m >>= k) ≡ ok b
      → (a : A) × (m ≡ ok a) × (k a ≡ ok b)
  >>=-eq-ok (ok a) k h = (a, refl, h)
  >>=-eq-ok (err e) k h = cc

  pub Result-cases :
      {A : Type 0} (r : Result E A) → ((a : A) × (r ≡ ok a)) ⊎ ((e : E) × (r ≡ err e))
  Result-cases (ok a) = inl (a, refl)
  Result-cases (err e) = inr (e, refl)

-- `ok_or`, and `map_err` with a constant error.
abbrev pub or_err : {E A : Type 0} → Option A → E → Result E A
or_err none e = err e
or_err (some a) e = ok a

abbrev pub and_then : {A B : Type 0} → Option A → (A → Option B) → Option B
and_then none k = none
and_then (some a) k = k a

abbrev pub or_else : {A : Type 0} → Option A → Option A → Option A
or_else none b = b
or_else (some a) b = some a

abbrev pub unwrap_or : {A : Type 0} → Option A → A → A
unwrap_or none d = d
unwrap_or (some a) d = a

abbrev pub is_some_and : {A : Type 0} → Option A → (A → Bool) → Bool
is_some_and none p = false
is_some_and (some a) p = p a

abbrev pub is_some : {A : Type 0} → Option A → Bool
is_some none = false
is_some (some a) = true

-- What holds of the value of a result, if it has one.
abbrev pub Yields : {E A : Type 0} → (A → Type 0) → Result E A → Type 0
Yields P (ok a) = P a
Yields P (err e) = Unit

pub bind-Yields :
    {E A B : Type 0} (P : A → Type 0) (Q : B → Type 0) (m : Result E A) (k : A → Result E B)
    → Yields P m
    → ((a : A) → P a → Yields Q (k a))
    → Yields Q (m >>= k)
bind-Yields P Q (ok a) k h f = f a h
bind-Yields P Q (err e) k h f = tt

pub or_err-Yields :
    {E A : Type 0} (P : A → Type 0) (o : Option A) (e : E)
    → ((a : A) → o ≡ some a → P a)
    → Yields P (or_err o e)
or_err-Yields P none e h = tt
or_err-Yields P (some a) e h = h a refl
