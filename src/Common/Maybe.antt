-- ===== src/Common/Maybe.antt =====
-- `Option` as a monad: the `?` operator in a function that returns `Option`.
use mathlib.Core.Option.{Option, none, some}

infixl 5 ◌>>=◌
abbrev pub ◌>>=◌ : {A B : Type 0} → Option A → (A → Option B) → Option B
none >>= k = none
some a >>= k = k a
