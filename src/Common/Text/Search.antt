-- ===== src/Common/Text/Search.antt =====
-- Searches in texts: what is found behind any other text, and what the first line holds.
use Prim.Native.Nat.{ℕ, zero, suc, ◌/◌, ◌%◌}
use Prim.Native.String.{String, ◌++◌ as ◌++ˢ◌}
use mathlib.Core.Path.{◌≡◌, refl}
use mathlib.Core.Logic.{inl, inr}
use mathlib.Core.Bool.{true, false}
use mathlib.Core.List.{List, [], ◌∷◌, ◌++◌}
use native.Mathlib.Omega.{arith}
use emergency_ration_webhook.Common.Tests.{Bool-cases, leb}
use emergency_ration_webhook.Common.Int.{ℤ, pos, negsuc}
use emergency_ration_webhook.Common.Text.{
  Text, codes, contains_char, is_prefix, contains, lines, extend, digit, show_fuel, show_ℕ, show_ℤ,
}
use emergency_ration_webhook.Common.Text.Decimal.{codes-append, contains_char-append}

pub contains-append :
    (needle xs ys : Text) → is_prefix needle ys ≡ true → contains needle (xs ++ ys) ≡ true
unfolding contains
contains-append [] [] [] h = refl
contains-append (c ∷ needle) [] [] h = h
contains-append needle [] (y ∷ ys) h = rw h refl
contains-append needle (x ∷ xs) ys h = ground (arith, contains-append needle xs ys h)

-- A text without a character does not contain a text that begins with it.
pub contains-absent :
    (c : ℕ) (needle s : Text) → contains_char c s ≡ false → contains (c ∷ needle) s ≡ false
unfolding contains
contains-absent c needle [] h = refl
contains-absent c needle (d ∷ s) h = ground (arith, contains-absent c needle s)

-- The first line, if there is one.
abbrev pub head_line : List Text → Text
head_line [] = []
head_line (l ∷ ls) = l

head_line-extend : (c : ℕ) (ls : List Text) → head_line (extend c ls) ≡ c ∷ head_line ls
head_line-extend c [] = refl
head_line-extend c (l ∷ ls) = refl

-- What stands before the first line end is in the first line.
pub head_line-append :
    (xs ys : Text)
    → contains_char 10 xs ≡ false
    → contains_char 13 xs ≡ false
    → head_line (lines (xs ++ ys)) ≡ xs ++ head_line (lines ys)
unfolding lines
head_line-append [] ys h k = refl
head_line-append (x ∷ xs) ys h k =
    ground (arith, head_line-append xs ys, head_line-extend x (lines (xs ++ ys)))

pub head_line-same :
    (xs : Text)
    → contains_char 10 xs ≡ false
    → contains_char 13 xs ≡ false
    → head_line (lines xs) ≡ xs
unfolding lines
head_line-same [] h k = refl
head_line-same (x ∷ xs) h k = ground (arith, head_line-same xs, head_line-extend x (lines xs))

-- No capital C and no line end.
abbrev pub IsPlain : Text → Type 0
IsPlain s =
    (contains_char 67 s ≡ false) × (contains_char 10 s ≡ false) × (contains_char 13 s ≡ false)

pub append-IsPlain : (s t : Text) → IsPlain s → IsPlain t → IsPlain (s ++ t)
append-IsPlain s t h k =
    ground
      (arith, contains_char-append 67 s t, contains_char-append 10 s t, contains_char-append 13 s t)

pub codes-IsPlain :
    (s t : String) → IsPlain (codes s) → IsPlain (codes t) → IsPlain (codes (s ++ˢ t))
codes-IsPlain s t h k = rw (codes-append s t) (append-IsPlain (codes s) (codes t) h k)

digit-IsPlain : (n : ℕ) → IsPlain (codes (digit n))
digit-IsPlain zero = (refl, refl, refl)
digit-IsPlain (suc zero) = (refl, refl, refl)
digit-IsPlain (suc (suc zero)) = (refl, refl, refl)
digit-IsPlain (suc (suc (suc zero))) = (refl, refl, refl)
digit-IsPlain (suc (suc (suc (suc zero)))) = (refl, refl, refl)
digit-IsPlain (suc (suc (suc (suc (suc zero))))) = (refl, refl, refl)
digit-IsPlain (suc (suc (suc (suc (suc (suc zero)))))) = (refl, refl, refl)
digit-IsPlain (suc (suc (suc (suc (suc (suc (suc zero))))))) = (refl, refl, refl)
digit-IsPlain (suc (suc (suc (suc (suc (suc (suc (suc zero)))))))) = (refl, refl, refl)
digit-IsPlain (suc (suc (suc (suc (suc (suc (suc (suc (suc n))))))))) = (refl, refl, refl)

show_fuel-IsPlain : (f n : ℕ) → IsPlain (codes (show_fuel f n))
unfolding show_fuel
show_fuel-IsPlain zero n = (refl, refl, refl)
show_fuel-IsPlain (suc f) n = elim (Bool-cases (leb n 9)) [
  | inl small ↦ rw small (digit-IsPlain n)
  | inr big ↦ rw big (
      codes-IsPlain (show_fuel f (n / 10)) (digit (n % 10)) (show_fuel-IsPlain f (n / 10))
        (digit-IsPlain (n % 10)))
]

pub show_ℤ-IsPlain : (z : ℤ) → IsPlain (codes (show_ℤ z))
unfolding show_ℤ show_ℕ
show_ℤ-IsPlain (pos n) = show_fuel-IsPlain 20 n
show_ℤ-IsPlain (negsuc n) =
    codes-IsPlain "-" (show_fuel 20 (suc n)) (refl, refl, refl) (show_fuel-IsPlain 20 (suc n))
