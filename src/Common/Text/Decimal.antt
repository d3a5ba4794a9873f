-- ===== src/Common/Text/Decimal.antt =====
-- Decimal numerals: what is printed parses back, and holds nothing but digits.
use Prim.Native.Nat.{ℕ, zero, suc, ◌+◌, ◌-◌, ◌*◌, ◌/◌, ◌%◌, ◌≤◌}
use Prim.Native.Char.{code}
use Prim.Native.String.{String, ◌++◌ as ◌++ˢ◌}
use Prim.Native.String.append
use mathlib.Core.Path.{◌≡◌, ◌∙◌, refl, ap, subst}
use mathlib.Core.Logic.{inl, inr}
use mathlib.Core.Bool.{true, false, ◌||◌}
use mathlib.Core.Option
use mathlib.Core.Option.{Option, none, some}
use mathlib.Core.List.{List, [], ◌∷◌, ◌++◌}
use native.Mathlib.Omega.{arith}
use emergency_ration_webhook.Common.Tests.{Bool-cases, leb}
use emergency_ration_webhook.Common.Lists.{is_empty}
use emergency_ration_webhook.Common.Int.{pos}
use emergency_ration_webhook.Common.Text.{
  codes, contains_char, split_once, strip_last, is_digit, digits_from, parse_nat, parse_i64, digit,
  show_fuel, show_ℕ, zeros,
}

pub codes-append : (s t : String) → codes (s ++ˢ t) ≡ codes s ++ codes t
codes-append String.[] t = ap codes (append.nil t)
codes-append (String.◌∷◌ c s) t =
    ap codes (append.cons c s t) ∙ ap (◌∷◌ (code c)) (codes-append s t)

pub contains_char-append :
    (c : ℕ) (xs ys : List ℕ) → contains_char c (xs ++ ys) ≡ contains_char c xs || contains_char c ys
contains_char-append c [] ys = refl
contains_char-append c (x ∷ xs) ys = ground (arith, contains_char-append c xs ys)

-- A text is split at the first occurrence of a character.
pub split_once-append :
    (c : ℕ) (xs ys : List ℕ)
    → contains_char c xs ≡ false
    → split_once c (xs ++ c ∷ ys) ≡ some (xs, ys)
unfolding split_once
split_once-append c [] ys h = ground arith
split_once-append c (x ∷ xs) ys h = ground (arith, split_once-append c xs ys)

pub strip_last-append : (c : ℕ) (xs : List ℕ) → strip_last c (xs ++ c ∷ []) ≡ some xs
unfolding strip_last
strip_last-append c [] = ground arith
strip_last-append c (x ∷ []) = ground arith
strip_last-append c (x ∷ y ∷ xs) = ap (Option.map (◌∷◌ x)) (strip_last-append c (y ∷ xs))

is_empty-snoc : (xs : List ℕ) (x : ℕ) → is_empty (xs ++ x ∷ []) ≡ false
is_empty-snoc [] x = refl
is_empty-snoc (y ∷ xs) x = refl

-- A text of digits only, that stands for a number.
abbrev pub IsNumeral : ℕ → List ℕ → Type 0
IsNumeral n xs =
    (digits_from 0 xs ≡ some n)
    × ((c : ℕ) → is_digit c ≡ false → contains_char c xs ≡ false)
    × (is_empty xs ≡ false)

pub parse_i64-IsNumeral :
    (n : ℕ) (xs : List ℕ) → IsNumeral n xs → n ≤ 9223372036854775807 → parse_i64 xs ≡ some (pos n)
unfolding parse_i64 parse_nat
parse_i64-IsNumeral n [] (e, only, full) h = cc
parse_i64-IsNumeral n (x ∷ xs) (e, only, full) h = ground (arith, only 45 refl, only 43 refl)

digits_from-snoc :
    (acc : ℕ) (xs : List ℕ) (d n : ℕ)
    → digits_from acc xs ≡ some n
    → d ≤ 9
    → digits_from acc (xs ++ (48 + d) ∷ []) ≡ some (n * 10 + d)
unfolding digits_from
digits_from-snoc acc [] d n e h = ground arith
digits_from-snoc acc (x ∷ xs) d n e h =
    ground (arith, digits_from-snoc (acc * 10 + (x - 48)) xs d n)

pub IsNumeral-snoc :
    (n d : ℕ) (xs : List ℕ) → IsNumeral n xs → d ≤ 9 → IsNumeral (n * 10 + d) (xs ++ (48 + d) ∷ [])
IsNumeral-snoc n d xs (e, only, full) h = (
  digits_from-snoc 0 xs d n e h,
  (λ c out. ground (arith, only c out, contains_char-append c xs ((48 + d) ∷ []))),
  is_empty-snoc xs (48 + d),
)

-- A leading zero changes nothing.
IsNumeral-zero : (n : ℕ) (xs : List ℕ) → IsNumeral n xs → IsNumeral n (48 ∷ xs)
unfolding digits_from
IsNumeral-zero n xs (e, only, full) = (e, (λ c out. ground (arith, only c out)), refl)

pub codes-digit : (d : ℕ) → d ≤ 9 → codes (digit d) ≡ (48 + d) ∷ []
codes-digit zero h = refl
codes-digit (suc zero) h = refl
codes-digit (suc (suc zero)) h = refl
codes-digit (suc (suc (suc zero))) h = refl
codes-digit (suc (suc (suc (suc zero)))) h = refl
codes-digit (suc (suc (suc (suc (suc zero))))) h = refl
codes-digit (suc (suc (suc (suc (suc (suc zero)))))) h = refl
codes-digit (suc (suc (suc (suc (suc (suc (suc zero))))))) h = refl
codes-digit (suc (suc (suc (suc (suc (suc (suc (suc zero)))))))) h = refl
codes-digit (suc (suc (suc (suc (suc (suc (suc (suc (suc zero))))))))) h = refl
codes-digit (suc (suc (suc (suc (suc (suc (suc (suc (suc (suc n)))))))))) h = ground arith

IsNumeral-digit : (d : ℕ) → d ≤ 9 → IsNumeral d (codes (digit d))
unfolding digits_from
IsNumeral-digit d h = rw (codes-digit d h) (ground arith, (λ c out. ground arith), refl)

abbrev pub pow10 : ℕ → ℕ
pow10 zero = 1
pow10 (suc f) = 10 * pow10 f

show_fuel-one : (f n : ℕ) → leb n 9 ≡ true → IsNumeral n (codes (show_fuel (suc f) n))
unfolding show_fuel
show_fuel-one f n e = rw e (IsNumeral-digit n (ground arith))

show_fuel-more :
    (f n : ℕ)
    → leb n 9 ≡ false
    → IsNumeral (n / 10) (codes (show_fuel f (n / 10)))
    → IsNumeral n (codes (show_fuel (suc f) n))
unfolding show_fuel
show_fuel-more f n e numeral =
    let rest = show_fuel f (n / 10) in
    let small : n % 10 ≤ 9 = omega arith in
    let whole : n / 10 * 10 + n % 10 ≡ n = omega arith in
    rw (e, codes-append rest (digit (n % 10)), codes-digit (n % 10) small)
      (subst (λ v. IsNumeral v (codes rest ++ (48 + n % 10) ∷ [])) whole
        (IsNumeral-snoc (n / 10) (n % 10) (codes rest) numeral small))

show_fuel-IsNumeral : (f n : ℕ) → suc n ≤ pow10 (suc f) → IsNumeral n (codes (show_fuel (suc f) n))
show_fuel-IsNumeral zero n h = show_fuel-one zero n (ground arith)
show_fuel-IsNumeral (suc f) n h = elim (Bool-cases (leb n 9)) [
  | inl e ↦ show_fuel-one (suc f) n e
  | inr e ↦ show_fuel-more (suc f) n e (show_fuel-IsNumeral f (n / 10) (omega arith))
]

-- A number below 10 ^ 20 is printed as a numeral for it.
pub show_ℕ-IsNumeral : (n : ℕ) → suc n ≤ 100000000000000000000 → IsNumeral n (codes (show_ℕ n))
unfolding show_ℕ
show_ℕ-IsNumeral n h = show_fuel-IsNumeral 19 n h

pub zeros-IsNumeral :
    (k n : ℕ) (s : String) → IsNumeral n (codes s) → IsNumeral n (codes (zeros k ++ˢ s))
zeros-IsNumeral zero n s numeral = rw (append.nil s) numeral
zeros-IsNumeral (suc k) n s numeral =
    rw (append.cons "0" (zeros k) s)
      (IsNumeral-zero n (codes (zeros k ++ˢ s)) (zeros-IsNumeral k n s numeral))
