-- ===== src/Common/Text.antt =====
-- Text: the code points of a `String`, the searches of `str` that the source calls, and the
-- decimal forms of numbers.
pub mod Decimal
pub mod Equality
pub mod Search
use Prim.Native.Nat.{ℕ, zero, suc, ◌+◌, ◌-◌, ◌*◌, ◌/◌, ◌%◌}
use Prim.Native.Char.{code}
use Prim.Native.String
use Prim.Native.String.{String}
use mathlib.Core.Bool.{Bool, true, false, ◌&&◌, ◌||◌}
use mathlib.Core.Option
use mathlib.Core.Option.{Option, none, some}
use mathlib.Core.List.{List, [], ◌∷◌}
use text.Mathlib.Text.{◌==◌ as ◌==ˢ◌}
use emergency_ration_webhook.Common.Tests.{leb, ◌==◌, if◌then◌else◌}
use emergency_ration_webhook.Common.Lists.{length}
use emergency_ration_webhook.Common.Int.{ℤ, pos, negsuc, sub_ℕ}
use emergency_ration_webhook.Common.Result.{and_then}

abbrev pub codes : String → List ℕ
codes String.[] = []
codes (String.◌∷◌ c s) = code c ∷ codes s

abbrev pub contains_char : ℕ → List ℕ → Bool
contains_char c [] = false
contains_char c (d ∷ ds) = c == d || contains_char c ds

-- `str::strip_suffix`.
unfoldable pub strip_suffix : String → String → Option String
strip_suffix String.[] suffix = if String.[] ==ˢ suffix then some String.[] else none
strip_suffix (String.◌∷◌ c s) suffix =
    let rest = strip_suffix s suffix in
    if String.◌∷◌ c s ==ˢ suffix then some String.[] else Option.map (String.◌∷◌ c) rest

-- `str::split_once` at one character.
unfoldable pub split_once : ℕ → List ℕ → Option (List ℕ × List ℕ)
split_once d [] = none
split_once d (c ∷ s) =
    let rest = split_once d s in
    if c == d then some ([], s) else Option.map (λ p. (c ∷ p.0, p.1)) rest

-- `strip_suffix` at one character.
unfoldable pub strip_last : ℕ → List ℕ → Option (List ℕ)
strip_last d [] = none
strip_last d (c ∷ []) = if c == d then some [] else none
strip_last d (c ∷ e ∷ s) = Option.map (◌∷◌ c) (strip_last d (e ∷ s))

abbrev pub is_digit : ℕ → Bool
is_digit c = leb 48 c && leb c 57

-- The value of a run of decimal digits after `acc`.
unfoldable pub digits_from : ℕ → List ℕ → Option ℕ
digits_from acc [] = some acc
digits_from acc (c ∷ s) =
    let rest = digits_from (acc * 10 + (c - 48)) s in if is_digit c then rest else none

unfoldable pub parse_nat : List ℕ → Option ℕ
unfolding digits_from
parse_nat [] = none
parse_nat (c ∷ s) = digits_from 0 (c ∷ s)

abbrev bounded : ℕ → ℕ → Option ℕ
bounded limit n = if leb n limit then some n else none

-- `str::parse::<i64>`: an optional sign, at least one digit, and a value that fits.
unfoldable pub parse_i64 : List ℕ → Option ℤ
unfolding parse_nat
parse_i64 [] = none
parse_i64 (c ∷ s) =
    if c == 45
    then Option.map (sub_ℕ 0) (and_then (parse_nat s) (bounded 9223372036854775808))
    else if c == 43
    then Option.map pos (and_then (parse_nat s) (bounded 9223372036854775807))
    else Option.map pos (and_then (parse_nat (c ∷ s)) (bounded 9223372036854775807))

abbrev pub digit : ℕ → String
digit zero = "0"
digit (suc zero) = "1"
digit (suc (suc zero)) = "2"
digit (suc (suc (suc zero))) = "3"
digit (suc (suc (suc (suc zero)))) = "4"
digit (suc (suc (suc (suc (suc zero))))) = "5"
digit (suc (suc (suc (suc (suc (suc zero)))))) = "6"
digit (suc (suc (suc (suc (suc (suc (suc zero))))))) = "7"
digit (suc (suc (suc (suc (suc (suc (suc (suc zero)))))))) = "8"
digit (suc (suc (suc (suc (suc (suc (suc (suc (suc n))))))))) = "9"

-- The decimal digits of a number below 10 ^ 20, most significant first.
unfoldable pub show_fuel : ℕ → ℕ → String
show_fuel zero n = ""
show_fuel (suc f) n =
    let rest = show_fuel f (n / 10) in
    if leb n 9 then digit n else String.◌++◌ rest (digit (n % 10))

unfoldable pub show_ℕ : ℕ → String
unfolding show_fuel
show_ℕ n = show_fuel 20 n

unfoldable pub show_ℤ : ℤ → String
unfolding show_ℕ
show_ℤ (pos n) = show_ℕ n
show_ℤ (negsuc n) = String.◌++◌ "-" (show_ℕ (suc n))

abbrev pub zeros : ℕ → String
zeros zero = ""
zeros (suc k) = String.◌∷◌ "0" (zeros k)

-- A number in a format such as `{:04}`: zeros up to the width, after the sign.
pad_ℕ : ℕ → ℕ → String
pad_ℕ width n = String.◌++◌ (zeros (width - length (codes (show_ℕ n)))) (show_ℕ n)

unfoldable pub pad : ℕ → ℤ → String
unfolding pad_ℕ
pad width (pos n) = pad_ℕ width n
pad width (negsuc n) = String.◌++◌ "-" (pad_ℕ (width - 1) (suc n))

-- A `str` as its code points, where the code takes texts apart.
abbrev pub Text : Type 0
Text = List ℕ

abbrev pub same : Text → Text → Bool
same [] [] = true
same [] (d ∷ t) = false
same (c ∷ s) [] = false
same (c ∷ s) (d ∷ t) = c == d && same s t

-- `char::is_whitespace`: the code points with the property White_Space.
abbrev pub is_whitespace : ℕ → Bool
is_whitespace c =
    (leb 9 c && leb c 13)
    || c == 32
    || c == 133
    || c == 160
    || c == 5760
    || (leb 8192 c && leb c 8202)
    || c == 8232
    || c == 8233
    || c == 8239
    || c == 8287
    || c == 12288

-- `str::trim_start`, `str::trim_end` and `str::trim`.
unfoldable pub trim_start : Text → Text
trim_start [] = []
trim_start (c ∷ s) = let rest = trim_start s in if is_whitespace c then rest else c ∷ s

abbrev keep_unless : Bool → ℕ → Text → Text
keep_unless blank c [] = if blank then [] else c ∷ []
keep_unless blank c (d ∷ s) = c ∷ d ∷ s

unfoldable pub trim_end : Text → Text
trim_end [] = []
trim_end (c ∷ s) = keep_unless (is_whitespace c) c (trim_end s)

abbrev pub trim : Text → Text
trim s = trim_end (trim_start s)

-- `str::starts_with` and `str::strip_prefix` at one character.
abbrev pub starts_with : ℕ → Text → Bool
starts_with d [] = false
starts_with d (c ∷ s) = c == d

abbrev pub strip_first : ℕ → Text → Option Text
strip_first d [] = none
strip_first d (c ∷ s) = if c == d then some s else none

abbrev pub extend : ℕ → List Text → List Text
extend c [] = (c ∷ []) ∷ []
extend c (l ∷ ls) = (c ∷ l) ∷ ls

-- `str::lines`: the text is cut at each line feed, which takes a carriage return before it along.
unfoldable pub lines : Text → List Text
lines [] = []
lines (c ∷ s) =
    let rest = lines s in
    if c == 10 then [] ∷ rest else if c == 13 && starts_with 10 s then rest else extend c rest

-- `str::parse` at an unsigned type with this largest value: a plus sign is allowed.
unfoldable pub parse_unsigned : ℕ → Text → Option ℕ
unfolding parse_nat
parse_unsigned limit [] = none
parse_unsigned limit (c ∷ s) =
    if c == 43
    then and_then (parse_nat s) (bounded limit)
    else and_then (parse_nat (c ∷ s)) (bounded limit)

-- `str::starts_with` and `str::contains` at a text.
abbrev pub is_prefix : Text → Text → Bool
is_prefix [] s = true
is_prefix (c ∷ p) [] = false
is_prefix (c ∷ p) (d ∷ s) = c == d && is_prefix p s

unfoldable pub contains : Text → Text → Bool
contains needle [] = is_prefix needle []
contains needle (c ∷ s) = is_prefix needle (c ∷ s) || contains needle s
