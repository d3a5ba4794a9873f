-- ===== src/Resources/Quantity.antt =====
-- resources/quantity.rs: the parsing of CPU and memory quantities.
pub mod Range
use emergency_ration_webhook.Common.{
  String, Option, none, some, List, [], ◌∷◌, Bool, ◌&&◌, not, ◌==ˢ◌, if◌then◌else◌,
}
use emergency_ration_webhook.Common.Int.{ℤ, pos, ltb_ℤ}
use emergency_ration_webhook.Common.Result.{Result, ok, err, ◌>>=◌, or_err}
use emergency_ration_webhook.Common.Text.{codes, contains_char, strip_suffix, parse_i64}
use emergency_ration_webhook.Common.Float.{Float}

pub data QuantityParseError : Type 0 where
  invalid : (input reason : String) → QuantityParseError

unfoldable pub split_suffix : String → List String → String × String
unfolding strip_suffix
split_suffix input [] = (input, "")
split_suffix input (suffix ∷ suffixes) =
    let rest = split_suffix input suffixes in
    elim (strip_suffix input suffix) [ none ↦ rest | some stripped ↦ (stripped, suffix) ]

abbrev pub memory_suffixes : List String
memory_suffixes = "Ki" ∷ "Mi" ∷ "Gi" ∷ "Ti" ∷ "Pi" ∷ "k" ∷ "M" ∷ "G" ∷ "T" ∷ "P" ∷ []

-- The factor of each memory suffix, 1 for none; `none` for an unknown suffix.
abbrev pub multiplier : String → Option ℤ
multiplier suffix =
    if suffix ==ˢ ""
    then some (pos 1)
    else if suffix ==ˢ "Ki"
    then some (pos 1024)
    else if suffix ==ˢ "Mi"
    then some (pos 1048576)
    else if suffix ==ˢ "Gi"
    then some (pos 1073741824)
    else if suffix ==ˢ "Ti"
    then some (pos 1099511627776)
    else if suffix ==ˢ "Pi"
    then some (pos 1125899906842624)
    else if suffix ==ˢ "k"
    then some (pos 1000)
    else if suffix ==ˢ "M"
    then some (pos 1000000)
    else if suffix ==ˢ "G"
    then some (pos 1000000000)
    else if suffix ==ˢ "T"
    then some (pos 1000000000000)
    else if suffix ==ˢ "P"
    then some (pos 1000000000000000)
    else none

-- Whether the operand of a suffix-free quantity has neither a dot nor an exponent.
abbrev pub is_integer_text : String → Bool
is_integer_text num =
    not (contains_char 46 (codes num))
    && not (contains_char 101 (codes num))
    && not (contains_char 69 (codes num))

unfoldable pub parse_integer : String → String → Result QuantityParseError ℤ
unfolding parse_i64
parse_integer input num = do
  value ← or_err (parse_i64 (codes num)) (invalid input "not a valid integer")
  if ltb_ℤ value (pos 0)
      then err (invalid input "negative quantities are not allowed")
      else ok value

module _ (fl : Float) where
  unfoldable pub parse_number : String → Result QuantityParseError fl.F
  parse_number num = if num ==ˢ "" then err (invalid num "missing numeric value") else do
    value ← or_err (fl.parse num) (invalid num "not a valid number")
    if fl.lt value (fl.of_ℤ (pos 0))
        then err (invalid num "negative quantities are not allowed")
        else ok value

  -- `to_i64`.
  unfoldable pub to_i64 : fl.F → ℤ
  to_i64 value = fl.to_i64 (fl.round value)

  unfoldable pub parse_cpu : String → Result QuantityParseError ℤ
  parse_cpu input =
      if input ==ˢ ""
      then err (invalid input "empty quantity")
      else let (num, suffix) = split_suffix input ("m" ∷ []) in
        do
          value ← parse_number num
          ok (to_i64 (if suffix ==ˢ "m" then value else fl.mul value (fl.of_ℤ (pos 1000))))

  unfoldable pub parse_memory : String → Result QuantityParseError ℤ
  parse_memory input =
      if input ==ˢ ""
      then err (invalid input "empty quantity")
      else let (num, suffix) = split_suffix input memory_suffixes in
        if suffix ==ˢ "" && is_integer_text num then parse_integer input num else do
          factor ← or_err (multiplier suffix) (invalid input "unknown resource suffix")
          value ← parse_number num
          ok (to_i64 (fl.mul value (fl.of_ℤ factor)))
