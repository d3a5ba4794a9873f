-- ===== src/Verify/EnvFile.antt =====
-- bin/erw-verify/env_config.rs: the parser of `.env` files. Reading the file is left out; the parser
-- takes its contents.
pub mod RoundTrip
use emergency_ration_webhook.Common.{
  ℕ, Option, none, some, List, [], ◌∷◌, Bool, ◌||◌, is_empty, if◌then◌else◌,
}
use emergency_ration_webhook.Common.Result.{and_then}
use emergency_ration_webhook.Common.Text.{
  Text, same, trim, starts_with, strip_first, strip_last, split_once, lines,
}

-- A `BTreeMap<String, String>`: `insert` and `get`. The order of its entries is never read.
abbrev pub EnvMap : Type 0
EnvMap = List (Text × Text)

unfoldable pub insert : Text → Text → EnvMap → EnvMap
insert k v [] = (k, v) ∷ []
insert k v ((j, w) ∷ m) = let rest = insert k v m in if same j k then (k, v) ∷ m else (j, w) ∷ rest

unfoldable pub lookup : Text → EnvMap → Option Text
lookup k [] = none
lookup k ((j, w) ∷ m) = let rest = lookup k m in if same j k then some w else rest

abbrev first_of : Option Text → Option Text → Text → Text
first_of (some inner) other value = inner
first_of none (some inner) value = inner
first_of none none value = value

unfoldable pub unquote : Text → Text
unfolding strip_last
unquote value =
    first_of (and_then (strip_first 34 value) (strip_last 34))
      (and_then (strip_first 39 value) (strip_last 39)) value

-- The end of a round of the loop, at the key and the value.
abbrev pub add_entry : EnvMap → Text → Text → EnvMap
add_entry map key value = if is_empty key then map else insert key (unquote value) map

abbrev pub add_split : EnvMap → Option (Text × Text) → EnvMap
add_split map none = map
add_split map (some (key, value)) = add_entry map (trim key) (trim value)

-- One round of the loop of `parse_env_file`, at a trimmed line.
abbrev pub add_line : EnvMap → Text → EnvMap
add_line map line =
    if is_empty line || starts_with 35 line then map else add_split map (split_once 61 line)

unfoldable pub add_lines : EnvMap → List Text → EnvMap
add_lines map [] = map
add_lines map (raw ∷ rest) = add_lines (add_line map (trim raw)) rest

unfoldable pub parse_env_file : Text → EnvMap
unfolding lines
parse_env_file contents = add_lines [] (lines contents)
