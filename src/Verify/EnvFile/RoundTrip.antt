-- ===== src/Verify/EnvFile/RoundTrip.antt =====
-- What a `.env` file with quoted values is parsed to by bin/erw-verify/env_config.rs.
use mathlib.Core.Path.{subst}
use mathlib.Core.List.{append_assoc}
use emergency_ration_webhook.Common.{
  ℕ, Option, none, some, List, [], ◌∷◌, ◌++◌, Bool, true, false, ◌≡◌, ◌∙◌, ap, sym, refl, arith,
  Bool-cases, inl, inr, ◌==◌, if◌then◌else◌,
}
use emergency_ration_webhook.Common.Result.{or_else}
use emergency_ration_webhook.Common.Text.{
  Text, same, trim, trim_start, trim_end, is_whitespace, contains_char, lines,
}
use emergency_ration_webhook.Common.Text.Decimal.{
  split_once-append, strip_last-append, contains_char-append,
}
use emergency_ration_webhook.Common.Text.Equality.{same-eq, same-apart}
use emergency_ration_webhook.Verify.EnvFile.{
  add_split, lookup, EnvMap, insert, unquote, add_line, add_lines, parse_env_file,
}

-- A key that a line can hold: not empty, no blank at either end, no `=` and no line feed in it, and
-- no `#` at its start.
abbrev pub IsKey : Text → Type 0
IsKey [] = ⊥
IsKey (c ∷ k) =
    (is_whitespace c ≡ false)
    × (c == 35 ≡ false)
    × (trim_end (c ∷ k) ≡ c ∷ k)
    × (contains_char 61 (c ∷ k) ≡ false)
    × (contains_char 10 (c ∷ k) ≡ false)

-- A value in double quotes can hold anything but a line feed.
abbrev pub IsValue : Text → Type 0
IsValue v = contains_char 10 v ≡ false

-- The line `KEY="VALUE"`.
abbrev pub line_of : Text → Text → Text
line_of k v = k ++ 61 ∷ 34 ∷ (v ++ 34 ∷ [])

abbrev pub render : List (Text × Text) → Text
render [] = []
render ((k, v) ∷ es) = line_of k v ++ 10 ∷ render es

abbrev pub AreEntries : List (Text × Text) → Type 0
AreEntries [] = Unit
AreEntries ((k, v) ∷ es) = IsKey k × IsValue v × AreEntries es

-- The entries put into a map one after the other.
abbrev pub insert_all : EnvMap → List (Text × Text) → EnvMap
insert_all map [] = map
insert_all map ((k, v) ∷ es) = insert_all (insert k v map) es

lines-append :
    (l rest : Text)
    → contains_char 10 l ≡ false
    → lines ((l ++ 34 ∷ []) ++ 10 ∷ rest) ≡ (l ++ 34 ∷ []) ∷ lines rest
unfolding lines
lines-append [] rest h = refl
lines-append (c ∷ []) rest h = ground arith
lines-append (c ∷ d ∷ l) rest h = ground (arith, lines-append (d ∷ l) rest)

trim_end-append :
    (l : Text) (d : ℕ) → is_whitespace d ≡ false → trim_end (l ++ d ∷ []) ≡ l ++ d ∷ []
unfolding trim_end
trim_end-append [] d h = rw h refl
trim_end-append (c ∷ []) d h = rw h refl
trim_end-append (c ∷ e ∷ l) d h = rw (trim_end-append (e ∷ l) d h) refl

unquote-quoted : (v : Text) → unquote (34 ∷ (v ++ 34 ∷ [])) ≡ v
unfolding unquote
unquote-quoted v = rw (strip_last-append 34 v) refl

trim-quoted :
    (c : ℕ) (l : Text) → is_whitespace c ≡ false → trim (c ∷ l ++ 34 ∷ []) ≡ c ∷ l ++ 34 ∷ []
unfolding trim_start
trim-quoted c l h = rw h (trim_end-append (c ∷ l) 34 refl)

trim-key : (k : Text) → IsKey k → trim k ≡ k
unfolding trim_start
trim-key [] h = ground arith
trim-key (c ∷ k) (h, _, ends, _, _) = rw h ends

add_split-quoted :
    (map : EnvMap) (k v : Text)
    → IsKey k
    → add_split map (some (k, 34 ∷ (v ++ 34 ∷ []))) ≡ insert k v map
add_split-quoted map [] v h = ground arith
add_split-quoted map (c ∷ k) v h =
    rw (trim-key (c ∷ k) h, trim-quoted 34 v refl, unquote-quoted v) refl

add_line-line_of :
    (map : EnvMap) (k v : Text) → IsKey k → add_line map (trim (line_of k v)) ≡ insert k v map
add_line-line_of map [] v h = ground arith
add_line-line_of map (c ∷ k) v (h, sharp, ends, split, feed) =
    let whole : line_of (c ∷ k) v ≡ c ∷ (k ++ 61 ∷ 34 ∷ v) ++ 34 ∷ [] = simp append_assoc in
    let trimmed : trim (line_of (c ∷ k) v) ≡ line_of (c ∷ k) v =
      rw whole (trim-quoted c (k ++ 61 ∷ 34 ∷ v) h) in
    rw (trimmed, sharp, split_once-append 61 (c ∷ k) (34 ∷ (v ++ 34 ∷ [])) split)
      (add_split-quoted map (c ∷ k) v (h, sharp, ends, split, feed))

lines-line_of :
    (k v rest : Text)
    → IsKey k
    → IsValue v
    → lines (line_of k v ++ 10 ∷ rest) ≡ line_of k v ∷ lines rest
lines-line_of [] v rest h g = ground arith
lines-line_of (c ∷ k) v rest (h, sharp, ends, split, feed) g =
    let whole : line_of (c ∷ k) v ≡ (c ∷ k ++ 61 ∷ 34 ∷ v) ++ 34 ∷ [] = simp append_assoc in
    subst (λ l. lines (l ++ 10 ∷ rest) ≡ l ∷ lines rest) (sym whole)
      (lines-append (c ∷ k ++ 61 ∷ 34 ∷ v) rest
        (rw (contains_char-append 10 (c ∷ k) (61 ∷ 34 ∷ v), feed) g))

add_lines-render :
    (es : List (Text × Text)) (map : EnvMap)
    → AreEntries es
    → add_lines map (lines (render es)) ≡ insert_all map es
unfolding add_lines lines
add_lines-render [] map h = refl
add_lines-render ((k, v) ∷ es) map (key, value, rest) =
    ap (add_lines map) (lines-line_of k v (render es) key value)
    ∙ (ap (λ m. add_lines m (lines (render es))) (add_line-line_of map k v key)
        ∙ add_lines-render es (insert k v map) rest)

parse_env_file-insert_all :
    (es : List (Text × Text)) → AreEntries es → parse_env_file (render es) ≡ insert_all [] es
unfolding parse_env_file
parse_env_file-insert_all es h = add_lines-render es [] h

module _ {A : Type 0} where
  if-if : (b : Bool) (x y z : A) → (if b then x else z) ≡ (if b then x else if b then y else z)
  if-if true x y z = refl
  if-if false x y z = refl

  if-swap :
      (b c : Bool) (x y z : A)
      → (b ≡ true → c ≡ false)
      → (if b then x else if c then y else z) ≡ (if c then y else if b then x else z)
  if-swap true true x y z h = cc (h refl)
  if-swap true false x y z h = refl
  if-swap false true x y z h = refl
  if-swap false false x y z h = refl

  or_else-if :
      (o p : Option A) (b : Bool) (x : A)
      → or_else o (if b then some x else p) ≡ or_else (or_else o (if b then some x else none)) p
  or_else-if (some y) p b x = refl
  or_else-if none p true x = refl
  or_else-if none p false x = refl

  or_else-none : (o : Option A) → or_else o none ≡ o
  or_else-none none = refl
  or_else-none (some y) = refl

lookup-insert :
    (k j v : Text) (m : EnvMap)
    → lookup k (insert j v m) ≡ (if same j k then some v else lookup k m)
unfolding lookup insert
lookup-insert k j v [] = refl
lookup-insert k j v ((i, w) ∷ m) = elim (Bool-cases (same i j)) [
  | inl e ↦
      let one : i ≡ j = same-eq i j e in
      rw (e, one) (if-if (same j k) (some v) (some w) (lookup k m))
  | inr e ↦ rw e (
      rw (lookup-insert k j v m)
        (if-swap (same i k) (same j k) (some w) (some v) (lookup k m) (same-apart i j k e)))
]

-- The value that the last entry of a key gives it.
abbrev pub last_value : Text → List (Text × Text) → Option Text
last_value k [] = none
last_value k ((j, v) ∷ es) = or_else (last_value k es) (if same j k then some v else none)

lookup-insert_all :
    (k : Text) (es : List (Text × Text)) (m : EnvMap)
    → lookup k (insert_all m es) ≡ or_else (last_value k es) (lookup k m)
lookup-insert_all k [] m = refl
lookup-insert_all k ((j, v) ∷ es) m =
    lookup-insert_all k es (insert j v m)
    ∙ rw (lookup-insert k j v m) (or_else-if (last_value k es) (lookup k m) (same j k) v)

-- In the lines `KEY="VALUE"` of any entries whose keys a line can hold and whose values have no line
-- feed, each key is found with the value of its last entry, and no other key is found.
pub parse_env_file-render :
    (es : List (Text × Text)) (k : Text)
    → AreEntries es
    → lookup k (parse_env_file (render es)) ≡ last_value k es
unfolding lookup
parse_env_file-render es k h =
    ap (lookup k) (parse_env_file-insert_all es h)
    ∙ lookup-insert_all k es []
    ∙ or_else-none (last_value k es)
