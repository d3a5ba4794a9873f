-- ===== src/Verify/Manifests.antt =====
-- bin/erw-verify/setup.rs: the documents of the webhook's manifests, what is read of them and the
-- substitution of the image. A document is a value of serde_json. Indexing by a key at a value that is
-- no object and not null panics, which is `none` here.
pub mod Install
pub mod Paths
pub mod Fields
pub mod Puts
pub mod Substitution
pub mod Calls
pub mod Prepared
pub mod Order
pub mod Trust
pub mod Versions
use emergency_ration_webhook.Common.{
  ℕ, ◌==◌, Option, none, some, List, [], ◌∷◌, Bool, true, false, ◌||◌, ◌++◌, if◌then◌else◌,
}
use mathlib.Core.Option
use emergency_ration_webhook.Common.Result.{Result, ok, err, is_some_and, and_then}
use emergency_ration_webhook.Common.Text.{codes, Text, same, is_prefix}

-- `serde_json::Value`, with a number as it is written.
mutual
  pub data Value : Type 0 where
    null : Value
    boolean : Bool → Value
    number : Text → Value
    string : Text → Value
    array : Values → Value
    object : Members → Value

  pub data Values : Type 0 where
    nil : Values
    cons : Value → Values → Values

  pub data Members : Type 0 where
    end : Members
    field : Text → Value → Members → Members

unfoldable pub find_field : Text → Members → Option Value
find_field k end = none
find_field k (field n v ms) = let rest = find_field k ms in if same n k then some v else rest

-- `Value::get` at a key.
abbrev pub member : Text → Value → Option Value
member k (object ms) = find_field k ms
member k null = none
member k (boolean b) = none
member k (number n) = none
member k (string s) = none
member k (array vs) = none

abbrev pub as_str : Value → Option Text
as_str (string s) = some s
as_str null = none
as_str (boolean b) = none
as_str (number n) = none
as_str (array vs) = none
as_str (object ms) = none

-- `get` and `as_str` at a key of the document.
abbrev pub text_at : Text → Value → Option Text
text_at k doc = and_then (member k doc) as_str

unfoldable pub kind_is : Value → Text → Bool
unfolding find_field
kind_is doc kind = is_some_and (text_at (codes "kind") doc) (λ k. same k kind)

unfoldable pub api_version_is : Value → Text → Bool
unfolding find_field
api_version_is doc group =
    is_some_and (text_at (codes "apiVersion") doc)
      (λ av. same av group || is_prefix (group ++ codes "/") av)

-- What `rsplit_once` finds at a text whose rest has, or has not, a later cut.
abbrev pub cut_at : ℕ → ℕ → Text → Option (Text × Text) → Option (Text × Text)
cut_at d c s (some (before, after)) = some (c ∷ before, after)
cut_at d c s none = if c == d then some ([], s) else none

-- `str::rsplit_once` at one character.
unfoldable pub rsplit_once : ℕ → Text → Option (Text × Text)
rsplit_once d [] = none
rsplit_once d (c ∷ s) = cut_at d c s (rsplit_once d s)

pub record GroupVersionKind : Type 0 where
  pub group : Text
  pub version : Text
  pub kind : Text

abbrev pub gvk : Text → Text → Option (Text × Text) → GroupVersionKind
gvk api_version kind (some (g, v)) = record { group = g; version = v; kind = kind }
gvk api_version kind none = record { group = []; version = api_version; kind = kind }

unfoldable pub parse_gvk : Text → Text → GroupVersionKind
unfolding rsplit_once
parse_gvk api_version kind = gvk api_version kind (rsplit_once 47 api_version)

-- `get_mut` at a key and a change of what stands there; nothing changes where it is absent.
unfoldable pub at_field : Text → (Value → Option Value) → Members → Option Members
at_field k change end = some end
at_field k change (field n v ms) =
    let rest = at_field k change ms in
    if same n k then Option.map (λ w. field n w ms) (change v) else Option.map (field n v) rest

unfoldable pub at_member : Text → (Value → Option Value) → Value → Option Value
unfolding at_field
at_member k change (object ms) = Option.map object (at_field k change ms)
at_member k change null = some null
at_member k change (boolean b) = some (boolean b)
at_member k change (number n) = some (number n)
at_member k change (string s) = some (string s)
at_member k change (array vs) = some (array vs)

-- The insertion of a key, which replaces the value of a key that is there.
unfoldable pub set_field : Text → Value → Members → Members
set_field k x end = field k x end
set_field k x (field n v ms) =
    let rest = set_field k x ms in if same n k then field n x ms else field n v rest

-- `value[k] = x`.
unfoldable pub assign : Text → Value → Value → Option Value
unfolding set_field
assign k x (object ms) = some (object (set_field k x ms))
assign k x null = some (object (field k x end))
assign k x (boolean b) = none
assign k x (number n) = none
assign k x (string s) = none
assign k x (array vs) = none

-- `as_array_mut`, `get_mut(0)` and a change of what stands there.
unfoldable pub at_first : (Value → Option Value) → Value → Option Value
at_first change (array nil) = some (array nil)
at_first change (array (cons v vs)) = Option.map (λ w. array (cons w vs)) (change v)
at_first change null = some null
at_first change (boolean b) = some (boolean b)
at_first change (number n) = some (number n)
at_first change (string s) = some (string s)
at_first change (object ms) = some (object ms)

unfoldable pub substitute_image : Value → Text → Option Value
unfolding at_member at_first assign
substitute_image doc image =
    at_member (codes "spec")
      (at_member (codes "template") (
        at_member (codes "spec")
          (at_member (codes "containers") (at_first (assign (codes "image") (string image))))))
      doc

abbrev pub is_null : Value → Bool
is_null null = true
is_null (boolean b) = false
is_null (number n) = false
is_null (string s) = false
is_null (array vs) = false
is_null (object ms) = false

-- The value goes before the documents that follow, unless it is null.
abbrev keep_doc : Value → Result Text (List Value) → Result Text (List Value)
keep_doc value (err e) = err e
keep_doc value (ok docs) = if is_null value then ok docs else ok (value ∷ docs)

-- `parse_docs`, at the documents that the YAML reader hands out, each with its error.
unfoldable pub parse_docs : List (Result Text Value) → Result Text (List Value)
parse_docs [] = ok []
parse_docs (err e ∷ rest) = err e
parse_docs (ok value ∷ rest) = keep_doc value (parse_docs rest)
