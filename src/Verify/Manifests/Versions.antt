-- ===== src/Verify/Manifests/Versions.antt =====
-- The group and the version that bin/erw-verify/setup.rs reads off an `apiVersion`.
use emergency_ration_webhook.Common.{ℕ, none, some, [], ◌∷◌, ◌++◌, false, ◌≡◌, refl, arith}
use emergency_ration_webhook.Common.Text.{Text, contains_char}
use emergency_ration_webhook.Verify.Manifests.{rsplit_once, GroupVersionKind, parse_gvk}

-- The `apiVersion` of a kind as Kubernetes writes it: the core group has no name and no slash.
abbrev versioned : Text → Text → Text
versioned [] version = version
versioned (c ∷ group) version = (c ∷ group) ++ 47 ∷ version

abbrev pub written_version : GroupVersionKind → Text
written_version kind = versioned kind.group kind.version

rsplit_once-none : (d : ℕ) (s : Text) → contains_char d s ≡ false → rsplit_once d s ≡ none
unfolding rsplit_once
rsplit_once-none d [] h = refl
rsplit_once-none d (c ∷ s) h =
    let rest : contains_char d s ≡ false = ground arith in
    rw (rsplit_once-none d s rest) (ground arith)

rsplit_once-last :
    (d : ℕ) (g v : Text) → contains_char d v ≡ false → rsplit_once d (g ++ d ∷ v) ≡ some (g, v)
unfolding rsplit_once
rsplit_once-last d [] v h = rw (rsplit_once-none d v h) (ground arith)
rsplit_once-last d (c ∷ g) v h = rw (rsplit_once-last d g v h) refl

parse_versioned :
    (group version kind : Text)
    → contains_char 47 version ≡ false
    → parse_gvk (versioned group version) kind
      ≡ record { group = group; version = version; kind = kind }
unfolding parse_gvk
parse_versioned [] version kind h = rw (rsplit_once-none 47 version h) refl
parse_versioned (c ∷ group) version kind h = rw (rsplit_once-last 47 (c ∷ group) version h) refl

-- A kind whose version has no slash is read back from its `apiVersion` and the name of the kind.
pub parse_gvk-written_version :
    (kind : GroupVersionKind)
    → contains_char 47 kind.version ≡ false
    → parse_gvk (written_version kind) kind.kind ≡ kind
parse_gvk-written_version kind h = parse_versioned kind.group kind.version kind.kind h
