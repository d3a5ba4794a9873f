-- ===== src/Verify/Args.antt =====
-- bin/erw-verify/args.rs: the settings of the verification tool, from the command line, the `.env`
-- file, the environment and the compiled defaults.
pub mod Fallback
use emergency_ration_webhook.Common.{
  ℕ, Option, none, some, List, [], ◌∷◌, Bool, true, false, ◌||◌, not, any, is_empty, leb, ◌&&◌, ◌+◌,
  if◌then◌else◌,
}
use emergency_ration_webhook.Common.Result.{and_then, or_else, unwrap_or}
use emergency_ration_webhook.Common.Text.{codes, Text, same, trim, parse_unsigned}
use emergency_ration_webhook.Config.{cli_value}
use emergency_ration_webhook.Verify.EnvFile.{EnvMap, lookup}

abbrev pub default_timeout_secs : ℕ
default_timeout_secs = 120

pub record VerifyConfig : Type 0 where
  pub kubeconfig : Option Text
  pub json : Bool
  pub keep_on_failure : Bool
  pub timeout_secs : ℕ
  pub registry : Option Text
  pub image_name : Text
  pub image_tag : Text
  pub skip_build : Bool

unfoldable pub flag_present : List Text → Text → Bool
flag_present args flag = any (λ arg. same arg flag) args

-- `Option::filter` at a text that is not empty.
abbrev pub not_empty : Option Text → Option Text
not_empty none = none
not_empty (some s) = if is_empty s then none else some s

-- `str::to_ascii_lowercase`.
abbrev lower : ℕ → ℕ
lower c = if leb 65 c && leb c 90 then c + 32 else c

abbrev pub to_ascii_lowercase : Text → Text
to_ascii_lowercase [] = []
to_ascii_lowercase (c ∷ s) = lower c ∷ to_ascii_lowercase s

-- `TRUTHY.contains`.
abbrev truthy : Text → Bool
truthy s = same (codes "1") s || same (codes "true") s

module _ (args : List Text) where
  unfoldable pub resolve_kubeconfig : EnvMap → (Text → Option Text) → Option Text
  resolve_kubeconfig env_file env_var = not_empty (
      or_else
        (or_else (cli_value args (codes "--kubeconfig")) (lookup (codes "ERW_KUBECONFIG") env_file))
        (env_var (codes "KUBECONFIG")))

  unfoldable pub resolve_raw : Text → Text → EnvMap → (Text → Option Text) → Option Text
  resolve_raw flag key env_file env_var =
      not_empty (or_else (or_else (cli_value args flag) (lookup key env_file)) (env_var key))

  -- The match of `resolve_timeout`.
  abbrev timeout_of : Option ℕ → ℕ
  timeout_of none = default_timeout_secs
  timeout_of (some secs) = if leb 1 secs then secs else default_timeout_secs

  unfoldable pub resolve_timeout : Text → Text → EnvMap → (Text → Option Text) → ℕ
  resolve_timeout flag key env_file env_var =
      timeout_of
        (and_then (resolve_raw flag key env_file env_var) (parse_unsigned 18446744073709551615))

  -- The value behind the flag of `resolve_bool`.
  abbrev truth_of : Option Text → Bool
  truth_of none = false
  truth_of (some raw) = truthy (to_ascii_lowercase (trim raw))

  unfoldable pub resolve_bool : Text → Text → EnvMap → (Text → Option Text) → Bool
  unfolding flag_present
  resolve_bool flag key env_file env_var =
      if flag_present args flag
      then true
      else truth_of (or_else (lookup key env_file) (env_var key))

  unfoldable pub from_args_and_env : EnvMap → (Text → Option Text) → VerifyConfig
  from_args_and_env env_file env_var = record {
    kubeconfig = resolve_kubeconfig env_file env_var;
    json = flag_present args (codes "--json");
    keep_on_failure = flag_present args (codes "--keep-on-failure");
    timeout_secs =
        resolve_timeout (codes "--timeout-secs") (codes "VERIFY_TIMEOUT_SECS") env_file env_var;
    registry = resolve_raw (codes "--registry") (codes "ERW_REGISTRY") env_file env_var;
    image_name =
        unwrap_or (resolve_raw (codes "--image-name") (codes "ERW_IMAGE_NAME") env_file env_var)
          (codes "capacity-admission-webhook");
    image_tag =
        unwrap_or (resolve_raw (codes "--image-tag") (codes "ERW_IMAGE_TAG") env_file env_var)
          (codes "latest");
    skip_build = resolve_bool (codes "--skip-build") (codes "ERW_SKIP_BUILD") env_file env_var;
  }
