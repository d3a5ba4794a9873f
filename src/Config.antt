-- ===== src/Config.antt =====
-- src/config.rs: the settings of the webhook, from the command line, the environment and the
-- compiled defaults. The arguments and the environment are inputs; a path is its text.
pub mod Flags
use emergency_ration_webhook.Common.{ℕ, Option, none, some, List, [], ◌∷◌, if◌then◌else◌}
use emergency_ration_webhook.Common.Result.{and_then, or_else, unwrap_or}
use emergency_ration_webhook.Common.Text.{codes, Text, same, parse_unsigned}

pub record Config : Type 0 where
  pub port : ℕ
  pub tls_cert_file : Text
  pub tls_key_file : Text
  pub decision_timeout_ms : ℕ
  pub capacity_freshness_timeout_secs : ℕ
  pub namespace : Text
  pub metrics_port : ℕ

-- `Config::default`.
abbrev pub default : Config
default = record {
  port = 8443;
  tls_cert_file = codes "/tls/tls.crt";
  tls_key_file = codes "/tls/tls.key";
  decision_timeout_ms = 100;
  capacity_freshness_timeout_secs = 30;
  namespace = codes "capacity-admission";
  metrics_port = 9090;
}

-- `Iterator::next` after the flag.
abbrev pub next : List Text → Option Text
next [] = none
next (value ∷ rest) = some value

unfoldable pub cli_value : List Text → Text → Option Text
cli_value [] flag = none
cli_value (arg ∷ rest) flag =
    let later = cli_value rest flag in if same arg flag then next rest else later

-- `resolve`, at the `FromStr` of the setting's type.
unfoldable pub resolve :
    {T : Type 0} → (Text → Option T) → List Text → Text → Text → (Text → Option Text) → Option T
resolve from_str args flag env_name env_var =
    and_then (or_else (cli_value args flag) (env_var env_name)) from_str

abbrev u16 : Text → Option ℕ
u16 = parse_unsigned 65535

abbrev u64 : Text → Option ℕ
u64 = parse_unsigned 18446744073709551615

unfoldable pub from_args_and_env : List Text → (Text → Option Text) → Config
from_args_and_env args env_var = record {
  port = unwrap_or (resolve u16 args (codes "--port") (codes "PORT") env_var) default.port;
  tls_cert_file =
      unwrap_or (resolve some args (codes "--tls-cert-file") (codes "TLS_CERT_FILE") env_var)
        default.tls_cert_file;
  tls_key_file =
      unwrap_or (resolve some args (codes "--tls-key-file") (codes "TLS_KEY_FILE") env_var)
        default.tls_key_file;
  decision_timeout_ms =
      unwrap_or
        (resolve u64 args (codes "--decision-timeout-ms") (codes "DECISION_TIMEOUT_MS") env_var)
        default.decision_timeout_ms;
  capacity_freshness_timeout_secs =
      unwrap_or
        (resolve u64 args (codes "--capacity-freshness-timeout-secs")
          (codes "CAPACITY_FRESHNESS_TIMEOUT_SECS") env_var)
        default.capacity_freshness_timeout_secs;
  namespace =
      unwrap_or (resolve some args (codes "--namespace") (codes "NAMESPACE") env_var)
        default.namespace;
  metrics_port =
      unwrap_or (resolve u16 args (codes "--metrics-port") (codes "METRICS_PORT") env_var)
        default.metrics_port;
}
