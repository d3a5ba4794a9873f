-- ===== src/Verify/Args/Fallback.antt =====
-- What an empty value makes of the precedence in bin/erw-verify/args.rs.
use emergency_ration_webhook.Common.{none, some, Option, List, [], ◌≡◌}
use emergency_ration_webhook.Common.Text.{Text}
use emergency_ration_webhook.Config.{cli_value}
use emergency_ration_webhook.Verify.EnvFile.{EnvMap, lookup}
use emergency_ration_webhook.Verify.Args.{resolve_raw}

-- Where the command line does not give the flag a value, and the `.env` file gives the key the empty
-- value, the setting is absent, whatever the environment holds under the key.
pub resolve_raw-hides :
    (args : List Text) (flag key : Text) (env_file : EnvMap) (env_var : Text → Option Text)
    → cli_value args flag ≡ none
    → lookup key env_file ≡ some []
    → resolve_raw args flag key env_file env_var ≡ none
unfolding resolve_raw
resolve_raw-hides args flag key env_file env_var h k = simp (h, k)
