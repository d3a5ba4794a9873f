-- ===== src/System/Freshness.antt =====
-- The age of a status: controllers/allocation.rs stamps it by time_util.rs, and
-- webhook/handler.rs reads the stamp.
use emergency_ration_webhook.Common.{ℕ, ◌<◌, false, ◌≡◌, ◌↔◌, arith}
use emergency_ration_webhook.Common.Int.{ℤ, pos, negsuc, ◌+ℤ◌, ◌-ℤ◌, ◌≤ℤ◌}
use emergency_ration_webhook.Common.Word.{saturating_sub, saturate}
use emergency_ration_webhook.TimeUtil.{rfc3339_from_unix}
use emergency_ration_webhook.TimeUtil.RoundTrip.{parse_rfc3339-rfc3339_from_unix}
use emergency_ration_webhook.Webhook.Summary.{assess_freshness}

-- From the year 1 to the year 9999, and for a threshold below 2^63 - 1 seconds, a status stamped at
-- a second is fresh exactly as long as no more seconds have passed than the threshold.
pub assess_freshness-rfc3339_from_unix :
    (secs now : ℤ) (threshold : ℕ)
    → negsuc 62135596799 ≤ℤ secs
    → secs ≤ℤ pos 253402300799
    → threshold < 9223372036854775807
    → ((assess_freshness (rfc3339_from_unix secs) now threshold).stale ≡ false)
      ↔ (now ≤ℤ secs +ℤ pos threshold)
unfolding assess_freshness saturating_sub saturate ◌+ℤ◌ ◌-ℤ◌
assess_freshness-rfc3339_from_unix secs now threshold lo hi h =
    rw (parse_rfc3339-rfc3339_from_unix secs lo hi, assess_freshness) (ground arith)
