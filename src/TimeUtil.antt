-- ===== src/TimeUtil.antt =====
-- time_util.rs: RFC 3339 timestamps and the civil calendar.
pub mod Era
pub mod Civil
pub mod RoundTrip
use Prim.Native.String.{◌++◌}
use mathlib.Core.Option
use emergency_ration_webhook.Common.{ℕ, String, Option, none, some, Bool, ◌&&◌, if◌then◌else◌}
use emergency_ration_webhook.Common.Int.{
  ℤ, pos, ◌+ℤ◌, ◌-ℤ◌, ◌*ℤ◌, tdiv, leb_ℤ, ltb_ℤ, trem, div_euclid, rem_euclid,
}
use emergency_ration_webhook.Common.Word.{wrap64}
use emergency_ration_webhook.Common.Result.{unwrap_or}
use emergency_ration_webhook.Common.Maybe.{◌>>=◌}
use emergency_ration_webhook.Common.Text.{codes, split_once, strip_last, parse_i64, pad}

-- `(lo..=hi).contains(&z)`.
abbrev pub within : ℤ → ℤ → ℤ → Bool
within lo hi z = leb_ℤ lo z && leb_ℤ z hi

-- `days_from_civil`: days since 1970-01-01; `/` rounds towards zero.
unfoldable pub days_from_civil : ℤ → ℤ → ℤ → ℤ
days_from_civil year month day =
    let y : ℤ = if leb_ℤ month (pos 2) then year -ℤ pos 1 else year in
    let era : ℤ = tdiv (if leb_ℤ (pos 0) y then y else y -ℤ pos 399) 400 in
    let yoe : ℤ = y -ℤ era *ℤ pos 400 in
    let shifted : ℤ = if ltb_ℤ (pos 2) month then month -ℤ pos 3 else month +ℤ pos 9 in
    let doy : ℤ = tdiv (pos 153 *ℤ shifted +ℤ pos 2) 5 +ℤ day -ℤ pos 1 in
    let doe : ℤ = yoe *ℤ pos 365 +ℤ tdiv yoe 4 -ℤ tdiv yoe 100 +ℤ doy in
    era *ℤ pos 146097 +ℤ doe -ℤ pos 719468

-- `civil_from_days`.
unfoldable pub civil_from_days : ℤ → ℤ × ℤ × ℤ
civil_from_days days =
    let z : ℤ = days +ℤ pos 719468 in
    let era : ℤ = tdiv (if leb_ℤ (pos 0) z then z else z -ℤ pos 146096) 146097 in
    let doe : ℤ = z -ℤ era *ℤ pos 146097 in
    let yoe : ℤ = tdiv (doe -ℤ tdiv doe 1460 +ℤ tdiv doe 36524 -ℤ tdiv doe 146096) 365 in
    let y : ℤ = yoe +ℤ era *ℤ pos 400 in
    let doy : ℤ = doe -ℤ (pos 365 *ℤ yoe +ℤ tdiv yoe 4 -ℤ tdiv yoe 100) in
    let mp : ℤ = tdiv (pos 5 *ℤ doy +ℤ pos 2) 153 in
    let d : ℤ = doy -ℤ tdiv (pos 153 *ℤ mp +ℤ pos 2) 5 +ℤ pos 1 in
    let m : ℤ = if ltb_ℤ mp (pos 10) then mp +ℤ pos 3 else mp -ℤ pos 9 in
    (if leb_ℤ m (pos 2) then y +ℤ pos 1 else y, m, d)

unfoldable pub parse_rfc3339 : String → Option ℤ
unfolding split_once strip_last parse_i64
parse_rfc3339 input = do
  body ← strip_last 90 (codes input)
  (date, time) ← split_once 84 body
  (year_s, month_day) ← split_once 45 date
  (month_s, day_s) ← split_once 45 month_day
  (hour_s, minute_second) ← split_once 58 time
  (minute_s, second_s) ← split_once 58 minute_second
  year ← parse_i64 year_s
  month ← parse_i64 month_s
  day ← parse_i64 day_s
  hour ← parse_i64 hour_s
  minute ← parse_i64 minute_s
  second ← parse_i64 second_s
  if within (pos 1) (pos 9999) year
        && within (pos 1) (pos 12) month
        && within (pos 1) (pos 31) day
        && within (pos 0) (pos 23) hour
        && within (pos 0) (pos 59) minute
        && within (pos 0) (pos 59) second
      then some (
          days_from_civil year month day *ℤ pos 86400
          +ℤ hour *ℤ pos 3600
          +ℤ minute *ℤ pos 60
          +ℤ second)
      else none

-- The format `{year:04}-{month:02}-{day:02}T{hour:02}:{minute:02}:{second:02}Z`.
unfoldable pub stamp : ℤ × ℤ × ℤ → ℤ → ℤ → ℤ → String
stamp (year, month, day) hour minute second =
    pad 4 year
    ++ "-"
    ++ pad 2 month
    ++ "-"
    ++ pad 2 day
    ++ "T"
    ++ pad 2 hour
    ++ ":"
    ++ pad 2 minute
    ++ ":"
    ++ pad 2 second
    ++ "Z"

unfoldable pub rfc3339_from_unix : ℤ → String
rfc3339_from_unix secs =
    let day_secs : ℤ = rem_euclid secs 86400 in
    stamp (civil_from_days (div_euclid secs 86400)) (tdiv day_secs 3600)
      (tdiv (trem day_secs 3600) 60) (trem day_secs 60)

-- `SystemTime::now().duration_since(UNIX_EPOCH)` in seconds, or nothing where the clock stands
-- before the epoch.
abbrev pub Clock : Type 0
Clock = Option ℕ

unfoldable pub now_unix : Clock → ℤ
now_unix clock = unwrap_or (Option.map (λ secs. wrap64 (pos secs)) clock) (pos 0)

unfoldable pub now_rfc3339 : Clock → String
now_rfc3339 clock = rfc3339_from_unix (wrap64 (pos (unwrap_or clock 0)))
