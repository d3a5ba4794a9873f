-- ===== src/TimeUtil/RoundTrip.antt =====
-- What time_util.rs writes as a timestamp, it reads back as the same second.
use mathlib.Core.List.{append_assoc}
use emergency_ration_webhook.Common.{
  ℕ, List, [], ◌∷◌, ◌++◌, ◌+◌, ◌-◌, ◌/◌, ◌%◌, ◌≤◌, ◌≡◌, refl, arith, false, some,
}
use emergency_ration_webhook.Common.Int.{
  ℤ, pos, negsuc, ◌+ℤ◌, ◌-ℤ◌, ◌*ℤ◌, ◌≤ℤ◌, pos_part, neg_part, trem, div_euclid, rem_euclid,
}
use emergency_ration_webhook.Common.Text.{
  codes, pad, parse_i64, contains_char, is_digit, split_once,
}
use emergency_ration_webhook.Common.Text.Decimal.{
  IsNumeral, parse_i64-IsNumeral, show_ℕ-IsNumeral, zeros-IsNumeral, codes-append,
  contains_char-append, split_once-append, strip_last-append,
}
use emergency_ration_webhook.TimeUtil.{days_from_civil, stamp, parse_rfc3339, rfc3339_from_unix}
use emergency_ration_webhook.TimeUtil.Era.{
  month_of, day_of, day_in_year, year_of, day_number-civil, year_of_range, month_range,
  day_in_year_range,
}
use emergency_ration_webhook.TimeUtil.Civil.{tdiv_pos, days_from_civil_lem, civil_from_days_lem}

-- A padded number is a numeral for it.
pad-IsNumeral : (w n : ℕ) → n ≤ 9999 → IsNumeral n (codes (pad w (pos n)))
unfolding pad
pad-IsNumeral w n h = zeros-IsNumeral _ n _ (show_ℕ-IsNumeral n (omega arith))

-- The fields of a timestamp, put together as it has them.
abbrev join : ℕ → List ℕ → List ℕ → List ℕ
join c xs ys = xs ++ c ∷ ys

module _ (y m d hour minute second : ℕ) where
  codes-stamp :
      codes (stamp (pos y, pos m, pos d) (pos hour) (pos minute) (pos second))
      ≡ join 84
          (join 45
            (codes (pad 4 (pos y)))
            (join 45 (codes (pad 2 (pos m))) (codes (pad 2 (pos d)))))
          (join 58
            (codes (pad 2 (pos hour)))
            (join 58 (codes (pad 2 (pos minute))) (codes (pad 2 (pos second)))))
        ++ 90 ∷ []
  unfolding stamp
  codes-stamp = simp (codes-append, append_assoc)

-- The fields of a joined text are found again.
parse_pad : (w n : ℕ) → n ≤ 9999 → parse_i64 (codes (pad w (pos n))) ≡ some (pos n)
parse_pad w n h = parse_i64-IsNumeral n _ (pad-IsNumeral w n h) (omega arith)

absent :
    (c w n : ℕ) → is_digit c ≡ false → n ≤ 9999 → contains_char c (codes (pad w (pos n))) ≡ false
absent c w n out h = let (_, only, _) = pad-IsNumeral w n h in only c out

split_once-pad :
    (c w n : ℕ) (ys : List ℕ)
    → is_digit c ≡ false
    → n ≤ 9999
    → split_once c (join c (codes (pad w (pos n))) ys) ≡ some (codes (pad w (pos n)), ys)
split_once-pad c w n ys out h = split_once-append c _ ys (absent c w n out h)

-- The date of a timestamp holds no `T`.
date-absent :
    (y m d : ℕ)
    → y ≤ 9999
    → m ≤ 9999
    → d ≤ 9999
    → contains_char 84
        (join 45 (codes (pad 4 (pos y))) (join 45 (codes (pad 2 (pos m))) (codes (pad 2 (pos d)))))
      ≡ false
date-absent y m d hy hm hd =
    simp (contains_char-append, absent 84 4 y refl hy, absent 84 2 m refl hm, absent 84 2 d refl hd)

parse_rfc3339-stamp :
    (y m d hour minute second : ℕ)
    → (1 ≤ y) × (y ≤ 9999) × (1 ≤ m) × (m ≤ 12) × (1 ≤ d) × (d ≤ 31)
    → (hour ≤ 23) × (minute ≤ 59) × (second ≤ 59)
    → parse_rfc3339 (stamp (pos y, pos m, pos d) (pos hour) (pos minute) (pos second))
      ≡ some (
          days_from_civil (pos y) (pos m) (pos d) *ℤ pos 86400
          +ℤ pos hour *ℤ pos 3600
          +ℤ pos minute *ℤ pos 60
          +ℤ pos second)
unfolding parse_rfc3339
parse_rfc3339-stamp y m d hour minute second (y1, y2, m1, m2, d1, d2) (h1, mi1, s1) =
    rw
      (
        codes-stamp y m d hour minute second,
        strip_last-append,
        split_once-append 84 _ _ (date-absent y m d y2 (omega arith) (omega arith)),
        split_once-pad 45 4 y _ refl y2,
        split_once-pad 45 2 m _ refl (omega arith),
        split_once-pad 58 2 hour _ refl (omega arith),
        split_once-pad 58 2 minute _ refl (omega arith),
        parse_pad 4 y y2,
        parse_pad 2 m (omega arith),
        parse_pad 2 d (omega arith),
        parse_pad 2 hour (omega arith),
        parse_pad 2 minute (omega arith),
        parse_pad 2 second (omega arith),
      )
      (ground arith)

-- A second, and the day and the second of the day that it lies in.
from_epoch : ℕ → ℤ
from_epoch n = pos n -ℤ pos 62162035200

day_of_second : (n : ℕ) → div_euclid (from_epoch n) 86400 ≡ pos (n / 86400) -ℤ pos 719468
unfolding from_epoch div_euclid ◌-ℤ◌
day_of_second n = ground arith

second_of_day : (n : ℕ) → rem_euclid (from_epoch n) 86400 ≡ pos (n % 86400)
unfolding from_epoch rem_euclid ◌-ℤ◌
second_of_day n = ground arith

sum_of_fields :
    (n : ℕ)
    → (pos (n / 86400) -ℤ pos 719468) *ℤ pos 86400
        +ℤ pos (n % 86400 / 3600) *ℤ pos 3600
        +ℤ pos (n % 86400 % 3600 / 60) *ℤ pos 60
        +ℤ pos (n % 86400 % 60)
      ≡ from_epoch n
unfolding from_epoch ◌-ℤ◌ ◌+ℤ◌ ◌*ℤ◌
sum_of_fields n = ground arith

secs_from_epoch :
    (secs : ℤ)
    → negsuc 62135596799 ≤ℤ secs
    → secs ≤ℤ pos 253402300799
    → (n : ℕ) × (secs ≡ from_epoch n) × (26438400 ≤ n) × (n ≤ 315564335999)
unfolding from_epoch ◌-ℤ◌
secs_from_epoch secs lo hi =
    let n : ℕ = pos_part secs + 62162035200 - neg_part secs in
    (n, ground arith, ground arith, ground arith)

trem_pos : (a k : ℕ) → trem (pos a) k ≡ pos (a % k)
unfolding trem
trem_pos a k = ground arith

parse_rfc3339-from_epoch :
    (n : ℕ)
    → 26438400 ≤ n
    → n ≤ 315564335999
    → parse_rfc3339 (rfc3339_from_unix (from_epoch n)) ≡ some (from_epoch n)
unfolding rfc3339_from_unix
parse_rfc3339-from_epoch n lo hi =
    let day = n / 86400 in
    let rest = n % 86400 in
    let (y1, y2) = year_of_range day (omega arith) (omega arith) in
    let (m1, m2, d1, d2, _, _) = month_range (day_in_year day) (day_in_year_range day) in
    let times : (rest / 3600 ≤ 23) × (rest % 3600 / 60 ≤ 59) × (rest % 60 ≤ 59) = omega arith in
    rw
      (
        day_of_second n,
        second_of_day n,
        civil_from_days_lem day,
        tdiv_pos,
        trem_pos rest 3600,
        tdiv_pos,
        trem_pos rest 60,
        parse_rfc3339-stamp (year_of day) (month_of (day_in_year day)) (day_of (day_in_year day))
            (rest / 3600) (rest % 3600 / 60) (rest % 60) (y1, y2, m1, m2, d1, d2) times,
        days_from_civil_lem _ _ _ y1 d1,
        day_number-civil day,
        sum_of_fields n,
      )
      refl

-- From the year 1 to the year 9999, reading the timestamp written for a second gives that second
-- back.
pub parse_rfc3339-rfc3339_from_unix :
    (secs : ℤ)
    → negsuc 62135596799 ≤ℤ secs
    → secs ≤ℤ pos 253402300799
    → parse_rfc3339 (rfc3339_from_unix secs) ≡ some secs
parse_rfc3339-rfc3339_from_unix secs lo hi =
    let (n, e, lo, hi) = secs_from_epoch secs lo hi in rw e (parse_rfc3339-from_epoch n lo hi)
