-- ===== src/TimeUtil/Civil.antt =====
-- The calendar of time_util.rs, on signed integers, agrees with the arithmetic of Era on the days
-- from 0000-03-01 on.
use emergency_ration_webhook.Common.{
  ℕ, ◌+◌, ◌-◌, ◌*◌, ◌/◌, ◌≤◌, ◌≡◌, refl, arith, leb, ltb, Bool, true, false, if◌then◌else◌,
}
use emergency_ration_webhook.Common.Int.{ℤ, pos, ◌+ℤ◌, ◌-ℤ◌, ◌*ℤ◌, tdiv, leb_ℤ, ltb_ℤ}
use emergency_ration_webhook.TimeUtil.{days_from_civil, civil_from_days}
use emergency_ration_webhook.TimeUtil.Era.{
  year_of_era, month_of, day_of, day_in_era, day_in_year, year_of, shifted_month, shifted_year,
  march_day, day_number, year_of_era_range, month_range, day_in_era-lt, day_in_year_range,
}

-- Integers that are not negative compute as numbers do.
mul_pos : (a b : ℕ) → pos a *ℤ pos b ≡ pos (a * b)
unfolding ◌*ℤ◌
mul_pos a b = ground arith

add_pos : (a b : ℕ) → pos a +ℤ pos b ≡ pos (a + b)
unfolding ◌+ℤ◌
add_pos a b = ground arith

sub_pos : (a b : ℕ) → b ≤ a → pos a -ℤ pos b ≡ pos (a - b)
unfolding ◌-ℤ◌
sub_pos a b h = ground arith

pub tdiv_pos : (a k : ℕ) → tdiv (pos a) k ≡ pos (a / k)
unfolding tdiv
tdiv_pos a k = ground arith

sub-add : (a b : ℕ) → (pos a -ℤ pos b) +ℤ pos b ≡ pos a
unfolding ◌-ℤ◌ ◌+ℤ◌
sub-add a b = ground arith

if_pos : (b : Bool) (m n : ℕ) → (if b then pos m else pos n) ≡ pos (if b then m else n)
if_pos true m n = refl
if_pos false m n = refl

month_pos :
    (mp : ℕ)
    → (if ltb_ℤ (pos mp) (pos 10) then pos (mp + 3) else pos mp -ℤ pos 9)
      ≡ pos (if ltb mp 10 then mp + 3 else mp - 9)
unfolding ◌-ℤ◌
month_pos mp = ground arith

shifted_pos :
    (m : ℕ)
    → (if ltb_ℤ (pos 2) (pos m) then pos m -ℤ pos 3 else pos (m + 9)) ≡ pos (shifted_month m)
unfolding ◌-ℤ◌
shifted_pos m = ground arith

if_nonneg : (n : ℕ) (x y : ℤ) → (if leb_ℤ (pos 0) (pos n) then x else y) ≡ x
if_nonneg n x y = ground arith

if_le : (a b : ℕ) (x y : ℤ) → (if leb_ℤ (pos a) (pos b) then x else y) ≡ (if leb a b then x else y)
if_le a b x y = ground arith

mul_365 : (n : ℕ) → 365 * n ≡ n * 365
mul_365 n = omega arith

ruleset pos_laws = (
  mul_pos, add_pos, sub_pos, tdiv_pos, sub-add, month_pos, shifted_pos, if_nonneg, if_le, if_pos,
  mul_365,
)

pub civil_from_days_lem :
    (n : ℕ)
    → civil_from_days (pos n -ℤ pos 719468)
      ≡ (pos (year_of n), pos (month_of (day_in_year n)), pos (day_of (day_in_year n)))
unfolding civil_from_days
civil_from_days_lem n =
    let doe = day_in_era n in
    let h1 : n / 146097 * 146097 ≤ n = omega arith in
    let h2 : doe / 1460 ≤ doe = omega arith in
    let h3 : doe / 146096 ≤ doe - doe / 1460 + doe / 36524 = omega (arith, day_in_era-lt n) in
    let (h4, _, _) = year_of_era_range doe (day_in_era-lt n) in
    let (_, _, _, _, _, h5) = month_range (day_in_year n) (day_in_year_range n) in
    let yoe = year_of_era doe in
    let h6 : yoe / 100 ≤ yoe * 365 + yoe / 4 = omega arith in simp pos_laws

pub days_from_civil_lem :
    (y m d : ℕ)
    → 1 ≤ y
    → 1 ≤ d
    → days_from_civil (pos y) (pos m) (pos d) ≡ pos (day_number y m d) -ℤ pos 719468
unfolding days_from_civil march_day
days_from_civil_lem y m d h1 h2 =
    let ys = shifted_year y m in
    let h3 : ys / 400 * 400 ≤ ys = omega arith in
    let yoe = ys - ys / 400 * 400 in
    let h4 : yoe / 100 ≤ yoe * 365 + yoe / 4 = omega arith in
    let h5 : 1 ≤ (153 * shifted_month m + 2) / 5 + d = omega arith in simp pos_laws
