-- ===== src/Webhook/Admission/Ceiling.antt =====
-- The ceiling of webhook/admission.rs: a floor, bounded by the supply and monotone.
use emergency_ration_webhook.Common.{ℕ, ◌+◌, ◌*◌, ◌/◌, ◌≤◌, ◌<◌, ◌≡◌, arith}
use emergency_ration_webhook.Common.Int.{ℤ, pos, pos_part, min_ℤ, ◌≤ℤ◌, ◌*ℤ◌, tdiv}
use emergency_ration_webhook.Common.Word.{i64_max, clamp}
use emergency_ration_webhook.Webhook.Admission.{ceiling_single}

-- The budget in use: 0 to 100.
abbrev pub percent : ℤ → ℕ
percent budget = pos_part (clamp (pos 0) (pos 100) budget)

pub clamp_pos : (b : ℤ) → (clamp (pos 0) (pos 100) b ≡ pos (percent b)) × (percent b ≤ 100)
unfolding clamp
clamp_pos b = ground arith

pub div-mul_le : (t p : ℕ) → p ≤ 100 → t * p / 100 ≤ t
div-mul_le t p h = grind arith

min-tdiv :
    (t p : ℕ)
    → p ≤ 100
    → pos t ≤ℤ i64_max
    → min_ℤ (tdiv (pos t *ℤ pos p) 100) i64_max ≡ pos (t * p / 100)
unfolding tdiv ◌*ℤ◌
min-tdiv t p h b = ground (arith, div-mul_le t p h)

pub ceiling_single-eq :
    (t : ℕ) (budget : ℤ)
    → pos t ≤ℤ i64_max
    → ceiling_single (pos t) budget ≡ pos (t * percent budget / 100)
unfolding ceiling_single
ceiling_single-eq t budget h =
    let (e, le) = clamp_pos budget in rw e (min-tdiv t (percent budget) le h)

-- For a supply of `t` units that an i64 can hold, the ceiling is a number `c` with
-- 100 c ≤ t p < 100 c + 100, where `p` is the budget held to 0..100; it is at most the supply.
ceiling_single-floor :
    (t : ℕ) (budget : ℤ)
    → pos t ≤ℤ i64_max
    → (c : ℕ) × (ceiling_single (pos t) budget ≡ pos c)
      × (c * 100 ≤ t * percent budget)
      × (t * percent budget < c * 100 + 100)
      × (c ≤ t)
ceiling_single-floor t budget h =
    let (_, le) = clamp_pos budget in
    (
      t * percent budget / 100,
      ceiling_single-eq t budget h,
      omega arith,
      omega arith,
      div-mul_le t (percent budget) le,
    )

percent_mono : (b b' : ℤ) → b ≤ℤ b' → percent b ≤ percent b'
unfolding clamp
percent_mono b b' h = ground arith

mul_mono : (t t' p p' : ℕ) → t ≤ t' → p ≤ p' → t * p / 100 ≤ t' * p' / 100
mul_mono t t' p p' h k = grind arith

-- More supply or a larger budget never lowers the ceiling.
ceiling_single-mono :
    (t t' : ℕ) (b b' : ℤ)
    → pos t' ≤ℤ i64_max
    → t ≤ t'
    → b ≤ℤ b'
    → ceiling_single (pos t) b ≤ℤ ceiling_single (pos t') b'
ceiling_single-mono t t' b b' h ht hb =
    rw (ceiling_single-eq t b (omega arith), ceiling_single-eq t' b' h)
      (omega (arith, mul_mono t t' (percent b) (percent b') ht (percent_mono b b' hb)))
