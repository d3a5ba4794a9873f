-- ===== src/Resources/Quantity/Range.antt =====
-- The range of the quantities that resources/quantity.rs accepts.
use emergency_ration_webhook.Common.{
  ℕ, String, some, List, [], ◌∷◌, false, ◌≡◌, ◌==ˢ◌, ◌&&◌, inl, inr, arith, Bool-cases,
  Option-cases,
}
use emergency_ration_webhook.Common.Int.{ℤ, pos, ◌≤ℤ◌, ltb_ℤ}
use emergency_ration_webhook.Common.Word.{i64_max}
use emergency_ration_webhook.Common.Result.{Yields, bind-Yields, or_err, or_err-Yields}
use emergency_ration_webhook.Common.Text.{codes, parse_nat, parse_i64}
use emergency_ration_webhook.Common.Float.{Float}
use emergency_ration_webhook.Resources.Quantity.{
  split_suffix, memory_suffixes, multiplier, is_integer_text, parse_integer, parse_number, to_i64,
  parse_cpu, parse_memory,
}

-- An i64 that is not below zero.
abbrev pub IsAmount : ℤ → Type 0
IsAmount z = (pos 0 ≤ℤ z) × (z ≤ℤ i64_max)

parse_i64-le : (s : List ℕ) {z : ℤ} → parse_i64 s ≡ some z → z ≤ℤ i64_max
unfolding parse_i64
parse_i64-le [] h = cc
parse_i64-le (c ∷ s) h = elim (Option-cases (parse_nat s)) [
  | inl e ↦ elim (Option-cases (parse_nat (c ∷ s))) [
    | inl f ↦ ground arith
    | inr (m, f) ↦ ground arith
  ]
  | inr (n, e) ↦ elim (Option-cases (parse_nat (c ∷ s))) [
    | inl f ↦ ground arith
    | inr (m, f) ↦ ground arith
  ]
]

parse_integer-IsAmount : (input num : String) → Yields IsAmount (parse_integer input num)
unfolding parse_integer
parse_integer-IsAmount input num = elim (Option-cases (parse_i64 (codes num))) [
  | inl bad ↦ rw bad tt
  | inr (z, e) ↦ elim (Bool-cases (ltb_ℤ z (pos 0))) [
    | inl negative ↦ rw (e, negative) tt
    | inr positive ↦ rw (e, positive) (ground arith, parse_i64-le (codes num) e)
  ]
]

multiplier-nonneg : (suffix : String) {z : ℤ} → multiplier suffix ≡ some z → pos 0 ≤ℤ z
multiplier-nonneg suffix h = ground arith

module _ (fl : Float) where
  abbrev pub IsNonneg : fl.F → Type 0
  IsNonneg x = fl.lt x (fl.of_ℤ (pos 0)) ≡ false

  -- What the code relies on of floats: what is not below zero (NaN included) stays so when it is
  -- multiplied by a number that is not below zero, and casts to an i64 that is not below zero.
  pub record IsOrderly : Type 0 where
    pub product : (x : fl.F) (z : ℤ) → IsNonneg x → pos 0 ≤ℤ z → IsNonneg (fl.mul x (fl.of_ℤ z))
    pub cast : (x : fl.F) → IsNonneg x → IsAmount (fl.to_i64 (fl.round x))

  parse_number-IsNonneg : (num : String) → Yields IsNonneg (parse_number fl num)
  unfolding parse_number
  parse_number-IsNonneg num = elim (Bool-cases (num ==ˢ "")) [
    | inl empty ↦ rw empty tt
    | inr full ↦ elim (Option-cases (fl.parse num)) [
      | inl bad ↦ rw (full, bad) tt
      | inr (x, e) ↦ elim (Bool-cases (fl.lt x (fl.of_ℤ (pos 0)))) [
        | inl negative ↦ rw (full, e, negative) tt
        | inr positive ↦ rw (full, e, positive) positive
      ]
    ]
  ]

  module _ (orderly : IsOrderly) where
    -- A CPU quantity that is accepted is an i64 that is not below zero.
    pub parse_cpu-IsAmount : (input : String) → Yields IsAmount (parse_cpu fl input)
    unfolding parse_cpu to_i64
    parse_cpu-IsAmount input = elim (Bool-cases (input ==ˢ "")) [
      | inl empty ↦ rw empty tt
      | inr full ↦
          let (num, suffix) = split_suffix input ("m" ∷ []) in
          rw full (
            bind-Yields IsNonneg IsAmount (parse_number fl num) _ (parse_number-IsNonneg num)
              (λ x h. elim (Bool-cases (suffix ==ˢ "m")) [
                | inl milli ↦ rw milli (orderly.cast x h)
                | inr cores ↦
                    rw cores (orderly.cast _ (orderly.product x (pos 1000) h (ground arith)))
              ]))
    ]

    -- A memory quantity that is accepted is an i64 that is not below zero.
    pub parse_memory-IsAmount : (input : String) → Yields IsAmount (parse_memory fl input)
    unfolding parse_memory to_i64
    parse_memory-IsAmount input = elim (Bool-cases (input ==ˢ "")) [
      | inl empty ↦ rw empty tt
      | inr full ↦
          let (num, suffix) = split_suffix input memory_suffixes in
          elim (Bool-cases (suffix ==ˢ "" && is_integer_text num)) [
            | inl plain ↦ rw (full, plain) (parse_integer-IsAmount input num)
            | inr scaled ↦
                rw (full, scaled)
                  (bind-Yields (λ z. pos 0 ≤ℤ z) IsAmount (or_err (multiplier suffix) _) _
                    (or_err-Yields (λ z. pos 0 ≤ℤ z) (multiplier suffix) _
                      (λ z e. multiplier-nonneg suffix e))
                    (λ factor hf.
                      bind-Yields IsNonneg IsAmount (parse_number fl num) _
                        (parse_number-IsNonneg num)
                        (λ x h. orderly.cast _ (orderly.product x factor h hf))))
          ]
    ]
