-- ===== src/Common/Word.antt =====
-- The 64, 32 and 128-bit signed integers of Rust, as integers with the operations' overflow
-- behaviour written out: `saturating_add`, and the wrap-around of `+`, `-` and `as` in the release
-- profile, which the container images are built with.
use Prim.Native.Nat.{ℕ, suc, ◌≤◌, ◌+◌, ◌-◌, ◌%◌}
use mathlib.Core.Path.{◌≡◌}
use native.Mathlib.Omega.{arith}
use emergency_ration_webhook.Common.Tests.{ltb, if◌then◌else◌}
use emergency_ration_webhook.Common.Int.{
  ℤ, pos, negsuc, pos_part, neg_part, ◌+ℤ◌, ◌-ℤ◌, ◌≤ℤ◌, leb_ℤ, max_ℤ, min_ℤ,
}

-- 2 ^ 63 and 2 ^ 64.
abbrev pub half64 : ℕ
half64 = 9223372036854775808

abbrev pub mod64 : ℕ
mod64 = 18446744073709551616

abbrev pub i64_max : ℤ
i64_max = pos 9223372036854775807

abbrev pub i64_min : ℤ
i64_min = negsuc 9223372036854775807

abbrev pub IsI64 : ℤ → Type 0
IsI64 z = (i64_min ≤ℤ z) × (z ≤ℤ i64_max)

unfoldable pub saturate : ℤ → ℤ
saturate z = max_ℤ i64_min (min_ℤ z i64_max)

unfoldable pub saturating_add : ℤ → ℤ → ℤ
unfolding saturate
saturating_add a b = saturate (a +ℤ b)

unfoldable pub saturating_sub : ℤ → ℤ → ℤ
unfolding saturate
saturating_sub a b = saturate (a -ℤ b)

-- The integer in -2^63 .. 2^63 - 1 that is congruent to `z` modulo 2^64.
unfoldable pub wrap64 : ℤ → ℤ
wrap64 z =
    let r = (pos_part z % mod64 + (mod64 - neg_part z % mod64)) % mod64 in
    if ltb r half64 then pos r else negsuc (mod64 - r - 1)

-- The same for 32 bits.
unfoldable pub wrap32 : ℤ → ℤ
wrap32 z =
    let r = (pos_part z % 4294967296 + (4294967296 - neg_part z % 4294967296)) % 4294967296 in
    if ltb r 2147483648 then pos r else negsuc (4294967296 - r - 1)

abbrev pub mod128 : ℕ
mod128 = 340282366920938463463374607431768211456

-- The same for 128 bits.
unfoldable pub wrap128 : ℤ → ℤ
wrap128 z =
    let r = (pos_part z % mod128 + (mod128 - neg_part z % mod128)) % mod128 in
    if ltb r 170141183460469231731687303715884105728 then pos r else negsuc (mod128 - r - 1)

abbrev pub IsI32 : ℤ → Type 0
IsI32 z = (negsuc 2147483647 ≤ℤ z) × (z ≤ℤ pos 2147483647)

-- `i64::clamp` and `i32::clamp`.
unfoldable pub clamp : ℤ → ℤ → ℤ → ℤ
clamp lo hi z = if leb_ℤ z lo then lo else if leb_ℤ hi z then hi else z

pub saturate-eq : (z : ℤ) → IsI64 z → saturate z ≡ z
unfolding saturate
saturate-eq z h = ground arith

pub saturate-IsI64 : (z : ℤ) → IsI64 (saturate z)
unfolding saturate
saturate-IsI64 z = ground arith

pub wrap64-eq : (z : ℤ) → IsI64 z → wrap64 z ≡ z
unfolding wrap64
wrap64-eq (pos n) h = ground arith
wrap64-eq (negsuc n) h = ground arith

pub wrap32-eq : (z : ℤ) → IsI32 z → wrap32 z ≡ z
unfolding wrap32
wrap32-eq (pos n) h = ground arith
wrap32-eq (negsuc n) h = ground arith

pub wrap128-eq : (n : ℕ) → suc n ≤ 170141183460469231731687303715884105728 → wrap128 (pos n) ≡ pos n
unfolding wrap128
wrap128-eq n h = ground arith

pub wrap64-IsI64 : (z : ℤ) → IsI64 (wrap64 z)
unfolding wrap64
wrap64-IsI64 (pos n) = ground arith
wrap64-IsI64 (negsuc n) = ground arith

-- Wrapping a running sum at each step is wrapping the whole sum.
pub wrap64-add : (a b : ℕ) → wrap64 (wrap64 (pos a) +ℤ pos b) ≡ wrap64 (pos (a + b))
unfolding wrap64 ◌+ℤ◌
wrap64-add a b = ground arith
