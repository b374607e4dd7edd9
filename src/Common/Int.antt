-- ===== src/Common/Int.antt =====
-- Signed 64-bit integers (Go's int64): integers over the native numbers, with the wrap-around of
-- two's complement at every operation.
use Prim.Native.Nat.{ℕ, suc, ◌+◌, ◌-◌, ◌%◌, ◌≤◌, ◌<◌}
use mathlib.Core.Path.{◌≡◌}
use mathlib.Core.Bool.{Bool, true}
use native.Mathlib.Omega.{arith}
use solana_dashboard.Common.Tests.{ltb, leb, ◌==◌, if◌then◌else◌}

-- `negsuc n` is -(n + 1).
pub data ℤ : Type 0 where
  pos : ℕ → ℤ
  negsuc : ℕ → ℤ

abbrev pub pos_part : ℤ → ℕ
pos_part (pos n) = n
pos_part (negsuc n) = 0

abbrev pub neg_part : ℤ → ℕ
neg_part (pos n) = 0
neg_part (negsuc n) = suc n

-- a - b, as an integer.
abbrev pub sub_ℕ : ℕ → ℕ → ℤ
sub_ℕ a b = if leb b a then pos (a - b) else negsuc (b - a - 1)

infix 50 ◌≤ℤ◌ ◌<ℤ◌
abbrev pub ◌≤ℤ◌ : ℤ → ℤ → Type 0
a ≤ℤ b = pos_part a + neg_part b ≤ pos_part b + neg_part a

abbrev pub ◌<ℤ◌ : ℤ → ℤ → Type 0
a <ℤ b = pos_part a + neg_part b < pos_part b + neg_part a

abbrev pub ltb_ℤ : ℤ → ℤ → Bool
ltb_ℤ a b = ltb (pos_part a + neg_part b) (pos_part b + neg_part a)

abbrev pub leb_ℤ : ℤ → ℤ → Bool
leb_ℤ a b = leb (pos_part a + neg_part b) (pos_part b + neg_part a)

abbrev pub eqb_ℤ : ℤ → ℤ → Bool
eqb_ℤ a b = pos_part a + neg_part b == pos_part b + neg_part a

abbrev pub word_mod : ℕ
word_mod = 18446744073709551616

abbrev pub half_mod : ℕ
half_mod = 9223372036854775808

-- The 64-bit pattern of an integer, and the signed integer that a pattern stands for.
abbrev pub bits : ℤ → ℕ
bits (pos n) = n % word_mod
bits (negsuc n) = word_mod - 1 - n % word_mod

abbrev pub of_bits : ℕ → ℤ
of_bits w = if ltb w half_mod then pos w else negsuc (word_mod - 1 - w)

abbrev pub wrap : ℤ → ℤ
wrap z = of_bits (bits z)

unfoldable pub add_int64 : ℤ → ℤ → ℤ
add_int64 a b = wrap (sub_ℕ (pos_part a + pos_part b) (neg_part a + neg_part b))

unfoldable pub sub_int64 : ℤ → ℤ → ℤ
sub_int64 a b = wrap (sub_ℕ (pos_part a + neg_part b) (neg_part a + pos_part b))

-- int32(v) of a uint32, and int64(v) of a uint64.
unfoldable pub int32_of_uint32 : ℕ → ℤ
int32_of_uint32 v =
    let w = v % 4294967296 in if ltb w 2147483648 then pos w else negsuc (4294967295 - w)

-- A Unix time far from the ends of int64: between 0 and 2^62.
pub record IsTime (t : ℤ) : Type 0 where
  pub nonneg : neg_part t ≡ 0
  pub bounded : pos_part t < 4611686018427387904

-- Between times, subtraction of a time is exact.
pub sub_int64_parts :
    (a b : ℤ)
    → IsTime a
    → IsTime b
    → pos_part (sub_int64 a b) + pos_part b ≡ neg_part (sub_int64 a b) + pos_part a
unfolding sub_int64
sub_int64_parts (pos a) (pos b) ha hb = ground arith
sub_int64_parts (pos a) (negsuc b) ha hb = absurd (omega (arith, hb.nonneg))
sub_int64_parts (negsuc a) b ha hb = absurd (omega (arith, ha.nonneg))

pub eqb_ℤ→eq : (a b : ℤ) → eqb_ℤ a b ≡ true → a ≡ b
eqb_ℤ→eq a b h = ground arith

pub eqb_ℤ_refl : (a : ℤ) → eqb_ℤ a a ≡ true
eqb_ℤ_refl a = ground arith
