-- ===== src/Base/Int.antt =====
-- Integers over the native numbers, for Go's signed `int` and `time.Duration`, without a bound but for
-- `to_int64`.
use Prim.Native.Nat.{ℕ, suc, ◌+◌, ◌-◌, ◌*◌, ◌/◌, ◌%◌, ◌≤◌, ◌<◌}
use native.Mathlib.Omega.{arith}
use mathlib.Core.Path.{◌≡◌, refl}
use mathlib.Core.Bool.{Bool, true, ◌&&◌}
use fluentwork_backend.Base.Tests.{ltb, leb, if◌then◌else◌}

-- `negsuc n` is -(n + 1).
pub data ℤ : Type 0 where
  pos : ℕ → ℤ
  negsuc : ℕ → ℤ

abbrev pub pos_part : ℤ → ℕ
pos_part (pos n) = n
pos_part (negsuc n) = 0

abbrev pub neg_part : ℤ → ℕ
neg_part (pos n) = 0
neg_part (negsuc n) = suc n

-- a - b, as an integer.
abbrev pub sub_ℕ : ℕ → ℕ → ℤ
sub_ℕ a b = if leb b a then pos (a - b) else negsuc (b - a - 1)

infix 50 ◌≤ℤ◌
abbrev pub ◌≤ℤ◌ : ℤ → ℤ → Type 0
a ≤ℤ b = pos_part a + neg_part b ≤ pos_part b + neg_part a

abbrev pub ltb_ℤ : ℤ → ℤ → Bool
ltb_ℤ a b = ltb (pos_part a + neg_part b) (pos_part b + neg_part a)

abbrev pub leb_ℤ : ℤ → ℤ → Bool
leb_ℤ a b = leb (pos_part a + neg_part b) (pos_part b + neg_part a)

-- a + 1
abbrev pub succ_ℤ : ℤ → ℤ
succ_ℤ (pos n) = pos (suc n)
succ_ℤ (negsuc n) = sub_ℕ 0 n

-- a + b
unfoldable pub add_ℤ : ℤ → ℤ → ℤ
add_ℤ a b = sub_ℕ (pos_part a + pos_part b) (neg_part a + neg_part b)

abbrev pub eq_ℤ : ℤ → ℤ → Bool
eq_ℤ a b = leb_ℤ a b && leb_ℤ b a

-- a * b
abbrev pub mul_ℤ : ℤ → ℤ → ℤ
mul_ℤ a b =
    sub_ℕ (pos_part a * pos_part b + neg_part a * neg_part b)
      (pos_part a * neg_part b + neg_part a * pos_part b)

-- Go's a / n for n > 0, which rounds towards 0.
abbrev pub quot_ℤ : ℤ → ℕ → ℤ
quot_ℤ a n = sub_ℕ (pos_part a / n) (neg_part a / n)

-- An integer modulo 2^64.
abbrev pub residue_64 : ℤ → ℕ
residue_64 (pos n) = n % 0x1_0000_0000_0000_0000
residue_64 (negsuc n) = 0xffff_ffff_ffff_ffff - n % 0x1_0000_0000_0000_0000

-- The int64 with a residue modulo 2^64.
abbrev pub of_residue_64 : ℕ → ℤ
of_residue_64 n = if ltb n 0x8000_0000_0000_0000 then pos n else negsuc (0xffff_ffff_ffff_ffff - n)

-- What an int64 holds of a result: it wraps at 2^63.
unfoldable pub to_int64 : ℤ → ℤ
to_int64 a = of_residue_64 (residue_64 a)

pub to_int64_small : (n : ℕ) → n < 0x8000_0000_0000_0000 → to_int64 (pos n) ≡ pos n
unfolding to_int64
to_int64_small n h =
    let whole : n % 0x1_0000_0000_0000_0000 ≡ n = omega (arith, h) in
    let low : ltb n 0x8000_0000_0000_0000 ≡ true = ground (arith, h) in rw (whole, low) refl

to_int64_wraps : to_int64 (pos 0x8000_0000_0000_0000) ≡ negsuc 0x7fff_ffff_ffff_ffff
unfolding to_int64
to_int64_wraps = refl
