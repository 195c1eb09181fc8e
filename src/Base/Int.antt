-- ===== src/Base/Int.antt =====
-- Signed integers over the native numbers: the `int` and `agerr_t` values of the source.
use Prim.Native.Nat.{ℕ, zero, suc, ◌+◌, ◌-◌, ◌≤◌, min, max}
use mathlib.Core.Bool.{Bool, true, false}
use mathlib.Core.Path.{◌≡◌, ap}
use ag_fs.Base.Tests.{leb, ◌==◌, ==_iff, if◌then◌else◌}

-- `negsuc n` is -(n + 1).
pub data ℤ : Type 0 where
  pos : ℕ → ℤ
  negsuc : ℕ → ℤ

abbrev pub pos_part : ℤ → ℕ
pos_part (pos n) = n
pos_part (negsuc n) = 0

abbrev pub neg_part : ℤ → ℕ
neg_part (pos n) = 0
neg_part (negsuc n) = suc n

-- a - b, as an integer.
abbrev pub sub_ℕ : ℕ → ℕ → ℤ
sub_ℕ a b = if leb b a then pos (a - b) else negsuc (b - a - 1)

infixl 65 ◌+ℤ◌
abbrev pub ◌+ℤ◌ : ℤ → ℤ → ℤ
pos a +ℤ pos b = pos (a + b)
pos a +ℤ negsuc b = sub_ℕ a (suc b)
negsuc a +ℤ pos b = sub_ℕ b (suc a)
negsuc a +ℤ negsuc b = negsuc (suc (a + b))

infix 50 ◌≤ℤ◌
abbrev pub ◌≤ℤ◌ : ℤ → ℤ → Type 0
a ≤ℤ b = pos_part a + neg_part b ≤ pos_part b + neg_part a

-- The test `x < 0`.
abbrev pub is_neg : ℤ → Bool
is_neg (pos n) = false
is_neg (negsuc n) = true

-- `-n`, as in `-errno`.
abbrev pub neg : ℕ → ℤ
neg zero = pos 0
neg (suc n) = negsuc n

-- std::min
abbrev pub min_ℤ : ℤ → ℤ → ℤ
min_ℤ (pos a) (pos b) = pos (min a b)
min_ℤ (pos a) (negsuc b) = negsuc b
min_ℤ (negsuc a) (pos b) = negsuc a
min_ℤ (negsuc a) (negsuc b) = negsuc (max a b)

-- The test `x > 0`.
abbrev pub is_pos : ℤ → Bool
is_pos (pos zero) = false
is_pos (pos (suc n)) = true
is_pos (negsuc n) = false

infix 50 ◌==ℤ◌
abbrev pub ◌==ℤ◌ : ℤ → ℤ → Bool
pos a ==ℤ pos b = a == b
pos a ==ℤ negsuc b = false
negsuc a ==ℤ pos b = false
negsuc a ==ℤ negsuc b = a == b

pub ==ℤ_sound : (a b : ℤ) → (a ==ℤ b) ≡ true → a ≡ b
==ℤ_sound (pos a) (pos b) e = ap pos ((==_iff a b).0 e)
==ℤ_sound (negsuc a) (negsuc b) e = ap negsuc ((==_iff a b).0 e)
==ℤ_sound (pos a) (negsuc b) e = cc
==ℤ_sound (negsuc a) (pos b) e = cc
