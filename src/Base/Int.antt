-- ===== src/Base/Int.antt =====
-- Signed integers, for the `int32_t` of the sources: money, prices and identifiers.
use Prim.Native.Nat.{ℕ, suc, ◌+◌, ◌-◌, ◌%◌, ◌^◌, ◌≤◌, ◌<◌}
use mathlib.Core.Path.{◌≡◌}
use mathlib.Core.Logic.{◌↔◌}
use mathlib.Core.Bool.{Bool, true, false}
use native.Mathlib.Omega.{arith}
use under_flow.Base.Tests.{ltb, leb, ◌==◌, if◌then◌else◌}

-- `negsuc n` is -(n + 1).
pub data ℤ : Type 0 where
  pos : ℕ → ℤ
  negsuc : ℕ → ℤ

abbrev pub pos_part : ℤ → ℕ
pos_part (pos n) = n
pos_part (negsuc n) = 0

abbrev neg_part : ℤ → ℕ
neg_part (pos n) = 0
neg_part (negsuc n) = suc n

-- a - b, as an integer.
abbrev sub_ℕ : ℕ → ℕ → ℤ
sub_ℕ a b = if leb b a then pos (a - b) else negsuc (b - a - 1)

infixl 65 ◌+ℤ◌ ◌-ℤ◌
infix 50 ◌≤ℤ◌ ◌<ℤ◌
unfoldable pub ◌+ℤ◌ : ℤ → ℤ → ℤ
a +ℤ b = sub_ℕ (pos_part a + pos_part b) (neg_part a + neg_part b)

unfoldable pub ◌-ℤ◌ : ℤ → ℤ → ℤ
a -ℤ b = sub_ℕ (pos_part a + neg_part b) (neg_part a + pos_part b)

abbrev pub ◌≤ℤ◌ : ℤ → ℤ → Type 0
a ≤ℤ b = pos_part a + neg_part b ≤ pos_part b + neg_part a

abbrev ◌<ℤ◌ : ℤ → ℤ → Type 0
a <ℤ b = pos_part a + neg_part b < pos_part b + neg_part a

abbrev pub lt_ℤ : ℤ → ℤ → Bool
lt_ℤ a b = ltb (pos_part a + neg_part b) (pos_part b + neg_part a)

abbrev pub le_ℤ : ℤ → ℤ → Bool
le_ℤ a b = leb (pos_part a + neg_part b) (pos_part b + neg_part a)

abbrev pub eq_ℤ : ℤ → ℤ → Bool
eq_ℤ a b = (pos_part a + neg_part b) == (pos_part b + neg_part a)

pub eq_ℤ_iff : (a b : ℤ) → (eq_ℤ a b ≡ true) ↔ (a ≡ b)
eq_ℤ_iff a b = ground arith

-- What an `int32_t` can hold.
abbrev pub InInt32 : ℤ → Type 0
InInt32 a = (pos_part a < 2 ^ 31) × (neg_part a ≤ 2 ^ 31)

-- The value that a signed 32-bit result keeps of an integer: the residue in [-2^31, 2^31).
abbrev of_word : ℕ → ℤ
of_word w = if ltb w (2 ^ 31) then pos w else negsuc (2 ^ 32 - w - 1)

abbrev wrap32 : ℤ → ℤ
wrap32 (pos n) = of_word (n % 2 ^ 32)
wrap32 (negsuc n) = of_word (2 ^ 32 - 1 - n % 2 ^ 32)

unfoldable pub add32 : ℤ → ℤ → ℤ
unfolding ◌+ℤ◌
add32 a b = wrap32 (a +ℤ b)

unfoldable pub sub32 : ℤ → ℤ → ℤ
unfolding ◌-ℤ◌
sub32 a b = wrap32 (a -ℤ b)

pub wrap32_id : (a : ℤ) → InInt32 a → wrap32 a ≡ a
wrap32_id (pos n) h = ground arith
wrap32_id (negsuc n) h = ground arith

+ℤ_parts :
    (a b : ℤ)
    → pos_part (a +ℤ b) + neg_part a + neg_part b ≡ neg_part (a +ℤ b) + pos_part a + pos_part b
unfolding ◌+ℤ◌
+ℤ_parts a b = ground arith

-ℤ_parts :
    (a b : ℤ)
    → pos_part (a -ℤ b) + neg_part a + pos_part b ≡ neg_part (a -ℤ b) + pos_part a + neg_part b
unfolding ◌-ℤ◌
-ℤ_parts a b = ground arith

eq_of_parts : (a b : ℤ) → pos_part a + neg_part b ≡ pos_part b + neg_part a → a ≡ b
eq_of_parts a b h = ground arith

in_range : (a b : ℤ) → pos 0 ≤ℤ a → pos 0 ≤ℤ b → InInt32 a → InInt32 b → InInt32 (a -ℤ b)
unfolding ◌-ℤ◌
in_range a b ha hb ra rb = ground arith

-- A difference of two amounts that are not negative does not wrap.
pub sub32-eq : (a b : ℤ) → pos 0 ≤ℤ a → pos 0 ≤ℤ b → InInt32 a → InInt32 b → sub32 a b ≡ a -ℤ b
unfolding sub32
sub32-eq a b ha hb ra rb = wrap32_id (a -ℤ b) (in_range a b ha hb ra rb)

-- Two amounts, the first not below the second, have a difference that is not negative.
pub sub-nonneg : (a b : ℤ) → lt_ℤ a b ≡ false → pos 0 ≤ℤ a -ℤ b
unfolding ◌-ℤ◌
sub-nonneg a b h = ground arith

pub nonneg_of_ge : (a b : ℤ) → pos 0 ≤ℤ b → lt_ℤ a b ≡ false → pos 0 ≤ℤ a
nonneg_of_ge a b p h = ground arith
