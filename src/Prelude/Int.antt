-- ===== src/Prelude/Int.antt =====
-- Signed integers over the native numbers, for the `int32_t` coordinates and the `int64_t` values.
use Prim.Native.Nat.{ℕ, suc, ◌+◌, ◌-◌}
use mathlib.Core.Path.{◌≡◌, refl}
use mathlib.Core.Logic.{◌↔◌, ◌⊎◌, inl, inr}
use mathlib.Core.Bool.{Bool, true, ◌&&◌}
use native.Mathlib.Omega.{arith}
use core_cpp_archive.Prelude.Tests.{ltb, leb, nat_beq, if◌then◌else◌}
use core_cpp_archive.Prelude.Equality.{Eq}

-- `negsuc n` is -(n + 1).
pub data ℤ : Type 0 where
  pos : ℕ → ℤ
  negsuc : ℕ → ℤ

abbrev pub pos_part : ℤ → ℕ
pos_part (pos n) = n
pos_part (negsuc n) = 0

abbrev pub neg_part : ℤ → ℕ
neg_part (pos n) = 0
neg_part (negsuc n) = suc n

abbrev pub sub_ℕ : ℕ → ℕ → ℤ
sub_ℕ a b = if leb b a then pos (a - b) else negsuc (b - a - 1)

infixl 65 ◌+ℤ◌ ◌-ℤ◌
unfoldable pub ◌+ℤ◌ : ℤ → ℤ → ℤ
a +ℤ b = sub_ℕ (pos_part a + pos_part b) (neg_part a + neg_part b)

unfoldable pub ◌-ℤ◌ : ℤ → ℤ → ℤ
a -ℤ b = sub_ℕ (pos_part a + neg_part b) (neg_part a + pos_part b)

abbrev pub ltb_ℤ : ℤ → ℤ → Bool
ltb_ℤ a b = ltb (pos_part a + neg_part b) (pos_part b + neg_part a)

abbrev pub leb_ℤ : ℤ → ℤ → Bool
leb_ℤ a b = leb (pos_part a + neg_part b) (pos_part b + neg_part a)

abbrev pub int_beq : ℤ → ℤ → Bool
int_beq a b = nat_beq (pos_part a + neg_part b) (pos_part b + neg_part a)

pub eq_of_parts : (a b : ℤ) → pos_part a + neg_part b ≡ pos_part b + neg_part a → a ≡ b
eq_of_parts a b h = ground arith

pub int_beq_iff : (a b : ℤ) → (int_beq a b ≡ true) ↔ (a ≡ b)
int_beq_iff a b = (λ h. eq_of_parts a b (ground arith), λ h. ground arith)

-- The two parts of a sum and of a difference, for `omega`.
pub +ℤ_parts :
    (a b : ℤ)
    → pos_part (a +ℤ b) + neg_part a + neg_part b ≡ neg_part (a +ℤ b) + pos_part a + pos_part b
unfolding ◌+ℤ◌
+ℤ_parts a b = ground arith

pub -ℤ_parts :
    (a b : ℤ)
    → pos_part (a -ℤ b) + neg_part a + pos_part b ≡ neg_part (a -ℤ b) + pos_part a + neg_part b
unfolding ◌-ℤ◌
-ℤ_parts a b = ground arith

pub pos_of : (z : ℤ) → neg_part z ≡ 0 → z ≡ ℤ.pos (pos_part z)
pos_of z h = eq_of_parts z (ℤ.pos (pos_part z)) (omega (arith, h))

-- At most one part of an integer is not 0.
pub one_part : (a : ℤ) → (pos_part a ≡ 0) ⊎ (neg_part a ≡ 0)
one_part (ℤ.pos n) = inr refl
one_part (ℤ.negsuc n) = inl refl

instance abbrev pub int_eq : Eq ℤ
int_eq = record { equal = int_beq; equal_iff = int_beq_iff }

-- `abs` of an int, as a number.
abbrev pub abs_diff : ℤ → ℤ → ℕ
abs_diff a b =
    (pos_part a + neg_part b - (neg_part a + pos_part b))
    + (neg_part a + pos_part b - (pos_part a + neg_part b))

abbrev pub Location : Type 0
Location = ℤ × ℤ

abbrev pub loc_beq : Location → Location → Bool
loc_beq (x, y) (x', y') = int_beq x x' && int_beq y y'

pub loc_beq_iff : (a b : Location) → (loc_beq a b ≡ true) ↔ (a ≡ b)
loc_beq_iff (x, y) (x', y') = (
  λ h. ground (arith, int_beq_iff x x', int_beq_iff y y'),
  λ h. ground (arith, int_beq_iff x x', int_beq_iff y y'),
)

-- `operator==` of two tuples.
instance abbrev pub loc_eq : Eq Location
loc_eq = record { equal = loc_beq; equal_iff = loc_beq_iff }
