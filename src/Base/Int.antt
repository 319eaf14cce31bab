-- ===== src/Base/Int.antt =====
-- Signed integers over the native numbers, under the library's names, and `i64` on them.
use Prim.Native.Nat.{ℕ, suc, ◌+◌, ◌-◌, ◌^◌, ◌≤◌, ◌<◌}
use mathlib.Core.Path.{◌≡◌}
use mathlib.Core.Bool.{Bool}
use mathlib.Core.Option.{Option, none, some}
use native.Mathlib.Omega.{arith}
use mathlib.Core.Logic.{inl, inr}
use sol_mesh.Base.Tests.{Bool-cases, leb, ltb, if◌then◌else◌}

-- `negsuc n` is -(n + 1).
pub data ℤ : Type 0 where
  pos : ℕ → ℤ
  negsuc : ℕ → ℤ

abbrev pub pos_part : ℤ → ℕ
pos_part (pos n) = n
pos_part (negsuc n) = 0

abbrev pub neg_part : ℤ → ℕ
neg_part (pos n) = 0
neg_part (negsuc n) = suc n

abbrev pub sub_ℕ : ℕ → ℕ → ℤ
sub_ℕ a b = if leb b a then pos (a - b) else negsuc (b - a - 1)

infixl 65 ◌+ℤ◌
infix 50 ◌≤ℤ◌ ◌<ℤ◌
unfoldable pub ◌+ℤ◌ : ℤ → ℤ → ℤ
a +ℤ b = sub_ℕ (pos_part a + pos_part b) (neg_part a + neg_part b)

abbrev pub ◌≤ℤ◌ : ℤ → ℤ → Type 0
a ≤ℤ b = pos_part a + neg_part b ≤ pos_part b + neg_part a

abbrev pub ◌<ℤ◌ : ℤ → ℤ → Type 0
a <ℤ b = pos_part a + neg_part b < pos_part b + neg_part a

abbrev pub ltb_ℤ : ℤ → ℤ → Bool
ltb_ℤ a b = ltb (pos_part a + neg_part b) (pos_part b + neg_part a)

abbrev pub leb_ℤ : ℤ → ℤ → Bool
leb_ℤ a b = leb (pos_part a + neg_part b) (pos_part b + neg_part a)

abbrev pub IsI64 : ℤ → Type 0
IsI64 (pos n) = n < 2 ^ 63
IsI64 (negsuc n) = n < 2 ^ 63

abbrev pub is_i64 : ℤ → Bool
is_i64 (pos n) = ltb n (2 ^ 63)
is_i64 (negsuc n) = ltb n (2 ^ 63)

-- `i64::checked_add`
unfoldable pub checked_add_i64 : ℤ → ℤ → Option ℤ
unfolding ◌+ℤ◌
checked_add_i64 a b = if is_i64 (a +ℤ b) then some (a +ℤ b) else none

pub checked_add_i64-eq : (a b : ℤ) {c : ℤ} → checked_add_i64 a b ≡ some c → c ≡ a +ℤ b
unfolding checked_add_i64
checked_add_i64-eq a b h = elim (Bool-cases (is_i64 (a +ℤ b))) [
  | inl e ↦ cc (rw e at h)
  | inr e ↦ absurd (cc (rw e at h))
]

-- The two's complement bit pattern of an `i64`, and the number that a pattern stands for.
abbrev pub to_word64 : ℤ → ℕ
to_word64 (pos n) = n
to_word64 (negsuc n) = 2 ^ 64 - 1 - n

abbrev pub of_word64 : ℕ → ℤ
of_word64 w = if ltb w (2 ^ 63) then pos w else negsuc (2 ^ 64 - 1 - w)

pub to_word64-lt : (z : ℤ) → IsI64 z → to_word64 z < 2 ^ 64
to_word64-lt (pos n) h = omega arith
to_word64-lt (negsuc n) h = omega arith

pub of_word64-to_word64 : (z : ℤ) → IsI64 z → of_word64 (to_word64 z) ≡ z
of_word64-to_word64 (pos n) h = ground arith
of_word64-to_word64 (negsuc n) h = ground arith
