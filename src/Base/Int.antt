-- ===== src/Base/Int.antt =====
-- Signed integers, and the machine integers int32_t and uint32_t with their wrap-around.
-- An int32_t is the integer that it stands for, a uint32_t the number that it stands for.
use hftalgorithms.Base.{
  ℕ, suc, ◌+◌, ◌-◌, ◌%◌, ◌≤◌, ◌<◌, ◌≡◌, Bool, arith, ltb, leb, ◌==◌, if◌then◌else◌,
}

-- `negsuc n` is -(n + 1).
pub data ℤ : Type 0 where
  pos : ℕ → ℤ
  negsuc : ℕ → ℤ

abbrev pub pos_part : ℤ → ℕ
pos_part (pos n) = n
pos_part (negsuc n) = 0

abbrev pub neg_part : ℤ → ℕ
neg_part (pos n) = 0
neg_part (negsuc n) = suc n

abbrev pub sub_ℕ : ℕ → ℕ → ℤ
sub_ℕ a b = if leb b a then pos (a - b) else negsuc (b - a - 1)

infixl 65 ◌+ℤ◌ ◌-ℤ◌
infix 50 ◌≤ℤ◌
unfoldable pub ◌+ℤ◌ : ℤ → ℤ → ℤ
a +ℤ b = sub_ℕ (pos_part a + pos_part b) (neg_part a + neg_part b)

unfoldable pub ◌-ℤ◌ : ℤ → ℤ → ℤ
a -ℤ b = sub_ℕ (pos_part a + neg_part b) (neg_part a + pos_part b)

abbrev pub ◌≤ℤ◌ : ℤ → ℤ → Type 0
a ≤ℤ b = pos_part a + neg_part b ≤ pos_part b + neg_part a

abbrev pub ltb_ℤ : ℤ → ℤ → Bool
ltb_ℤ a b = ltb (pos_part a + neg_part b) (pos_part b + neg_part a)

abbrev pub leb_ℤ : ℤ → ℤ → Bool
leb_ℤ a b = leb (pos_part a + neg_part b) (pos_part b + neg_part a)

abbrev pub eqb_ℤ : ℤ → ℤ → Bool
eqb_ℤ a b = pos_part a + neg_part b == pos_part b + neg_part a

pub +ℤ_parts :
    (a b : ℤ)
    → pos_part (a +ℤ b) + neg_part a + neg_part b ≡ neg_part (a +ℤ b) + pos_part a + pos_part b
unfolding ◌+ℤ◌
+ℤ_parts a b = ground arith

pub -ℤ_parts :
    (a b : ℤ)
    → pos_part (a -ℤ b) + neg_part a + pos_part b ≡ neg_part (a -ℤ b) + pos_part a + neg_part b
unfolding ◌-ℤ◌
-ℤ_parts a b = ground arith

pub eq_of_parts : (a b : ℤ) → pos_part a + neg_part b ≡ pos_part b + neg_part a → a ≡ b
eq_of_parts a b h = ground arith

pub ruleset int_laws = (arith, +ℤ_parts, -ℤ_parts, eq_of_parts)

-- 2 ^ 32, the modulus of both 32-bit types.
abbrev pub u32_mod : ℕ
u32_mod = 0x1_0000_0000

unfoldable pub add_u32 : ℕ → ℕ → ℕ
add_u32 a b = (a + b) % u32_mod

unfoldable pub sub_u32 : ℕ → ℕ → ℕ
sub_u32 a b = (a + (u32_mod - b % u32_mod)) % u32_mod

-- static_cast<uint32_t> of an int32_t: the value modulo 2 ^ 32.
unfoldable pub u32_of : ℤ → ℕ
u32_of (pos n) = n % u32_mod
u32_of (negsuc n) = 0xffff_ffff - n % u32_mod

-- static_cast<int32_t> of a uint32_t, in two's complement.
unfoldable pub i32_of : ℕ → ℤ
i32_of w = if ltb w 0x8000_0000 then pos w else negsuc (0xffff_ffff - w)

-- The int32_t that an integer wraps to.
unfoldable pub wrap32 : ℤ → ℤ
unfolding u32_of i32_of
wrap32 z = i32_of (u32_of z)

abbrev pub neg_ℤ : ℤ → ℤ
neg_ℤ z = sub_ℕ (neg_part z) (pos_part z)

-- `std::abs` and unary minus on int32_t, which wrap at the least value as the hardware does.
unfoldable pub abs_i32 : ℤ → ℤ
unfolding wrap32
abs_i32 (pos n) = pos n
abs_i32 (negsuc n) = wrap32 (pos (suc n))

unfoldable pub neg_i32 : ℤ → ℤ
unfolding wrap32
neg_i32 z = wrap32 (neg_ℤ z)

abbrev pub max_ℤ : ℤ → ℤ → ℤ
max_ℤ a b = if ltb_ℤ a b then b else a

abbrev pub min_ℤ : ℤ → ℤ → ℤ
min_ℤ a b = if ltb_ℤ b a then b else a

-- The values of int32_t, and those whose negation is one too.
abbrev pub IsI32 : ℤ → Type 0
IsI32 z = (pos_part z < 0x8000_0000) × (neg_part z ≤ 0x8000_0000)

abbrev pub IsSymmetric : ℤ → Type 0
IsSymmetric z = (pos_part z < 0x8000_0000) × (neg_part z < 0x8000_0000)

pub wrap32-eq_of_IsI32 : (z : ℤ) → IsI32 z → wrap32 z ≡ z
unfolding wrap32
wrap32-eq_of_IsI32 (pos n) h = ground arith
wrap32-eq_of_IsI32 (negsuc n) h = ground arith

pub wrap32-IsI32 : (z : ℤ) → IsI32 (wrap32 z)
unfolding wrap32
wrap32-IsI32 (pos n) = ground arith
wrap32-IsI32 (negsuc n) = ground arith
