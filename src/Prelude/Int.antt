-- ===== src/Prelude/Int.antt =====
-- Signed integers over the native numbers, under the library's names, and the conversions between
-- the machine's integer types that the sources make by an assignment.
use server_load_balancer_cli.Prelude.{
  ℕ, suc, ◌+◌, ◌-◌, ◌*◌, ◌%◌, ◌^◌, ◌≤◌, ◌<◌, ◌≡◌, refl, Bool, arith, ltb, leb, ◌==◌, ◌&&◌,
  if◌then◌else◌,
}

-- `negsuc n` is -(n + 1).
pub data ℤ : Type 0 where
  pos : ℕ → ℤ
  negsuc : ℕ → ℤ

abbrev pub pos_part : ℤ → ℕ
pos_part (pos n) = n
pos_part (negsuc n) = 0

abbrev pub neg_part : ℤ → ℕ
neg_part (pos n) = 0
neg_part (negsuc n) = suc n

-- a - b, as an integer.
abbrev pub sub_ℕ : ℕ → ℕ → ℤ
sub_ℕ a b = if leb b a then pos (a - b) else negsuc (b - a - 1)

infixl 65 ◌+ℤ◌ ◌-ℤ◌
unfoldable pub ◌+ℤ◌ : ℤ → ℤ → ℤ
a +ℤ b = sub_ℕ (pos_part a + pos_part b) (neg_part a + neg_part b)

unfoldable pub ◌-ℤ◌ : ℤ → ℤ → ℤ
a -ℤ b = sub_ℕ (pos_part a + neg_part b) (neg_part a + pos_part b)

infix 50 ◌≤ℤ◌
abbrev pub ◌≤ℤ◌ : ℤ → ℤ → Type 0
a ≤ℤ b = pos_part a + neg_part b ≤ pos_part b + neg_part a

abbrev pub ltb_ℤ : ℤ → ℤ → Bool
ltb_ℤ a b = ltb (pos_part a + neg_part b) (pos_part b + neg_part a)

abbrev pub leb_ℤ : ℤ → ℤ → Bool
leb_ℤ a b = leb (pos_part a + neg_part b) (pos_part b + neg_part a)

abbrev pub eqb_ℤ : ℤ → ℤ → Bool
eqb_ℤ a b = (pos_part a == pos_part b) && (neg_part a == neg_part b)

-- A 64-bit count stored in an `int`: its low 32 bits, read with a sign.
unfoldable pub int32 : ℕ → ℤ
int32 n = let low = n % 2 ^ 32 in if ltb low (2 ^ 31) then pos low else negsuc (2 ^ 32 - low - 1)

unfoldable pub int32_ℤ : ℤ → ℤ
unfolding int32
int32_ℤ (pos n) = int32 n
int32_ℤ (negsuc n) = int32 (2 ^ 64 - 1 - n)

-- An `int` passed as a `size_t`.
unfoldable pub size_t : ℤ → ℕ
size_t (pos n) = n
size_t (negsuc n) = 2 ^ 64 - 1 - n

-- A count below 2^31 is stored as it is.
pub int32_small : (n : ℕ) → n < 2 ^ 31 → int32 n ≡ pos n
unfolding int32
int32_small n h = ground arith

-- A value that an `int` holds is kept.
pub int32_ℤ_small : (z : ℤ) → pos_part z < 2 ^ 31 → neg_part z ≤ 2 ^ 31 → int32_ℤ z ≡ z
unfolding int32_ℤ int32
int32_ℤ_small (pos n) h k = int32_small n h
int32_ℤ_small (negsuc n) h k =
    let bajo : (2 ^ 64 - 1 - n) % 2 ^ 32 ≡ 2 ^ 32 - 1 - n = omega arith in rw bajo (ground arith)

pub +ℤ_parts :
    (a b : ℤ)
    → pos_part (a +ℤ b) + neg_part a + neg_part b ≡ neg_part (a +ℤ b) + pos_part a + pos_part b
unfolding ◌+ℤ◌
+ℤ_parts a b = ground arith

pub -ℤ_parts :
    (a b : ℤ)
    → pos_part (a -ℤ b) + neg_part a + pos_part b ≡ neg_part (a -ℤ b) + pos_part a + neg_part b
unfolding ◌-ℤ◌
-ℤ_parts a b = ground arith

pub eq_of_parts : (a b : ℤ) → pos_part a + neg_part b ≡ pos_part b + neg_part a → a ≡ b
eq_of_parts a b h = ground arith

pub sub_ℕ-pos : (a b : ℕ) → b ≤ a → sub_ℕ a b ≡ pos (a - b)
sub_ℕ-pos a b h = ground arith

pub ruleset int_laws = (arith, +ℤ_parts, -ℤ_parts, eq_of_parts)
