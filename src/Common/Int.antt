-- ===== src/Common/Int.antt =====
-- The C type `int`, without its bounds: signed integers over the native numbers, and reads of an
-- array at a signed index.
use foosball_tracker.Common.{
  ℕ, suc, ◌+◌, ◌-◌, ◌≤◌, ◌<◌, ◌≡◌, ◌⊎◌, Option, some, none, List, get_elem?, length, Bool, false,
  ◌==◌, arith, ltb, leb, if◌then◌else◌,
}

-- `negsuc n` is -(n + 1).
pub data ℤ : Type 0 where
  pos : ℕ → ℤ
  negsuc : ℕ → ℤ

abbrev pub pos_part : ℤ → ℕ
pos_part (pos n) = n
pos_part (negsuc n) = 0

abbrev pub neg_part : ℤ → ℕ
neg_part (pos n) = 0
neg_part (negsuc n) = suc n

-- a - b, as an integer.
abbrev pub sub_ℕ : ℕ → ℕ → ℤ
sub_ℕ a b = if leb b a then pos (a - b) else negsuc (b - a - 1)

infixl 65 ◌+ℤ◌ ◌-ℤ◌
infix 50 ◌≤ℤ◌
unfoldable pub ◌+ℤ◌ : ℤ → ℤ → ℤ
a +ℤ b = sub_ℕ (pos_part a + pos_part b) (neg_part a + neg_part b)

unfoldable pub ◌-ℤ◌ : ℤ → ℤ → ℤ
a -ℤ b = sub_ℕ (pos_part a + neg_part b) (neg_part a + pos_part b)

abbrev pub ◌≤ℤ◌ : ℤ → ℤ → Type 0
a ≤ℤ b = pos_part a + neg_part b ≤ pos_part b + neg_part a

abbrev pub ltb_ℤ : ℤ → ℤ → Bool
ltb_ℤ a b = ltb (pos_part a + neg_part b) (pos_part b + neg_part a)

abbrev pub eqb_ℤ : ℤ → ℤ → Bool
eqb_ℤ (pos a) (pos b) = a == b
eqb_ℤ (negsuc a) (negsuc b) = a == b
eqb_ℤ _ _ = false

pub +ℤ_parts :
    (a b : ℤ)
    → pos_part (a +ℤ b) + neg_part a + neg_part b ≡ neg_part (a +ℤ b) + pos_part a + pos_part b
unfolding ◌+ℤ◌
+ℤ_parts a b = ground arith

pub -ℤ_parts :
    (a b : ℤ)
    → pos_part (a -ℤ b) + neg_part a + pos_part b ≡ neg_part (a -ℤ b) + pos_part a + neg_part b
unfolding ◌-ℤ◌
-ℤ_parts a b = ground arith

pub eq_of_parts : (a b : ℤ) → pos_part a + neg_part b ≡ pos_part b + neg_part a → a ≡ b
eq_of_parts a b h = ground arith

pub add_one_pos : (i : ℕ) → pos i +ℤ pos 1 ≡ pos (i + 1)
unfolding ◌+ℤ◌
add_one_pos i = ground arith

pub add_one_negsuc : (i : ℕ) → negsuc (suc i) +ℤ pos 1 ≡ negsuc i
unfolding ◌+ℤ◌
add_one_negsuc i = ground arith

pub add_one_minus_one : negsuc 0 +ℤ pos 1 ≡ pos 0
unfolding ◌+ℤ◌
add_one_minus_one = ground arith

pub add-negsuc-pos : (i n : ℕ) → i < n → negsuc i +ℤ pos n ≡ pos (n - suc i)
unfolding ◌+ℤ◌
add-negsuc-pos i n h = ground arith

-- Of the two parts of a difference of natural numbers one is 0.
pub -ℤ_pos_parts :
    (a b : ℕ) → (pos_part (pos a -ℤ pos b) ≡ a - b) × (neg_part (pos a -ℤ pos b) ≡ b - a)
unfolding ◌-ℤ◌
-ℤ_pos_parts a b = ground arith

pub ruleset int_laws = (arith, +ℤ_parts, -ℤ_parts, eq_of_parts)

-- A read at a signed index: `none` out of bounds on either side.
abbrev pub get_at? {ℓ} : {A : Type ℓ} → List A → ℤ → Option A
get_at? xs (pos i) = get_elem? xs i
get_at? xs (negsuc i) = none
