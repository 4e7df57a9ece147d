-- ===== src/Common/Floats.antt =====
-- The arithmetic of `float` and `double`. The processor's floating point is no code of the program, so
-- it is a parameter: the operations that the tracker uses, with no law.
use foosball_tracker.Common.{ℕ, Bool}
use foosball_tracker.Common.Int.{ℤ}

-- `lit m k` is the literal m / 10 ^ k, and `lt a b` is `a < b`, so `b > a`.
pub record Arith (A : Type 0) : Type 0 where
  pub add : A → A → A
  pub sub : A → A → A
  pub mul : A → A → A
  pub div : A → A → A
  pub lt : A → A → Bool
  pub le : A → A → Bool
  pub of_int : ℤ → A
  pub lit : ℕ → ℕ → A

-- `float` is `F` and `double` is `D`. `to_int` is the cast `(int)`.
pub record Floats (F D : Type 0) : Type 0 where
  pub single : Arith F
  pub double : Arith D
  pub sqrt : F → F
  pub to_int : F → ℤ
  pub widen : F → D
  pub narrow : D → F
