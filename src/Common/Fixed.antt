-- ===== src/Common/Fixed.antt =====
-- A concrete arithmetic for the witnesses: numbers from 0 up, in thousandths.
use foosball_tracker.Common.{ℕ, zero, suc, ◌+◌, ◌-◌, ◌*◌, ◌/◌, ◌^◌, ltb, leb, if◌then◌else◌}
use foosball_tracker.Common.Int.{pos, pos_part}
use foosball_tracker.Common.Floats.{Arith, Floats}

-- The largest root, bit by bit.
abbrev root_from : ℕ → ℕ → ℕ → ℕ
root_from zero r n = r
root_from (suc k) r n = root_from k (if leb ((r + 2 ^ k) * (r + 2 ^ k)) n then r + 2 ^ k else r) n

abbrev pub thousandths : Arith ℕ
thousandths = record {
  add = λ a b. a + b;
  sub = λ a b. a - b;
  mul = λ a b. a * b / 1000;
  div = λ a b. a * 1000 / b;
  lt = ltb;
  le = leb;
  of_int = λ i. pos_part i * 1000;
  lit = λ m k. m * 1000 / 10 ^ k;
}

abbrev pub fixed : Floats ℕ ℕ
fixed = record {
  single = thousandths;
  double = thousandths;
  sqrt = λ a. root_from 16 0 (a * 1000);
  to_int = λ a. pos (a / 1000);
  widen = λ a. a;
  narrow = λ a. a;
}
