-- ===== src/Analysis/FieldBounds.antt =====
-- src/tracker/analysis.cpp: `analysis_process_field_buffer`, which finds the field in a buffer.
pub mod Entries
pub mod Totals
pub mod Extent
pub mod Safety
mod Tests
use foosball_tracker.Common.{
  ℕ, zero, suc, ◌+◌, ◌-◌, ◌*◌, ◌/◌, ◌==◌, ltb, if◌then◌else◌, List, replicate, Option, some, none,
  get_elem?, set?, ◌>>=◌,
}
use foosball_tracker.Common.Int.{ℤ, pos, ◌+ℤ◌, ◌-ℤ◌}
use foosball_tracker.Common.Floats.{Floats}
use foosball_tracker.Analysis.{Field, Analysis}
use foosball_tracker.Analysis.Pixels.{scan}

-- `xSums`, one for each row, `ySums`, one for each column, and `totalValue`
pub record Sums : Type 0 where
  pub x_sums : List ℕ
  pub y_sums : List ℕ
  pub total_value : ℕ

-- `xs[i] += v`
unfoldable pub add_at : List ℕ → ℕ → ℕ → Option (List ℕ)
add_at xs i v = get_elem? xs i >>= λ a. set? xs i (a + v)

-- The body of the loop: noise is left out.
unfoldable pub sum_step : ℕ → ℕ → ℕ → Option Sums → Option Sums
unfolding add_at
sum_step y x value sums = sums >>= λ s.
    if ltb 20 value
    then (add_at s.x_sums y value >>= λ x_sums. add_at s.y_sums x value >>= λ y_sums.
        some (record { x_sums = x_sums; y_sums = y_sums; total_value = s.total_value + value }))
    else some s

unfoldable pub sum_pixels : (width height : ℕ) → List ℕ → Option Sums
unfolding sum_step
sum_pixels width height pixels =
    scan sum_step width height pixels
      (some (record { x_sums = replicate height 0; y_sums = replicate width 0; total_value = 0 }))
    >>= λ sums. sums

-- `for (x = 0; x < size; ++x) if (sums[x] > bound) { min = x; break; }` from `x`, with so many rounds
-- left. It is 0 if there is none.
unfoldable pub first_above : ℕ → List ℕ → (rounds x : ℕ) → Option ℕ
first_above bound sums zero x = some 0
first_above bound sums (suc rounds) x =
    let rest = first_above bound sums rounds (x + 1) in
    get_elem? sums x >>= λ v. if ltb bound v then some x else rest

-- `for (; x > 0; --x) if (sums[x] > bound) { max = x; break; }`
unfoldable pub last_above : ℕ → List ℕ → (x : ℕ) → Option ℕ
last_above bound sums zero = some 0
last_above bound sums (suc x) =
    let rest = last_above bound sums x in
    get_elem? sums (suc x) >>= λ v. if ltb bound v then some (suc x) else rest

-- Division of ints from 0 up. A division by zero is a fault.
abbrev pub div? : ℕ → ℕ → Option ℕ
div? a b = if b == 0 then none else some (a / b)

-- The ends of one axis.
pub record Ends : Type 0 where
  pub first : ℕ
  pub last : ℕ

unfoldable pub extent : (total size : ℕ) → List ℕ → Option Ends
unfolding first_above last_above
extent total size sums = div? total (2 * size) >>= λ bound.
    first_above bound sums size 0 >>= λ first.
    last_above bound sums (size - 1) >>= λ last. some (record { first = first; last = last })

module _ {F D : Type 0} (o : Floats F D) where
  open o use {single, double, widen, narrow}

  -- `(2.0f * i) / (float)size - 1.0f`
  abbrev to_screen : ℤ → ℕ → F
  to_screen i size =
      single.sub
        (single.div (single.mul (single.lit 20 1) (single.of_int i)) (single.of_int (pos size)))
        (single.lit 10 1)

  abbrev minus_one : F
  minus_one = single.sub (single.lit 0 1) (single.lit 10 1)

  -- One axis of `newField`: the ends are moved out to the corners of their pixels, mapped to the
  -- screen, spread by the factor 1.143 and cut off at the border.
  unfoldable pub to_field : Ends → (size : ℕ) → F × F
  unfolding ◌+ℤ◌ ◌-ℤ◌
  to_field e size =
      let lo = to_screen (pos e.first -ℤ pos 1) size in
      let hi = to_screen (pos e.last +ℤ pos 1 +ℤ pos 1) size in
      let fplus = single.mul (single.lit 5 1) (single.lit 2143 3) in
      let fmin = single.mul (single.lit 5 1) (single.sub (single.lit 0 1) (single.lit 143 3)) in
      let a = single.add (single.mul fmin hi) (single.mul fplus lo) in
      let b = single.add (single.mul fplus hi) (single.mul fmin lo) in
      (
        if single.lt a minus_one then minus_one else a,
        if single.lt (single.lit 10 1) b then single.lit 10 1 else b,
      )

  -- `0.80f * old + 0.20 * new`, whose second product and sum are of doubles.
  unfoldable pub smooth : F → F → F
  smooth old new = narrow (
      double.add (widen (single.mul (single.lit 80 2) old))
        (double.mul (double.lit 20 2) (widen new)))

  -- `analysis_process_field_buffer`
  unfoldable pub process_field_buffer :
      Analysis F → List ℕ → (width height : ℕ) → Option (Analysis F)
  unfolding sum_pixels extent to_field smooth
  process_field_buffer s pixels width height = sum_pixels width height pixels >>= λ sums.
      extent sums.total_value width sums.y_sums >>= λ xs.
      extent sums.total_value height sums.x_sums >>= λ ys.
      let x = to_field xs width in
      let y = to_field ys height in
      some (record s {
        field = record {
          xmin = smooth s.field.xmin x.0;
          xmax = smooth s.field.xmax x.1;
          ymin = smooth s.field.ymin y.0;
          ymax = smooth s.field.ymax y.1;
        };
      })
