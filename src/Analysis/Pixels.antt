-- ===== src/Analysis/Pixels.antt =====
-- src/tracker/analysis.cpp: the loops over a pixel buffer, `for y, for x, value = *ptr++`, which
-- analysis_process_ball_buffer and analysis_process_field_buffer share.
pub mod Rule
use foosball_tracker.Common.{ℕ, zero, suc, ◌+◌, List, [], ◌∷◌, Option, none, some, ◌>>=◌}

module _ {S : Type 0} (step : ℕ → ℕ → ℕ → S → S) where
  -- The inner loop in row `y`, with so many rounds left: the rest of the buffer, and the state. A
  -- read past the end of the buffer is a fault.
  unfoldable pub scan_row : (y rounds x : ℕ) → List ℕ → S → Option (List ℕ × S)
  scan_row y zero x ptr s = some (ptr, s)
  scan_row y (suc rounds) x [] s = none
  scan_row y (suc rounds) x (value ∷ ptr) s = scan_row y rounds (x + 1) ptr (step y x value s)

  -- The outer loop.
  unfoldable pub scan_rows : (width rounds y : ℕ) → List ℕ → S → Option S
  unfolding scan_row
  scan_rows width zero y ptr s = some s
  scan_rows width (suc rounds) y ptr s =
      scan_row y width 0 ptr s >>= λ r. scan_rows width rounds (y + 1) r.0 r.1

  -- Both loops over a buffer. `step y x value` is the body.
  unfoldable pub scan : (width height : ℕ) → List ℕ → S → Option S
  unfolding scan_rows
  scan width height pixels s = scan_rows width height 0 pixels s
