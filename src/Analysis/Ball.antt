-- ===== src/Analysis/Ball.antt =====
-- src/tracker/analysis.cpp: `analysis_process_ball_buffer`, which finds the ball in a buffer.
pub mod Maximum
pub mod Average
pub mod Safety
mod Tests
use foosball_tracker.Common.{
  ℕ, zero, ◌+◌, ◌*◌, ltb, if◌then◌else◌, Bool, true, false, ◌&&◌, ◌||◌, List, Option, some, none,
  set?, ◌>>=◌,
}
use foosball_tracker.Common.Int.{ℤ, pos, ltb_ℤ}
use foosball_tracker.Common.Floats.{Floats}
use foosball_tracker.Analysis.{Point, Field, Analysis, Message, half}
use foosball_tracker.Analysis.Pixels.{scan}
use foosball_tracker.Analysis.Update.{update}

-- `fieldxmin` to `fieldymax`
pub record Bounds : Type 0 where
  pub xmin : ℤ
  pub xmax : ℤ
  pub ymin : ℤ
  pub ymax : ℤ

-- `maxx`, `maxy`, `maxValue`
pub record Peak : Type 0 where
  pub maxx : ℕ
  pub maxy : ℕ
  pub max_value : ℕ

-- `avgx`, `avgy`, `weight`
pub record Weight : Type 0 where
  pub avgx : ℕ
  pub avgy : ℕ
  pub weight : ℕ

-- The pixel is passed over: `y < ymin || y > ymax`, then `x < xmin || x > xmax`.
unfoldable pub outside : Bounds → ℕ → ℕ → Bool
outside b y x =
    (ltb_ℤ (pos y) b.ymin || ltb_ℤ b.ymax (pos y)) || (ltb_ℤ (pos x) b.xmin || ltb_ℤ b.xmax (pos x))

-- The body of the loop for the maximum.
unfoldable pub find_peak_step : Bounds → ℕ → ℕ → ℕ → Peak → Peak
find_peak_step b y x value p =
    if outside b y x
    then p
    else if ltb p.max_value value
    then record { maxx = x; maxy = y; max_value = value }
    else p

-- `y < maxy - 5 || y > maxy + 5`, then the same for `x`; the subtraction is moved to the other side.
unfoldable pub far_from : Peak → ℕ → ℕ → Bool
far_from p y x =
    (ltb (y + 5) p.maxy || ltb (p.maxy + 5) y) || (ltb (x + 5) p.maxx || ltb (p.maxx + 5) x)

-- The body of the loop for the weighted average.
unfoldable pub weigh_step : Peak → ℕ → ℕ → ℕ → Weight → Weight
weigh_step p y x value w =
    if far_from p y x
    then w
    else record { avgx = w.avgx + x * value; avgy = w.avgy + y * value; weight = w.weight + value }

-- Both loops over the buffer.
unfoldable pub find_peak : Bounds → (width height : ℕ) → List ℕ → Option Peak
unfolding find_peak_step
find_peak b width height pixels =
    scan (find_peak_step b) width height pixels (record { maxx = 0; maxy = 0; max_value = 0 })

unfoldable pub weigh : Peak → (width height : ℕ) → List ℕ → Option Weight
unfolding weigh_step
weigh p width height pixels =
    scan (weigh_step p) width height pixels (record { avgx = 0; avgy = 0; weight = 0 })

-- `maxValue > threshold1 && weight > threshold2`
unfoldable pub ball_found : Peak → Weight → Bool
ball_found p w = ltb 100 p.max_value && ltb 270 w.weight

module _ {F D : Type 0} (o : Floats F D) where
  open o use {single, to_int}

  abbrev float : ℕ → F
  float n = single.of_int (pos n)

  -- `(int)(0.5f * (1.0f + v) * (float)size - 1.5f)` and the same with `+ 1.5f`.
  unfoldable pub low_bound : F → ℕ → ℤ
  low_bound v size = to_int (
      single.sub (single.mul (single.mul (half o) (single.add (single.lit 10 1) v)) (float size))
        (single.lit 15 1))

  unfoldable pub high_bound : F → ℕ → ℤ
  high_bound v size = to_int (
      single.add (single.mul (single.mul (half o) (single.add (single.lit 10 1) v)) (float size))
        (single.lit 15 1))

  unfoldable pub field_bounds : Field F → (width height : ℕ) → Bounds
  unfolding low_bound high_bound
  field_bounds f width height = record {
    xmin = low_bound f.xmin width;
    xmax = high_bound f.xmax width;
    ymin = low_bound f.ymin height;
    ymax = high_bound f.ymax height;
  }

  -- The average, half a pixel on, in screen coordinates.
  unfoldable pub to_screen : ℕ → ℕ → (size : ℕ) → F
  to_screen avg weight size =
      single.sub
        (single.div
          (single.mul (single.lit 20 1)
            (single.add (half o) (single.div (float avg) (float weight))))
          (float size))
        (single.lit 10 1)

  unfoldable pub screen_position : Weight → (width height : ℕ) → Point F
  unfolding to_screen
  screen_position w width height = record {
    x = to_screen w.avgx w.weight width;
    y = to_screen w.avgy w.weight height;
  }

  -- From screen to field coordinates.
  unfoldable pub field_position : Field F → Point F → Point F
  field_position f p = record {
    x = single.div (single.sub p.x f.xmin) (single.sub f.xmax f.xmin);
    y = single.div (single.sub p.y f.ymin) (single.sub f.ymax f.ymin);
  }

  -- `analysis_process_ball_buffer`, with the call of `analysis_update` that ends it.
  unfoldable pub process_ball_buffer :
      (stable_fps : F)
      → Analysis F
      → List ℕ
      → (width height : ℕ) → Option (Analysis F × List (Message F))
  unfolding find_peak weigh ball_found field_bounds screen_position field_position
  process_ball_buffer stable_fps s pixels width height =
      find_peak (field_bounds s.field width height) width height pixels >>= λ p.
      weigh p width height pixels >>= λ w.
      let found = ball_found p w in
      let screen = screen_position w width height in
      (if found then set? s.balls_screen s.ball_cur screen else some s.balls_screen)
      >>= λ balls_screen.
          update o stable_fps (record s { balls_screen = balls_screen })
            (field_position s.field screen) found
