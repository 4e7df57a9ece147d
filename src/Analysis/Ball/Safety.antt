-- ===== src/Analysis/Ball/Safety.antt =====
-- src/tracker/analysis.cpp: `analysis_process_ball_buffer` as a whole.
use foosball_tracker.Common.{
  ℕ, ◌+◌, ◌*◌, ◌<◌, ◌≤◌, ◌≡◌, sym, subst, ap, ◌∙◌, arith, Bool, true, false, List, some, some-inj,
  length, set, set?, length-set, if◌then◌else◌, Every, Returns, value, Returns-bind, Returns-map,
  Returns-if, Returns-set?, Returns-some,
}
use foosball_tracker.Common.Int.{pos_part}
use foosball_tracker.Common.Floats.{Floats}
use foosball_tracker.Analysis.{Point, Analysis, Message}
use foosball_tracker.Analysis.Update.{frames}
use foosball_tracker.Analysis.Update.Layout.{BarInRange, IsValid}
use foosball_tracker.Analysis.Update.Safety.{update-IsValid}
use foosball_tracker.Analysis.Ball.{
  Bounds, Peak, Weight, outside, find_peak, weigh, ball_found, field_bounds, screen_position,
  field_position, process_ball_buffer,
}
use foosball_tracker.Analysis.Ball.Maximum.{pixel_at, IsPeak, find_peak-IsPeak}
use foosball_tracker.Analysis.Ball.Average.{IsAverage, weigh-IsAverage}

ball_found_tests :
    (p : Peak) (w : Weight) → ball_found p w ≡ true → (100 < p.max_value) × (270 < w.weight)
unfolding ball_found
ball_found_tests p w h = (ground arith, ground arith)

in_buffer : (y x width height : ℕ) → x < width → y < height → y * width + x < height * width
in_buffer y x width height hx hy =
    let rows : (y + 1) * width ≤ height * width = grind arith in grind arith

found_peak :
    (b : Bounds) (p : Peak) (width height : ℕ) (pixels : List ℕ)
    → height * width ≤ length pixels
    → find_peak b width height pixels ≡ some p
    → IsPeak b width height pixels (height * width) p
found_peak b p width height pixels h e =
    let (p1, e1, peak) = find_peak-IsPeak b width height pixels h in
    subst (IsPeak b width height pixels (height * width)) (some-inj (sym e1 ∙ e)) peak

-- In a buffer of bytes of at least `height * width` pixels, where the two loops end in a found ball: the
-- pixel that the first loop has chosen lies in the buffer and in the field, has the value found, which is
-- above 100, and no pixel of the field is brighter; the weight is above 270, so the average is no division
-- by zero; and that pixel lies within 5 rows and columns of the average.
pub ball_found_average :
    (b : Bounds) (p : Peak) (w : Weight) (width height : ℕ) (pixels : List ℕ)
    (bytes : Every (λ v. v < 256) pixels)
    → height * width ≤ length pixels
    → find_peak b width height pixels ≡ some p
    → weigh p width height pixels ≡ some w
    → ball_found p w ≡ true
    → ((p.maxx < width) × (p.maxy < height) × (outside b p.maxy p.maxx ≡ false))
      × (pixel_at width pixels p.maxy p.maxx ≡ some p.max_value)
      × ((y x v : ℕ)
          → x < width
          → y < height
          → pixel_at width pixels y x ≡ some v
          → outside b y x ≡ false
          → v ≤ p.max_value)
      × (100 < p.max_value)
      × (270 < w.weight)
      × (w.avgx ≤ (p.maxx + 5) * w.weight)
      × (p.maxx * w.weight ≤ w.avgx + 5 * w.weight)
      × (w.avgy ≤ (p.maxy + 5) * w.weight)
      × (p.maxy * w.weight ≤ w.avgy + 5 * w.weight)
unfolding ball_found
ball_found_average b p w width height pixels bytes h ep e found =
    let (w1, e1, a) = weigh-IsAverage p width height pixels bytes h in
    let same : w1 ≡ w = some-inj (sym e1 ∙ e) in
    let near : IsAverage p width height pixels bytes (height * width) w =
      subst (IsAverage p width height pixels bytes (height * width)) same a in
    let (bright, heavy) = ball_found_tests p w found in
    let peak = found_peak b p width height pixels h ep in
    let (column, row, before, inner, at) = peak.place (omega arith) in
    (
      (column, row, inner),
      at,
      (λ y x v hx hy. peak.top y x v hx (in_buffer y x width height hx hy)),
      bright,
      heavy,
      near.near_x.0,
      near.near_x.1,
      near.near_y.0,
      near.near_y.1,
    )

module _ {F D : Type 0} (o : Floats F D) (fps : F) where
  -- The ball that the buffer gives is at a bar, if there is one.
  abbrev pub BallInRange : Analysis F → List ℕ → (width height : ℕ) → Type 0
  BallInRange s pixels width height =
      (p : Peak) (w : Weight)
      → find_peak (field_bounds o s.field width height) width height pixels ≡ some p
      → weigh p width height pixels ≡ some w
      → ball_found p w ≡ true
      → BarInRange o (field_position o s.field (screen_position o w width height))

  relaid :
      (s : Analysis F) (screen : List (Point F))
      → length screen ≡ 256
      → IsValid o s
      → IsValid o (record s { balls_screen = screen })
  relaid s screen len v = record {
    screen_len = len;
    balls_len = v.balls_len;
    frames_len = v.frames_len;
    speeds_len = v.speeds_len;
    cur_in = v.cur_in;
    speed_in = v.speed_in;
    frames_past = v.frames_past;
    bars_in = v.bars_in;
  }

  balls_screen-Returns :
      (s : Analysis F) (found : Bool) (screen : Point F)
      → IsValid o s
      → Returns
          (λ xs. length xs ≡ 256)
          (if found then set? s.balls_screen s.ball_cur screen else some s.balls_screen)
  balls_screen-Returns s found screen v =
      Returns-if found (set? s.balls_screen s.ball_cur screen) (some s.balls_screen)
        (λ _.
          Returns-map (λ ys. ys ≡ set s.balls_screen s.ball_cur screen) (λ ys. length ys ≡ 256)
            (λ ys e. ap length e ∙ length-set s.balls_screen s.ball_cur screen ∙ v.screen_len)
            (Returns-set? s.balls_screen s.ball_cur screen (rw v.screen_len v.cur_in)))
        (λ _. value s.balls_screen v.screen_len)

  -- `analysis_process_ball_buffer` returns and keeps the state valid, for every buffer of bytes of the
  -- stated size, if five seconds are at most 300 frames and a ball that it finds is at a bar from 0
  -- to 8: it reads the buffer and writes the arrays only inside their bounds.
  pub process_ball_buffer-IsValid :
      (s : Analysis F) (width height : ℕ) (pixels : List ℕ)
      → height * width ≤ length pixels
      → Every (λ v. v < 256) pixels
      → pos_part (frames o fps 50 1) ≤ 300
      → BallInRange s pixels width height
      → IsValid o s
      → (r : Analysis F × List (Message F)) × (process_ball_buffer o fps s pixels width height
          ≡ some r)
        × IsValid o r.0
  unfolding process_ball_buffer
  process_ball_buffer-IsValid s width height pixels hl bytes few bar v =
      let (p, ep, hp) =
        find_peak-IsPeak (field_bounds o s.field width height) width height pixels hl in
      let (w, ew, hw) = weigh-IsAverage p width height pixels bytes hl in
      let bar_of : (ball_found p w ≡ true)
          → BarInRange o (field_position o s.field (screen_position o w width height)) =
        bar p w ep ew in
      rw (ep, ew)
        (Returns-some (
          Returns-bind
            (balls_screen-Returns s (ball_found p w) (screen_position o w width height) v)
            λ screen len.
              let (r, e, h) =
                update-IsValid o fps (record s { balls_screen = screen })
                  (field_position o s.field (screen_position o w width height)) (ball_found p w) few
                  bar_of (relaid s screen len v) in
              rw e (value r h)))
