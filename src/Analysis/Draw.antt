-- ===== src/Analysis/Draw.antt =====
-- src/tracker/analysis.cpp: `analysis_draw`. A call of draw_square or draw_line_strip is a shape; an option is
-- none where points outside the history are read.
pub mod History
use foosball_tracker.Common.{
  ℕ, zero, suc, ◌+◌, ◌-◌, ◌*◌, ltb, leb, if◌then◌else◌, Bool, true, false, List, [], ◌∷◌, ◌++◌,
  Option, none, some, length, take, drop, get_elem?, ◌>>=◌,
}
use foosball_tracker.Common.Int.{ℤ, pos}
use foosball_tracker.Common.Floats.{Arith, Floats}
use foosball_tracker.Analysis.{
  Point, Field, Analysis, history_count, goal_width, goal_height, half, one,
}

-- `draw_square` and `draw_line_strip`, with the colour
pub data Shape (F : Type 0) : Type 0 where
  square : (xmin xmax ymin ymax : F) → (colour : ℕ) → Shape F
  line_strip : List (Point F) → (colour : ℕ) → Shape F

-- `n` points from the place `at` on
unfoldable pub points? : {F : Type 0} → List (Point F) → (at n : ℕ) → Option (List (Point F))
points? points at n = if leb (at + n) (length points) then some (take n (drop at points)) else none

-- The line of the ball's history, of 60 points: `ballCur - 60 >= 0`
unfoldable pub history_lines :
    {F : Type 0} → List (Point F) → (ball_cur : ℕ) → Option (List (Shape F))
unfolding points?
history_lines points ball_cur =
    if leb 60 ball_cur
    then (points? points (ball_cur - 60) 60 >>= λ strip. some (line_strip strip 4_294_901_760 ∷ []))
    else (points? points (history_count + ball_cur - 60) (60 - ball_cur) >>= λ older.
        points? points 0 ball_cur >>= λ newer.
        some (line_strip older 4_294_901_760 ∷ line_strip newer 4_294_901_760 ∷ []))

-- `i < 0 ? i + historyCount : i`, for so many points before the current one
abbrev pub place_before : (ball_cur time : ℕ) → ℕ
place_before ball_cur time =
    if ltb ball_cur time then ball_cur + history_count - time else ball_cur - time

module _ {F D : Type 0} (o : Floats F D) where
  open o use {single}

  abbrev half_float : F
  half_float = half o

  abbrev one_float : F
  one_float = one o

  -- `((float)bar)/4.0f - 1.0f`
  abbrev edge : (bar : ℕ) → F
  edge bar = single.sub (single.div (single.of_int (pos bar)) (single.lit 40 1)) one_float

  -- A part of the field's width, from -1 to 1.
  abbrev across : Field F → F → F
  across field part =
      single.add
        (single.mul (single.mul (single.sub field.xmax field.xmin) half_float)
          (single.add one_float part))
        field.xmin

  -- The loop over the regions of the bars, for so many of them.
  unfoldable pub bar_regions : (rounds bar : ℕ) → Field F → List (Shape F)
  bar_regions zero bar field = []
  bar_regions (suc rounds) bar field =
      square (across field (edge (bar - 1))) (across field (edge bar)) field.ymin field.ymax
        4_278_239_232
      ∷ bar_regions rounds (bar + 1) field

  -- The squares on the detection points, from `time` on.
  unfoldable pub detections : List (Point F) → (ball_cur time : ℕ) → Option (List (Shape F))
  detections points ball_cur zero = some []
  detections points ball_cur (suc time) =
      get_elem? points (place_before ball_cur (suc time)) >>= λ pt.
      let size = single.mul (single.lit 3 3) (single.of_int (pos (suc time))) in
      detections points ball_cur time >>= λ rest. some (
        square (single.sub pt.x (single.mul half_float size))
          (single.add pt.x (single.mul half_float size)) (single.sub pt.y size)
          (single.add pt.y size) (4_278_190_080 + (255 - 3 * suc time) * 65_536)
        ∷ rest)

  -- The field and the goals
  unfoldable pub field_squares : Field F → List (Shape F)
  field_squares field =
      let y_avg = single.mul half_float (single.add field.ymin field.ymax) in
      let height =
        single.mul (single.mul half_float (goal_height o)) (single.sub field.ymax field.ymin) in
      let goal_top = single.add y_avg height in
      let goal_bot = single.sub y_avg height in
      let goal_w = single.mul (goal_width o) (single.sub field.xmax field.xmin) in
      square field.xmin field.xmax field.ymin field.ymax 4_278_255_360
      ∷ square field.xmin (single.add field.xmin goal_w) goal_bot goal_top 4_278_255_360
      ∷ square (single.sub field.xmax goal_w) field.xmax goal_bot goal_top 4_278_255_360
      ∷ []

  unfoldable pub analysis_draw : Analysis F → Option (List (Shape F))
  unfolding history_lines bar_regions detections field_squares
  analysis_draw s = history_lines s.balls_screen s.ball_cur >>= λ lines.
      detections s.balls_screen s.ball_cur 10 >>= λ squares.
      some (bar_regions 7 1 s.field ++ field_squares s.field ++ lines ++ squares)
