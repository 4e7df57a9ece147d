-- ===== src/Analysis/Draw/History.antt =====
-- src/tracker/analysis.cpp: the history that `analysis_draw` draws.
use foosball_tracker.Common.{
  ℕ, zero, suc, ◌+◌, ◌-◌, ◌≤◌, ◌<◌, ◌≡◌, refl, sym, ap, ◌∙◌, arith, leb, List, [], ◌∷◌, ◌++◌,
  length, take, drop, take-all, take-nil, length-drop, drop-drop, Returns, value, Returns-bind,
  Returns-if, Returns-get_elem?,
}
use foosball_tracker.Common.Floats.{Floats}
use foosball_tracker.Analysis.{Point, Analysis, history_count}
use foosball_tracker.Analysis.Update.Layout.{IsValid}
use foosball_tracker.Analysis.Draw.{
  Shape, square, line_strip, points?, history_lines, place_before, detections, field_squares,
  analysis_draw,
}

module _ {ℓ} {A : Type ℓ} where
  drop-append_right : (j : ℕ) (xs ys : List A) → drop (length xs + j) (xs ++ ys) ≡ drop j ys
  drop-append_right j [] ys = ap (λ i. drop i ys) {x = 0 + j} {y = j} (omega arith)
  drop-append_right j (x ∷ xs) ys =
      ap (λ i. drop i (x ∷ (xs ++ ys))) {x = suc (length xs) + j} {y = suc (length xs + j)}
        (omega arith)
      ∙ drop-append_right j xs ys

  drop-append_left : (k : ℕ) (xs ys : List A) → k ≤ length xs → drop k (xs ++ ys) ≡ drop k xs ++ ys
  drop-append_left zero xs ys h = refl
  drop-append_left (suc k) [] ys h = absurd (omega arith)
  drop-append_left (suc k) (x ∷ xs) ys h = drop-append_left k xs ys (omega arith)

  drop-take : (j k : ℕ) (xs : List A) → drop j (take (j + k) xs) ≡ take k (drop j xs)
  drop-take zero k xs = ap (λ i. take i xs) {x = 0 + k} {y = k} (omega arith)
  drop-take (suc j) k [] = rw (take-nil (suc j + k), take-nil k) refl
  drop-take (suc j) k (x ∷ xs) =
      ap (λ i. drop (suc j) (take i (x ∷ xs))) {x = suc j + k} {y = suc (j + k)} (omega arith)
      ∙ drop-take j k xs

module _ {ℓ} {A : Type ℓ} where
  append_nil : (xs : List A) → xs ++ [] ≡ xs
  append_nil [] = refl
  append_nil (x ∷ xs) = ap (◌∷◌ x) (append_nil xs)

  append_assoc : (xs ys zs : List A) → xs ++ (ys ++ zs) ≡ (xs ++ ys) ++ zs
  append_assoc [] ys zs = refl
  append_assoc (x ∷ xs) ys zs = ap (◌∷◌ x) (append_assoc xs ys zs)

  take_whole : (n : ℕ) (xs : List A) → length xs ≡ n → take n xs ≡ xs
  take_whole n xs e = ap (λ k. take k xs) (sym e) ∙ take-all xs

-- The last 60 places of a history whose next place is `cur`, the oldest one first.
unfoldable pub last_points : {F : Type 0} → List (Point F) → (cur : ℕ) → List (Point F)
last_points points cur = drop 196 (drop cur points ++ take cur points)

-- The points of all lines
abbrev pub line_points : {F : Type 0} → List (Shape F) → List (Point F)
line_points [] = []
line_points (square xmin xmax ymin ymax colour ∷ shapes) = line_points shapes
line_points (line_strip points colour ∷ shapes) = points ++ line_points shapes

points?-Returns :
    {F : Type 0} (points : List (Point F)) (at n : ℕ)
    → at + n ≤ length points
    → Returns (λ read. read ≡ take n (drop at points)) (points? points at n)
unfolding points?
points?-Returns points at n h =
    Returns-if (leb (at + n) (length points)) _ _ (λ _. value _ refl) (λ e. absurd (ground arith))

last_points-high :
    {F : Type 0} (points : List (Point F)) (cur : ℕ)
    → length points ≡ 256
    → cur < 256
    → 60 ≤ cur
    → take 60 (drop (cur - 60) points) ≡ last_points points cur
unfolding last_points
last_points-high points cur len lt high =
    let behind = length-drop cur points in
    let e : 196 ≡ length (drop cur points) + (cur - 60) = omega arith in
    let whole : cur - 60 + 60 ≡ cur = omega (arith, high) in
    sym (
      ap (λ k. drop k (drop cur points ++ take cur points)) e
      ∙ drop-append_right (cur - 60) (drop cur points) (take cur points)
      ∙ ap (λ k. drop (cur - 60) (take k points)) (sym whole)
      ∙ drop-take (cur - 60) 60 points)

last_points-low :
    {F : Type 0} (points : List (Point F)) (cur : ℕ)
    → length points ≡ 256
    → cur < 60
    → take (60 - cur) (drop (history_count + cur - 60) points) ++ (take cur points ++ [])
      ≡ last_points points cur
unfolding last_points
last_points-low points cur len low =
    let place : history_count + cur - 60 ≡ cur + 196 = omega arith in
    let older : length (drop (history_count + cur - 60) points) ≡ 60 - cur =
      length-drop (history_count + cur - 60) points ∙ omega (arith, len, low) in
    let behind = length-drop cur points in
    rw
      (
        take_whole (60 - cur) (drop (history_count + cur - 60) points) older,
        append_nil (take cur points),
      )
      (ap (λ k. drop k points ++ take cur points) place
        ∙ ap (λ xs. xs ++ take cur points) (sym (drop-drop cur 196 points))
        ∙ sym (drop-append_left 196 (drop cur points) (take cur points) (omega arith)))

history_lines-Returns :
    {F : Type 0} (points : List (Point F)) (cur : ℕ)
    → length points ≡ 256
    → cur < 256
    → Returns (λ lines. line_points lines ≡ last_points points cur) (history_lines points cur)
unfolding history_lines
history_lines-Returns points cur len lt =
    Returns-if (leb 60 cur) _ _
      (λ e.
        let high : 60 ≤ cur = ground arith in
        Returns-bind (points?-Returns points (cur - 60) 60 (omega arith))
          λ strip same. value _ (append_nil strip ∙ same ∙ last_points-high points cur len lt high))
      (λ e.
        let low : cur < 60 = ground arith in
        Returns-bind (points?-Returns points (history_count + cur - 60) (60 - cur) (omega arith))
          λ older same_older.
            Returns-bind (points?-Returns points 0 cur (omega arith)) λ newer same_newer.
              value _ (rw (same_older, same_newer) (last_points-low points cur len low)))

line_points-append :
    {F : Type 0} (shapes more : List (Shape F))
    → line_points (shapes ++ more) ≡ line_points shapes ++ line_points more
line_points-append [] more = refl
line_points-append (square xmin xmax ymin ymax colour ∷ shapes) more =
    line_points-append shapes more
line_points-append (line_strip points colour ∷ shapes) more =
    ap (λ ps. points ++ ps) (line_points-append shapes more)
    ∙ append_assoc points (line_points shapes) (line_points more)

module _ {F D : Type 0} (o : Floats F D) where
  detections-Returns :
      (points : List (Point F)) (cur time : ℕ)
      → length points ≡ 256
      → cur < 256
      → time ≤ 10
      → Returns (λ shapes. line_points shapes ≡ []) (detections o points cur time)
  unfolding detections
  detections-Returns points cur zero len lt few = value _ refl
  detections-Returns points cur (suc time) len lt few =
      Returns-bind (Returns-get_elem? points (place_before cur (suc time)) (ground arith)) λ pt at.
        Returns-bind (detections-Returns points cur time len lt (omega arith))
          λ rest empty. value _ empty

  -- In every valid state `analysis_draw` returns: it reads the history only inside its bounds, and the points of
  -- its lines are the last 60 places of the ball, the oldest one first, wherever the index of the ring stands.
  pub analysis_draw-Returns :
      (s : Analysis F)
      → IsValid o s
      → Returns
          (λ shapes. line_points shapes ≡ last_points s.balls_screen s.ball_cur)
          (analysis_draw o s)
  unfolding analysis_draw field_squares
  analysis_draw-Returns s h =
      Returns-bind (history_lines-Returns s.balls_screen s.ball_cur h.screen_len h.cur_in)
        λ lines e.
          Returns-bind
            (detections-Returns s.balls_screen s.ball_cur 10 h.screen_len h.cur_in (omega arith))
            λ squares none_drawn. value _ (
              line_points-append lines squares
              ∙ ap (λ ps. line_points lines ++ ps) none_drawn
              ∙ append_nil (line_points lines)
              ∙ e)
