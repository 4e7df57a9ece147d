-- ===== src/Analysis/Update/Safety.antt =====
-- src/tracker/analysis.cpp: no call of `analysis_update` reads or writes out of bounds.
use foosball_tracker.Common.{
  ℕ, ◌<◌, ◌≤◌, ◌≡◌, refl, arith, Bool, true, false, List, some, Returns, value, Returns-bind,
  Returns-some,
}
use foosball_tracker.Common.Int.{pos_part}
use foosball_tracker.Common.Floats.{Floats}
use foosball_tracker.Analysis.{Point, Analysis, Message}
use foosball_tracker.Analysis.Scorer.{previous}
use foosball_tracker.Analysis.Update.{frames, begin_frame, branch, update}
use foosball_tracker.Analysis.Update.Parts.{
  ball_seen-IsValid, ball_gone-IsValid, report_speed-IsValid,
}
use foosball_tracker.Analysis.Update.Layout.{BarInRange, IsValid, previous-lt}

module _ {F D : Type 0} (o : Floats F D) (fps : F) where
  begin_frame-IsValid : (s : Analysis F) → IsValid o s → IsValid o (begin_frame o fps s)
  unfolding begin_frame
  begin_frame-IsValid s v = record {
    screen_len = v.screen_len;
    balls_len = v.balls_len;
    frames_len = v.frames_len;
    speeds_len = v.speeds_len;
    cur_in = v.cur_in;
    speed_in = v.speed_in;
    frames_past = λ i b e. omega (arith, v.frames_past i b e);
    bars_in = v.bars_in;
  }

  branch-IsValid :
      (s : Analysis F) (prev_idx : ℕ) (ball : Point F) (found : Bool)
      → prev_idx < 256
      → (found ≡ true → BarInRange o ball)
      → IsValid o s
      → Returns (λ r. IsValid o r.0) (branch o fps s prev_idx ball found)
  unfolding branch
  branch-IsValid s prev_idx ball true lt bar v =
      Returns-bind (ball_seen-IsValid o fps s prev_idx ball lt (bar refl) v) λ s1 h. value _ h
  branch-IsValid s prev_idx ball false lt bar v = ball_gone-IsValid o fps s prev_idx lt v

  -- No call of `analysis_update` reads or writes out of bounds, and it keeps the state valid, if five
  -- seconds are at most 300 frames and the ball, when found, is at a bar from 0 to 8. In particular
  -- the ball stored last is never from a frame after the current one.
  pub update-IsValid :
      (s : Analysis F) (ball : Point F) (found : Bool)
      → pos_part (frames o fps 50 1) ≤ 300
      → (found ≡ true → BarInRange o ball)
      → IsValid o s
      → (r : Analysis F × List (Message F)) × (update o fps s ball found ≡ some r) × IsValid o r.0
  unfolding update
  update-IsValid s ball found few bar v = Returns-some (
      Returns-bind
        (branch-IsValid (begin_frame o fps s) (previous s.ball_cur) ball found
          (previous-lt o s.ball_cur v.cur_in) bar (begin_frame-IsValid s v))
        λ gone g. Returns-bind (report_speed-IsValid o fps gone.0 few g) λ reported h. value _ h)
