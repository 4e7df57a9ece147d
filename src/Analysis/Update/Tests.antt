-- ===== src/Analysis/Update/Tests.antt =====
-- src/tracker/analysis.cpp: calls of `analysis_update` in fixed-point arithmetic.
use foosball_tracker.Common.{
  ℕ, ◌≤◌, ◌≡◌, refl, arith, true, false, List, [], ◌∷◌, replicate, length-replicate,
  Every-replicate, some, none, Returns,
}
use foosball_tracker.Common.Int.{pos, ◌+ℤ◌, ◌-ℤ◌}
use foosball_tracker.Common.Fixed.{fixed}
use foosball_tracker.Analysis.{Point, Analysis, Message, is_in_goal, get_player_bar}
use foosball_tracker.Analysis.Draw.{analysis_draw}
use foosball_tracker.Analysis.Draw.History.{line_points, last_points, analysis_draw-Returns}
use foosball_tracker.Analysis.Scorer.{get_player_who_scored, count_hit}
use foosball_tracker.Analysis.Update.{update, report_speed}
use foosball_tracker.Analysis.Update.Window.{report_speed_below}
use foosball_tracker.Analysis.Update.Layout.{IsValid, BarInRange}
use foosball_tracker.Analysis.Update.Safety.{update-IsValid}
use foosball_tracker.Analysis.Update.Goals.{
  CallGoals, update_goals, Apart, goal_frames, goals-Apart,
}

-- In the left goal.
abbrev goal_mouth : Point ℕ
goal_mouth = record { x = 50; y = 500 }

abbrev fps : ℕ
fps = 40_000

-- The ball was last seen in the goal, 15 frames ago.
abbrev gone : Analysis ℕ
gone = record {
  balls = replicate 256 goal_mouth;
  ball_frames = replicate 256 85;
  balls_screen = replicate 256 goal_mouth;
  ball_cur = 3;
  ball_missing = 15;
  field = record { xmin = 0; xmax = 1000; ymin = 0; ymax = 1000 };
  frame_number = 100;
  ball_speeds = replicate 300 0;
  ball_speed_index = 0;
  frames_since_update = 0;
  send_save = 4;
  send_fast = 0;
  last_goal = 10;
}

goal_mouth-BarInRange : BarInRange fixed goal_mouth
unfolding get_player_bar
goal_mouth-BarInRange = (1, omega arith, refl)

gone-IsValid : IsValid fixed gone
gone-IsValid = record {
  screen_len = length-replicate 256 goal_mouth;
  balls_len = length-replicate 256 goal_mouth;
  frames_len = length-replicate {A = ℕ} 256 85;
  speeds_len = length-replicate {A = ℕ} 300 0;
  cur_in = omega arith;
  speed_in = omega arith;
  frames_past = Every-replicate (λ b. b ≤ 100) 256 85 (omega arith);
  bars_in = Every-replicate (BarInRange fixed) 256 goal_mouth goal_mouth-BarInRange;
}

update-IsValid_example :
    (r : Analysis ℕ × List (Message ℕ)) × (update fixed fps gone goal_mouth false ≡ some r)
    × IsValid fixed r.0
update-IsValid_example =
    update-IsValid fixed fps gone goal_mouth false (omega arith) (λ _. goal_mouth-BarInRange)
      gone-IsValid

-- The bar of the player that the goal is credited to is unknown: only bars of the team that let the
-- goal in were seen.
goal_now : (r : Analysis ℕ × List (Message ℕ)) × (update fixed fps gone goal_mouth false ≡ some r)
unfolding update get_player_who_scored count_hit is_in_goal get_player_bar ◌+ℤ◌ ◌-ℤ◌
goal_now = (_, refl)

update_goals_example : CallGoals fixed fps gone false goal_now.0
update_goals_example = update_goals fixed fps gone goal_mouth false goal_now.1

goals-Apart_example : Apart (pos 60) 10 (101 ∷ [])
unfolding goal_frames update get_player_who_scored count_hit is_in_goal get_player_bar ◌+ℤ◌ ◌-ℤ◌
goals-Apart_example =
    goals-Apart fixed fps ((goal_mouth, false) ∷ (goal_mouth, true) ∷ []) gone refl

-- 70 frames a second, and a report is due.
abbrev overdue : Analysis ℕ
overdue = record gone { frame_number = 101; frames_since_update = 36 }

report_speed_below_example : report_speed fixed 70_000 overdue ≡ none
report_speed_below_example =
    report_speed_below fixed 70_000 overdue 350 (omega arith) refl refl (omega arith)

analysis_draw-Returns_example :
    Returns
      (λ shapes. line_points shapes ≡ last_points gone.balls_screen gone.ball_cur)
      (analysis_draw fixed gone)
analysis_draw-Returns_example = analysis_draw-Returns fixed gone gone-IsValid
