-- ===== src/Analysis/Update.antt =====
-- src/tracker/analysis.cpp: `analysis_update`, one call for each ball buffer.
pub mod Layout
mod Parts
mod GoalParts
pub mod Safety
pub mod Goals
pub mod Window
mod Tests
use foosball_tracker.Common.{
  ℕ, zero, suc, ◌+◌, ◌-◌, ◌<◌, ◌≤◌, ◌==◌, ltb, leb, if◌then◌else◌, not, Bool, true, false, ◌&&◌,
  ◌||◌, List, [], ◌∷◌, ◌++◌, Option, some, none, get_elem?, set?, ◌>>=◌,
}
use foosball_tracker.Common.Int.{ℤ, pos, pos_part, ◌+ℤ◌, ◌-ℤ◌, ltb_ℤ, get_at?}
use foosball_tracker.Common.Floats.{Floats}
use foosball_tracker.Analysis.{
  Point, Analysis, history_count, ball_speed_count, Message, save, fast, red_goal, blue_goal,
  max_speed, goal_width, half, zero_float, one, at_goal_height, is_in_goal, dist,
}
use foosball_tracker.Analysis.Scorer.{previous, get_player_who_scored}

-- `++i; if (i == BallSpeedCount) i = 0;`
abbrev pub next_speed : ℕ → ℕ
next_speed i = if i + 1 == ball_speed_count then 0 else i + 1

-- `ballSpeeds[ballSpeedIndex] = v`, and the step to the next index.
unfoldable pub store_speed : {F : Type 0} → Analysis F → F → Option (Analysis F)
store_speed s v = set? s.ball_speeds s.ball_speed_index v >>= λ speeds.
    some (record s { ball_speeds = speeds; ball_speed_index = next_speed s.ball_speed_index })

module _ {F D : Type 0} (o : Floats F D) where
  open o use {single}

  -- The test for a shot that the keeper saves: fast, and near a goal.
  unfoldable pub is_save : Point F → F → Bool
  is_save ball speed =
      single.lt (single.lit 150 1) speed
      && at_goal_height o ball
      && (single.lt ball.x (single.add (zero_float o) (single.mul (single.lit 30 1) (goal_width o)))
          || single.lt (single.sub (one o) (single.mul (single.lit 30 1) (goal_width o))) ball.x)

  -- A shot is a save, else it may be a fast shot.
  unfoldable pub note_shot : Analysis F → Point F → F → Analysis F
  note_shot s ball speed =
      if is_save ball speed
      then record s { send_save = 1 }
      else if single.lt (single.lit 300 1) speed
      then record s { send_fast = 1 }
      else s

  -- The maximum over the speeds from index `i` on, for so many rounds. An index below 0 is taken
  -- from the end of the array, once.
  unfoldable pub max_from : List F → ℕ → ℤ → F → Option F
  max_from speeds zero i best = some best
  max_from speeds (suc rounds) i best =
      let idx = if ltb_ℤ i (pos 0) then i +ℤ pos ball_speed_count else i in
      get_at? speeds idx >>= λ v.
      max_from speeds rounds (i +ℤ pos 1) (if single.lt best v then v else best)

module _ {F D : Type 0} (o : Floats F D) (stable_fps : F) where
  open o use {single, to_int}

  -- `int(0.5f * stableFPS)` and its like: `frames 5 1`.
  abbrev pub frames : ℕ → ℕ → ℤ
  frames m k = to_int (single.mul (single.lit m k) stable_fps)

  -- A pending signal: 0 if there is none. It counts up, and is sent past half a second.
  unfoldable pub tick : Message F → ℕ → ℕ × List (Message F)
  tick m pending =
      if pending == 0
      then (0, [])
      else if ltb_ℤ (frames 5 1) (pos pending)
      then (0, m ∷ [])
      else (pending + 1, [])

  -- The speed of a shot of `frame_diffs` frames, in km/h.
  unfoldable pub speed_of : Point F → Point F → ℤ → F
  speed_of prev ball frame_diffs =
      single.mul (single.div (single.mul (dist o prev ball) stable_fps) (single.of_int frame_diffs))
        (single.lit 36 1)

  -- The check for a fast shot, once the ball is stored.
  unfoldable pub check_shot : Analysis F → (prev_idx : ℕ) → Point F → Option (Analysis F)
  unfolding store_speed note_shot
  check_shot s prev_idx ball = get_elem? s.balls prev_idx >>= λ prev_ball.
      get_elem? s.ball_frames prev_idx >>= λ prev_frame.
      let frame_diffs = pos s.frame_number -ℤ pos prev_frame in
      let speed = speed_of prev_ball ball frame_diffs in
      if not (ltb_ℤ (pos 10) frame_diffs) && ltb 100 s.frame_number
      then (store_speed s speed >>= λ s1. some (note_shot o s1 ball speed))
      else some s

  -- The branch for a ball that was found.
  unfoldable pub ball_seen : Analysis F → (prev_idx : ℕ) → Point F → Option (Analysis F)
  unfolding check_shot
  ball_seen s prev_idx ball = set? s.balls s.ball_cur ball >>= λ balls.
      set? s.ball_frames s.ball_cur s.frame_number >>= λ ball_frames.
      check_shot
        (record s {
          ball_missing = 0;
          balls = balls;
          ball_frames = ball_frames;
          ball_cur = s.ball_cur + 1;
        })
        prev_idx ball
      >>= λ s1. some (if ltb s1.ball_cur history_count then s1 else record s1 { ball_cur = 0 })

  -- The check for a goal, in the frame in which the ball has been gone for 15 frames before.
  unfoldable pub check_goal : Analysis F → (prev_idx : ℕ) → Option (Analysis F × List (Message F))
  check_goal s prev_idx = get_elem? s.balls prev_idx >>= λ last_ball.
      let goal = is_in_goal o last_ball in
      if goal == 0
      then some (s, [])
      else let s1 = record s { send_save = 0; send_fast = 0 } in
        if ltb_ℤ (pos s.frame_number -ℤ pos s.last_goal) (frames 15 1)
        then some (s1, [])
        else (get_player_who_scored o s.balls goal s.ball_cur stable_fps >>= λ player. some (
          record s1 { last_goal = s.frame_number },
          (if goal == 1 then red_goal player else blue_goal player) ∷ [],
        ))

  -- The branch for a ball that was not found.
  unfoldable pub ball_gone : Analysis F → (prev_idx : ℕ) → Option (Analysis F × List (Message F))
  unfolding check_goal store_speed
  ball_gone s prev_idx = store_speed s (zero_float o) >>= λ stored.
      let s1 = record stored { ball_missing = s.ball_missing + 1 } in
      if s.ball_missing == 15 then check_goal s1 prev_idx else some (s1, [])

  -- The report of the highest speed of the last five seconds.
  unfoldable pub report_speed : Analysis F → Option (Analysis F × List (Message F))
  unfolding max_from
  report_speed s =
      if ltb 100 s.frame_number && ltb_ℤ (frames 5 1) (pos s.frames_since_update)
      then (max_from o s.ball_speeds (pos_part (frames 50 1))
            (pos s.ball_speed_index -ℤ frames 50 1) (zero_float o)
          >>= λ best. some (record s { frames_since_update = 0 }, max_speed best ∷ []))
      else some (s, [])

  -- The start of a call: the next frame, and the pending signals.
  unfoldable pub begin_frame : Analysis F → Analysis F
  unfolding tick
  begin_frame s = record s {
    frame_number = s.frame_number + 1;
    send_save = (tick save s.send_save).0;
    send_fast = (tick fast s.send_fast).0;
  }

  -- `if (ballFound)`
  unfoldable pub branch :
      Analysis F → (prev_idx : ℕ) → Point F → Bool → Option (Analysis F × List (Message F))
  unfolding ball_seen ball_gone
  branch s prev_idx ball true = ball_seen s prev_idx ball >>= λ s1. some (s1, [])
  branch s prev_idx ball false = ball_gone s prev_idx

  -- `analysis_update`: the new state and the messages in order; `none` is an access out of bounds.
  unfoldable pub update : Analysis F → Point F → Bool → Option (Analysis F × List (Message F))
  unfolding begin_frame branch report_speed
  update s ball found = branch (begin_frame s) (previous s.ball_cur) ball found >>= λ gone.
      report_speed gone.0 >>= λ reported. some (
        record (reported.0) { frames_since_update = reported.0.frames_since_update + 1 },
        (tick save s.send_save).1 ++ (tick fast s.send_fast).1 ++ gone.1 ++ reported.1,
      )
