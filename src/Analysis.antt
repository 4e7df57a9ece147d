-- ===== src/Analysis.antt =====
-- src/tracker/analysis.cpp: the state of the analysis thread, and the geometry of the field.
pub mod Pixels
pub mod Scorer
pub mod Update
pub mod Ball
pub mod FieldBounds
pub mod Draw
use foosball_tracker.Common.{
  ℕ, zero, ◌+◌, ◌<◌, ◌==◌, if◌then◌else◌, Bool, ◌&&◌, ◌||◌, List, [], ◌∷◌, replicate,
}
use foosball_tracker.Common.Int.{ℤ, pos}
use foosball_tracker.Common.Floats.{Floats}

-- `POINT` and `FIELD`
pub record Point (F : Type 0) : Type 0 where
  pub x : F
  pub y : F

pub record Field (F : Type 0) : Type 0 where
  pub xmin : F
  pub xmax : F
  pub ymin : F
  pub ymax : F

-- `historyCount` and `BallSpeedCount`
abbrev pub history_count : ℕ
history_count = 256

abbrev pub ball_speed_count : ℕ
ball_speed_count = 300

-- The globals of the file and the static variables of `analysis_update`. An `int` that only counts up
-- from 0 is a number without bound.
pub record Analysis (F : Type 0) : Type 0 where
  pub balls : List (Point F)
  pub ball_frames : List ℕ
  pub balls_screen : List (Point F)
  pub ball_cur : ℕ
  pub ball_missing : ℕ
  pub field : Field F
  pub frame_number : ℕ
  pub ball_speeds : List F
  pub ball_speed_index : ℕ
  pub frames_since_update : ℕ
  pub send_save : ℕ
  pub send_fast : ℕ
  pub last_goal : ℕ

-- What is written to the pipe: SAVE, FAST, RG with a bar, BG with a bar, MAXSPEED with a speed.
pub data Message (F : Type 0) : Type 0 where
  save : Message F
  fast : Message F
  red_goal : ℤ → Message F
  blue_goal : ℤ → Message F
  max_speed : F → Message F

module _ {F D : Type 0} (o : Floats F D) where
  open o use {single, sqrt, to_int}

  abbrev pub goal_width : F
  goal_width = single.lit 10 2

  abbrev pub goal_height : F
  goal_height = single.lit 38 2

  abbrev pub half : F
  half = single.lit 5 1

  abbrev pub zero_float : F
  zero_float = single.lit 0 1

  abbrev pub one : F
  one = single.lit 10 1

  -- `ball.y > 0.5f - 0.5f * goalHeight && ball.y < 0.5f + 0.5f * goalHeight`
  abbrev pub at_goal_height : Point F → Bool
  at_goal_height ball =
      single.lt (single.sub half (single.mul half goal_height)) ball.y
      && single.lt ball.y (single.add half (single.mul half goal_height))

  -- `isInGoal`: 0 for no goal, 1 for the left goal, 2 for the right goal.
  unfoldable pub is_in_goal : Point F → ℕ
  is_in_goal ball =
      if at_goal_height ball
      then if single.lt ball.x (single.add zero_float goal_width)
        then 1
        else if single.lt (single.sub one goal_width) ball.x
        then 2
        else 0
      else 0

  -- `dist`, in meters.
  unfoldable pub dist : Point F → Point F → F
  dist a b =
      let dx = single.mul (single.sub a.x b.x) (single.lit 1205 3) in
      let dy = single.mul (single.sub a.y b.y) (single.lit 702 3) in
      sqrt (single.add (single.mul dx dx) (single.mul dy dy))

  -- `getPlayerBar`
  unfoldable pub get_player_bar : Point F → ℤ
  get_player_bar ball =
      if single.lt ball.x zero_float || single.le one ball.x
      then pos 0
      else to_int (single.add one (single.mul (single.lit 80 1) ball.x))

  -- The state before the first frame. The arrays are zero-filled, and the field is that of `FIELD()`.
  unfoldable pub init : Analysis F
  init = record {
    balls =
        replicate history_count (record { x = single.of_int (pos 0); y = single.of_int (pos 0) });
    ball_frames = replicate history_count 0;
    balls_screen =
        replicate history_count (record { x = single.of_int (pos 0); y = single.of_int (pos 0) });
    ball_cur = 0;
    ball_missing = 1000;
    field = record {
      xmin = single.sub zero_float (single.lit 9 1);
      xmax = single.lit 9 1;
      ymin = single.sub zero_float (single.lit 9 1);
      ymax = single.lit 9 1;
    };
    frame_number = 0;
    ball_speeds = replicate ball_speed_count (single.of_int (pos 0));
    ball_speed_index = 0;
    frames_since_update = 0;
    send_save = 0;
    send_fast = 0;
    last_goal = 0;
  }
