-- ===== src/Core/Fps.antt =====
-- src/tracker/core.cpp: `update_render_fps` and the moving average `stableFPS`.
use foosball_tracker.Common.{ℕ, ◌+◌, ltb, if◌then◌else◌}
use foosball_tracker.Common.Int.{ℤ, pos, ◌-ℤ◌, ltb_ℤ, eqb_ℤ}
use foosball_tracker.Common.Floats.{Floats}

-- The static variables of the function, and the global `stableFPS`.
pub record Fps (F : Type 0) : Type 0 where
  pub frame_count : ℕ
  pub time_start : ℤ
  pub stable_fps : F

module _ {F D : Type 0} (o : Floats F D) where
  open o use {single, double, widen, narrow}

  unfoldable pub init : Fps F
  init = record { frame_count = 0; time_start = pos 0; stable_fps = single.of_int (pos 40) }

  -- `0.8f * fps + 0.2f * stableFPS`, where `fps` is a division of doubles, stored in a float.
  pub average : ℕ → ℤ → F → F
  average frames elapsed old =
      single.add (single.mul (single.lit 8 1) fps) (single.mul (single.lit 2 1) old)
    where
      fps : F
      fps = narrow (
          double.div (widen (single.of_int (pos frames)))
            (double.div (double.of_int elapsed) (double.lit 1000 0)))

  -- `now` is the time of day in milliseconds, a `long long`.
  unfoldable pub update_render_fps : Fps F → ℤ → Fps F
  unfolding ◌-ℤ◌
  update_render_fps s now =
      if eqb_ℤ s.time_start (pos 0)
      then record s { time_start = now }
      else if ltb (s.frame_count + 1) 100
      then record s { frame_count = s.frame_count + 1 }
      else if ltb_ℤ (pos 3000) (now -ℤ s.time_start)
      then record s {
        frame_count = 0;
        time_start = now;
        stable_fps = average (s.frame_count + 1) (now -ℤ s.time_start) s.stable_fps;
      }
      else record s { frame_count = s.frame_count + 1 }
