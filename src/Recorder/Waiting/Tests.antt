-- ===== src/Recorder/Waiting/Tests.antt =====
-- src/recorder/RaspiVidBalls.c: a pause, and a circular recording.
use foosball_tracker.Common.{ℕ, ◌≡◌, refl, inl, arith, true, false, [], ◌∷◌, some, value}
use foosball_tracker.Common.Int.{pos, negsuc}
use foosball_tracker.Recorder.Settings.{
  wait_method_keypress, wait_method_signal, MmalCodes, VidState, default_status,
}
use foosball_tracker.Recorder.Waiting.{
  World, record_loop, loop_start, left, capture, wait_for_next_change, wait_by,
}
use foosball_tracker.Recorder.Waiting.Ends.{IsLeft, IsAnswered, record_loop-ends}
use foosball_tracker.Recorder.Waiting.Circular.{LeavesWith, circular-one_key, circular-paused}

abbrev codes : MmalCodes
codes = record {
  encoding_h264 = pos 1;
  encoding_mjpeg = pos 2;
  profile_baseline = pos 66;
  profile_main = pos 77;
  profile_high = pos 100;
  level_4 = pos 40;
  level_41 = pos 41;
  level_42 = pos 42;
  refresh_cyclic = pos 0;
  refresh_adaptive = pos 1;
  refresh_both = pos 2;
  refresh_cyclic_mrows = pos 3;
}

-- The second of the clock's times is 4 seconds after the first one.
abbrev world : ℕ → World
world now = record { now = now; aborts = []; key = some 105; signal = true }

abbrev signals : VidState
signals = record (default_status codes) {
  timeout = pos 3000;
  wait_method = wait_method_signal;
  b_capturing = pos 0;
}

signals-IsAnswered : (now : ℕ) → IsAnswered signals (world now)
unfolding wait_for_next_change wait_by
signals-IsAnswered now capturing complete_time = value _ tt

record_loop-ends_example :
    IsLeft (record_loop signals (world 1000 ∷ world 5000 ∷ []) (loop_start signals))
record_loop-ends_example =
    record_loop-ends signals 2999 (world 1000) (world 5000 ∷ []) (loop_start signals) refl refl
      (signals-IsAnswered 1000, (signals-IsAnswered 5000, tt)) (inl (omega arith))

abbrev circular : VidState
circular = record (default_status codes) {
  timeout = pos 3000;
  wait_method = wait_method_keypress;
  b_circular_buffer = true;
  b_capturing = pos 0;
}

abbrev paused : VidState
paused = record circular { b_capturing = pos 1 }

-- The key i, which zooms in.
circular-one_key_example :
    LeavesWith false (record_loop circular (world 1000 ∷ []) (loop_start circular))
circular-one_key_example =
    circular-one_key circular 2999 105 (world 1000) [] refl refl refl refl refl

circular-paused_example :
    record_loop paused (world 1000 ∷ []) (loop_start paused)
    ≡ left record {
      capturing = false;
      initial_capturing = true;
      complete_time = negsuc 0;
      events = capture false ∷ [];
    }
circular-paused_example = circular-paused paused (world 1000 ∷ []) refl refl
