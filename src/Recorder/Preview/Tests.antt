-- ===== src/Recorder/Preview/Tests.antt =====
-- src/recorder/RaspiTexBalls.c: a preview with four buffers.
use foosball_tracker.Common.{◌≡◌, refl, true, false, [], ◌∷◌, ◌++◌, none, some}
use foosball_tracker.Common.Int.{pos, negsuc}
use foosball_tracker.Recorder.Preview.{
  PreviewState, Driver, raspitex_draw, do_drawing, process_bufs, process_returned_bufs, send_bufs,
  send_empty, worker_round, output_cb, deliver, frame,
}
use foosball_tracker.Recorder.Preview.Runs.{start, round, callback, IsComplete, Run-IsComplete}

abbrev driver : Driver
driver = record {
  updates = λ k. pos 0 ∷ [];
  has_image = λ k. true;
  redraw = λ k. pos 0;
  send_succeeds = λ k. true;
}

-- The first update fails.
abbrev broken : Driver
broken = record {
  updates = λ k. negsuc 0 ∷ [];
  has_image = λ k. false;
  redraw = λ k. pos 0;
  send_succeeds = λ k. true;
}

abbrev waiting : PreviewState
waiting = record {
  pool_queue = 1 ∷ [];
  camera = 2 ∷ [];
  preview_queue = 3 ∷ 4 ∷ [];
  preview_buf = none;
  preview_stop = false;
  drawn = [];
  calls = 0;
}

after_frame :
    (s : PreviewState) × (output_cb frame (worker_round driver waiting).1 ≡ some s)
    × (s.preview_stop ≡ false)
unfolding output_cb deliver worker_round send_empty send_bufs process_returned_bufs process_bufs
    raspitex_draw do_drawing
after_frame = (_, refl, refl)

Run-IsComplete_example : IsComplete waiting ([] ++ (2 ∷ [])) after_frame.0
unfolding output_cb deliver worker_round send_empty send_bufs process_returned_bufs process_bufs
    raspitex_draw do_drawing
Run-IsComplete_example =
    Run-IsComplete driver waiting after_frame.0 ([] ++ (2 ∷ [])) (λ k. refl)
      (callback [] (worker_round driver waiting).1 after_frame.0 frame (round [] waiting start refl)
        after_frame.1)
      after_frame.2
