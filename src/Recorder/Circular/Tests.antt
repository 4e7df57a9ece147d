-- ===== src/Recorder/Circular/Tests.antt =====
-- src/recorder/RaspiVidBalls.c: a buffer that wraps.
use foosball_tracker.Common.{ℕ, inl, arith, true, none, ◌≡◌, refl, false, [], ◌∷◌, some, replicate}
use foosball_tracker.Common.Int.{pos}
use foosball_tracker.Recorder.Settings.{MmalCodes, VidState, wait_method_keypress, default_status}
use foosball_tracker.Recorder.Circular.SetUp.{ready, overflow, bits, set_up_circular}
use foosball_tracker.Recorder.Circular.SetUp.Short.{no_room, set_up_short}
use foosball_tracker.Recorder.Circular.{Circle, push_data, copy_into, copy_to_end}

abbrev circle : Circle
circle = record {
  cb_buff = 0 ∷ 0 ∷ 0 ∷ 7 ∷ 8 ∷ [];
  cb_len = 5;
  cb_wptr = 3;
  cb_wrap = false;
  header_bytes = replicate 29 0;
  header_wptr = 0;
}

wraps :
    (c : Circle) × (push_data circle (1 ∷ 2 ∷ 3 ∷ []) ≡ some c)
    × (c.cb_buff ≡ 3 ∷ 0 ∷ 0 ∷ 1 ∷ 2 ∷ [])
unfolding push_data copy_into copy_to_end
wraps = (_, refl, refl)

abbrev codes : MmalCodes
codes = record {
  encoding_h264 = pos 1;
  encoding_mjpeg = pos 2;
  profile_baseline = pos 66;
  profile_main = pos 77;
  profile_high = pos 100;
  level_4 = pos 40;
  level_41 = pos 41;
  level_42 = pos 42;
  refresh_cyclic = pos 0;
  refresh_adaptive = pos 1;
  refresh_both = pos 2;
  refresh_cyclic_mrows = pos 3;
}

-- A circular recording for so many milliseconds, at the default bit rate
abbrev for_time : ℕ → VidState
for_time milliseconds = record (default_status codes) {
  timeout = pos milliseconds;
  wait_method = wait_method_keypress;
}

set_up_short_example :
    (set_up_circular (λ size. some []) true (for_time 900) circle ≡ ready (no_room circle))
    × (push_data (no_room circle) (7 ∷ []) ≡ none)
unfolding default_status
set_up_short_example =
    set_up_short (λ size. some []) (for_time 900) circle 16_999_999 899 7 [] refl refl (omega arith)
      (inl refl) refl

-- At the default bit rate the size overflows from 127 seconds on.
two_minutes_overflow : set_up_circular (λ size. some []) true (for_time 127_000) circle ≡ overflow
unfolding set_up_circular bits default_status
two_minutes_overflow = refl
