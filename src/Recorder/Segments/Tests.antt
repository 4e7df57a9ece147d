-- ===== src/Recorder/Segments/Tests.antt =====
-- src/recorder/RaspiVidBalls.c: a recording in segments.
use foosball_tracker.Common.{ℕ, ◌≡◌, refl, true, false, List, [], ◌∷◌, none, some, Returns}
use foosball_tracker.Common.Int.{pos, negsuc, ◌+ℤ◌}
use foosball_tracker.Recorder.Settings.{MmalCodes, default_status}
use foosball_tracker.Recorder.KeyFrames.{Buffer}
use foosball_tracker.Recorder.OpenFile.{file, System, open_filename}
use foosball_tracker.Recorder.OpenFile.Conversion.{IsExpanded, open_filename-IsExpanded}
use foosball_tracker.Recorder.Segments.{
  Recording, same_file, next_number, segment_buffer, must_split,
}
use foosball_tracker.Recorder.Segments.Files.{IsQuiet, collected}
use foosball_tracker.Recorder.Segments.Noting.{CanWrite}
use foosball_tracker.Recorder.Segments.Splitting.{Answers, OpensNew}
use foosball_tracker.Recorder.Segments.Complete.{IsStored, segment_buffer-IsStored}
use foosball_tracker.Recorder.Segments.Runs.{Call, segment_buffers}

abbrev codes : MmalCodes
codes = record {
  encoding_h264 = pos 1;
  encoding_mjpeg = pos 2;
  profile_baseline = pos 66;
  profile_main = pos 77;
  profile_high = pos 100;
  level_4 = pos 40;
  level_41 = pos 41;
  level_42 = pos 42;
  refresh_cyclic = pos 0;
  refresh_adaptive = pos 1;
  refresh_both = pos 2;
  refresh_cyclic_mrows = pos 3;
}

-- "v%d"
abbrev name : List ℕ
name = b'v' ∷ b'%' ∷ b'd' ∷ []

abbrev system : System
system = record {
  print_number = λ name n. elim n [ pos k ↦ b'v' ∷ k ∷ [] | negsuc k ↦ b'v' ∷ [] ];
  print_time = λ name. name;
  read_port = λ name. none;
  is_address = λ name. false;
  fopen = λ name. true;
  socket = false;
  bind = false;
  listen = false;
  accept = false;
  connect = false;
  fdopen = false;
}

abbrev recording : Recording
recording = record {
  state = record (default_status codes) {
    segment_size = pos 100;
    segment_wrap = pos 5;
    segment_number = pos 1;
    b_inline_headers = true;
  };
  filename = some name;
  imv_filename = none;
  pts_filename = none;
  split_now = false;
  frame = 0;
  starttime = pos 0;
  lasttime = pos 0;
  base_time = none;
  abort = false;
  video = record {
    current = some (record { target = file (b'v' ∷ 1 ∷ []); contents = [] });
    closed = [];
  };
  imv = record { current = none; closed = [] };
  pts = record { current = none; closed = [] };
}

abbrev frame_data : Buffer
frame_data = record {
  bytes = 1 ∷ 2 ∷ [];
  config = false;
  side_info = false;
  keyframe = false;
  frame_end = true;
  pts = some (pos 7);
}

abbrev header_data : Buffer
header_data = record frame_data { bytes = 9 ∷ []; config = true; pts = none }

can_write : CanWrite recording
unfolding default_status
can_write = record { video = tt; imv = λ used. absurd (cc); pts = λ used. absurd (cc) }

name-IsQuiet : IsQuiet system recording.state (some name)
unfolding open_filename
name-IsQuiet (pos k) code e = cc
name-IsQuiet (negsuc k) code e = cc

answers : Answers system recording
answers = record { video = name-IsQuiet; imv = tt; pts = tt }

abbrev calls : List Call
calls =
    record { sys = system; first = 0; now = 0; wrote = 2; buffer = frame_data }
    ∷ record { sys = system; first = 0; now = 500; wrote = 1; buffer = header_data }
    ∷ []

-- The second segment is number 2 and begins with the header.
second_segment :
    (r : Recording) × (segment_buffers calls recording ≡ some r)
    × (r.state.segment_number ≡ pos 2)
    × (r.video.current ≡ some (record { target = file (b'v' ∷ 2 ∷ []); contents = 9 ∷ [] }))
    × (collected r.video ≡ 1 ∷ 2 ∷ 9 ∷ [])
unfolding segment_buffers segment_buffer open_filename default_status ◌+ℤ◌
second_segment = (_, refl, refl, refl, refl)

-- With one segment before the wrap point the second one overwrites the first.
overwritten :
    (r : Recording) × (segment_buffers calls
        (record recording { state = record (recording.state) { segment_wrap = pos 1 } })
      ≡ some r)
    × (collected r.video ≡ 9 ∷ [])
unfolding segment_buffers segment_buffer open_filename default_status ◌+ℤ◌
overwritten = (_, refl, refl)

header_new : must_split recording header_data 0 500 ≡ true → OpensNew system recording
unfolding open_filename same_file default_status next_number ◌+ℤ◌
header_new splits = record { video = (refl, tt); imv = tt; pts = tt }

segment_buffer-IsStored_example :
    Returns
      (IsStored 500 1 header_data (must_split recording header_data 0 500) recording)
      (segment_buffer system 0 500 1 header_data recording)
segment_buffer-IsStored_example =
    segment_buffer-IsStored system 0 500 1 header_data recording can_write answers header_new

open_filename-IsExpanded_example :
    IsExpanded system recording.state name (open_filename system recording.state name)
open_filename-IsExpanded_example = open_filename-IsExpanded system recording.state name
