-- ===== src/Recorder/Settings.antt =====
-- src/recorder/RaspiVidBalls.c: the settings that the command line sets, and their tables.
use Prim.Native.String.{String}
use foosball_tracker.Common.{ℕ, Bool, true, false, List, [], ◌∷◌, Option, none}
use foosball_tracker.Common.Int.{ℤ, pos, negsuc}
use foosball_tracker.Recorder.Cli.{CommandEntry, Xref}

-- `WAIT_METHOD_...`
pub data WaitMethod : Type 0 where
  wait_method_none : WaitMethod
  wait_method_timed : WaitMethod
  wait_method_keypress : WaitMethod
  wait_method_signal : WaitMethod
  wait_method_forever : WaitMethod

-- The command ids, in the order of the enumeration.
pub data Command : Type 0 where
  bitrate : Command
  timeout : Command
  demo_mode : Command
  framerate : Command
  preview_enc : Command
  intra_period : Command
  profile : Command
  timed : Command
  signal : Command
  keypress : Command
  initial_state : Command
  qp : Command
  inline_headers : Command
  segment_file : Command
  segment_wrap : Command
  segment_start : Command
  split_wait : Command
  circular : Command
  imv : Command
  intra_refresh_type : Command
  flush : Command
  save_pts : Command
  codec : Command
  level : Command
  raw : Command
  raw_format : Command
  net_listen : Command
  sps_timings : Command
  slices : Command

abbrev entry : Command → String → String → ℕ → CommandEntry Command
entry id command abbreviation n = record {
  id = id;
  command = command;
  abbreviation = abbreviation;
  num_parameters = n;
}

-- `cmdline_commands`
abbrev pub cmdline_commands : List (CommandEntry Command)
cmdline_commands =
    entry bitrate "-bitrate" "b" 1
    ∷ entry timeout "-timeout" "t" 1
    ∷ entry demo_mode "-demo" "d" 1
    ∷ entry framerate "-framerate" "fps" 1
    ∷ entry preview_enc "-penc" "e" 0
    ∷ entry intra_period "-intra" "g" 1
    ∷ entry profile "-profile" "pf" 1
    ∷ entry timed "-timed" "td" 0
    ∷ entry signal "-signal" "s" 0
    ∷ entry keypress "-keypress" "k" 0
    ∷ entry initial_state "-initial" "i" 1
    ∷ entry qp "-qp" "qp" 1
    ∷ entry inline_headers "-inline" "ih" 0
    ∷ entry segment_file "-segment" "sg" 1
    ∷ entry segment_wrap "-wrap" "wr" 1
    ∷ entry segment_start "-start" "sn" 1
    ∷ entry split_wait "-split" "sp" 0
    ∷ entry circular "-circular" "c" 0
    ∷ entry imv "-vectors" "x" 1
    ∷ entry intra_refresh_type "-irefresh" "if" 1
    ∷ entry flush "-flush" "fl" 0
    ∷ entry save_pts "-save-pts" "pts" 1
    ∷ entry codec "-codec" "cd" 1
    ∷ entry level "-level" "lev" 1
    ∷ entry raw "-raw" "r" 1
    ∷ entry raw_format "-raw-format" "rf" 1
    ∷ entry net_listen "-listen" "l" 0
    ∷ entry sps_timings "-spstimings" "stm" 0
    ∷ entry slices "-slices" "sl" 1
    ∷ []

-- The codes of the MMAL headers.
pub record MmalCodes : Type 0 where
  pub encoding_h264 : ℤ
  pub encoding_mjpeg : ℤ
  pub profile_baseline : ℤ
  pub profile_main : ℤ
  pub profile_high : ℤ
  pub level_4 : ℤ
  pub level_41 : ℤ
  pub level_42 : ℤ
  pub refresh_cyclic : ℤ
  pub refresh_adaptive : ℤ
  pub refresh_both : ℤ
  pub refresh_cyclic_mrows : ℤ

abbrev xref : String → ℤ → Xref
xref mode mmal_mode = record { mode = mode; mmal_mode = mmal_mode }

-- The tables of values.
abbrev pub profile_map : MmalCodes → List Xref
profile_map m =
    xref "baseline" m.profile_baseline
    ∷ xref "main" m.profile_main
    ∷ xref "high" m.profile_high
    ∷ []

abbrev pub level_map : MmalCodes → List Xref
level_map m = xref "4" m.level_4 ∷ xref "4.1" m.level_41 ∷ xref "4.2" m.level_42 ∷ []

abbrev pub initial_map : List Xref
initial_map = xref "record" (pos 0) ∷ xref "pause" (pos 1) ∷ []

abbrev pub intra_refresh_map : MmalCodes → List Xref
intra_refresh_map m =
    xref "cyclic" m.refresh_cyclic
    ∷ xref "adaptive" m.refresh_adaptive
    ∷ xref "both" m.refresh_both
    ∷ xref "cyclicrows" m.refresh_cyclic_mrows
    ∷ []

abbrev pub raw_output_fmt_map : List Xref
raw_output_fmt_map = xref "yuv" (pos 0) ∷ xref "rgb" (pos 1) ∷ xref "gray" (pos 2) ∷ []

-- `RASPIVID_STATE`, what the command line sets of it.
pub record VidState : Type 0 where
  pub bitrate : ℤ
  pub timeout : ℤ
  pub demo_mode : Bool
  pub demo_interval : ℤ
  pub framerate : ℤ
  pub immutable_input : Bool
  pub intraperiod : ℤ
  pub profile : ℤ
  pub on_time : ℤ
  pub off_time : ℤ
  pub wait_method : WaitMethod
  pub b_capturing : ℤ
  pub quantisation_parameter : ℤ
  pub b_inline_headers : Bool
  pub segment_size : ℤ
  pub segment_wrap : ℤ
  pub segment_number : ℤ
  pub split_wait : Bool
  pub b_circular_buffer : Bool
  pub inline_motion_vectors : Bool
  pub imv_filename : Option String
  pub intra_refresh_type : ℤ
  pub flush_buffers : Bool
  pub save_pts : Bool
  pub pts_filename : Option String
  pub encoding : ℤ
  pub level : ℤ
  pub raw_output : Bool
  pub raw_filename : Option String
  pub raw_output_fmt : ℤ
  pub net_listen : Bool
  pub slices : ℤ
  pub add_sps_timing : Bool

-- `default_status` for these fields
unfoldable pub default_status : MmalCodes → VidState
default_status m = record {
  bitrate = pos 17_000_000;
  timeout = negsuc 0;
  demo_mode = false;
  demo_interval = pos 250;
  framerate = pos 30;
  immutable_input = true;
  intraperiod = negsuc 0;
  profile = m.profile_high;
  on_time = pos 5000;
  off_time = pos 5000;
  wait_method = wait_method_none;
  b_capturing = pos 0;
  quantisation_parameter = pos 0;
  b_inline_headers = false;
  segment_size = pos 0;
  segment_wrap = pos 0;
  segment_number = pos 1;
  split_wait = false;
  b_circular_buffer = false;
  inline_motion_vectors = false;
  imv_filename = none;
  intra_refresh_type = negsuc 0;
  flush_buffers = false;
  save_pts = false;
  pts_filename = none;
  encoding = m.encoding_h264;
  level = m.level_4;
  raw_output = false;
  raw_filename = none;
  raw_output_fmt = pos 0;
  net_listen = false;
  slices = pos 1;
  add_sps_timing = false;
}
