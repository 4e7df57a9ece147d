-- ===== src/Recorder/WholeCommandLine/Tests.antt =====
-- src/recorder/RaspiVidBalls.c: a command line of options of all parsers.
use Prim.Native.String.{String}
use foosball_tracker.Common.{
  ℕ, ◌≡◌, sym, ap, subst, some-inj, true, false, List, [], ◌∷◌, Option, none, some, Returns,
}
use foosball_tracker.Common.Int.{pos}
use foosball_tracker.Recorder.Cli.{get_command_id}
use foosball_tracker.Recorder.Settings.{Command, timed, cmdline_commands, MmalCodes, default_status}
use foosball_tracker.Recorder.Options.{Scanf}
use foosball_tracker.Recorder.Parameters.{ParamScanf}
use foosball_tracker.Recorder.CommonSettings.{common_defaults, help, verbose}
use foosball_tracker.Recorder.Uses.{NotHelp}
use foosball_tracker.Recorder.WindowSettings.{preview_defaults, tex_defaults}
use foosball_tracker.Recorder.CommandLine.Sane.{AreCodes, IsSane}
use foosball_tracker.Recorder.CommandLine.Sanity.{default_status-IsSane}
use foosball_tracker.Recorder.CommandLine.Total.{NotTimedLast}
use foosball_tracker.Common.Fixed.{fixed}
use foosball_tracker.Recorder.Camera.Settings.{CameraSettings}
use foosball_tracker.Recorder.Camera.Parser.{CameraScanf}
use foosball_tracker.Recorder.WholeCommandLine.{Settings, parse_recorder}
use foosball_tracker.Recorder.WholeCommandLine.Complete.{NoHelp, HasWindow, parse_recorder-Returns}

abbrev zeros : Scanf
zeros = record { unsigned = λ s. some (pos 0); signed = λ s. none; pair = λ s. (none, none) }

abbrev numbers : ParamScanf
numbers = record { unsigned = λ s. some (pos 7); window = λ s. some (pos 1 ∷ pos 2 ∷ []) }

abbrev codes : MmalCodes
codes = record {
  encoding_h264 = pos 1;
  encoding_mjpeg = pos 2;
  profile_baseline = pos 25;
  profile_main = pos 26;
  profile_high = pos 28;
  level_4 = pos 27;
  level_41 = pos 28;
  level_42 = pos 29;
  refresh_cyclic = pos 0;
  refresh_adaptive = pos 1;
  refresh_both = pos 2;
  refresh_cyclic_mrows = pos 3;
}

codes-AreCodes : AreCodes codes
codes-AreCodes = record { high = λ e. cc; four = λ e. cc }

abbrev camera_numbers : CameraScanf ℕ
camera_numbers = record {
  signed = λ s. some (pos 7);
  pair = λ s. [];
  one = λ s. none;
  two = λ s. none;
  four = λ s. some record { x = 0; y = 500; w = 500; h = 700 };
  extras = λ s. [];
  bitmask = λ s. none;
  bit_or = λ a b. b;
  mmal = λ name. pos 1;
  text_length = 256;
}

abbrev camera : CameraSettings ℕ ℕ
camera = record {
  sharpness = pos 0;
  contrast = pos 0;
  brightness = pos 50;
  saturation = pos 0;
  iso = pos 0;
  video_stabilisation = false;
  exposure_compensation = pos 0;
  exposure_mode = pos 1;
  exposure_meter_mode = pos 1;
  awb_mode = pos 1;
  image_effect = pos 1;
  colour_effects = record { enable = pos 0; u = pos 128; v = pos 128 };
  flicker_avoid_mode = pos 1;
  rotation = pos 0;
  hflip = false;
  vflip = false;
  roi = record { x = 0; y = 0; w = 1000; h = 1000 };
  shutter_speed = pos 0;
  awb_gains_r = 0;
  awb_gains_b = 0;
  drc_level = pos 1;
  stats_pass = false;
  enable_annotate = pos 0;
  annotate_string = [];
  annotate_text_size = pos 0;
  annotate_text_colour = pos 0;
  annotate_bg_colour = pos 0;
  annotate_justify = pos 0;
  annotate_x = pos 0;
  annotate_y = pos 0;
  stereo_mode = record { mode = pos 1; decimate = false; swap_eyes = false };
  analog_gain = 0;
  digital_gain = 0;
  settings = false;
}

abbrev settings : Settings (CameraSettings ℕ ℕ)
settings = record {
  camera = camera;
  common = common_defaults;
  preview = preview_defaults;
  tex = tex_defaults;
}

abbrev line : List String
line = "-hf" ∷ "-p" ∷ "1,2,3,4" ∷ "-v" ∷ []

line-NotTimedLast : NotTimedLast line
unfolding get_command_id
line-NotTimedLast = λ (arg, e, is_timed).
    let same : "v" ≡ arg = some-inj e in
    let found : Path (Option (Command × ℕ)) none (some (timed, 0)) =
      subst (λ a. get_command_id cmdline_commands a ≡ some (timed, 0)) (sym same) is_timed in
    cc

hf-NotHelp : NotHelp "hf"
unfolding get_command_id
hf-NotHelp = λ e. cc

p-NotHelp : NotHelp "p"
unfolding get_command_id
p-NotHelp = λ e. cc

v-NotHelp : NotHelp "v"
unfolding get_command_id
v-NotHelp = λ e. let clash : verbose ≡ help = ap (λ c. c.0) (some-inj e) in cc

line-NoHelp : NoHelp line
line-NoHelp = (
  λ arg e. subst NotHelp (some-inj e) hf-NotHelp,
  (
    λ arg e. subst NotHelp (some-inj e) p-NotHelp,
    (λ arg e. absurd (cc), (λ arg e. subst NotHelp (some-inj e) v-NotHelp, tt)),
  ),
)

parse_recorder-Returns_example :
    Returns
      (λ r. r.0 ≡ true → IsSane r.1 × HasWindow r.2)
      (parse_recorder zeros codes fixed camera_numbers numbers line (default_status codes) settings)
parse_recorder-Returns_example =
    parse_recorder-Returns zeros codes codes-AreCodes fixed camera_numbers numbers line
      (default_status codes) settings line-NotTimedLast line-NoHelp
      (default_status-IsSane codes codes-AreCodes)
