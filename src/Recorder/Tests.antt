-- ===== src/Recorder/Tests.antt =====
-- src/recorder/RaspiVidBalls.c: some command lines, with a reader of decimal digits for `sscanf`.
use Prim.Native.String.{String}
use Prim.Native.Char.{code}
use foosball_tracker.Common.{
  ℕ, ◌+◌, ◌-◌, ◌*◌, leb, ◌&&◌, if◌then◌else◌, ◌≡◌, refl, inl, true, List, [], ◌∷◌, Option, none,
  some,
}
use foosball_tracker.Common.Int.{ℤ, pos}
use foosball_tracker.Recorder.Cli.{get_command_id, map_xref}
use foosball_tracker.Recorder.Settings.{MmalCodes, VidState, default_status}
use foosball_tracker.Recorder.Options.{Scanf, run_command, with_parameter, read_number, read_slices}
use foosball_tracker.Recorder.CommandLine.{
  OtherParsers, parse_cmdline, parse_args, parse_option, run_option,
}
use foosball_tracker.Recorder.CommandLine.Sane.{AreCodes, IsSane}
use foosball_tracker.Recorder.CommandLine.Sanity.{default_status-IsSane, parse_cmdline-IsSane}
use foosball_tracker.Recorder.CommandLine.Timed.{parse_before, parse_cmdline_timed}

abbrev digits_from : ℕ → String → Option ℤ
digits_from v String.[] = some (pos v)
digits_from v (String.◌∷◌ c s) =
    if leb 48 (code c) && leb (code c) 57 then digits_from (v * 10 + (code c - 48)) s else none

abbrev digits : Scanf
digits = record {
  unsigned = digits_from 0;
  signed = digits_from 0;
  pair = λ s. (digits_from 0 s, none);
}

abbrev no_others : OtherParsers (Unit {0})
no_others = record {
  camera = λ p arg second. some (0, p);
  common = λ p arg second. some (0, p);
  preview = λ p arg second. some (0, p);
  tex = λ p arg second. some (0, p);
}

abbrev codes : MmalCodes
codes = record {
  encoding_h264 = pos 1;
  encoding_mjpeg = pos 2;
  profile_baseline = pos 25;
  profile_main = pos 26;
  profile_high = pos 28;
  level_4 = pos 27;
  level_41 = pos 28;
  level_42 = pos 29;
  refresh_cyclic = pos 0;
  refresh_adaptive = pos 1;
  refresh_both = pos 2;
  refresh_cyclic_mrows = pos 3;
}

codes-AreCodes : AreCodes codes
codes-AreCodes = record { high = λ e. cc; four = λ e. cc }

abbrev line : List String
line = "-sl" ∷ "4" ∷ "--profile" ∷ "unheard" ∷ "-sp" ∷ []

line_run :
    (s : VidState) × (parse_cmdline digits codes no_others line (default_status codes) tt
      ≡ some (true, s, tt))
unfolding parse_cmdline parse_args parse_option run_option run_command with_parameter read_number
    read_slices get_command_id map_xref default_status
line_run = (_, refl)

parse_cmdline-IsSane_example : IsSane line_run.0
parse_cmdline-IsSane_example =
    parse_cmdline-IsSane digits codes no_others codes-AreCodes line (default_status codes)
      line_run.0 tt tt (default_status-IsSane codes codes-AreCodes) line_run.1

-- A bitrate before the timed option.
bitrate_before :
    (s : VidState) × (parse_before digits codes no_others 0
        ("-b" ∷ "7" ∷ [])
        "-td"
        (default_status codes)
        tt
      ≡ some (true, 0, s, tt))
unfolding parse_before parse_option run_option run_command with_parameter read_number get_command_id
    default_status
bitrate_before = (_, refl)

parse_cmdline_timed_example :
    parse_cmdline digits codes no_others ("-b" ∷ "7" ∷ "-td" ∷ []) (default_status codes) tt ≡ none
parse_cmdline_timed_example =
    parse_cmdline_timed digits codes no_others ("-b" ∷ "7" ∷ []) "-td" (default_status codes)
      bitrate_before.0 tt tt (inl refl) bitrate_before.1
