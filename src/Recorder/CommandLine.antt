-- ===== src/Recorder/CommandLine.antt =====
-- src/recorder/RaspiVidBalls.c: the loop of `parse_cmdline`. The parsers of the other settings are
-- parameters.
pub mod Sane
pub mod KeepsSane
pub mod Sanity
pub mod Total
pub mod Timed
use Prim.Native.String.{String}
use Prim.Native.Char.{code}
use text.Mathlib.Text.{◌==◌ as str_eq}
use foosball_tracker.Common.{
  ℕ, zero, suc, ◌+◌, ◌-◌, ◌==◌, ltb, leb, if◌then◌else◌, Bool, true, false, not, ◌&&◌, ◌||◌, List,
  [], ◌∷◌, Option, none, some, ◌>>=◌,
}
use foosball_tracker.Common.Int.{ℤ, pos, negsuc, eqb_ℤ, ltb_ℤ}
use foosball_tracker.Recorder.Cli.{get_command_id, map_xref}
use foosball_tracker.Recorder.Settings.{
  WaitMethod, wait_method_none, wait_method_timed, wait_method_keypress, wait_method_signal,
  wait_method_forever, Command, bitrate, timeout, demo_mode, framerate, preview_enc, intra_period,
  profile, timed, signal, keypress, initial_state, qp, inline_headers, segment_file, segment_wrap,
  segment_start, split_wait, circular, imv, intra_refresh_type, flush, save_pts, codec, level, raw,
  raw_format, net_listen, sps_timings, slices, cmdline_commands, MmalCodes, profile_map, level_map,
  initial_map, intra_refresh_map, raw_output_fmt_map, VidState,
}
use foosball_tracker.Recorder.Options.{Scanf, Outcome, run_command}

-- The parsers of the camera, common, preview and GL settings, over the state that they share. Each
-- says how many parameters it used, the option included, or is none where the process ends.
pub record OtherParsers (P : Type 0) : Type 0 where
  pub camera : P → String → Option String → Option (ℕ × P)
  pub common : P → String → Option String → Option (ℕ × P)
  pub preview : P → String → Option String → Option (ℕ × P)
  pub tex : P → String → Option String → Option (ℕ × P)

abbrev pub is_missing : Option String → Bool
is_missing none = true
is_missing (some a) = false

-- `argv[i][0] == '-'` and `&argv[i][1]`
abbrev pub option_of : String → Option String
option_of String.[] = none
option_of (String.◌∷◌ c s) = if code c == 45 then some s else none

abbrev pub first_of : List String → Option String
first_of [] = none
first_of (a ∷ args) = some a

-- One parser after the other, until one used the option.
unfoldable pub try_others :
    {P : Type 0} → OtherParsers P → P → String → Option String → Option (ℕ × P)
try_others others p arg second = others.camera p arg second >>= λ r1.
    let next1 = others.common r1.1 arg second >>= λ r2.
    let next2 = others.preview r2.1 arg second >>= λ r3.
    if not (r3.0 == 0) then some r3 else others.tex r3.1 arg second in
    if not (r2.0 == 0) then some r2 else next2 in
    if not (r1.0 == 0) then some r1 else next1

module _ {P : Type 0} (sc : Scanf) (m : MmalCodes) (others : OtherParsers P) where
  -- The default case
  unfoldable pub other_option :
      P → VidState → String → Option String → Option (Bool × ℕ × VidState × P)
  unfolding try_others
  other_option p s arg second =
      try_others others p arg second >>= λ r. some (not (r.0 == 0), r.0 - 1, s, r.1)

  -- One round of the loop, for the option `arg` behind its dash, what the table says of it, and the
  -- text that follows it.
  unfoldable pub run_option :
      P
      → VidState
      → String
      → Option (Command × ℕ)
      → Option String
      → Option (Bool × ℕ × VidState × P)
  unfolding run_command other_option
  run_option p s arg none next = other_option p s arg next
  run_option p s arg (some (command, num_parameters)) next =
      if ltb 0 num_parameters && is_missing next
      then some (true, 0, s, p)
      else run_command sc m command next s >>= λ r. some (r.0, r.1, r.2, p)

  -- The same for an argument, which is not valid where it has no dash.
  unfoldable pub parse_option :
      P → VidState → Option String → Option String → Option (Bool × ℕ × VidState × P)
  unfolding run_option
  parse_option p s none next = some (false, 0, s, p)
  parse_option p s (some arg) next = run_option p s arg (get_command_id cmdline_commands arg) next

  -- The loop over the arguments behind the program's name, of which the first so many were consumed
  -- by the option before them. No argument is null.
  unfoldable pub parse_args : ℕ → List String → VidState → P → Option (Bool × VidState × P)
  unfolding parse_option
  parse_args skip [] s p = some (true, s, p)
  parse_args (suc skip) (a ∷ args) s p = parse_args skip args s p
  parse_args zero (a ∷ args) s p = parse_option p s (option_of a) (first_of args) >>= λ r.
      let rest = parse_args r.1 args r.2 r.3 in if r.0 then rest else some (false, r.2, r.3)

  -- `parse_cmdline` without the end, which copies the preview window: true for the result 0.
  unfoldable pub parse_cmdline : List String → VidState → P → Option (Bool × VidState × P)
  unfolding parse_args
  parse_cmdline args s p = parse_args 0 args s p
