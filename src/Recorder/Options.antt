-- ===== src/Recorder/Options.antt =====
-- src/recorder/RaspiVidBalls.c: the cases of the options in `parse_cmdline`. `sscanf` is a parameter.
use Prim.Native.String.{String}
use Prim.Native.Char.{code}
use text.Mathlib.Text.{◌==◌ as str_eq}
use foosball_tracker.Common.{
  ℕ, ◌==◌, if◌then◌else◌, Bool, true, false, not, ◌&&◌, ◌||◌, Option, none, some, ◌>>=◌,
}
use foosball_tracker.Common.Int.{ℤ, pos, negsuc, eqb_ℤ, ltb_ℤ}
use foosball_tracker.Recorder.Cli.{map_xref}
use foosball_tracker.Recorder.Settings.{
  WaitMethod, wait_method_none, wait_method_timed, wait_method_keypress, wait_method_signal,
  wait_method_forever, Command, bitrate, timeout, demo_mode, framerate, preview_enc, intra_period,
  profile, timed, signal, keypress, initial_state, qp, inline_headers, segment_file, segment_wrap,
  segment_start, split_wait, circular, imv, intra_refresh_type, flush, save_pts, codec, level, raw,
  raw_format, net_listen, sps_timings, slices, MmalCodes, profile_map, level_map, initial_map,
  intra_refresh_map, raw_output_fmt_map, VidState,
}

-- What `sscanf` reads: the int that "%u" or "%d" stores, and both ints of "%u,%u".
pub record Scanf : Type 0 where
  pub unsigned : String → Option ℤ
  pub signed : String → Option ℤ
  pub pair : String → Option ℤ × Option ℤ

-- Whether the command line is still valid, how often `i++` was done, and the state.
abbrev pub Outcome : Type 0
Outcome = Bool × ℕ × VidState

abbrev pub accept : VidState → Outcome
accept s = (true, 0, s)

abbrev pub consume : VidState → Outcome
consume s = (true, 1, s)

abbrev pub reject : VidState → Outcome
reject s = (false, 0, s)

-- `waitMethod = w; if (timeout == -1) timeout = 0;`
abbrev pub wait_by : WaitMethod → VidState → VidState
wait_by w s = record s {
  wait_method = w;
  timeout = if eqb_ℤ s.timeout (negsuc 0) then pos 0 else s.timeout;
}

abbrev pub at_least : ℤ → ℤ → ℤ
at_least least v = if ltb_ℤ v least then least else v

-- `map_xref`, with a value in place of -1
abbrev pub known_or : ℤ → ℤ → ℤ
known_or other v = if eqb_ℤ v (negsuc 0) then other else v

abbrev is_none : WaitMethod → Bool
is_none wait_method_none = true
is_none _ = false

abbrev pub is_empty : String → Bool
is_empty String.[] = true
is_empty _ = false

abbrev pub starts_option : String → Bool
starts_option String.[] = false
starts_option (String.◌∷◌ c s) = code c == 45

-- `if (sscanf(argv[i + 1], ..) == 1) { ..; i++; } else valid = 0;`
unfoldable pub read_number : Option ℤ → (ℤ → VidState) → VidState → Outcome
read_number none store s = reject s
read_number (some v) store s = consume (store v)

-- `int len = strlen(argv[i + 1]); if (len) { ..; i++; } else valid = 0;`, where `malloc` succeeds.
unfoldable pub read_name : String → VidState → VidState → Outcome
read_name name stored s = if is_empty name then reject s else consume stored

-- `CommandTimed`
unfoldable pub read_times : Option ℤ × Option ℤ → VidState → Outcome
read_times (none, _) s = reject s
read_times (some on, none) s = reject (record s { on_time = on })
read_times (some on, some off) s = consume (
    wait_by wait_method_timed
      (record s { on_time = at_least (pos 1000) on; off_time = at_least (pos 1000) off }))

-- `CommandSegmentStart`
unfoldable pub read_start : Option ℤ → VidState → Outcome
read_start none s = reject s
read_start (some v) s =
    if eqb_ℤ s.segment_wrap (pos 0) || not (ltb_ℤ s.segment_wrap v)
    then consume (record s { segment_number = v })
    else reject (record s { segment_number = v })

-- `CommandSlices`
unfoldable pub read_slices : Option ℤ → VidState → Outcome
read_slices none s = reject s
read_slices (some v) s =
    if ltb_ℤ (pos 0) v then consume (record s { slices = v }) else reject (record s { slices = v })

-- `CommandCodec`
unfoldable pub read_codec : MmalCodes → String → VidState → Outcome
read_codec m a s =
    if is_empty a
    then reject s
    else if str_eq a "H264"
    then consume (record s { encoding = m.encoding_h264 })
    else if str_eq a "MJPEG"
    then consume (record s { encoding = m.encoding_mjpeg })
    else (false, 1, s)

-- `CommandRawFormat`
unfoldable pub read_raw_format : String → VidState → Outcome
read_raw_format a s = (
  not (eqb_ℤ (map_xref a raw_output_fmt_map) (negsuc 0)),
  1,
  record s { raw_output_fmt = map_xref a raw_output_fmt_map },
)

-- The interval of `CommandDemoMode`
unfoldable pub read_interval : Option ℤ → VidState → Outcome
read_interval none s = reject s
read_interval (some v) s =
    consume (record s { demo_interval = if eqb_ℤ v (pos 0) then pos 250 else v; demo_mode = true })

-- The cases that look at `argv[i + 1]`, which here is the text `a`.
unfoldable pub with_parameter : Scanf → MmalCodes → Command → String → VidState → Outcome
unfolding read_number read_name read_times read_start read_slices read_codec read_raw_format
with_parameter sc m bitrate a s = read_number (sc.unsigned a) (λ v. record s { bitrate = v }) s
with_parameter sc m timeout a s =
    read_number (sc.signed a)
      (λ v. record s {
        timeout = v;
        wait_method =
            if eqb_ℤ v (pos 0) && is_none s.wait_method then wait_method_forever else s.wait_method;
      })
      s
with_parameter sc m framerate a s = read_number (sc.unsigned a) (λ v. record s { framerate = v }) s
with_parameter sc m intra_period a s =
    read_number (sc.unsigned a) (λ v. record s { intraperiod = v }) s
with_parameter sc m qp a s =
    read_number (sc.unsigned a) (λ v. record s { quantisation_parameter = v }) s
with_parameter sc m profile a s =
    consume (record s { profile = known_or m.profile_high (map_xref a (profile_map m)) })
with_parameter sc m timed a s = read_times (sc.pair a) s
with_parameter sc m initial_state a s =
    consume (record s { b_capturing = known_or (pos 0) (map_xref a initial_map) })
with_parameter sc m segment_file a s =
    read_number (sc.unsigned a) (λ v. record s { segment_size = v; b_inline_headers = true }) s
with_parameter sc m segment_wrap a s =
    read_number (sc.unsigned a) (λ v. record s { segment_wrap = v }) s
with_parameter sc m segment_start a s = read_start (sc.unsigned a) s
with_parameter sc m imv a s =
    read_name a (record s { inline_motion_vectors = true; imv_filename = some a })
      (record s { inline_motion_vectors = true })
with_parameter sc m intra_refresh_type a s =
    consume (record s { intra_refresh_type = map_xref a (intra_refresh_map m) })
with_parameter sc m save_pts a s =
    read_name a (record s { save_pts = true; pts_filename = some a }) (record s { save_pts = true })
with_parameter sc m codec a s = read_codec m a s
with_parameter sc m level a s =
    consume (record s { level = known_or m.level_4 (map_xref a (level_map m)) })
with_parameter sc m raw a s =
    read_name a (record s { raw_output = true; raw_filename = some a })
      (record s { raw_output = true })
with_parameter sc m raw_format a s = read_raw_format a s
with_parameter sc m slices a s = read_slices (sc.signed a) s
with_parameter sc m _ a s = accept s

-- `CommandDemoMode`, whose parameter may be missing
unfoldable pub demo : Scanf → Option String → VidState → Outcome
unfolding read_interval
demo sc none s = accept (record s { demo_mode = true })
demo sc (some a) s =
    if starts_option a
    then accept (record s { demo_mode = true })
    else read_interval (sc.unsigned a) s

-- The cases that have a body of their own without `argv[i + 1]`; in the others a missing text is a
-- fault, the null pointer that `argv` ends with.
unfoldable pub run_command : Scanf → MmalCodes → Command → Option String → VidState → Option Outcome
unfolding with_parameter demo
run_command sc m preview_enc next s = some (accept (record s { immutable_input = false }))
run_command sc m inline_headers next s = some (accept (record s { b_inline_headers = true }))
run_command sc m keypress next s = some (accept (wait_by wait_method_keypress s))
run_command sc m signal next s = some (accept (wait_by wait_method_signal s))
run_command sc m split_wait next s =
    some (accept (record s { b_inline_headers = true; split_wait = true }))
run_command sc m circular next s = some (accept (record s { b_circular_buffer = true }))
run_command sc m flush next s = some (accept (record s { flush_buffers = true }))
run_command sc m net_listen next s = some (accept (record s { net_listen = true }))
run_command sc m sps_timings next s = some (accept (record s { add_sps_timing = true }))
run_command sc m demo_mode next s = some (demo sc next s)
run_command sc m command next s = next >>= λ a. some (with_parameter sc m command a s)
