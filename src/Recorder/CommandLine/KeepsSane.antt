-- ===== src/Recorder/CommandLine/KeepsSane.antt =====
-- src/recorder/RaspiVidBalls.c: the settings after the case of one option in `parse_cmdline`.
use Prim.Native.String.{String}
use text.Mathlib.Text.{◌==◌ as str_eq}
use foosball_tracker.Common.{
  ◌+◌, ◌≡◌, refl, arith, ltb→lt, if◌then◌else◌, Bool, true, false, not, ◌||◌, Option, none, some,
  ◌>>=◌, Partial, faults, gives,
}
use foosball_tracker.Common.Int.{ℤ, pos, neg_part, pos_part, eqb_ℤ, ltb_ℤ}
use foosball_tracker.Recorder.Cli.{map_xref}
use foosball_tracker.Recorder.Settings.{
  Command, bitrate, timeout, demo_mode, framerate, preview_enc, intra_period, profile, timed,
  signal, keypress, initial_state, qp, inline_headers, segment_file, segment_wrap, segment_start,
  split_wait, circular, imv, intra_refresh_type, flush, save_pts, codec, level, raw, raw_format,
  net_listen, sps_timings, slices, profile_map, level_map, MmalCodes, VidState,
}
use foosball_tracker.Recorder.CommandLine.Sane.{
  IsSane, AreCodes, set_demo, set_times, set_slices, set_inline, set_profile, set_level,
  interval-ne, at_least-le, known_or-ne,
}
use foosball_tracker.Recorder.Options.{
  Scanf, Outcome, reject, starts_option, is_empty, read_times, read_start, read_slices,
  read_interval, read_codec, read_raw_format, read_number, read_name, with_parameter, demo,
  run_command,
}

-- Where the command line is still valid the settings are sane.
abbrev pub KeepsSane : Outcome → Type 0
KeepsSane r = r.0 ≡ true → IsSane r.2

read_number-KeepsSane :
    (read : Option ℤ) (store : ℤ → VidState) (s : VidState)
    → ((v : ℤ) → IsSane (store v))
    → KeepsSane (read_number read store s)
unfolding read_number
read_number-KeepsSane none store s h e = absurd (cc)
read_number-KeepsSane (some v) store s h e = h v

read_name-KeepsSane :
    (name : String) (stored s : VidState) → IsSane stored → KeepsSane (read_name name stored s)
unfolding read_name
read_name-KeepsSane String.[] stored s h e = absurd (cc)
read_name-KeepsSane (String.◌∷◌ c name) stored s h e = h

KeepsSane-when :
    (b : Bool) (r s : Outcome)
    → (b ≡ true → KeepsSane r)
    → KeepsSane s
    → KeepsSane (if b then r else s)
KeepsSane-when true r s h k = h refl
KeepsSane-when false r s h k = k

KeepsSane-if :
    (b : Bool) (r s : Outcome) → KeepsSane r → KeepsSane s → KeepsSane (if b then r else s)
KeepsSane-if b r s h k = KeepsSane-when b r s (λ _. h) k

reject-KeepsSane : (s : VidState) → KeepsSane (reject s)
reject-KeepsSane s e = absurd (cc)

read_start-KeepsSane : (read : Option ℤ) (s : VidState) → IsSane s → KeepsSane (read_start read s)
unfolding read_start
read_start-KeepsSane none s h = reject-KeepsSane s
read_start-KeepsSane (some v) s h =
    KeepsSane-if (eqb_ℤ s.segment_wrap (pos 0) || not (ltb_ℤ s.segment_wrap v)) _ _ (λ e. h)
      (reject-KeepsSane (record s { segment_number = v }))

read_slices-KeepsSane : (read : Option ℤ) (s : VidState) → IsSane s → KeepsSane (read_slices read s)
unfolding read_slices
read_slices-KeepsSane none s h = reject-KeepsSane s
read_slices-KeepsSane (some v) s h =
    KeepsSane-when (ltb_ℤ (pos 0) v) _ _
      (λ positive e.
        set_slices h v (let lt = ltb→lt (0 + neg_part v) (pos_part v + 0) positive in omega arith))
      (reject-KeepsSane (record s { slices = v }))

read_times-KeepsSane :
    (read : Option ℤ × Option ℤ) (s : VidState) → IsSane s → KeepsSane (read_times read s)
unfolding read_times
read_times-KeepsSane (none, off) s h e = absurd (cc)
read_times-KeepsSane (some on, none) s h e = absurd (cc)
read_times-KeepsSane (some on, some off) s h e = set_times h _ _ (at_least-le on) (at_least-le off)

read_interval-KeepsSane :
    (read : Option ℤ) (s : VidState) → IsSane s → KeepsSane (read_interval read s)
unfolding read_interval
read_interval-KeepsSane none s h e = absurd (cc)
read_interval-KeepsSane (some v) s h e = set_demo h _ (interval-ne v)

module _ (sc : Scanf) (m : MmalCodes) (codes : AreCodes m) where
  with_parameter-KeepsSane :
      (c : Command) (a : String) (s : VidState) → IsSane s → KeepsSane (with_parameter sc m c a s)
  unfolding with_parameter read_codec read_raw_format
  with_parameter-KeepsSane bitrate a s h = read_number-KeepsSane (sc.unsigned a) _ s (λ v. h)
  with_parameter-KeepsSane timeout a s h = read_number-KeepsSane (sc.signed a) _ s (λ v. h)
  with_parameter-KeepsSane demo_mode a s h = λ e. h
  with_parameter-KeepsSane framerate a s h = read_number-KeepsSane (sc.unsigned a) _ s (λ v. h)
  with_parameter-KeepsSane preview_enc a s h = λ e. h
  with_parameter-KeepsSane intra_period a s h = read_number-KeepsSane (sc.unsigned a) _ s (λ v. h)
  with_parameter-KeepsSane profile a s h =
      λ e. set_profile h _ (known_or-ne m.profile_high (map_xref a (profile_map m)) codes.high)
  with_parameter-KeepsSane timed a s h = read_times-KeepsSane (sc.pair a) s h
  with_parameter-KeepsSane signal a s h = λ e. h
  with_parameter-KeepsSane keypress a s h = λ e. h
  with_parameter-KeepsSane initial_state a s h = λ e. h
  with_parameter-KeepsSane qp a s h = read_number-KeepsSane (sc.unsigned a) _ s (λ v. h)
  with_parameter-KeepsSane inline_headers a s h = λ e. h
  with_parameter-KeepsSane segment_file a s h =
      read_number-KeepsSane (sc.unsigned a) _ s (λ v. set_inline h v s.split_wait)
  with_parameter-KeepsSane segment_wrap a s h = read_number-KeepsSane (sc.unsigned a) _ s (λ v. h)
  with_parameter-KeepsSane segment_start a s h = read_start-KeepsSane (sc.unsigned a) s h
  with_parameter-KeepsSane split_wait a s h = λ e. h
  with_parameter-KeepsSane circular a s h = λ e. h
  with_parameter-KeepsSane imv a s h = read_name-KeepsSane a _ _ h
  with_parameter-KeepsSane intra_refresh_type a s h = λ e. h
  with_parameter-KeepsSane flush a s h = λ e. h
  with_parameter-KeepsSane save_pts a s h = read_name-KeepsSane a _ _ h
  with_parameter-KeepsSane codec a s h = KeepsSane-if (is_empty a) _ _ (reject-KeepsSane s) (
      KeepsSane-if (str_eq a "H264") _ _ (λ e. h)
        (KeepsSane-if (str_eq a "MJPEG") _ _ (λ e. h) (λ e. absurd (cc))))
  with_parameter-KeepsSane level a s h =
      λ e. set_level h _ (known_or-ne m.level_4 (map_xref a (level_map m)) codes.four)
  with_parameter-KeepsSane raw a s h = read_name-KeepsSane a _ _ h
  with_parameter-KeepsSane raw_format a s h = λ e. h
  with_parameter-KeepsSane net_listen a s h = λ e. h
  with_parameter-KeepsSane sps_timings a s h = λ e. h
  with_parameter-KeepsSane slices a s h = read_slices-KeepsSane (sc.signed a) s h

  demo-KeepsSane : (next : Option String) (s : VidState) → IsSane s → KeepsSane (demo sc next s)
  unfolding demo
  demo-KeepsSane none s h = λ e. h
  demo-KeepsSane (some a) s h =
      KeepsSane-if (starts_option a) _ _ (λ e. h) (read_interval-KeepsSane (sc.unsigned a) s h)

  parameter-KeepsSane :
      (c : Command) (next : Option String) (s : VidState)
      → IsSane s
      → Partial KeepsSane (next >>= λ a. some (with_parameter sc m c a s))
  parameter-KeepsSane c none s h = faults
  parameter-KeepsSane c (some a) s h = gives _ (with_parameter-KeepsSane c a s h)

  pub run_command-KeepsSane :
      (c : Command) (next : Option String) (s : VidState)
      → IsSane s
      → Partial KeepsSane (run_command sc m c next s)
  unfolding run_command
  run_command-KeepsSane bitrate next s h = parameter-KeepsSane bitrate next s h
  run_command-KeepsSane timeout next s h = parameter-KeepsSane timeout next s h
  run_command-KeepsSane demo_mode next s h = gives _ (demo-KeepsSane next s h)
  run_command-KeepsSane framerate next s h = parameter-KeepsSane framerate next s h
  run_command-KeepsSane preview_enc next s h = gives _ (λ e. h)
  run_command-KeepsSane intra_period next s h = parameter-KeepsSane intra_period next s h
  run_command-KeepsSane profile next s h = parameter-KeepsSane profile next s h
  run_command-KeepsSane timed next s h = parameter-KeepsSane timed next s h
  run_command-KeepsSane signal next s h = gives _ (λ e. h)
  run_command-KeepsSane keypress next s h = gives _ (λ e. h)
  run_command-KeepsSane initial_state next s h = parameter-KeepsSane initial_state next s h
  run_command-KeepsSane qp next s h = parameter-KeepsSane qp next s h
  run_command-KeepsSane inline_headers next s h =
      gives _ (λ e. set_inline h s.segment_size s.split_wait)
  run_command-KeepsSane segment_file next s h = parameter-KeepsSane segment_file next s h
  run_command-KeepsSane segment_wrap next s h = parameter-KeepsSane segment_wrap next s h
  run_command-KeepsSane segment_start next s h = parameter-KeepsSane segment_start next s h
  run_command-KeepsSane split_wait next s h = gives _ (λ e. set_inline h s.segment_size true)
  run_command-KeepsSane circular next s h = gives _ (λ e. h)
  run_command-KeepsSane imv next s h = parameter-KeepsSane imv next s h
  run_command-KeepsSane intra_refresh_type next s h =
      parameter-KeepsSane intra_refresh_type next s h
  run_command-KeepsSane flush next s h = gives _ (λ e. h)
  run_command-KeepsSane save_pts next s h = parameter-KeepsSane save_pts next s h
  run_command-KeepsSane codec next s h = parameter-KeepsSane codec next s h
  run_command-KeepsSane level next s h = parameter-KeepsSane level next s h
  run_command-KeepsSane raw next s h = parameter-KeepsSane raw next s h
  run_command-KeepsSane raw_format next s h = parameter-KeepsSane raw_format next s h
  run_command-KeepsSane net_listen next s h = gives _ (λ e. h)
  run_command-KeepsSane sps_timings next s h = gives _ (λ e. h)
  run_command-KeepsSane slices next s h = parameter-KeepsSane slices next s h
