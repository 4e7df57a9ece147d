-- ===== src/Recorder/CommandLine/Sanity.antt =====
-- src/recorder/RaspiVidBalls.c: what holds of the settings after `parse_cmdline`.
use Prim.Native.String.{String}
use foosball_tracker.Common.{
  ℕ, zero, suc, ◌≡◌, refl, ap, arith, ltb, true, ◌&&◌, List, [], ◌∷◌, Option, none, some, Partial,
  gives, Partial-if, Partial-bind, Partial-skip, Partial-some,
}
use foosball_tracker.Common.Int.{pos_part}
use foosball_tracker.Recorder.Cli.{get_command_id}
use foosball_tracker.Recorder.Settings.{
  Command, cmdline_commands, MmalCodes, VidState, default_status,
}
use foosball_tracker.Recorder.CommandLine.Sane.{IsSane, AreCodes}
use foosball_tracker.Recorder.Options.{Scanf}
use foosball_tracker.Recorder.CommandLine.{
  OtherParsers, other_option, run_option, is_missing, parse_option, option_of, first_of, parse_args,
  parse_cmdline,
}
use foosball_tracker.Recorder.CommandLine.KeepsSane.{run_command-KeepsSane}

module _ {P : Type 0} (sc : Scanf) (m : MmalCodes) (others : OtherParsers P)
    (codes : AreCodes m) where
  run_option-Sane :
      (p : P) (s : VidState) (arg : String) (found : Option (Command × ℕ)) (next : Option String)
      → IsSane s
      → Partial (λ r. r.0 ≡ true → IsSane r.2) (run_option sc m others p s arg found next)
  unfolding run_option other_option
  run_option-Sane p s arg none next h = Partial-skip _ λ r. gives _ (λ e. h)
  run_option-Sane p s arg (some (command, n)) next h =
      Partial-if (ltb 0 n && is_missing next) _ _ (λ _. gives _ (λ e. h))
        (λ _. Partial-bind (run_command-KeepsSane sc m codes command next s h) λ r k. gives _ k)

  parse_option-Sane :
      (p : P) (s : VidState) (arg next : Option String)
      → IsSane s
      → Partial (λ r. r.0 ≡ true → IsSane r.2) (parse_option sc m others p s arg next)
  unfolding parse_option
  parse_option-Sane p s none next h = gives _ (λ e. absurd (cc))
  parse_option-Sane p s (some arg) next h =
      run_option-Sane p s arg (get_command_id cmdline_commands arg) next h

  parse_args-Sane :
      (skip : ℕ) (args : List String) (s : VidState) (p : P)
      → IsSane s
      → Partial (λ r. r.0 ≡ true → IsSane r.1) (parse_args sc m others skip args s p)
  unfolding parse_args
  parse_args-Sane skip [] s p h = gives _ (λ e. h)
  parse_args-Sane (suc skip) (a ∷ args) s p h = parse_args-Sane skip args s p h
  parse_args-Sane zero (a ∷ args) s p h =
      Partial-bind (parse_option-Sane p s (option_of a) (first_of args) h) λ r k.
        Partial-if r.0 _ _ (λ ok. parse_args-Sane r.1 args r.2 r.3 (k ok))
          (λ _. gives _ (λ e. absurd (cc)))

  -- Whatever arguments `parse_cmdline` accepts, in whatever order, sane settings stay sane; the default
  -- settings are.
  pub parse_cmdline-IsSane :
      (args : List String) (s s1 : VidState) (p p1 : P)
      → IsSane s
      → parse_cmdline sc m others args s p ≡ some (true, s1, p1)
      → IsSane s1
  unfolding parse_cmdline
  parse_cmdline-IsSane args s s1 p p1 h e = Partial-some (parse_args-Sane 0 args s p h) e refl

pub default_status-IsSane : (m : MmalCodes) → AreCodes m → IsSane (default_status m)
unfolding default_status
default_status-IsSane m codes = record {
  demo_runs = λ e. let parts = ap pos_part e in omega arith;
  on_long = omega arith;
  off_long = omega arith;
  sliced = omega arith;
  segments_inline = λ h. absurd (h refl);
  splits_inline = λ e. absurd (cc);
  profile_known = codes.high;
  level_known = codes.four;
}
