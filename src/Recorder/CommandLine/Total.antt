-- ===== src/Recorder/CommandLine/Total.antt =====
-- src/recorder/RaspiVidBalls.c: where `parse_cmdline` reads behind the last argument.
use Prim.Native.String.{String}
use foosball_tracker.Common.{
  ℕ, zero, suc, ◌≡◌, ◌≢◌, refl, ap, ltb, true, false, inl, inr, ◌&&◌, List, [], ◌∷◌, Option, none,
  some, Partial, Partial-some, ◌⊎◌, Returns, value, Returns-bind, Returns-if,
}
use mathlib.Core.Path.{ap₂}
use foosball_tracker.Recorder.Cli.{get_command_id}
use foosball_tracker.Recorder.Cli.Entries.{AllEntries, get_command_id-AllEntries, ◌▸◌}
use foosball_tracker.Recorder.Settings.{
  Command, bitrate, timeout, demo_mode, framerate, preview_enc, intra_period, profile, timed,
  signal, keypress, initial_state, qp, inline_headers, segment_file, segment_wrap, segment_start,
  split_wait, circular, imv, intra_refresh_type, flush, save_pts, codec, level, raw, raw_format,
  net_listen, sps_timings, slices, cmdline_commands, MmalCodes, VidState,
}
use foosball_tracker.Recorder.Options.{Scanf, run_command}
use foosball_tracker.Recorder.CommandLine.{
  OtherParsers, try_others, other_option, run_option, parse_option, option_of, first_of, parse_args,
  parse_cmdline,
}

-- The other parsers return for the option.
abbrev pub IsAnswered : {P : Type 0} → OtherParsers P → String → Type 0
IsAnswered {P = P} others arg =
    (p : P) (second : Option String) → Returns (λ _. Unit {0}) (try_others others p arg second)

-- They do for every option of the arguments that the table does not have.
abbrev pub AreAnswered : {P : Type 0} → OtherParsers P → List String → Type 0
AreAnswered others [] = Unit {0}
AreAnswered others (a ∷ args) =
    ((arg : String)
      → option_of a ≡ some arg
      → get_command_id cmdline_commands arg ≡ none
      → IsAnswered others arg)
    × AreAnswered others args

module _ {P : Type 0} (sc : Scanf) (m : MmalCodes) (others : OtherParsers P) where
  -- An option needs a text, or is the timed option, or runs without a text.
  abbrev MissingText : Command → ℕ → Type 0
  MissingText c n =
      (ltb 0 n ≡ true)
      ⊎ (((c ≡ timed) × (n ≡ 0))
          ⊎ ((s : VidState) → Returns (λ _. Unit {0}) (run_command sc m c none s)))

  commands-MissingText : AllEntries MissingText cmdline_commands
  unfolding run_command
  commands-MissingText =
      inl refl
      ▸ inl refl
      ▸ inl refl
      ▸ inl refl
      ▸ inr (inr (λ s. value _ tt))
      ▸ inl refl
      ▸ inl refl
      ▸ inr (inl (refl, refl))
      ▸ inr (inr (λ s. value _ tt))
      ▸ inr (inr (λ s. value _ tt))
      ▸ inl refl
      ▸ inl refl
      ▸ inr (inr (λ s. value _ tt))
      ▸ inl refl
      ▸ inl refl
      ▸ inl refl
      ▸ inr (inr (λ s. value _ tt))
      ▸ inr (inr (λ s. value _ tt))
      ▸ inl refl
      ▸ inl refl
      ▸ inr (inr (λ s. value _ tt))
      ▸ inl refl
      ▸ inl refl
      ▸ inl refl
      ▸ inl refl
      ▸ inl refl
      ▸ inr (inr (λ s. value _ tt))
      ▸ inr (inr (λ s. value _ tt))
      ▸ inl refl
      ▸ tt

  run_command-Returns :
      (c : Command) (a : String) (s : VidState)
      → Returns (λ _. Unit {0}) (run_command sc m c (some a) s)
  unfolding run_command
  run_command-Returns bitrate a s = value _ tt
  run_command-Returns timeout a s = value _ tt
  run_command-Returns demo_mode a s = value _ tt
  run_command-Returns framerate a s = value _ tt
  run_command-Returns preview_enc a s = value _ tt
  run_command-Returns intra_period a s = value _ tt
  run_command-Returns profile a s = value _ tt
  run_command-Returns timed a s = value _ tt
  run_command-Returns signal a s = value _ tt
  run_command-Returns keypress a s = value _ tt
  run_command-Returns initial_state a s = value _ tt
  run_command-Returns qp a s = value _ tt
  run_command-Returns inline_headers a s = value _ tt
  run_command-Returns segment_file a s = value _ tt
  run_command-Returns segment_wrap a s = value _ tt
  run_command-Returns segment_start a s = value _ tt
  run_command-Returns split_wait a s = value _ tt
  run_command-Returns circular a s = value _ tt
  run_command-Returns imv a s = value _ tt
  run_command-Returns intra_refresh_type a s = value _ tt
  run_command-Returns flush a s = value _ tt
  run_command-Returns save_pts a s = value _ tt
  run_command-Returns codec a s = value _ tt
  run_command-Returns level a s = value _ tt
  run_command-Returns raw a s = value _ tt
  run_command-Returns raw_format a s = value _ tt
  run_command-Returns net_listen a s = value _ tt
  run_command-Returns sps_timings a s = value _ tt
  run_command-Returns slices a s = value _ tt

  run_option-Returns :
      (p : P) (s : VidState) (arg : String) (found : Option (Command × ℕ)) (next : Option String)
      → Partial (λ r. MissingText r.0 r.1) found
      → ((next ≡ none) → found ≢ some (timed, 0))
      → (found ≡ none → IsAnswered others arg)
      → Returns (λ _. Unit {0}) (run_option sc m others p s arg found next)
  unfolding run_option other_option
  run_option-Returns p s arg none next h other answered =
      Returns-bind (answered refl p next) λ r _. value _ tt
  run_option-Returns p s arg (some (c, n)) (some a) h other answered =
      Returns-if (ltb 0 n && false) _ _ (λ _. value _ tt)
        (λ _. Returns-bind (run_command-Returns c a s) λ r _. value _ tt)
  run_option-Returns p s arg (some (c, n)) none h other answered = elim (Partial-some h refl) [
    | inl text ↦ rw text (value _ tt)
    | inr (inl (is_timed, no_text)) ↦
        absurd (other refl (ap some (ap₂ (λ c n. (c, n)) is_timed no_text)))
    | inr (inr runs) ↦
        Returns-if (ltb 0 n && true) _ _ (λ _. value _ tt)
          (λ _. Returns-bind (runs s) λ r _. value _ tt)
  ]

-- The argument is "-td" or "--timed".
abbrev pub IsTimed : String → Type 0
IsTimed a =
    (arg : String) × (option_of a ≡ some arg)
    × (get_command_id cmdline_commands arg ≡ some (timed, 0))

-- The last argument is not "-td" or "--timed".
abbrev pub NotTimedLast : List String → Type 0
NotTimedLast [] = Unit {0}
NotTimedLast (a ∷ []) = IsTimed a → ⊥
NotTimedLast (a ∷ b ∷ args) = NotTimedLast (b ∷ args)

NotTimedLast-tail : (a : String) (args : List String) → NotTimedLast (a ∷ args) → NotTimedLast args
NotTimedLast-tail a [] h = tt
NotTimedLast-tail a (b ∷ args) h = h

NotTimedLast-head :
    (a arg : String) (args : List String)
    → NotTimedLast (a ∷ args)
    → option_of a ≡ some arg
    → first_of args ≡ none
    → get_command_id cmdline_commands arg ≢ some (timed, 0)
NotTimedLast-head a arg [] h e none_left = λ is_timed. h (arg, e, is_timed)
NotTimedLast-head a arg (b ∷ args) h e none_left = absurd (cc)

module _ {P : Type 0} (sc : Scanf) (m : MmalCodes) (others : OtherParsers P) where
  parse_option-Returns :
      (p : P) (s : VidState) (arg next : Option String)
      → ((a : String)
          → arg ≡ some a
          → next ≡ none
          → get_command_id cmdline_commands a ≢ some (timed, 0))
      → ((a : String)
          → arg ≡ some a
          → get_command_id cmdline_commands a ≡ none
          → IsAnswered others a)
      → Returns (λ _. Unit {0}) (parse_option sc m others p s arg next)
  unfolding parse_option
  parse_option-Returns p s none next h answered = value _ tt
  parse_option-Returns p s (some a) next h answered =
      run_option-Returns sc m others p s a (get_command_id cmdline_commands a) next
        (get_command_id-AllEntries (MissingText sc m others) cmdline_commands a
          (commands-MissingText sc m others))
        (h a refl) (answered a refl)

  parse_args-Returns :
      (skip : ℕ) (args : List String) (s : VidState) (p : P)
      → NotTimedLast args
      → AreAnswered others args
      → Returns (λ _. Unit {0}) (parse_args sc m others skip args s p)
  unfolding parse_args
  parse_args-Returns skip [] s p h answered = value _ tt
  parse_args-Returns (suc skip) (a ∷ args) s p h answered =
      parse_args-Returns skip args s p (NotTimedLast-tail a args h) answered.1
  parse_args-Returns zero (a ∷ args) s p h answered =
      Returns-bind
        (parse_option-Returns p s (option_of a) (first_of args)
          (λ arg e none_left. NotTimedLast-head a arg args h e none_left) answered.0)
        λ r _.
          Returns-if r.0 _ _
            (λ ok. parse_args-Returns r.1 args r.2 r.3 (NotTimedLast-tail a args h) answered.1)
            (λ _. value _ tt)

  -- `parse_cmdline` ends without reading behind the last argument for every command line that does not
  -- end in "-td" or "--timed", if the other parsers return for the options that its table does not have.
  pub parse_cmdline-Returns :
      (args : List String) (s : VidState) (p : P)
      → NotTimedLast args
      → AreAnswered others args
      → Returns (λ _. Unit {0}) (parse_cmdline sc m others args s p)
  unfolding parse_cmdline
  parse_cmdline-Returns args s p h answered = parse_args-Returns 0 args s p h answered
