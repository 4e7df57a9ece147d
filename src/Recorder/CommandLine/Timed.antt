-- ===== src/Recorder/CommandLine/Timed.antt =====
-- src/recorder/RaspiVidBalls.c: the timed option as the last argument of `parse_cmdline`.
use Prim.Native.String.{String}
use foosball_tracker.Common.{
  ℕ, zero, suc, ◌>>=◌, if◌then◌else◌, Bool, ◌++◌, some-inj, ◌≡◌, refl, ap, true, false, inl, inr,
  List, [], ◌∷◌, Option, none, some, ◌⊎◌,
}
use foosball_tracker.Recorder.Cli.{get_command_id}
use foosball_tracker.Recorder.Settings.{MmalCodes, VidState}
use foosball_tracker.Recorder.Options.{Scanf, run_command}
use foosball_tracker.Recorder.CommandLine.{
  OtherParsers, run_option, parse_option, option_of, first_of, parse_args, parse_cmdline,
}
use foosball_tracker.Recorder.CommandLine.Total.{IsTimed}

module _ {P : Type 0} (sc : Scanf) (m : MmalCodes) (others : OtherParsers P) where
  -- The loop over the arguments before a last one: whether all were valid, how many arguments behind
  -- them the last option takes, and the settings.
  unfoldable pub parse_before :
      ℕ → List String → (last : String) → VidState → P → Option (Bool × ℕ × VidState × P)
  parse_before skip [] last s p = some (true, skip, s, p)
  parse_before (suc skip) (a ∷ args) last s p = parse_before skip args last s p
  parse_before zero (a ∷ args) last s p =
      parse_option sc m others p s (option_of a) (first_of (args ++ last ∷ [])) >>= λ r.
      let rest = parse_before r.1 args last r.2 r.3 in
      if r.0 then rest else some (false, r.1, r.2, r.3)

  timed_alone :
      (a : String) (s : VidState) (p : P) → IsTimed a → parse_args sc m others 0 (a ∷ []) s p ≡ none
  unfolding parse_args parse_option run_option run_command
  timed_alone a s p (arg, e, is_timed) = rw (e, is_timed) refl

  then_none :
      (args : List String) (a : String) (found : Option (Bool × ℕ × VidState × P)) (s1 : VidState)
      (p1 : P)
      → ((skip : ℕ) (s : VidState) (p : P)
          → parse_before skip args a s p ≡ some (true, 0, s1, p1)
          → parse_args sc m others skip (args ++ a ∷ []) s p ≡ none)
      → (found >>= λ r.
          if r.0 then parse_before r.1 args a r.2 r.3 else some (false, r.1, r.2, r.3))
        ≡ some (true, 0, s1, p1)
      → (found >>= λ r.
          if r.0
          then parse_args sc m others r.1 (args ++ a ∷ []) r.2 r.3
          else some (false, r.2, r.3))
        ≡ none
  then_none args a none s1 p1 h e = refl
  then_none args a (some (true, skip, s, p)) s1 p1 h e = h skip s p e
  then_none args a (some (false, skip, s, p)) s1 p1 h e = absurd (cc)

  timed_last :
      (skip : ℕ) (args : List String) (a : String) (s s1 : VidState) (p p1 : P)
      → IsTimed a
      → parse_before skip args a s p ≡ some (true, 0, s1, p1)
      → parse_args sc m others skip (args ++ a ∷ []) s p ≡ none
  unfolding parse_args parse_before
  timed_last skip [] a s s1 p p1 h e =
      let none_taken : skip ≡ 0 = ap (λ r. r.1) (some-inj e) in rw none_taken (timed_alone a s p h)
  timed_last (suc skip) (b ∷ args) a s s1 p p1 h e = timed_last skip args a s s1 p p1 h e
  timed_last zero (b ∷ args) a s s1 p p1 h e =
      then_none args a (parse_option sc m others p s (option_of b) (first_of (args ++ a ∷ []))) s1
        p1 (λ skip s2 p2 later. timed_last skip args a s2 s1 p2 p1 h later) e

  IsTimed-of_text : (a : String) → (a ≡ "-td") ⊎ (a ≡ "--timed") → IsTimed a
  unfolding get_command_id
  IsTimed-of_text a (inl e) = rw e ("td", refl, refl)
  IsTimed-of_text a (inr e) = rw e ("-timed", refl, refl)

  -- If the last argument is "-td" or "--timed", and the arguments before it are valid and the last of
  -- them does not take it as its text, `parse_cmdline` reads the null pointer behind it.
  pub parse_cmdline_timed :
      (args : List String) (a : String) (s s1 : VidState) (p p1 : P)
      → (a ≡ "-td") ⊎ (a ≡ "--timed")
      → parse_before 0 args a s p ≡ some (true, 0, s1, p1)
      → parse_cmdline sc m others (args ++ a ∷ []) s p ≡ none
  unfolding parse_cmdline
  parse_cmdline_timed args a s s1 p p1 td valid =
      timed_last 0 args a s s1 p p1 (IsTimed-of_text a td) valid
