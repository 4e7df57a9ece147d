-- ===== src/Recorder/Uses.antt =====
-- src/recorder/RaspiCommonSettings.c, RaspiPreview.c and RaspiTexBalls.c: how many arguments the parsers use.
use Prim.Native.String.{String}
use foosball_tracker.Common.{
  ℕ, ◌≤◌, ◌≡◌, ◌≢◌, refl, sym, ap, ◌∙◌, arith, ltb, Bool, true, false, ◌&&◌, if◌then◌else◌, Option,
  none, some, ◌>>=◌, List, Returns, value, Partial, faults, gives, Partial-if,
}
use foosball_tracker.Common.Int.{ℤ}
use foosball_tracker.Recorder.Cli.{CommandEntry, get_command_id}
use foosball_tracker.Recorder.Cli.Entries.{AllEntries, get_command_id-AllEntries, ◌▸◌}
use foosball_tracker.Recorder.Options.{is_empty}
use foosball_tracker.Recorder.Parameters.{ParamScanf, known_command}
use foosball_tracker.Recorder.CommonSettings.{
  CommonSettings, help, common_commands, common_parameter, store_number, common_command,
  parse_common,
}
use foosball_tracker.Recorder.WindowSettings.{
  PreviewSettings, TexSettings, preview_commands, tex_commands, preview_command, tex_command,
  parse_preview, parse_tex, read_opacity,
}

-- The arguments that are used are there: at most the option and what follows it.
abbrev pub IsUse : {P : Type 0} → Option String → ℕ × P → Type 0
IsUse none r = r.0 ≤ 1
IsUse (some a) r = r.0 ≤ 2

-- The parameter is missing.
abbrev lacks : ℕ → Option String → Bool
lacks n arg2 = ltb 0 n && elim arg2 [ none ↦ true | some a ↦ false ]

-- A command with a number of parameters, run where a parameter is there if it needs one, uses what is there.
abbrev Runs : {C P : Type 0} → (C → Option String → P → Option (ℕ × P)) → C → ℕ → Type 0
Runs {P = P} run c n =
    (arg2 : Option String) (s : P) → lacks n arg2 ≡ false → Returns (IsUse arg2) (run c arg2 s)

unused-IsUse : {P : Type 0} (arg2 : Option String) (s : P) → IsUse arg2 (0, s)
unused-IsUse none s = omega arith
unused-IsUse (some a) s = omega arith

pub one-IsUse : {P : Type 0} (arg2 : Option String) (s : P) → IsUse arg2 (1, s)
one-IsUse none s = omega arith
one-IsUse (some a) s = omega arith

module _ {C P : Type 0} (commands : List (CommandEntry C))
    (run : C → Option String → P → Option (ℕ × P)) (IsRun : C → ℕ → Type 0) (arg1 : String) where
  found_command :
      {m : Option (C × ℕ)} (arg2 : Option String)
      → Partial (λ r. IsRun r.0 r.1 → Runs run r.0 r.1) m
      → ((c : C) (n : ℕ) → m ≡ some (c, n) → IsRun c n)
      → Partial
          (λ c. (n : ℕ) × Runs run c n × (lacks n arg2 ≡ false))
          (elim m [ none ↦ none | some (command, n) ↦ if lacks n arg2 then none else some command ])
  found_command arg2 faults runs = faults
  found_command arg2 (gives (c, n) q) runs =
      Partial-if (lacks n arg2) _ _ (λ _. faults) (λ e. gives c (n, q (runs c n refl), e))

  run_found :
      {m : Option C} (arg2 : Option String) (s : P)
      → Partial (λ c. (n : ℕ) × Runs run c n × (lacks n arg2 ≡ false)) m
      → Returns (IsUse arg2) (elim m [ none ↦ some (0, s) | some command ↦ run command arg2 s ])
  run_found arg2 s faults = value _ (unused-IsUse arg2 s)
  run_found arg2 s (gives c (n, q, e)) = q arg2 s e

  -- A parser, for an option that runs.
  pub parse-Returns :
      (arg2 : Option String) (s : P)
      → AllEntries (λ c n. IsRun c n → Runs run c n) commands
      → ((c : C) (n : ℕ) → get_command_id commands arg1 ≡ some (c, n) → IsRun c n)
      → Returns (IsUse arg2) (elim (known_command commands arg1 arg2) [
        | none ↦ some (0, s)
        | some command ↦ run command arg2 s
      ])
  unfolding known_command
  parse-Returns arg2 s h runs =
      run_found arg2 s (found_command arg2 (get_command_id-AllEntries _ commands arg1 h) runs)

read_opacity-IsUse :
    (read : Option ℤ) (a : String) (s : PreviewSettings) → IsUse (some a) (read_opacity read s)
unfolding read_opacity
read_opacity-IsUse none a s = omega arith
read_opacity-IsUse (some v) a s = omega arith

-- A parameter that is needed is there.
pub with_text :
    {P : Type 0} (run : String → ℕ × P) (arg2 : Option String)
    → ((a : String) → (run a).0 ≤ 2)
    → lacks 1 arg2 ≡ false
    → Returns (IsUse arg2) (arg2 >>= λ a. some (run a))
with_text run none h e = absurd (cc)
with_text run (some a) h e = value _ (h a)

-- The parser of the preview settings ends for every option.
pub parse_preview-Returns :
    (sc : ParamScanf) (s : PreviewSettings) (arg1 : String) (arg2 : Option String)
    → Returns (IsUse arg2) (parse_preview sc s arg1 arg2)
unfolding parse_preview preview_command
parse_preview-Returns sc s arg1 arg2 =
    parse-Returns preview_commands (preview_command sc) (λ c n. Unit {0}) arg1 arg2 s
      ((λ u arg2 s e. with_text _ arg2 (λ a. omega arith) e)
        ▸ (λ u arg2 s e. value _ (one-IsUse arg2 _))
        ▸ (λ u arg2 s e. with_text _ arg2 (λ a. read_opacity-IsUse (sc.unsigned a) a s) e)
        ▸ (λ u arg2 s e. value _ (one-IsUse arg2 _))
        ▸ tt)
      (λ c n e. tt)

-- So does the parser of the GL settings.
pub parse_tex-Returns :
    (sc : ParamScanf) (s : TexSettings) (arg1 : String) (arg2 : Option String)
    → Returns (IsUse arg2) (parse_tex sc s arg1 arg2)
unfolding parse_tex tex_command
parse_tex-Returns sc s arg1 arg2 =
    parse-Returns tex_commands (λ command arg2 s. arg2 >>= λ a. some (tex_command sc command a s))
      (λ c n. Unit {0}) arg1 arg2 s
      ((λ u arg2 s e. with_text _ arg2 (λ a. omega arith) e)
        ▸ (λ u arg2 s e. with_text _ arg2 (λ a. omega arith) e)
        ▸ tt)
      (λ c n e. tt)

store_number-IsUse :
    (read : Option ℤ) (store : ℤ → CommonSettings) (s : CommonSettings)
    → (store_number read store s).0 ≤ 2
store_number-IsUse none store s = omega arith
store_number-IsUse (some v) store s = omega arith

pub if-unused :
    {P : Type 0} (b : Bool) (s stored : P) → (if◌then◌else◌ {A = ℕ × P} b (0, s) (2, stored)).0 ≤ 2
if-unused true s stored = omega arith
if-unused false s stored = omega arith

-- The option does not ask for the help, after which the program exits.
abbrev pub NotHelp : String → Type 0
NotHelp arg1 = get_command_id common_commands arg1 ≢ some (help, 0)

-- So does the parser of the common settings, but for the help.
pub parse_common-Returns :
    (sc : ParamScanf) (s : CommonSettings) (arg1 : String) (arg2 : Option String)
    → NotHelp arg1
    → Returns (IsUse arg2) (parse_common sc s arg1 arg2)
unfolding parse_common common_command common_parameter
parse_common-Returns sc s arg1 arg2 other =
    parse-Returns common_commands (common_command sc) (λ c n. (help, 0) ≢ (c, n)) arg1 arg2 s
      ((λ no_help arg2 s e. absurd (no_help refl))
        ▸ (λ u arg2 s e. with_text _ arg2 (λ a. store_number-IsUse (sc.unsigned a) _ s) e)
        ▸ (λ u arg2 s e. with_text _ arg2 (λ a. store_number-IsUse (sc.unsigned a) _ s) e)
        ▸ (λ u arg2 s e. with_text _ arg2 (λ a. if-unused (is_empty a) s _) e)
        ▸ (λ u arg2 s e. value _ (one-IsUse arg2 _))
        ▸ (λ u arg2 s e. with_text _ arg2 (λ a. store_number-IsUse (sc.unsigned a) _ s) e)
        ▸ (λ u arg2 s e. with_text _ arg2 (λ a. store_number-IsUse (sc.unsigned a) _ s) e)
        ▸ tt)
      (λ c n e same. other (e ∙ ap some (sym same)))
