-- ===== src/Recorder/WholeCommandLine/Complete.antt =====
-- src/recorder/RaspiVidBalls.c: what `parse_cmdline` gives, with the parsers of all settings.
use Prim.Native.String.{String}
use foosball_tracker.Common.{
  ℕ, ◌==◌, ◌≡◌, refl, Bool, true, false, not, if◌then◌else◌, List, [], ◌∷◌, Option, some, ◌>>=◌,
  Returns, value, Returns-bind, Returns-if, Returns-some, Returns-map,
}
use foosball_tracker.Recorder.Settings.{MmalCodes, VidState}
use foosball_tracker.Recorder.Options.{Scanf}
use foosball_tracker.Recorder.Parameters.{ParamScanf}
use foosball_tracker.Recorder.Uses.{
  IsUse, NotHelp, parse_common-Returns, parse_preview-Returns, parse_tex-Returns,
}
use foosball_tracker.Common.Floats.{Floats}
use foosball_tracker.Recorder.Camera.Settings.{CameraSettings}
use foosball_tracker.Recorder.Camera.Parser.{CameraScanf, parse_camera}
use foosball_tracker.Recorder.Camera.Uses.{parse_camera-Returns}
use foosball_tracker.Recorder.CommandLine.{OtherParsers, option_of, try_others, parse_cmdline}
use foosball_tracker.Recorder.CommandLine.Sane.{AreCodes, IsSane}
use foosball_tracker.Recorder.CommandLine.Sanity.{parse_cmdline-IsSane}
use foosball_tracker.Recorder.CommandLine.Total.{
  NotTimedLast, IsAnswered, AreAnswered, parse_cmdline-Returns,
}
use foosball_tracker.Recorder.WholeCommandLine.{
  Settings, CameraParser, recorder_parsers, copy_window, parse_recorder,
}

-- No argument asks for the help.
abbrev pub NoHelp : List String → Type 0
NoHelp [] = Unit {0}
NoHelp (a ∷ args) = ((arg : String) → option_of a ≡ some arg → NotHelp arg) × NoHelp args

-- The windows of the preview and of GL agree where the command line does not set the one of GL.
pub record HasWindow {C : Type 0} (p : Settings C) : Type 0 where
  pub same_preview : p.tex.preview_window ≡ p.preview.preview_window
  pub same_opacity : p.tex.opacity ≡ p.preview.opacity
  pub same_verbose : p.tex.verbose ≡ p.common.verbose
  pub same_window : p.tex.gl_win_defined ≡ false → p.tex.window ≡ p.preview.preview_window

lift-Returns :
    {A B : Type 0} {Q : ℕ × A → Type 0} {m : Option (ℕ × A)} (store : A → B)
    → Returns Q m
    → Returns {A = ℕ × B} (λ _. Unit {0}) (m >>= λ r. some (r.0, store r.1))
lift-Returns store h = Returns-bind h λ r _. value _ tt

module _ {C : Type 0} (camera : CameraParser C) (sc : ParamScanf)
    (camera_returns : (c : C) (arg : String) (second : Option String)
      → Returns (λ _. Unit {0}) (camera c arg second)) where
  -- The parsers return for an option that does not ask for the help.
  parsers-IsAnswered : (arg : String) → NotHelp arg → IsAnswered (recorder_parsers camera sc) arg
  unfolding try_others recorder_parsers
  parsers-IsAnswered arg other p second =
      Returns-bind
        (lift-Returns (λ c. record p { camera = c }) (camera_returns p.camera arg second))
        λ r1 _.
          Returns-if (not (r1.0 == 0)) _ _ (λ _. value _ tt)
            λ _.
              Returns-bind
                (lift-Returns (λ c. record r1.1 { common = c })
                  (parse_common-Returns sc r1.1.common arg second other))
                λ r2 _.
                  Returns-if (not (r2.0 == 0)) _ _ (λ _. value _ tt)
                    λ _.
                      Returns-bind
                        (lift-Returns (λ v. record r2.1 { preview = v })
                          (parse_preview-Returns sc r2.1.preview arg second))
                        λ r3 _.
                          Returns-if (not (r3.0 == 0)) _ _ (λ _. value _ tt)
                            λ _.
                              lift-Returns (λ t. record r3.1 { tex = t })
                                (parse_tex-Returns sc r3.1.tex arg second)

  parsers-AreAnswered :
      (args : List String) → NoHelp args → AreAnswered (recorder_parsers camera sc) args
  parsers-AreAnswered [] h = tt
  parsers-AreAnswered (a ∷ args) h =
      (λ arg e none_found. parsers-IsAnswered arg (h.0 arg e), parsers-AreAnswered args h.1)

copy_window-HasWindow : {C : Type 0} (p : Settings C) → HasWindow (copy_window p)
unfolding copy_window
copy_window-HasWindow p = record {
  same_preview = refl;
  same_opacity = refl;
  same_verbose = refl;
  same_window = λ free. rw free refl;
}

accepted :
    {C : Type 0} (scanf : Scanf) (m : MmalCodes) (codes : AreCodes m)
    (others : OtherParsers (Settings C)) (args : List String) (s : VidState) (p : Settings C)
    (r : Bool × VidState × Settings C)
    → IsSane s
    → parse_cmdline scanf m others args s p ≡ some r
    → r.0 ≡ true
    → IsSane r.1 × HasWindow (if r.0 then copy_window r.2 else r.2)
accepted scanf m codes others args s p (true, s1, p1) sane e ok =
    (parse_cmdline-IsSane scanf m others codes args s s1 p p1 sane e, copy_window-HasWindow p1)
accepted scanf m codes others args s p (false, s1, p1) sane e ok = absurd (cc)

camera-Returns :
    {F D : Type 0} (fl : Floats F D) (camera_scanf : CameraScanf D) (c : CameraSettings F D)
    (arg : String) (second : Option String)
    → Returns (λ _. Unit {0}) (parse_camera fl camera_scanf c arg second)
camera-Returns fl camera_scanf c arg second =
    Returns-map (IsUse second) (λ _. Unit {0}) (λ r used. tt)
      (parse_camera-Returns fl camera_scanf c arg second)

-- `parse_cmdline` with the parsers of all settings ends, for every command line that does not end in "-td"
-- or "--timed" and does not ask for the help. Where it accepts the command line, settings that were sane
-- before are sane after, GL has the preview's window, opacity and verbosity as its own copy, and its own
-- window is that of the preview if the command line does not set it.
pub parse_recorder-Returns :
    {F D : Type 0} (scanf : Scanf) (m : MmalCodes) (codes : AreCodes m) (fl : Floats F D)
    (camera_scanf : CameraScanf D) (sc : ParamScanf) (args : List String) (s : VidState)
    (p : Settings (CameraSettings F D))
    → NotTimedLast args
    → NoHelp args
    → IsSane s
    → Returns
        (λ r. r.0 ≡ true → IsSane r.1 × HasWindow r.2)
        (parse_recorder scanf m fl camera_scanf sc args s p)
unfolding parse_recorder
parse_recorder-Returns scanf m codes fl camera_scanf sc args s p last no_help sane =
    let camera = parse_camera fl camera_scanf in
    let others = recorder_parsers camera sc in
    let (r, parsed, any) = Returns-some (
      parse_cmdline-Returns scanf m others args s p last
        (parsers-AreAnswered camera sc (camera-Returns fl camera_scanf) args no_help)) in
    rw parsed (value _ (accepted scanf m codes others args s p r sane parsed))
