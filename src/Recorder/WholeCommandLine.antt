-- ===== src/Recorder/WholeCommandLine.antt =====
-- src/recorder/RaspiVidBalls.c: `parse_cmdline` with the parsers of the camera, common, preview and GL
-- settings.
pub mod Complete
mod Tests
use Prim.Native.String.{String}
use foosball_tracker.Common.{ℕ, if◌then◌else◌, Bool, true, List, Option, some, ◌>>=◌}
use foosball_tracker.Recorder.Settings.{MmalCodes, VidState}
use foosball_tracker.Recorder.Options.{Scanf}
use foosball_tracker.Recorder.Parameters.{ParamScanf}
use foosball_tracker.Recorder.CommonSettings.{CommonSettings, parse_common}
use foosball_tracker.Recorder.WindowSettings.{
  Window, PreviewSettings, TexSettings, parse_preview, parse_tex,
}
use foosball_tracker.Common.Floats.{Floats}
use foosball_tracker.Recorder.Camera.Settings.{CameraSettings}
use foosball_tracker.Recorder.Camera.Parser.{CameraScanf, parse_camera}
use foosball_tracker.Recorder.CommandLine.{OtherParsers, parse_cmdline}

-- The other settings of `RASPIVID_STATE`
pub record Settings (C : Type 0) : Type 0 where
  pub camera : C
  pub common : CommonSettings
  pub preview : PreviewSettings
  pub tex : TexSettings

-- A parser of a part of the settings, as one of all of them.
abbrev lift : {A C : Type 0} → (A → Settings C) → Option (ℕ × A) → Option (ℕ × Settings C)
lift store parsed = parsed >>= λ r. some (r.0, store r.1)

-- A parser of the camera settings, for the option and the text behind it.
abbrev pub CameraParser : Type 0 → Type 0
CameraParser C = C → String → Option String → Option (ℕ × C)

unfoldable pub recorder_parsers :
    {C : Type 0} → CameraParser C → ParamScanf → OtherParsers (Settings C)
recorder_parsers camera sc = record {
  camera = λ s arg second. lift (λ c. record s { camera = c }) (camera s.camera arg second);
  common =
      λ s arg second. lift (λ c. record s { common = c }) (parse_common sc s.common arg second);
  preview =
      λ s arg second. lift (λ p. record s { preview = p }) (parse_preview sc s.preview arg second);
  tex = λ s arg second. lift (λ t. record s { tex = t }) (parse_tex sc s.tex arg second);
}

-- The end, which copies the preview window to the GL settings.
unfoldable pub copy_window : {C : Type 0} → Settings C → Settings C
copy_window s = record s {
  tex = record s.tex {
    window = if s.tex.gl_win_defined then s.tex.window else s.preview.preview_window;
    preview_window = s.preview.preview_window;
    opacity = s.preview.opacity;
    verbose = s.common.verbose;
  };
}

-- `parse_cmdline`: true for the result 0.
unfoldable pub parse_recorder :
    {F D : Type 0}
    → Scanf
    → MmalCodes
    → Floats F D
    → CameraScanf D
    → ParamScanf
    → List String
    → VidState
    → Settings (CameraSettings F D)
    → Option (Bool × VidState × Settings (CameraSettings F D))
unfolding copy_window recorder_parsers
parse_recorder scanf m fl camera_scanf sc args s p =
    parse_cmdline scanf m (recorder_parsers (parse_camera fl camera_scanf) sc) args s p >>= λ r.
    some (r.0, r.1, if r.0 then copy_window r.2 else r.2)
