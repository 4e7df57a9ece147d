-- ===== src/Recorder/WindowSettings.antt =====
-- src/recorder/RaspiPreview.c and RaspiTexBalls.c: the defaults and the parsers of the settings of the
-- preview window and of the GL window. An option is none where a missing parameter is read.
use Prim.Native.String.{String}
use text.Mathlib.Text.{◌==◌ as str_eq}
use foosball_tracker.Common.{
  ℕ, ◌==◌, if◌then◌else◌, Bool, true, false, List, [], ◌∷◌, Option, none, some, length, get_or,
  ◌>>=◌,
}
use foosball_tracker.Common.Int.{ℤ, pos}
use foosball_tracker.Recorder.Cli.{CommandEntry}
use foosball_tracker.Recorder.Parameters.{ParamScanf, known_command}

pub record Window : Type 0 where
  pub x : ℤ
  pub y : ℤ
  pub width : ℤ
  pub height : ℤ

-- What "%d,%d,%d,%d" stores.
abbrev pub store_window : List ℤ → Window → Window
store_window read w = record {
  x = get_or read 0 w.x;
  y = get_or read 1 w.y;
  width = get_or read 2 w.width;
  height = get_or read 3 w.height;
}

pub data PreviewCommand : Type 0 where
  preview : PreviewCommand
  full_screen : PreviewCommand
  opacity : PreviewCommand
  disable_preview : PreviewCommand

pub data TexCommand : Type 0 where
  gl_scene : TexCommand
  gl_win : TexCommand

abbrev entry : {C : Type 0} → C → String → String → ℕ → CommandEntry C
entry id command abbreviation n = record {
  id = id;
  command = command;
  abbreviation = abbreviation;
  num_parameters = n;
}

abbrev pub preview_commands : List (CommandEntry PreviewCommand)
preview_commands =
    entry preview "-preview" "p" 1
    ∷ entry full_screen "-fullscreen" "f" 0
    ∷ entry opacity "-opacity" "op" 1
    ∷ entry disable_preview "-nopreview" "n" 0
    ∷ []

abbrev pub tex_commands : List (CommandEntry TexCommand)
tex_commands = entry gl_scene "-glscene" "gs" 1 ∷ entry gl_win "-glwin" "gw" 1 ∷ []

-- `RASPIPREVIEW_PARAMETERS`
pub record PreviewSettings : Type 0 where
  pub want_preview : Bool
  pub want_full_screen_preview : Bool
  pub opacity : ℤ
  pub preview_window : Window

unfoldable pub preview_defaults : PreviewSettings
preview_defaults = record {
  want_preview = true;
  want_full_screen_preview = true;
  opacity = pos 255;
  preview_window = record { x = pos 0; y = pos 0; width = pos 1024; height = pos 768 };
}

-- `CommandPreview`: without a number, but not at the end of the text, back to the full screen.
unfoldable pub read_preview : Option (List ℤ) → PreviewSettings → PreviewSettings
read_preview none s = record s { want_preview = true; want_full_screen_preview = false }
read_preview (some read) s = record s {
  want_preview = true;
  want_full_screen_preview = length read == 0;
  preview_window = store_window read s.preview_window;
}

-- `CommandOpacity`, which counts as unknown where it cannot be read
unfoldable pub read_opacity : Option ℤ → PreviewSettings → ℕ × PreviewSettings
read_opacity none s = (0, record s { opacity = pos 255 })
read_opacity (some v) s = (2, record s { opacity = v })

unfoldable pub preview_command :
    ParamScanf → PreviewCommand → Option String → PreviewSettings → Option (ℕ × PreviewSettings)
unfolding read_preview read_opacity
preview_command sc preview arg2 s = arg2 >>= λ a. some (2, read_preview (sc.window a) s)
preview_command sc full_screen arg2 s =
    some (1, record s { want_preview = true; want_full_screen_preview = true })
preview_command sc opacity arg2 s = arg2 >>= λ a. some (read_opacity (sc.unsigned a) s)
preview_command sc disable_preview arg2 s = some (1, record s { want_preview = false })

-- `raspipreview_parse_cmdline`
unfoldable pub parse_preview :
    ParamScanf → PreviewSettings → String → Option String → Option (ℕ × PreviewSettings)
unfolding known_command preview_command
parse_preview sc s arg1 arg2 = elim (known_command preview_commands arg1 arg2) [
  | none ↦ some (0, s)
  | some command ↦ preview_command sc command arg2 s
]

-- `RASPITEX_SCENE_...`
pub data Scene : Type 0 where
  square : Scene
  mirror : Scene
  teapot : Scene
  yuv : Scene
  sobel : Scene
  vcsm_square : Scene

-- `RASPITEX_STATE`, what the command line sets of it.
pub record TexSettings : Type 0 where
  pub window : Window
  pub gl_win_defined : Bool
  pub scene_id : Scene
  pub preview_window : Window
  pub opacity : ℤ
  pub verbose : Bool

unfoldable pub tex_defaults : TexSettings
tex_defaults = record {
  window = record { x = pos 0; y = pos 0; width = pos 640; height = pos 480 };
  gl_win_defined = false;
  scene_id = square;
  preview_window = record { x = pos 0; y = pos 0; width = pos 0; height = pos 0 };
  opacity = pos 255;
  verbose = false;
}

-- `CommandGLScene`: an unknown scene is only logged.
unfoldable pub scene_of : String → Scene → Scene
scene_of a old =
    if str_eq a "square"
    then square
    else if str_eq a "teapot"
    then teapot
    else if str_eq a "mirror"
    then mirror
    else if str_eq a "yuv"
    then yuv
    else if str_eq a "sobel"
    then sobel
    else if str_eq a "vcsm_square"
    then vcsm_square
    else old

-- `CommandGLWin`, a safe size where not all four numbers can be read
unfoldable pub read_gl_win : Option (List ℤ) → TexSettings → TexSettings
read_gl_win none s = record s {
  window = record { x = pos 0; y = pos 0; width = pos 640; height = pos 480 };
}
read_gl_win (some read) s =
    if length read == 4
    then record s { window = store_window read s.window; gl_win_defined = true }
    else record s { window = record { x = pos 0; y = pos 0; width = pos 640; height = pos 480 } }

unfoldable pub tex_command : ParamScanf → TexCommand → String → TexSettings → ℕ × TexSettings
unfolding scene_of read_gl_win
tex_command sc gl_win a s = (2, read_gl_win (sc.window a) s)
tex_command sc gl_scene a s = (2, record s { scene_id = scene_of a s.scene_id })

-- `raspitex_parse_cmdline`
unfoldable pub parse_tex :
    ParamScanf → TexSettings → String → Option String → Option (ℕ × TexSettings)
unfolding known_command tex_command
parse_tex sc s arg1 arg2 = elim (known_command tex_commands arg1 arg2) [
  | none ↦ some (0, s)
  | some command ↦ arg2 >>= λ a. some (tex_command sc command a s)
]
