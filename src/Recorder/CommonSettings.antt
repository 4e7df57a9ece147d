-- ===== src/Recorder/CommonSettings.antt =====
-- src/recorder/RaspiCommonSettings.c: the defaults and the parser of the settings that all recorder
-- programs share. An option is none where the process ends, by `exit` after the help or by a fault.
use Prim.Native.String.{String}
use foosball_tracker.Common.{
  ℕ, if◌then◌else◌, Bool, true, false, List, [], ◌∷◌, Option, none, some, ◌>>=◌,
}
use foosball_tracker.Common.Int.{ℤ, pos}
use foosball_tracker.Recorder.Cli.{CommandEntry}
use foosball_tracker.Recorder.Options.{is_empty}
use foosball_tracker.Recorder.Parameters.{ParamScanf, known_command}

pub data CommonCommand : Type 0 where
  help : CommonCommand
  width : CommonCommand
  height : CommonCommand
  output : CommonCommand
  verbose : CommonCommand
  cam_select : CommonCommand
  sensor_mode : CommonCommand
  gpsd : CommonCommand

abbrev entry : CommonCommand → String → String → ℕ → CommandEntry CommonCommand
entry id command abbreviation n = record {
  id = id;
  command = command;
  abbreviation = abbreviation;
  num_parameters = n;
}

abbrev pub common_commands : List (CommandEntry CommonCommand)
common_commands =
    entry help "-help" "?" 0
    ∷ entry width "-width" "w" 1
    ∷ entry height "-height" "h" 1
    ∷ entry output "-output" "o" 1
    ∷ entry verbose "-verbose" "v" 0
    ∷ entry cam_select "-camselect" "cs" 1
    ∷ entry sensor_mode "-mode" "md" 1
    ∷ []

-- `RASPICOMMONSETTINGS_PARAMETERS` without the camera's name
pub record CommonSettings : Type 0 where
  pub width : ℤ
  pub height : ℤ
  pub filename : Option String
  pub camera_num : ℤ
  pub sensor_mode : ℤ
  pub verbose : Bool
  pub gps : Bool

unfoldable pub common_defaults : CommonSettings
common_defaults = record {
  width = pos 0;
  height = pos 0;
  filename = none;
  camera_num = pos 0;
  sensor_mode = pos 0;
  verbose = false;
  gps = false;
}

-- `if (sscanf(arg2, "%u", ..) == 1) used = 2;`
abbrev pub store_number : Option ℤ → (ℤ → CommonSettings) → CommonSettings → ℕ × CommonSettings
store_number none store s = (0, s)
store_number (some v) store s = (2, store v)

-- The cases with a parameter. A file name is stored whatever percent signs it has: the check of these only
-- logs, since `used` is set to 2 behind it.
unfoldable pub common_parameter :
    ParamScanf → CommonCommand → String → CommonSettings → ℕ × CommonSettings
common_parameter sc width a s = store_number (sc.unsigned a) (λ v. record s { width = v }) s
common_parameter sc height a s = store_number (sc.unsigned a) (λ v. record s { height = v }) s
common_parameter sc output a s = if is_empty a then (0, s) else (2, record s { filename = some a })
common_parameter sc cam_select a s =
    store_number (sc.unsigned a) (λ v. record s { camera_num = v }) s
common_parameter sc sensor_mode a s =
    store_number (sc.unsigned a) (λ v. record s { sensor_mode = v }) s
common_parameter sc _ a s = (0, s)

unfoldable pub common_command :
    ParamScanf → CommonCommand → Option String → CommonSettings → Option (ℕ × CommonSettings)
unfolding common_parameter
common_command sc help arg2 s = none
common_command sc verbose arg2 s = some (1, record s { verbose = true })
common_command sc gpsd arg2 s = some (1, record s { gps = true })
common_command sc command arg2 s = arg2 >>= λ a. some (common_parameter sc command a s)

-- `raspicommonsettings_parse_cmdline`: how many arguments were used.
unfoldable pub parse_common :
    ParamScanf → CommonSettings → String → Option String → Option (ℕ × CommonSettings)
unfolding known_command common_command
parse_common sc s arg1 arg2 = elim (known_command common_commands arg1 arg2) [
  | none ↦ some (0, s)
  | some command ↦ common_command sc command arg2 s
]
