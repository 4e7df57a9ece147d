-- ===== src/Recorder/Parameters.antt =====
-- src/recorder: what the parsers of the common, preview and GL settings share. `sscanf` is a
-- parameter.
use Prim.Native.String.{String}
use foosball_tracker.Common.{ltb, if◌then◌else◌, ◌&&◌, true, false, List, Option, none, some}
use foosball_tracker.Common.Int.{ℤ}
use foosball_tracker.Recorder.Cli.{CommandEntry, get_command_id}

-- What `sscanf` stores of "%u", and of "%d,%d,%d,%d", where none is the result EOF.
pub record ParamScanf : Type 0 where
  pub unsigned : String → Option ℤ
  pub window : String → Option (List ℤ)

-- The option in the table, where its parameter is there if it needs one.
unfoldable pub known_command :
    {C : Type 0} → List (CommandEntry C) → String → Option String → Option C
known_command commands arg1 arg2 = elim (get_command_id commands arg1) [
  | none ↦ none
  | some (command, num_parameters) ↦
      if ltb 0 num_parameters && elim arg2 [ none ↦ true | some a ↦ false ]
      then none
      else some command
]
