-- ===== src/Recorder/Camera/Uses.antt =====
-- src/recorder/RaspiCamControl.c: how many arguments `raspicamcontrol_parse_cmdline` uses, and the length of the
-- text of the annotation.
use Prim.Native.String.{String}
use foosball_tracker.Common.{
  ℕ, zero, suc, ◌==◌, ◌≤◌, arith, true, false, ◌&&◌, List, [], ◌∷◌, length, Option, none, some,
  Returns, value,
}
use foosball_tracker.Common.Floats.{Floats}
use foosball_tracker.Recorder.Cli.Entries.{◌▸◌}
use foosball_tracker.Recorder.Uses.{IsUse, one-IsUse, with_text, parse-Returns, if-unused}
use foosball_tracker.Recorder.Camera.Settings.{FloatRect, CameraSettings, camera_commands}
use foosball_tracker.Recorder.Camera.Parser.{
  CameraScanf, copy_text, read_roi, read_awb_gains, read_gain, camera_parameter, camera_command,
  parse_camera,
}

module _ {F D : Type 0} (fl : Floats F D) (sc : CameraScanf D) where
  read_roi-used :
      (read : Option (FloatRect D)) (s : CameraSettings F D) → (read_roi fl sc read s).0 ≤ 2
  unfolding read_roi
  read_roi-used none s = omega arith
  read_roi-used (some r) s = if-unused _ s _

  read_awb_gains-used :
      (read : Option (D × D)) (s : CameraSettings F D) → (read_awb_gains fl sc read s).0 ≤ 2
  unfolding read_awb_gains
  read_awb_gains-used none s = omega arith
  read_awb_gains-used (some (r, b)) s = if-unused _ s _

  read_gain-used :
      (most : ℕ) (store : F → CameraSettings F D) (read : Option D) (s : CameraSettings F D)
      → (read_gain fl sc most store read s).0 ≤ 2
  unfolding read_gain
  read_gain-used most store none s = omega arith
  read_gain-used most store (some gain) s = if-unused _ s _

-- The parser of the camera settings ends for every option and uses what is there.
pub parse_camera-Returns :
    {F D : Type 0} (fl : Floats F D) (sc : CameraScanf D) (s : CameraSettings F D) (arg1 : String)
    (arg2 : Option String)
    → Returns (IsUse arg2) (parse_camera fl sc s arg1 arg2)
unfolding parse_camera camera_command camera_parameter
parse_camera-Returns fl sc s arg1 arg2 =
    parse-Returns camera_commands (camera_command fl sc) (λ c n. Unit {0}) arg1 arg2 s
      ((λ u arg2 s e. with_text _ arg2 (λ a. omega arith) e)
        ▸ (λ u arg2 s e. with_text _ arg2 (λ a. omega arith) e)
        ▸ (λ u arg2 s e. with_text _ arg2 (λ a. omega arith) e)
        ▸ (λ u arg2 s e. with_text _ arg2 (λ a. omega arith) e)
        ▸ (λ u arg2 s e. with_text _ arg2 (λ a. omega arith) e)
        ▸ (λ u arg2 s e. value _ (one-IsUse arg2 _))
        ▸ (λ u arg2 s e. with_text _ arg2 (λ a. omega arith) e)
        ▸ (λ u arg2 s e. with_text _ arg2 (λ a. omega arith) e)
        ▸ (λ u arg2 s e. with_text _ arg2 (λ a. omega arith) e)
        ▸ (λ u arg2 s e. with_text _ arg2 (λ a. omega arith) e)
        ▸ (λ u arg2 s e. with_text _ arg2 (λ a. omega arith) e)
        ▸ (λ u arg2 s e. with_text _ arg2 (λ a. omega arith) e)
        ▸ (λ u arg2 s e. with_text _ arg2 (λ a. omega arith) e)
        ▸ (λ u arg2 s e. with_text _ arg2 (λ a. omega arith) e)
        ▸ (λ u arg2 s e. value _ (one-IsUse arg2 _))
        ▸ (λ u arg2 s e. value _ (one-IsUse arg2 _))
        ▸ (λ u arg2 s e. with_text _ arg2 (λ a. read_roi-used fl sc (sc.four a) s) e)
        ▸ (λ u arg2 s e. with_text _ arg2 (λ a. omega arith) e)
        ▸ (λ u arg2 s e. with_text _ arg2 (λ a. read_awb_gains-used fl sc (sc.two a) s) e)
        ▸ (λ u arg2 s e. with_text _ arg2 (λ a. omega arith) e)
        ▸ (λ u arg2 s e. value _ (one-IsUse arg2 _))
        ▸ (λ u arg2 s e. with_text _ arg2 (λ a. omega arith) e)
        ▸ (λ u arg2 s e. with_text _ arg2 (λ a. omega arith) e)
        ▸ (λ u arg2 s e. value _ (one-IsUse arg2 _))
        ▸ (λ u arg2 s e. value _ (one-IsUse arg2 _))
        ▸ (λ u arg2 s e. with_text _ arg2 (λ a. omega arith) e)
        ▸ (λ u arg2 s e.
            with_text _ arg2
              (λ a. read_gain-used fl sc 16 (λ g. record s { analog_gain = g }) (sc.one a) s) e)
        ▸ (λ u arg2 s e.
            with_text _ arg2
              (λ a. read_gain-used fl sc 64 (λ g. record s { digital_gain = g }) (sc.one a) s) e)
        ▸ (λ u arg2 s e. value _ (one-IsUse arg2 _))
        ▸ tt)
      (λ c n e. tt)

-- The text of the annotation fits into the room.
pub length-copy_text : (room : ℕ) (text : List ℕ) → length (copy_text room text) ≤ room
unfolding copy_text
length-copy_text zero text = omega arith
length-copy_text (suc room) [] = omega arith
length-copy_text (suc room) (c ∷ []) = omega arith
length-copy_text (suc room) (c ∷ d ∷ text) =
    elim (c == 92 && d == 110)
      as (λ b.
        length (elim b as (λ x. List ℕ) [
          | true ↦ 10 ∷ copy_text room text
          | false ↦ c ∷ copy_text room (d ∷ text)
        ])
        ≤ suc room) [
          | true ↦ let rest = length-copy_text room text in omega arith
          | false ↦ let rest = length-copy_text room (d ∷ text) in omega arith
        ]
