-- ===== src/Recorder/Camera/Setters.antt =====
-- src/recorder/RaspiCamControl.c: the setters, and `raspicamcontrol_set_all_parameters`. The camera is a parameter: what
-- it takes, after what was sent to it. Of the annotation only the bits and the text are modelled. There is a camera.
pub mod Errors
use Prim.Native.String.{String}
use foosball_tracker.Common.{
  ℕ, ◌+◌, if◌then◌else◌, Bool, true, false, not, ◌&&◌, ◌||◌, List, [], ◌∷◌, ◌++◌,
}
use foosball_tracker.Common.Int.{ℤ, pos, negsuc, ltb_ℤ}
use foosball_tracker.Common.Floats.{Arith, Floats}
use foosball_tracker.Recorder.Camera.Zoom.{my_rotation}
use foosball_tracker.Recorder.Camera.Settings.{ColourFx, FloatRect, CameraSettings}

-- `camera->control` or one of `camera->output`
pub data Port : Type 0 where
  control : Port
  output : ℕ → Port

-- A parameter of the MMAL library, by its name, and what it is set to.
pub data Request : Type 0 where
  rational : String → (num den : ℤ) → Request
  number : String → ℤ → Request
  awb_gains : (r b : ℤ) → Request
  colour_effect : ColourFx → Request
  crop : (x y width height : ℤ) → Request
  annotation : ℤ → List ℕ → Request

abbrev pub Sent : Type 0
Sent = List (Port × Request)

-- Whether the camera takes a request, after what was sent before.
abbrev pub Camera : Type 0
Camera = Sent → Port → Request → Bool

-- `mmal_status_to_int` of `mmal_port_parameter_set`
unfoldable pub send : Camera → Port → Request → Sent → ℕ × Sent
send camera port request sent =
    (if camera sent port request then 0 else 1, sent ++ ((port, request) ∷ []))

-- `raspicamcontrol_set_saturation` and its kin, in hundredths
unfoldable pub set_ranged : Camera → String → (low high : ℤ) → ℤ → Sent → ℕ × Sent
unfolding send
set_ranged camera name low high v sent =
    if not (ltb_ℤ v low) && not (ltb_ℤ high v)
    then send camera control (rational name v (pos 100)) sent
    else (1, sent)

-- Three ports: the result of the last or of the first one counts.
unfoldable pub send_last :
    Camera → Request → (first second third : ℕ) → (counts : Bool) → Sent → ℕ × Sent
unfolding send
send_last camera request first second third counts sent =
    let r1 = send camera (output first) request sent in
    let r2 = send camera (output second) request r1.1 in
    let r3 = send camera (output third) request r2.1 in (if counts then r3.0 else r1.0, r3.1)

abbrev pub mirror : (hflip vflip : Bool) → (mmal : String → ℤ) → ℤ
mirror true true mmal = mmal "MMAL_PARAM_MIRROR_BOTH"
mirror true false mmal = mmal "MMAL_PARAM_MIRROR_HORIZONTAL"
mirror false true mmal = mmal "MMAL_PARAM_MIRROR_VERTICAL"
mirror false false mmal = mmal "MMAL_PARAM_MIRROR_NONE"

abbrev of_bool : Bool → ℤ
of_bool true = pos 1
of_bool false = pos 0

-- The setters one after the other, and the sum of their results.
unfoldable pub run_all : List (Sent → ℕ × Sent) → Sent → ℕ × Sent
run_all [] sent = (0, sent)
run_all (set ∷ setters) sent =
    let r = set sent in let rest = run_all setters r.1 in (r.0 + rest.0, rest.1)

module _ {F D : Type 0} (fl : Floats F D) (to_int : D → ℤ) (mmal : String → ℤ)
    (camera : Camera) where
  abbrev is_zero : F → Bool
  is_zero a = let zero = fl.single.of_int (pos 0) in fl.single.le a zero && fl.single.le zero a

  -- In 65536ths
  abbrev fixed_point : F → ℤ
  fixed_point a = fl.to_int (fl.single.mul a (fl.single.of_int (pos 65_536)))

  abbrev fixed_double : D → ℤ
  fixed_double a = to_int (fl.double.mul (fl.double.of_int (pos 65_536)) a)

  -- `raspicamcontrol_set_awb_gains`
  unfoldable pub set_awb_gains : (r b : F) → Sent → ℕ × Sent
  unfolding send
  set_awb_gains r b sent =
      if is_zero r || is_zero b
      then (0, sent)
      else send camera control (awb_gains (fixed_point r) (fixed_point b)) sent

  -- `raspicamcontrol_set_gains`
  unfoldable pub set_gains : (analog digital : F) → Sent → ℕ × Sent
  unfolding send
  set_gains analog digital sent =
      let r =
        send camera control
          (rational "MMAL_PARAMETER_ANALOG_GAIN" (fixed_point analog) (pos 65_536)) sent in
      let r2 =
        send camera control
          (rational "MMAL_PARAMETER_DIGITAL_GAIN" (fixed_point digital) (pos 65_536)) r.1 in
      if camera sent control
        (rational "MMAL_PARAMETER_ANALOG_GAIN" (fixed_point analog) (pos 65_536))
      then r2
      else r

  -- `raspicamcontrol_set_ROI`
  abbrev pub region : FloatRect D → Request
  region r = crop (fixed_double r.x) (fixed_double r.y) (fixed_double r.w) (fixed_double r.h)

  -- The setters, in the order of the calls.
  unfoldable pub setters : CameraSettings F D → List (Sent → ℕ × Sent)
  unfolding set_ranged send send_last set_awb_gains set_gains my_rotation
  setters s =
      set_ranged camera "MMAL_PARAMETER_SATURATION" (negsuc 99) (pos 100) s.saturation
      ∷ set_ranged camera "MMAL_PARAMETER_SHARPNESS" (negsuc 99) (pos 100) s.sharpness
      ∷ set_ranged camera "MMAL_PARAMETER_CONTRAST" (negsuc 99) (pos 100) s.contrast
      ∷ set_ranged camera "MMAL_PARAMETER_BRIGHTNESS" (pos 0) (pos 100) s.brightness
      ∷ send camera control (number "MMAL_PARAMETER_ISO" s.iso)
      ∷ send camera control
          (number "MMAL_PARAMETER_VIDEO_STABILISATION" (of_bool s.video_stabilisation))
      ∷ send camera control (number "MMAL_PARAMETER_EXPOSURE_COMP" s.exposure_compensation)
      ∷ send camera control (number "MMAL_PARAMETER_EXPOSURE_MODE" s.exposure_mode)
      ∷ send camera control (number "MMAL_PARAMETER_FLICKER_AVOID" s.flicker_avoid_mode)
      ∷ send camera control (number "MMAL_PARAMETER_EXP_METERING_MODE" s.exposure_meter_mode)
      ∷ send camera control (number "MMAL_PARAMETER_AWB_MODE" s.awb_mode)
      ∷ set_awb_gains s.awb_gains_r s.awb_gains_b
      ∷ send camera control (number "MMAL_PARAMETER_IMAGE_EFFECT" s.image_effect)
      ∷ send camera control (colour_effect s.colour_effects)
      ∷ send_last camera (number "MMAL_PARAMETER_ROTATION" (my_rotation s.rotation)) 0 1 2 false
      ∷ send_last camera (number "MMAL_PARAMETER_MIRROR" (mirror s.hflip s.vflip mmal)) 0 1 2 true
      ∷ send camera control (region s.roi)
      ∷ send camera control (number "MMAL_PARAMETER_SHUTTER_SPEED" s.shutter_speed)
      ∷ send camera control (number "MMAL_PARAMETER_DYNAMIC_RANGE_COMPRESSION" s.drc_level)
      ∷ send camera control (number "MMAL_PARAMETER_CAPTURE_STATS_PASS" (of_bool s.stats_pass))
      ∷ send camera control (annotation s.enable_annotate s.annotate_string)
      ∷ set_gains s.analog_gain s.digital_gain
      ∷ (if s.settings
          then send camera control
              (number "MMAL_PARAMETER_CHANGE_EVENT_REQUEST" (mmal "MMAL_PARAMETER_CAMERA_SETTINGS"))
          else λ sent. (0, sent))
      ∷ []

  -- `raspicamcontrol_set_all_parameters`, where the status of a refused request of events,
  -- which is added, is taken to be 1.
  unfoldable pub set_all_parameters : CameraSettings F D → Sent → ℕ × Sent
  unfolding run_all setters
  set_all_parameters s sent = run_all (setters s) sent
