-- ===== src/Recorder/Camera/Settings.antt =====
-- src/recorder/RaspiCamControl.h and RaspiCamControl.c: the settings of the camera and their options. `float`
-- is `F` and `double` is `D`.
use Prim.Native.String.{String}
use foosball_tracker.Common.{ℕ, Bool, false, List, [], ◌∷◌}
use foosball_tracker.Common.Int.{ℤ, pos, negsuc}
use foosball_tracker.Common.Floats.{Floats}
use foosball_tracker.Recorder.Cli.{CommandEntry}

pub data CameraCommand : Type 0 where
  sharpness : CameraCommand
  contrast : CameraCommand
  brightness : CameraCommand
  saturation : CameraCommand
  iso : CameraCommand
  video_stab : CameraCommand
  ev_comp : CameraCommand
  exposure : CameraCommand
  awb : CameraCommand
  image_fx : CameraCommand
  colour_fx : CameraCommand
  meter_mode : CameraCommand
  rotation : CameraCommand
  h_flip : CameraCommand
  v_flip : CameraCommand
  roi : CameraCommand
  shutter_speed : CameraCommand
  awb_gains : CameraCommand
  drc_level : CameraCommand
  stats_pass : CameraCommand
  annotate : CameraCommand
  stereo_mode : CameraCommand
  stereo_decimate : CameraCommand
  stereo_swap : CameraCommand
  annotate_extras : CameraCommand
  flicker : CameraCommand
  analog_gain : CameraCommand
  digital_gain : CameraCommand
  settings : CameraCommand

abbrev entry : CameraCommand → String → String → ℕ → CommandEntry CameraCommand
entry id command abbreviation n = record {
  id = id;
  command = command;
  abbreviation = abbreviation;
  num_parameters = n;
}

-- An entry without a number has 0.
abbrev pub camera_commands : List (CommandEntry CameraCommand)
camera_commands =
    entry sharpness "-sharpness" "sh" 1
    ∷ entry contrast "-contrast" "co" 1
    ∷ entry brightness "-brightness" "br" 1
    ∷ entry saturation "-saturation" "sa" 1
    ∷ entry iso "-ISO" "ISO" 1
    ∷ entry video_stab "-vstab" "vs" 0
    ∷ entry ev_comp "-ev" "ev" 1
    ∷ entry exposure "-exposure" "ex" 1
    ∷ entry flicker "-flicker" "fli" 1
    ∷ entry awb "-awb" "awb" 1
    ∷ entry image_fx "-imxfx" "ifx" 1
    ∷ entry colour_fx "-colfx" "cfx" 1
    ∷ entry meter_mode "-metering" "mm" 1
    ∷ entry rotation "-rotation" "rot" 1
    ∷ entry h_flip "-hflip" "hf" 0
    ∷ entry v_flip "-vflip" "vf" 0
    ∷ entry roi "-roi" "roi" 1
    ∷ entry shutter_speed "-shutter" "ss" 1
    ∷ entry awb_gains "-awbgains" "awbg" 1
    ∷ entry drc_level "-drc" "drc" 1
    ∷ entry stats_pass "-stats" "st" 0
    ∷ entry annotate "-annotate" "a" 1
    ∷ entry stereo_mode "-stereo" "3d" 1
    ∷ entry stereo_decimate "-decimate" "dec" 0
    ∷ entry stereo_swap "-3dswap" "3dswap" 0
    ∷ entry annotate_extras "-annotateex" "ae" 2
    ∷ entry analog_gain "-analoggain" "ag" 1
    ∷ entry digital_gain "-digitalgain" "dg" 1
    ∷ entry settings "-settings" "set" 0
    ∷ []

-- `MMAL_PARAM_COLOURFX_T`
pub record ColourFx : Type 0 where
  pub enable : ℤ
  pub u : ℤ
  pub v : ℤ

-- `PARAM_FLOAT_RECT_T`
pub record FloatRect (D : Type 0) : Type 0 where
  pub x : D
  pub y : D
  pub w : D
  pub h : D

pub record StereoMode : Type 0 where
  pub mode : ℤ
  pub decimate : Bool
  pub swap_eyes : Bool

-- `RASPICAM_CAMERA_PARAMETERS` without the parameters of the image effects
pub record CameraSettings (F D : Type 0) : Type 0 where
  pub sharpness : ℤ
  pub contrast : ℤ
  pub brightness : ℤ
  pub saturation : ℤ
  pub iso : ℤ
  pub video_stabilisation : Bool
  pub exposure_compensation : ℤ
  pub exposure_mode : ℤ
  pub exposure_meter_mode : ℤ
  pub awb_mode : ℤ
  pub image_effect : ℤ
  pub colour_effects : ColourFx
  pub flicker_avoid_mode : ℤ
  pub rotation : ℤ
  pub hflip : Bool
  pub vflip : Bool
  pub roi : FloatRect D
  pub shutter_speed : ℤ
  pub awb_gains_r : F
  pub awb_gains_b : F
  pub drc_level : ℤ
  pub stats_pass : Bool
  pub enable_annotate : ℤ
  pub annotate_string : List ℕ
  pub annotate_text_size : ℤ
  pub annotate_text_colour : ℤ
  pub annotate_bg_colour : ℤ
  pub annotate_justify : ℤ
  pub annotate_x : ℤ
  pub annotate_y : ℤ
  pub stereo_mode : StereoMode
  pub analog_gain : F
  pub digital_gain : F
  pub settings : Bool

-- `raspicamcontrol_set_defaults`, for what was there before.
unfoldable pub camera_defaults :
    {F D : Type 0} → Floats F D → (code : String → ℤ) → CameraSettings F D → CameraSettings F D
camera_defaults fl code s = record s {
  sharpness = pos 0;
  contrast = pos 0;
  brightness = pos 50;
  saturation = pos 0;
  iso = pos 0;
  video_stabilisation = false;
  exposure_compensation = pos 0;
  exposure_mode = code "MMAL_PARAM_EXPOSUREMODE_AUTO";
  flicker_avoid_mode = code "MMAL_PARAM_FLICKERAVOID_OFF";
  exposure_meter_mode = code "MMAL_PARAM_EXPOSUREMETERINGMODE_AVERAGE";
  awb_mode = code "MMAL_PARAM_AWBMODE_AUTO";
  image_effect = code "MMAL_PARAM_IMAGEFX_NONE";
  colour_effects = record { enable = pos 0; u = pos 128; v = pos 128 };
  rotation = pos 0;
  hflip = false;
  vflip = false;
  roi = record {
    x = fl.double.lit 0 0;
    y = fl.double.lit 0 0;
    w = fl.double.lit 1 0;
    h = fl.double.lit 1 0;
  };
  shutter_speed = pos 0;
  awb_gains_r = fl.single.of_int (pos 0);
  awb_gains_b = fl.single.of_int (pos 0);
  drc_level = code "MMAL_PARAMETER_DRC_STRENGTH_OFF";
  stats_pass = false;
  enable_annotate = pos 0;
  annotate_string = [];
  annotate_text_size = pos 0;
  annotate_text_colour = negsuc 0;
  annotate_bg_colour = negsuc 0;
  stereo_mode = record {
    mode = code "MMAL_STEREOSCOPIC_MODE_NONE";
    decimate = false;
    swap_eyes = false;
  };
}
