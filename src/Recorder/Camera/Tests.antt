-- ===== src/Recorder/Camera/Tests.antt =====
-- src/recorder/RaspiCamControl.c: a zoom and a demo.
use Prim.Native.String.{String}
use foosball_tracker.Common.{
  false, ◌+◌, ℕ, ◌≤◌, ◌<◌, ◌≡◌, ◌↔◌, refl, arith, true, [], ◌∷◌, none, some,
}
use foosball_tracker.Common.Int.{ℤ, pos, negsuc, ◌+ℤ◌, ◌-ℤ◌}
use foosball_tracker.Common.Fixed.{fixed}
use foosball_tracker.Recorder.Camera.Settings.{CameraSettings}
use foosball_tracker.Recorder.Camera.Setters.{set_all_parameters}
use foosball_tracker.Recorder.Camera.Setters.Errors.{out_of, set_all_parameters-counts}
use foosball_tracker.Recorder.Camera.Zoom.{zoom_in, zoom_out, Crop, sign_bit, zoom, my_rotation}
use foosball_tracker.Recorder.Camera.Zoom.Bounds.{IsCentered, zoom-IsCentered, zoom_out_over}
use foosball_tracker.Recorder.Camera.Cycle.{sharpness, cycle_start, cycle_test, cycle_calls}
use foosball_tracker.Recorder.Camera.Cycle.Behind.{cycle_calls_behind}

abbrev crop : ℕ → ℕ → Crop
crop place size = record { x = place; y = place; width = size; height = size }

half-IsCentered : IsCentered (crop 16_384 32_768)
half-IsCentered = record {
  square = refl;
  left = refl;
  top = refl;
  large = omega arith;
  small = omega arith;
}

zoom-IsCentered_example : IsCentered (zoom zoom_in (crop 16_384 32_768))
zoom-IsCentered_example =
    zoom-IsCentered zoom_in (crop 16_384 32_768) half-IsCentered (λ e. absurd (cc))

almost-IsCentered : IsCentered (crop 768 64_000)
almost-IsCentered = record {
  square = refl;
  left = refl;
  top = refl;
  large = omega arith;
  small = omega arith;
}

zoom_out_over_example :
    (65_536 < (zoom zoom_out (crop 768 64_000)).width)
    × (sign_bit ≤ (zoom zoom_out (crop 768 64_000)).x)
zoom_out_over_example = zoom_out_over (crop 768 64_000) almost-IsCentered (omega arith)

abbrev codes : String → ℤ
codes name = pos 1

cycle_calls_behind_example : (cycle_calls codes 120 cycle_start ≡ none) ↔ (99 ≤ 120)
cycle_calls_behind_example = cycle_calls_behind codes 120

first_setting :
    cycle_test codes cycle_start
    ≡ some
        (sharpness (negsuc 99) ∷ [], true, record { parameter = 0; parameter_option = negsuc 99 })
unfolding cycle_test ◌+ℤ◌ ◌-ℤ◌
first_setting = refl

-- A negative rotation stays negative.
turned_back : my_rotation (negsuc 179) ≡ negsuc 179
unfolding my_rotation
turned_back = refl

-- The sharpness is out of its range.
abbrev sharp : CameraSettings ℕ ℕ
sharp = record {
  sharpness = pos 101;
  contrast = pos 0;
  brightness = pos 50;
  saturation = pos 0;
  iso = pos 0;
  video_stabilisation = false;
  exposure_compensation = pos 0;
  exposure_mode = pos 1;
  exposure_meter_mode = pos 1;
  awb_mode = pos 1;
  image_effect = pos 1;
  colour_effects = record { enable = pos 0; u = pos 128; v = pos 128 };
  flicker_avoid_mode = pos 1;
  rotation = pos 0;
  hflip = false;
  vflip = false;
  roi = record { x = 0; y = 0; w = 1000; h = 1000 };
  shutter_speed = pos 0;
  awb_gains_r = 0;
  awb_gains_b = 0;
  drc_level = pos 1;
  stats_pass = false;
  enable_annotate = pos 0;
  annotate_string = [];
  annotate_text_size = pos 0;
  annotate_text_colour = pos 0;
  annotate_bg_colour = pos 0;
  annotate_justify = pos 0;
  annotate_x = pos 0;
  annotate_y = pos 0;
  stereo_mode = record { mode = pos 1; decimate = false; swap_eyes = false };
  analog_gain = 0;
  digital_gain = 0;
  settings = false;
}

set_all_parameters-counts_example :
    (set_all_parameters fixed pos (λ name. pos 0) (λ sent port r. true) sharp []).0
    ≡ out_of (negsuc 99) (pos 100) sharp.saturation
      + out_of (negsuc 99) (pos 100) sharp.sharpness
      + out_of (negsuc 99) (pos 100) sharp.contrast
      + out_of (pos 0) (pos 100) sharp.brightness
set_all_parameters-counts_example =
    set_all_parameters-counts (λ sent port r. true) (λ sent port r. refl) fixed pos (λ name. pos 0)
      sharp []
