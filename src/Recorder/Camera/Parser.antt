-- ===== src/Recorder/Camera/Parser.antt =====
-- src/recorder/RaspiCamControl.c: `raspicamcontrol_parse_cmdline`. `sscanf` is a parameter, as are the numbers of
-- the MMAL library and the operation | on its bit masks.
use Prim.Native.String.{String}
use Prim.Native.Char.{code as char_code}
use foosball_tracker.Common.{
  ℕ, zero, suc, ◌-◌, ◌==◌, if◌then◌else◌, true, false, ◌&&◌, ◌||◌, List, [], ◌∷◌, Option, none,
  some, get_or, ◌>>=◌,
}
use foosball_tracker.Common.Int.{ℤ, pos}
use foosball_tracker.Common.Floats.{Floats}
use foosball_tracker.Recorder.Cli.{Xref, map_xref}
use foosball_tracker.Recorder.Options.{known_or}
use foosball_tracker.Recorder.Parameters.{known_command}
use foosball_tracker.Recorder.Camera.{
  exposure_map, flicker_avoid_map, awb_map, imagefx_map, metering_mode_map, drc_mode_map,
  stereo_mode_map,
}
use foosball_tracker.Recorder.Camera.Settings.{
  CameraCommand, sharpness, contrast, brightness, saturation, iso, video_stab, ev_comp, exposure,
  awb, image_fx, colour_fx, meter_mode, rotation, h_flip, v_flip, roi, shutter_speed, awb_gains,
  drc_level, stats_pass, annotate, stereo_mode, stereo_decimate, stereo_swap, annotate_extras,
  flicker, analog_gain, digital_gain, settings, camera_commands, FloatRect, CameraSettings,
}

-- What `sscanf` stores of "%d"; of "%d:%d"; of one, two and four "%lf", divided by commas, where all are
-- read; of "%u,%X,%X,%u,%u,%u"; and the number of "%u%c" where that is all. `length` is
-- MMAL_CAMERA_ANNOTATE_MAX_TEXT_LEN_V3.
pub record CameraScanf (D : Type 0) : Type 0 where
  pub signed : String → Option ℤ
  pub pair : String → List ℤ
  pub one : String → Option D
  pub two : String → Option (D × D)
  pub four : String → Option (FloatRect D)
  pub extras : String → List ℤ
  pub bitmask : String → Option ℤ
  pub bit_or : ℤ → ℤ → ℤ
  pub mmal : String → ℤ
  pub text_length : ℕ

abbrev stored_or : ℤ → Option ℤ → ℤ
stored_or old none = old
stored_or old (some new) = new

-- `exposure_mode_from_string` and its kin: the number of the name, or another one.
unfoldable pub mode_from_string :
    {D : Type 0} → CameraScanf D → List Xref → (other str : String) → ℤ
mode_from_string sc map other str = known_or (sc.mmal other) (map_xref str map)

abbrev pub codes : String → List ℕ
codes String.[] = []
codes (String.◌∷◌ c s) = char_code c ∷ codes s

-- The loop that copies the text of the annotation, where there is room for so many bytes before the zero. A
-- backslash and an n are a line feed.
unfoldable pub copy_text : (room : ℕ) → List ℕ → List ℕ
copy_text zero text = []
copy_text (suc room) [] = []
copy_text (suc room) (c ∷ []) = c ∷ []
copy_text (suc room) (c ∷ d ∷ text) = elim (c == 92 && d == 110) [
  | true ↦ 10 ∷ copy_text room text
  | false ↦ c ∷ copy_text room (d ∷ text)
]

module _ {F D : Type 0} (fl : Floats F D) (sc : CameraScanf D) where
  -- `CommandROI`: the region is cut off at its far ends.
  unfoldable pub read_roi : Option (FloatRect D) → CameraSettings F D → ℕ × CameraSettings F D
  read_roi none s = (0, s)
  read_roi (some r) s =
      let one = fl.double.lit 1 0 in
      if fl.double.lt one r.x
        || fl.double.lt one r.y
        || fl.double.lt one r.w
        || fl.double.lt one r.h
      then (0, s)
      else (
        2,
        record s {
          roi = record {
            x = r.x;
            y = r.y;
            w =
                if fl.double.lt one (fl.double.add r.x r.w)
                then fl.double.sub (fl.double.of_int (pos 1)) r.x
                else r.w;
            h =
                if fl.double.lt one (fl.double.add r.y r.h)
                then fl.double.sub (fl.double.of_int (pos 1)) r.y
                else r.h;
          };
        },
      )

  -- `CommandAwbGains`
  unfoldable pub read_awb_gains : Option (D × D) → CameraSettings F D → ℕ × CameraSettings F D
  read_awb_gains none s = (0, s)
  read_awb_gains (some (r, b)) s =
      if fl.double.lt (fl.double.lit 8 0) r || fl.double.lt (fl.double.lit 8 0) b
      then (0, s)
      else (2, record s { awb_gains_r = fl.narrow r; awb_gains_b = fl.narrow b })

  -- `CommandAnalogGain` and `CommandDigitalGain`
  unfoldable pub read_gain :
      (most : ℕ) → (F → CameraSettings F D) → Option D → CameraSettings F D → ℕ × CameraSettings F D
  read_gain most store none s = (0, s)
  read_gain most store (some gain) s =
      if fl.double.lt (fl.double.lit most 0) gain then (0, s) else (2, store (fl.narrow gain))

  -- `CommandAnnotate`: bits, or a text.
  unfoldable pub annotate_with : Option ℤ → String → CameraSettings F D → CameraSettings F D
  unfolding copy_text
  annotate_with (some bitmask) a s = record s {
    enable_annotate = sc.bit_or s.enable_annotate bitmask;
  }
  annotate_with none a s = record s {
    enable_annotate = sc.bit_or s.enable_annotate (pos 1);
    annotate_string = copy_text (sc.text_length - 1) (codes a);
  }

  -- `CommandColourFX`
  unfoldable pub read_colours : List ℤ → CameraSettings F D → CameraSettings F D
  read_colours read s = record s {
    colour_effects = record {
      enable = pos 1;
      u = get_or read 0 s.colour_effects.u;
      v = get_or read 1 s.colour_effects.v;
    };
  }

  -- `CommandAnnotateExtras`
  unfoldable pub read_extras : List ℤ → CameraSettings F D → CameraSettings F D
  read_extras read s = record s {
    annotate_text_size = get_or read 0 s.annotate_text_size;
    annotate_text_colour = get_or read 1 s.annotate_text_colour;
    annotate_bg_colour = get_or read 2 s.annotate_bg_colour;
    annotate_justify = get_or read 3 s.annotate_justify;
    annotate_x = get_or read 4 s.annotate_x;
    annotate_y = get_or read 5 s.annotate_y;
  }

  -- The cases that read their parameter.
  unfoldable pub camera_parameter :
      CameraCommand → String → CameraSettings F D → ℕ × CameraSettings F D
  unfolding mode_from_string read_roi read_awb_gains read_gain annotate_with read_colours
      read_extras
  camera_parameter sharpness a s = (2, record s { sharpness = stored_or s.sharpness (sc.signed a) })
  camera_parameter contrast a s = (2, record s { contrast = stored_or s.contrast (sc.signed a) })
  camera_parameter brightness a s =
      (2, record s { brightness = stored_or s.brightness (sc.signed a) })
  camera_parameter saturation a s =
      (2, record s { saturation = stored_or s.saturation (sc.signed a) })
  camera_parameter iso a s = (2, record s { iso = stored_or s.iso (sc.signed a) })
  camera_parameter ev_comp a s =
      (2, record s { exposure_compensation = stored_or s.exposure_compensation (sc.signed a) })
  camera_parameter exposure a s = (
    2,
    record s {
      exposure_mode = mode_from_string sc (exposure_map sc.mmal) "MMAL_PARAM_EXPOSUREMODE_AUTO" a;
    },
  )
  camera_parameter flicker a s = (
    2,
    record s {
      flicker_avoid_mode =
          mode_from_string sc (flicker_avoid_map sc.mmal) "MMAL_PARAM_FLICKERAVOID_OFF" a;
    },
  )
  camera_parameter awb a s =
      (2, record s { awb_mode = mode_from_string sc (awb_map sc.mmal) "MMAL_PARAM_AWBMODE_AUTO" a })
  camera_parameter image_fx a s = (
    2,
    record s {
      image_effect = mode_from_string sc (imagefx_map sc.mmal) "MMAL_PARAM_IMAGEFX_NONE" a;
    },
  )
  camera_parameter colour_fx a s = (2, read_colours (sc.pair a) s)
  camera_parameter meter_mode a s = (
    2,
    record s {
      exposure_meter_mode =
          mode_from_string sc (metering_mode_map sc.mmal) "MMAL_PARAM_EXPOSUREMETERINGMODE_AVERAGE"
            a;
    },
  )
  camera_parameter rotation a s = (2, record s { rotation = stored_or s.rotation (sc.signed a) })
  camera_parameter shutter_speed a s =
      (2, record s { shutter_speed = stored_or s.shutter_speed (sc.signed a) })
  camera_parameter drc_level a s = (
    2,
    record s {
      drc_level = mode_from_string sc (drc_mode_map sc.mmal) "MMAL_PARAMETER_DRC_STRENGTH_OFF" a;
    },
  )
  camera_parameter annotate a s = (2, annotate_with (sc.bitmask a) a s)
  camera_parameter annotate_extras a s = (2, read_extras (sc.extras a) s)
  camera_parameter stereo_mode a s = (
    2,
    record s {
      stereo_mode = record s.stereo_mode {
        mode = mode_from_string sc (stereo_mode_map sc.mmal) "MMAL_STEREOSCOPIC_MODE_NONE" a;
      };
    },
  )
  camera_parameter roi a s = read_roi (sc.four a) s
  camera_parameter awb_gains a s = read_awb_gains (sc.two a) s
  camera_parameter analog_gain a s = read_gain 16 (λ g. record s { analog_gain = g }) (sc.one a) s
  camera_parameter digital_gain a s = read_gain 64 (λ g. record s { digital_gain = g }) (sc.one a) s
  camera_parameter _ a s = (0, s)

  -- The `switch`. An option is none where a missing parameter is read.
  unfoldable pub camera_command :
      CameraCommand → Option String → CameraSettings F D → Option (ℕ × CameraSettings F D)
  unfolding camera_parameter
  camera_command video_stab arg2 s = some (1, record s { video_stabilisation = true })
  camera_command h_flip arg2 s = some (1, record s { hflip = true })
  camera_command v_flip arg2 s = some (1, record s { vflip = true })
  camera_command stats_pass arg2 s = some (1, record s { stats_pass = true })
  camera_command stereo_decimate arg2 s =
      some (1, record s { stereo_mode = record s.stereo_mode { decimate = true } })
  camera_command stereo_swap arg2 s =
      some (1, record s { stereo_mode = record s.stereo_mode { swap_eyes = true } })
  camera_command settings arg2 s = some (1, record s { settings = true })
  camera_command command arg2 s = arg2 >>= λ a. some (camera_parameter command a s)

  -- `raspicamcontrol_parse_cmdline`
  unfoldable pub parse_camera :
      CameraSettings F D → String → Option String → Option (ℕ × CameraSettings F D)
  unfolding known_command camera_command
  parse_camera s arg1 arg2 = elim (known_command camera_commands arg1 arg2) [
    | none ↦ some (0, s)
    | some command ↦ camera_command command arg2 s
  ]
