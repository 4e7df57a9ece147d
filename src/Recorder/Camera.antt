-- ===== src/Recorder/Camera.antt =====
-- src/recorder/RaspiCamControl.c: the tables of the names of values. The numbers of the MMAL library are a
-- parameter, a function of their names.
pub mod Zoom
pub mod Cycle
pub mod Settings
pub mod Parser
pub mod Uses
pub mod Setters
mod Tests
use Prim.Native.String.{String}
use foosball_tracker.Common.{List, [], ◌∷◌}
use foosball_tracker.Common.Int.{ℤ}
use foosball_tracker.Recorder.Cli.{Xref}

abbrev xref : String → ℤ → Xref
xref mode mmal_mode = record { mode = mode; mmal_mode = mmal_mode }

abbrev pub exposure_map : (String → ℤ) → List Xref
exposure_map code =
    xref "off" (code "MMAL_PARAM_EXPOSUREMODE_OFF")
    ∷ xref "auto" (code "MMAL_PARAM_EXPOSUREMODE_AUTO")
    ∷ xref "night" (code "MMAL_PARAM_EXPOSUREMODE_NIGHT")
    ∷ xref "nightpreview" (code "MMAL_PARAM_EXPOSUREMODE_NIGHTPREVIEW")
    ∷ xref "backlight" (code "MMAL_PARAM_EXPOSUREMODE_BACKLIGHT")
    ∷ xref "spotlight" (code "MMAL_PARAM_EXPOSUREMODE_SPOTLIGHT")
    ∷ xref "sports" (code "MMAL_PARAM_EXPOSUREMODE_SPORTS")
    ∷ xref "snow" (code "MMAL_PARAM_EXPOSUREMODE_SNOW")
    ∷ xref "beach" (code "MMAL_PARAM_EXPOSUREMODE_BEACH")
    ∷ xref "verylong" (code "MMAL_PARAM_EXPOSUREMODE_VERYLONG")
    ∷ xref "fixedfps" (code "MMAL_PARAM_EXPOSUREMODE_FIXEDFPS")
    ∷ xref "antishake" (code "MMAL_PARAM_EXPOSUREMODE_ANTISHAKE")
    ∷ xref "fireworks" (code "MMAL_PARAM_EXPOSUREMODE_FIREWORKS")
    ∷ []

abbrev pub flicker_avoid_map : (String → ℤ) → List Xref
flicker_avoid_map code =
    xref "off" (code "MMAL_PARAM_FLICKERAVOID_OFF")
    ∷ xref "auto" (code "MMAL_PARAM_FLICKERAVOID_AUTO")
    ∷ xref "50hz" (code "MMAL_PARAM_FLICKERAVOID_50HZ")
    ∷ xref "60hz" (code "MMAL_PARAM_FLICKERAVOID_60HZ")
    ∷ []

abbrev pub awb_map : (String → ℤ) → List Xref
awb_map code =
    xref "off" (code "MMAL_PARAM_AWBMODE_OFF")
    ∷ xref "auto" (code "MMAL_PARAM_AWBMODE_AUTO")
    ∷ xref "sun" (code "MMAL_PARAM_AWBMODE_SUNLIGHT")
    ∷ xref "cloud" (code "MMAL_PARAM_AWBMODE_CLOUDY")
    ∷ xref "shade" (code "MMAL_PARAM_AWBMODE_SHADE")
    ∷ xref "tungsten" (code "MMAL_PARAM_AWBMODE_TUNGSTEN")
    ∷ xref "fluorescent" (code "MMAL_PARAM_AWBMODE_FLUORESCENT")
    ∷ xref "incandescent" (code "MMAL_PARAM_AWBMODE_INCANDESCENT")
    ∷ xref "flash" (code "MMAL_PARAM_AWBMODE_FLASH")
    ∷ xref "horizon" (code "MMAL_PARAM_AWBMODE_HORIZON")
    ∷ []

abbrev pub imagefx_map : (String → ℤ) → List Xref
imagefx_map code =
    xref "none" (code "MMAL_PARAM_IMAGEFX_NONE")
    ∷ xref "negative" (code "MMAL_PARAM_IMAGEFX_NEGATIVE")
    ∷ xref "solarise" (code "MMAL_PARAM_IMAGEFX_SOLARIZE")
    ∷ xref "sketch" (code "MMAL_PARAM_IMAGEFX_SKETCH")
    ∷ xref "denoise" (code "MMAL_PARAM_IMAGEFX_DENOISE")
    ∷ xref "emboss" (code "MMAL_PARAM_IMAGEFX_EMBOSS")
    ∷ xref "oilpaint" (code "MMAL_PARAM_IMAGEFX_OILPAINT")
    ∷ xref "hatch" (code "MMAL_PARAM_IMAGEFX_HATCH")
    ∷ xref "gpen" (code "MMAL_PARAM_IMAGEFX_GPEN")
    ∷ xref "pastel" (code "MMAL_PARAM_IMAGEFX_PASTEL")
    ∷ xref "watercolour" (code "MMAL_PARAM_IMAGEFX_WATERCOLOUR")
    ∷ xref "film" (code "MMAL_PARAM_IMAGEFX_FILM")
    ∷ xref "blur" (code "MMAL_PARAM_IMAGEFX_BLUR")
    ∷ xref "saturation" (code "MMAL_PARAM_IMAGEFX_SATURATION")
    ∷ xref "colourswap" (code "MMAL_PARAM_IMAGEFX_COLOURSWAP")
    ∷ xref "washedout" (code "MMAL_PARAM_IMAGEFX_WASHEDOUT")
    ∷ xref "posterise" (code "MMAL_PARAM_IMAGEFX_POSTERISE")
    ∷ xref "colourpoint" (code "MMAL_PARAM_IMAGEFX_COLOURPOINT")
    ∷ xref "colourbalance" (code "MMAL_PARAM_IMAGEFX_COLOURBALANCE")
    ∷ xref "cartoon" (code "MMAL_PARAM_IMAGEFX_CARTOON")
    ∷ []

abbrev pub metering_mode_map : (String → ℤ) → List Xref
metering_mode_map code =
    xref "average" (code "MMAL_PARAM_EXPOSUREMETERINGMODE_AVERAGE")
    ∷ xref "spot" (code "MMAL_PARAM_EXPOSUREMETERINGMODE_SPOT")
    ∷ xref "backlit" (code "MMAL_PARAM_EXPOSUREMETERINGMODE_BACKLIT")
    ∷ xref "matrix" (code "MMAL_PARAM_EXPOSUREMETERINGMODE_MATRIX")
    ∷ []

abbrev pub drc_mode_map : (String → ℤ) → List Xref
drc_mode_map code =
    xref "off" (code "MMAL_PARAMETER_DRC_STRENGTH_OFF")
    ∷ xref "low" (code "MMAL_PARAMETER_DRC_STRENGTH_LOW")
    ∷ xref "med" (code "MMAL_PARAMETER_DRC_STRENGTH_MEDIUM")
    ∷ xref "high" (code "MMAL_PARAMETER_DRC_STRENGTH_HIGH")
    ∷ []

abbrev pub stereo_mode_map : (String → ℤ) → List Xref
stereo_mode_map code =
    xref "off" (code "MMAL_STEREOSCOPIC_MODE_NONE")
    ∷ xref "sbs" (code "MMAL_STEREOSCOPIC_MODE_SIDE_BY_SIDE")
    ∷ xref "tb" (code "MMAL_STEREOSCOPIC_MODE_TOP_BOTTOM")
    ∷ []
