-- ===== src/Recorder/Camera/Cycle.antt =====
-- src/recorder/RaspiCamControl.c: `raspicamcontrol_cycle_test`, the demo that goes through the settings of
-- the camera. An option is none where it reads behind a table.
pub mod Behind
use Prim.Native.String.{String}
use foosball_tracker.Common.{
  ℕ, zero, suc, ◌+◌, ◌==◌, if◌then◌else◌, Bool, true, false, List, [], ◌∷◌, ◌++◌, Option, none,
  some, length, ◌>>=◌,
}
use foosball_tracker.Common.Int.{ℤ, pos, negsuc, ◌+ℤ◌, ◌-ℤ◌, eqb_ℤ, ltb_ℤ, get_at?}
use foosball_tracker.Recorder.Cli.{Xref}
use foosball_tracker.Recorder.Camera.{exposure_map, awb_map, imagefx_map}

-- `parameter_reset`
abbrev pub parameter_reset : ℤ
parameter_reset = negsuc 99_998

-- The calls of `raspicamcontrol_set_...`. The colour effect has 0 in `enable`.
pub data Setting : Type 0 where
  sharpness : ℤ → Setting
  contrast : ℤ → Setting
  brightness : ℤ → Setting
  saturation : ℤ → Setting
  exposure_compensation : ℤ → Setting
  exposure_mode : ℤ → Setting
  awb_mode : ℤ → Setting
  image_fx : ℤ → Setting
  colour_fx : (u v : ℤ) → Setting
  rotation : ℤ → Setting
  flips : (hflip vflip : Bool) → Setting

-- The static variables
pub record Cycle : Type 0 where
  pub parameter : ℕ
  pub parameter_option : ℤ

abbrev pub cycle_start : Cycle
cycle_start = record { parameter = 0; parameter_option = parameter_reset }

-- The new option, and whether it is a value of the cycle.
unfoldable pub update_cycle_parameter : (option min max increment : ℤ) → ℤ × Bool
update_cycle_parameter option min max increment =
    let start = if eqb_ℤ option parameter_reset then min -ℤ increment else option in
    let next = start +ℤ increment in
    if ltb_ℤ max next then (parameter_reset, false) else (next, true)

-- A setting from a range, and its value at the end.
unfoldable pub cycle_range :
    (min max increment end : ℤ) → (ℤ → Setting) → Cycle → List Setting × Cycle
unfolding update_cycle_parameter
cycle_range min max increment end set c =
    let (option, more) = update_cycle_parameter c.parameter_option min max increment in
    if more
    then (set option ∷ [], record c { parameter_option = option })
    else (set end ∷ [], record { parameter = c.parameter + 1; parameter_option = option })

-- A setting from a table, up to the table's size.
unfoldable pub cycle_table :
    List Xref → (end : ℤ) → (ℤ → Setting) → Cycle → Option (List Setting × Cycle)
unfolding update_cycle_parameter
cycle_table table end set c =
    let (option, more) =
      update_cycle_parameter c.parameter_option (pos 0) (pos (length table)) (pos 1) in
    if more
    then (get_at? table option >>= λ entry.
        some (set entry.mmal_mode ∷ [], record c { parameter_option = option }))
    else some (set end ∷ [], record { parameter = c.parameter + 1; parameter_option = option })

-- The colour effect, of an option of the `switch` or another
unfoldable pub cycle_colours : Cycle → List Setting × Cycle
cycle_colours c =
    if eqb_ℤ c.parameter_option parameter_reset
    then (colour_fx (pos 128) (pos 128) ∷ [], record c { parameter_option = pos 1 })
    else if eqb_ℤ c.parameter_option (pos 1)
    then (colour_fx (pos 100) (pos 200) ∷ [], record c { parameter_option = pos 2 })
    else if eqb_ℤ c.parameter_option (pos 2)
    then (
      colour_fx (pos 0) (pos 0) ∷ [],
      record { parameter = c.parameter + 1; parameter_option = parameter_reset },
    )
    else (colour_fx (pos 0) (pos 0) ∷ [], c)

-- An option of the `switch` that is followed by the next.
abbrev pub goes : Cycle → List Setting → ℕ → List Setting × Cycle
goes c settings option = (settings, record c { parameter_option = pos option })

-- The orientation
unfoldable pub cycle_orientation : Cycle → List Setting × Cycle
cycle_orientation c =
    if eqb_ℤ c.parameter_option parameter_reset
    then goes c (rotation (pos 90) ∷ []) 1
    else if eqb_ℤ c.parameter_option (pos 1)
    then goes c (rotation (pos 180) ∷ []) 2
    else if eqb_ℤ c.parameter_option (pos 2)
    then goes c (rotation (pos 270) ∷ []) 3
    else if eqb_ℤ c.parameter_option (pos 3)
    then goes c (rotation (pos 0) ∷ flips true false ∷ []) 4
    else if eqb_ℤ c.parameter_option (pos 4)
    then goes c (flips false true ∷ []) 5
    else if eqb_ℤ c.parameter_option (pos 5)
    then goes c (flips true true ∷ []) 6
    else if eqb_ℤ c.parameter_option (pos 6)
    then (
      flips false false ∷ [],
      record { parameter = c.parameter + 1; parameter_option = parameter_reset },
    )
    else ([], c)

-- The first `if` with its `else if`s.
unfoldable pub cycle_first : (String → ℤ) → Cycle → Option (List Setting × Cycle)
unfolding cycle_range cycle_table
cycle_first code c =
    if c.parameter == 0
    then some (cycle_range (negsuc 99) (pos 100) (pos 10) (pos 0) sharpness c)
    else if c.parameter == 1
    then some (cycle_range (negsuc 99) (pos 100) (pos 10) (pos 0) contrast c)
    else if c.parameter == 2
    then some (cycle_range (pos 0) (pos 100) (pos 10) (pos 50) brightness c)
    else if c.parameter == 3
    then some (cycle_range (negsuc 99) (pos 100) (pos 10) (pos 0) saturation c)
    else if c.parameter == 4
    then some (cycle_range (negsuc 9) (pos 10) (pos 4) (pos 0) exposure_compensation c)
    else if c.parameter == 5
    then cycle_table (exposure_map code) (code "MMAL_PARAM_EXPOSUREMODE_AUTO") exposure_mode c
    else if c.parameter == 6
    then cycle_table (awb_map code) (code "MMAL_PARAM_AWBMODE_AUTO") awb_mode c
    else some ([], c)

-- An `if` of its own, for one number of the parameter.
abbrev pub where_parameter :
    ℕ
    → (Cycle → Option (List Setting × Cycle))
    → List Setting × Cycle
    → Option (List Setting × Cycle)
where_parameter n step (settings, c) =
    if c.parameter == n then (step c >>= λ r. some (settings ++ r.0, r.1)) else some (settings, c)

-- A call: the settings, whether the result is 1, and the variables.
unfoldable pub cycle_test : (String → ℤ) → Cycle → Option (List Setting × Bool × Cycle)
unfolding cycle_first cycle_table cycle_colours cycle_orientation
cycle_test code c =
    cycle_first code c
    >>= where_parameter 7 (cycle_table (imagefx_map code) (code "MMAL_PARAM_IMAGEFX_NONE") image_fx)
    >>= where_parameter 8 (λ c. some (cycle_colours c))
    >>= where_parameter 9 (λ c. some (cycle_orientation c))
    >>= λ r.
        if r.1.parameter == 10
        then some (r.0, false, record r.1 { parameter = 1 })
        else some (r.0, true, r.1)

-- The calls of the demo mode of `main`, without the pauses.
unfoldable pub cycle_calls : (String → ℤ) → (n : ℕ) → Cycle → Option (List Setting × Cycle)
unfolding cycle_test
cycle_calls code zero c = some ([], c)
cycle_calls code (suc n) c =
    cycle_test code c >>= λ r. cycle_calls code n r.2 >>= λ rest. some (r.0 ++ rest.0, rest.1)
