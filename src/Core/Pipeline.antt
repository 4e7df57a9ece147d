-- ===== src/Core/Pipeline.antt =====
-- src/tracker/core.cpp: the textures, the pointers that `swap` exchanges, and the frame function
-- `balltrack_core_process_image`, as built without DEBUG_TEXTURES, DO_DIFF and DO_FRAMEDUMPS.
pub mod Schedule
pub mod Aliasing
mod Tests
use foosball_tracker.Common.{
  ℕ, zero, suc, ◌+◌, ◌-◌, ◌==◌, if◌then◌else◌, Bool, true, false, List, [], ◌∷◌, ◌++◌,
}
use foosball_tracker.Common.Int.{ℤ, pos, negsuc, ◌+ℤ◌, ltb_ℤ}
use foosball_tracker.Common.Floats.{Floats}
use foosball_tracker.Core.Buffers.{BufferType, ball, field}
use foosball_tracker.Core.Fps
use foosball_tracker.Core.Fps.{Fps}

-- The textures: the camera's, the screen, and those that `balltrack_core_init` creates.
pub data Texture : Type 0 where
  input : Texture
  screen : Texture
  color_filter : (i : ℕ) → Texture
  downscaled : (i : ℕ) → Texture
  color_filter_field : Texture
  downscaled_field : Texture

pub data Shader : Type 0 where
  colorfilter_ball colorfilter_field downsample simple : Shader

-- The four pointer variables `texColorFilter_read` to `texDownscaled_write`.
pub data Var : Type 0 where
  color_read color_write down_read down_write : Var

pub record Pointers : Type 0 where
  pub color_filter_read : Texture
  pub color_filter_write : Texture
  pub downscaled_read : Texture
  pub downscaled_write : Texture

abbrev pub load : Pointers → Var → Texture
load p color_read = p.color_filter_read
load p color_write = p.color_filter_write
load p down_read = p.downscaled_read
load p down_write = p.downscaled_write

abbrev pub store : Pointers → Var → Texture → Pointers
store p color_read t = record p { color_filter_read = t }
store p color_write t = record p { color_filter_write = t }
store p down_read t = record p { downscaled_read = t }
store p down_write t = record p { downscaled_write = t }

-- `template <typename T> void swap(T& a, T& b)`: a reference is the variable that it names, and
-- `T& tmp = a` makes `tmp` another name of `a`.
unfoldable pub swap : Pointers → Var → Var → Pointers
swap p a b = let tmp = a in let p1 = store p a (load p b) in store p1 b (load p1 tmp)

-- What a frame does outside: a render pass, a readout handed to the analysis thread, and the
-- overlay of `analysis_draw`.
pub data Op : Type 0 where
  render_pass : Shader → Texture → Texture → Op
  send_buffer_to_analysis : BufferType → Texture → Op
  analysis_draw : Op

-- `FieldUpdateDelay`
abbrev pub field_update_delay : ℕ
field_update_delay = 20

-- The globals and static variables of the frame function. The static variables are set up as it
-- starts them.
pub record Pipeline (F : Type 0) : Type 0 where
  pub all_initialized : Bool
  pub fps : Fps F
  pub frame_number : ℤ
  pub field_update_steps : ℕ
  pub pointers : Pointers

abbrev pub start_pointers : Pointers
start_pointers = record {
  color_filter_read = color_filter 0;
  color_filter_write = color_filter 1;
  downscaled_read = downscaled 0;
  downscaled_write = downscaled 1;
}

-- The field's share of a frame: what is rendered or sent, by the countdown.
unfoldable pub field_ops : ℕ → List Op
field_ops steps =
    if steps == 5
    then render_pass colorfilter_field input color_filter_field ∷ []
    else if steps == 4
    then render_pass downsample color_filter_field downscaled_field ∷ []
    else if steps == 0
    then send_buffer_to_analysis field downscaled_field ∷ []
    else []

-- The countdown after the frame: at 0 it is first set back, then it is decremented. It is never 0
-- at the decrement.
unfoldable pub next_steps : ℕ → ℕ
next_steps steps = (if steps == 0 then field_update_delay else steps) - 1

-- Both swaps of a frame.
unfoldable pub swap_textures : Pointers → Pointers
unfolding swap
swap_textures p = swap (swap p color_write color_read) down_write down_read

-- The ball's share of a frame, after the swaps.
unfoldable pub ball_ops : ℤ → Pointers → List Op
ball_ops n p =
    render_pass colorfilter_ball input p.color_filter_write
    ∷ render_pass downsample p.color_filter_read p.downscaled_write
    ∷ (if ltb_ℤ n (pos 0) then [] else send_buffer_to_analysis ball p.downscaled_read ∷ [])

module _ {F D : Type 0} (o : Floats F D) where
  unfoldable pub init : Pipeline F
  init = record {
    all_initialized = true;
    fps = Fps.init o;
    frame_number = negsuc 4;
    field_update_steps = field_update_delay;
    pointers = start_pointers;
  }

  -- `balltrack_core_process_image` at the time `now`: the new state, its result, and what it did.
  unfoldable pub process_image : Pipeline F → ℤ → Pipeline F × ℤ × List Op
  unfolding field_ops next_steps swap_textures ball_ops
  process_image s now =
      if s.all_initialized
      then (
        record s {
          fps = Fps.update_render_fps o s.fps now;
          frame_number = s.frame_number +ℤ pos 1;
          field_update_steps = next_steps s.field_update_steps;
          pointers = swap_textures s.pointers;
        },
        pos 0,
        field_ops s.field_update_steps
            ++ ball_ops (s.frame_number +ℤ pos 1) (swap_textures s.pointers)
            ++ render_pass simple input screen ∷ analysis_draw ∷ [],
      )
      else (s, negsuc 0, [])

  -- The frames at the given times, in order: the last state, and what each frame did.
  unfoldable pub process_images : Pipeline F → List ℤ → Pipeline F × List (List Op)
  process_images s [] = (s, [])
  process_images s (now ∷ rest) =
      let (s1, _, ops) = process_image s now in
      let (s2, all) = process_images s1 rest in (s2, ops ∷ all)
