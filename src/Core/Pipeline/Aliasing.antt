-- ===== src/Core/Pipeline/Aliasing.antt =====
-- src/tracker/core.cpp: what `swap` does to the texture pointers.
use foosball_tracker.Common.{◌≡◌, ◌≢◌, arith, if◌then◌else◌, true, [], ◌∷◌, ◌++◌}
use foosball_tracker.Common.Int.{ℤ, pos, ◌+ℤ◌, ltb_ℤ}
use foosball_tracker.Common.Floats.{Floats}
use foosball_tracker.Core.Buffers.{ball}
use foosball_tracker.Core.Pipeline.{
  input, screen, colorfilter_ball, downsample, simple, Var, color_read, Pointers, load, swap,
  swap_textures, Pipeline, process_image, render_pass, send_buffer_to_analysis, analysis_draw,
  field_ops, ball_ops,
}

-- `swap` does not exchange two variables: it copies the second into the first, and the second and
-- every other variable keep their values.
pub swap_copies :
    (p : Pointers) (a b v : Var)
    → (load (swap p a b) a ≡ load p b)
      × (load (swap p a b) b ≡ load p b)
      × (v ≢ a → load (swap p a b) v ≡ load p v)
unfolding swap
swap_copies p color_read color_read v = (ground arith, ground arith, λ h. ground arith)
swap_copies p _ _ v = (ground arith, ground arith, λ h. ground arith)

module _ {F D : Type 0} (o : Floats F D) where
  -- After every frame the pointer that is read and the pointer that is written name one texture, for
  -- the color filter and for the downscaled image, and the two read pointers are those of the start.
  pub textures_alias :
      (s : Pipeline F) (now : ℤ)
      → s.all_initialized ≡ true
      → let p = (process_image o s now).0.pointers in
        (p.color_filter_write ≡ p.color_filter_read)
        × (p.downscaled_write ≡ p.downscaled_read)
        × (p.color_filter_read ≡ s.pointers.color_filter_read)
        × (p.downscaled_read ≡ s.pointers.downscaled_read)
  unfolding process_image swap_textures swap
  textures_alias s now h = ground arith

  -- Every frame filters the camera image into one texture, downsamples that same texture into a
  -- second one, and sends that second one, if it sends a ball buffer at all: the three passes of a
  -- frame depend on one another. The field's operations come before, and the screen after.
  pub frame_is_serial :
      (s : Pipeline F) (now : ℤ)
      → s.all_initialized ≡ true
      → let filtered = s.pointers.color_filter_read in
        let small = s.pointers.downscaled_read in
        (process_image o s now).2
        ≡ field_ops s.field_update_steps
          ++ (render_pass colorfilter_ball input filtered
              ∷ render_pass downsample filtered small
              ∷ (if ltb_ℤ (s.frame_number +ℤ pos 1) (pos 0)
                  then []
                  else send_buffer_to_analysis ball small ∷ []))
          ++ render_pass simple input screen ∷ analysis_draw ∷ []
  unfolding process_image swap_textures swap ball_ops
  frame_is_serial s now h = rw h
