-- ===== src/Core/Pipeline/Schedule.antt =====
-- src/tracker/core.cpp: which frames render and send the field, and which send a ball buffer.
use foosball_tracker.Common.{
  ℕ, zero, suc, ◌+◌, ◌-◌, ◌%◌, ◌==◌, ◌&&◌, ◌≡◌, some, get_elem?, refl, ap, ◌∙◌, arith,
  if◌then◌else◌, true, List, [], ◌∷◌, ◌++◌, ltb,
}
use foosball_tracker.Common.Int.{ℤ, pos, ◌+ℤ◌, ◌-ℤ◌, ltb_ℤ, int_laws}
use foosball_tracker.Common.Floats.{Floats}
use foosball_tracker.Core.Buffers.{ball, field}
use foosball_tracker.Core.Pipeline.{
  input, screen, color_filter, downscaled, color_filter_field, downscaled_field, colorfilter_ball,
  colorfilter_field, downsample, simple, Pipeline, init, process_image, process_images, Op,
  render_pass, send_buffer_to_analysis, analysis_draw, field_ops, next_steps, field_update_delay,
  swap, swap_textures,
}
use foosball_tracker.Core.Pipeline.Aliasing.{frame_is_serial}
use native.Mathlib.Nat.{add-zero}

-- The countdown after `n` frames.
abbrev pub steps_after : ℕ → ℕ
steps_after zero = field_update_delay
steps_after (suc n) = 19 - n % 20

-- What frame `n`, counted from 0, does for the field.
abbrev pub field_schedule : ℕ → List Op
field_schedule n =
    if n % 20 == 15
    then render_pass colorfilter_field input color_filter_field ∷ []
    else if n % 20 == 16
    then render_pass downsample color_filter_field downscaled_field ∷ []
    else if (n % 20 == 0) && ltb 0 n
    then send_buffer_to_analysis field downscaled_field ∷ []
    else []

next_steps-steps_after : (n : ℕ) → next_steps (steps_after n) ≡ steps_after (suc n)
unfolding next_steps
next_steps-steps_after zero = refl
next_steps-steps_after (suc n) = ground arith

field_ops-steps_after : (n : ℕ) → field_ops (steps_after n) ≡ field_schedule n
unfolding field_ops
field_ops-steps_after zero = refl
field_ops-steps_after (suc n) = ground arith

-- Everything that frame `n` does.
abbrev pub frame_ops : ℕ → List Op
frame_ops n =
    field_schedule n
    ++ (render_pass colorfilter_ball input (color_filter 0)
        ∷ render_pass downsample (color_filter 0) (downscaled 0)
        ∷ (if ltb n 4 then [] else send_buffer_to_analysis ball (downscaled 0) ∷ []))
    ++ render_pass simple input screen ∷ analysis_draw ∷ []

module _ {F D : Type 0} (o : Floats F D) where
  -- The state before frame `n`.
  record At (n : ℕ) (s : Pipeline F) : Type 0 where
    ready : s.all_initialized ≡ true
    countdown : s.field_update_steps ≡ steps_after n
    number : s.frame_number ≡ pos n -ℤ pos 5
    filtered : s.pointers.color_filter_read ≡ color_filter 0
    small : s.pointers.downscaled_read ≡ downscaled 0

  next_number : (n : ℕ) → pos n -ℤ pos 5 +ℤ pos 1 ≡ pos (suc n) -ℤ pos 5
  next_number n = omega int_laws

  ball_from : (n : ℕ) → ltb_ℤ (pos n -ℤ pos 5 +ℤ pos 1) (pos 0) ≡ ltb n 4
  unfolding ◌+ℤ◌ ◌-ℤ◌
  ball_from n = ground arith

  process_image-At :
      (n : ℕ) (s : Pipeline F) (now : ℤ)
      → At n s
      → At (suc n) (process_image o s now).0 × ((process_image o s now).2 ≡ frame_ops n)
  unfolding process_image swap_textures swap
  process_image-At n s now a = (
    record {
      ready = ground (arith, a.ready);
      countdown = ground (arith, a.ready, a.countdown, next_steps-steps_after n);
      number = ground (arith, a.ready, a.number, next_number n);
      filtered = ground (arith, a.ready, a.filtered);
      small = ground (arith, a.ready, a.small);
    },
    frame_is_serial o s now a.ready
        ∙ rw (a.countdown, field_ops-steps_after n, a.filtered, a.small, a.number, ball_from n),
  )

  process_images-At :
      (nows : List ℤ) (k n : ℕ) (s : Pipeline F) {ops : List Op}
      → At n s
      → get_elem? (process_images o s nows).1 k ≡ some ops
      → ops ≡ frame_ops (n + k)
  unfolding process_images
  process_images-At [] k n s a e = absurd (cc)
  process_images-At (now ∷ rest) zero n s a e = rw add-zero (cc ((process_image-At n s now a).1))
  process_images-At (now ∷ rest) (suc k) n s a e =
      process_images-At rest k (suc n) (process_image o s now).0 (process_image-At n s now a).0 e
      ∙ ap frame_ops {x = suc n + k} {y = n + suc k} (omega arith)

  -- Frame `n` from the start, at whatever times the frames come: the field is filtered in frames 15,
  -- 35, 55 and so on, downsampled in the frame after, and read out and sent in frames 20, 40, 60 and
  -- so on; the ball is sent in every frame from frame 4.
  pub frame_schedule :
      (nows : List ℤ) (n : ℕ) {ops : List Op}
      → get_elem? (process_images o (init o) nows).1 n ≡ some ops
      → ops ≡ frame_ops n
  unfolding init ◌-ℤ◌
  frame_schedule nows n e =
      process_images-At nows n 0 (init o) start e ∙ ap frame_ops {x = 0 + n} {y = n} (omega arith)
    where
      start : At 0 (init o)
      start = record {
        ready = refl;
        countdown = refl;
        number = refl;
        filtered = refl;
        small = refl;
      }
