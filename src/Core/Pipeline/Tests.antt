-- ===== src/Core/Pipeline/Tests.antt =====
-- src/tracker/core.cpp: the frame function from the start, in fixed-point arithmetic.
use foosball_tracker.Common.{◌≡◌, refl, [], ◌∷◌, replicate}
use foosball_tracker.Common.Int.{pos, ◌+ℤ◌, ◌-ℤ◌}
use foosball_tracker.Common.Fixed.{fixed}
use foosball_tracker.Core.Buffers.{ball, field}
use foosball_tracker.Core.Fps.{update_render_fps}
use foosball_tracker.Core.Pipeline.{
  input, screen, color_filter, downscaled, downscaled_field, colorfilter_ball, downsample, simple,
  render_pass, send_buffer_to_analysis, analysis_draw, init, process_image, process_images,
}
use foosball_tracker.Core.Pipeline.Schedule.{frame_ops, frame_schedule}

-- In frame 20 the field and the ball are sent.
frame_schedule_example :
    send_buffer_to_analysis field downscaled_field
      ∷ render_pass colorfilter_ball input (color_filter 0)
      ∷ render_pass downsample (color_filter 0) (downscaled 0)
      ∷ send_buffer_to_analysis ball (downscaled 0)
      ∷ render_pass simple input screen
      ∷ analysis_draw
      ∷ []
    ≡ frame_ops 20
unfolding process_images process_image init ◌+ℤ◌ ◌-ℤ◌ update_render_fps
frame_schedule_example = frame_schedule fixed (replicate 21 (pos 7)) 20 refl
