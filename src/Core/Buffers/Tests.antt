-- ===== src/Core/Buffers/Tests.antt =====
-- src/tracker/core.cpp: runs of the two threads, and the theorems at reachable states.
use foosball_tracker.Common.{ℕ, ◌+◌, ◌≤◌, ◌<◌, ◌≡◌, ◌≢◌, inr, refl, arith, [], ◌∷◌, length, take}
use foosball_tracker.Core.Buffers.{
  ball, field, joined, System, Step, claim, fill, take_full, request_stop, advance, gl_claim,
  gl_fill, gl_post, gl_stop, analysis_go, analysis_take, init, Reach, here, next,
}
use foosball_tracker.Core.Buffers.Safety.{buffers_disjoint, frames_in_order}
use foosball_tracker.Core.Buffers.Shutdown.{stopping, shutdown_hangs, shutdown_completes}

-- A frame of the field is sent, and the analysis thread waits for it.
abbrev sent_one : (s : System) × Reach init s
unfolding claim fill advance
sent_one = (
  _,
  next
      (next (next (next here (gl_claim field refl refl)) (gl_fill (7 ∷ 8 ∷ []) refl))
        (gl_post refl))
      (analysis_go refl refl),
)

-- Then the analysis thread takes it, while the GL thread claims a buffer for the ball.
abbrev both_busy : (s : System) × Reach init s
unfolding claim fill advance take_full
both_busy = (_, next (next sent_one.1 (analysis_take refl refl)) (gl_claim ball refl refl))

abbrev first_wait : (s : System) × Reach init s
first_wait = (_, next here (analysis_go refl refl))

-- The stop comes while one frame still waits.
abbrev late_stop : (s : System) × Reach init s
unfolding claim fill advance request_stop
late_stop = (_, next sent_one.1 (gl_stop refl))

buffers_disjoint_example : (◌≢◌ {A = ℕ} 1 0) × (1 < 4) × (0 < 4)
unfolding claim fill advance take_full
buffers_disjoint_example = buffers_disjoint 1 0 both_busy.1 refl refl

frames_in_order_example :
    (both_busy.0.processed ≡ take (length both_busy.0.processed) both_busy.0.sent)
    × (length both_busy.0.processed ≤ length both_busy.0.sent)
    × (length both_busy.0.sent ≤ length both_busy.0.processed + 4)
frames_in_order_example = frames_in_order both_busy.1

shutdown_hangs_example :
    Reach init (stopping first_wait.0) × ((t : System) → ¬ Step (stopping first_wait.0) t)
shutdown_hangs_example = shutdown_hangs first_wait.1 refl refl refl

shutdown_completes_example : (t : System) × Reach late_stop.0 t × (t.gl ≡ joined)
unfolding claim fill advance request_stop
shutdown_completes_example = shutdown_completes late_stop.1 refl (inr (omega arith))
