-- ===== src/Recorder/Preview.antt =====
-- src/recorder/RaspiTexBalls.c: the preview worker, which hands the camera's buffers to GL and back.
-- GL and the camera port are a parameter, whose answers may differ from call to call.
pub mod Accounting
pub mod Runs
pub mod Losses
mod Tests
use foosball_tracker.Common.{
  ℕ, zero, suc, ◌+◌, ◌==◌, if◌then◌else◌, Bool, true, false, not, List, [], ◌∷◌, ◌++◌, Option, none,
  some, length,
}
use foosball_tracker.Common.Int.{ℤ, pos, eqb_ℤ}

-- Where the buffers are: empty in the pool, at the camera port, filled in the preview queue, and the
-- one whose image is the texture. `drawn` lists the buffers that became the texture.
pub record PreviewState : Type 0 where
  pub pool_queue : List ℕ
  pub camera : List ℕ
  pub preview_queue : List ℕ
  pub preview_buf : Option ℕ
  pub preview_stop : Bool
  pub drawn : List ℕ
  pub calls : ℕ

-- The results of the update functions that are set, in the order RGBX, Y, U, V, whether there is an EGL
-- image, the result of the redraw, and whether the port takes a buffer. Each is asked with the
-- number of the call.
pub record Driver : Type 0 where
  pub updates : ℕ → List ℤ
  pub has_image : ℕ → Bool
  pub redraw : ℕ → ℤ
  pub send_succeeds : ℕ → Bool

-- `mmal_buffer_header_release`, which gives the buffer back to its pool
abbrev pub release : ℕ → PreviewState → PreviewState
release b s = record s { pool_queue = s.pool_queue ++ (b ∷ []) }

abbrev pub release_previous : Option ℕ → PreviewState → PreviewState
release_previous none s = s
release_previous (some b) s = release b s

-- The first result that is not 0
abbrev pub first_error : List ℤ → ℤ
first_error [] = pos 0
first_error (rc ∷ rcs) = if eqb_ℤ rc (pos 0) then first_error rcs else rc

-- The end of `raspitex_draw`: the redraw, if `check_egl_image` finds an image
unfoldable pub do_drawing : Driver → PreviewState → ℤ × PreviewState
do_drawing d s =
    (if d.has_image s.calls then d.redraw s.calls else pos 0, record s { calls = s.calls + 1 })

-- `raspitex_draw` with a new buffer
unfoldable pub raspitex_draw : Driver → PreviewState → ℕ → ℤ × PreviewState
unfolding do_drawing
raspitex_draw d s buf =
    let rc = first_error (d.updates s.calls) in
    if not (eqb_ℤ rc (pos 0))
    then (rc, record s { calls = s.calls + 1 })
    else do_drawing d (record (release_previous s.preview_buf s) {
      preview_buf = some buf;
      drawn = s.drawn ++ (buf ∷ []);
    })

-- `preview_process_returned_bufs`, for what stands in the queue
unfoldable pub process_bufs : Driver → List ℕ → PreviewState → ℤ × PreviewState
unfolding raspitex_draw
process_bufs d [] s = (pos 0, record s { preview_queue = [] })
process_bufs d (buf ∷ queue) s =
    let (rc, s1) = raspitex_draw d s buf in
    let drawn = process_bufs d queue s1 in
    let passed = process_bufs d queue s in
    if s.preview_stop
    then passed
    else if not (eqb_ℤ rc (pos 0))
    then (rc, record s1 { preview_queue = queue; preview_stop = true })
    else drawn

unfoldable pub process_returned_bufs : Driver → PreviewState → ℤ × PreviewState
unfolding process_bufs
process_returned_bufs d s = process_bufs d s.preview_queue s

-- Sending the empty buffers to the camera: one that the port does not take is only logged.
unfoldable pub send_bufs : Driver → List ℕ → PreviewState → PreviewState
send_bufs d [] s = record s { pool_queue = [] }
send_bufs d (buf ∷ pool) s = send_bufs d pool (
    if d.send_succeeds s.calls
    then record s { camera = s.camera ++ (buf ∷ []); calls = s.calls + 1 }
    else record s { calls = s.calls + 1 })

unfoldable pub send_empty : Driver → PreviewState → PreviewState
unfolding send_bufs
send_empty d s = send_bufs d s.pool_queue s

-- One round of the loop of `preview_worker`
unfoldable pub worker_round : Driver → PreviewState → ℤ × PreviewState
unfolding send_empty process_returned_bufs
worker_round d s =
    let (rc, s1) = process_returned_bufs d (send_empty d s) in
    (rc, if not (eqb_ℤ rc (pos 0)) then record s1 { preview_stop = true } else s1)

-- The end of `preview_worker`: what stands in the queue is released.
unfoldable pub worker_end : PreviewState → PreviewState
worker_end s = record s { pool_queue = s.pool_queue ++ s.preview_queue; preview_queue = [] }

-- What the camera gives back: the end of the stream, a buffer without data, or a frame.
pub data Filled : Type 0 where
  end_of_stream : Filled
  no_data : Filled
  frame : Filled

unfoldable pub deliver : Filled → List ℕ → PreviewState → Option PreviewState
deliver what [] s = none
deliver end_of_stream (buf ∷ camera) s =
    some (release buf (record s { camera = camera; preview_stop = true }))
deliver no_data (buf ∷ camera) s = some (release buf (record s { camera = camera }))
deliver frame (buf ∷ camera) s =
    some (record s { camera = camera; preview_queue = s.preview_queue ++ (buf ∷ []) })

-- `preview_output_cb` for the first buffer at the camera. There is no call without a buffer.
unfoldable pub output_cb : Filled → PreviewState → Option PreviewState
unfolding deliver
output_cb what s = deliver what s.camera s
