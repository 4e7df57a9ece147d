-- ===== src/Recorder/Preview/Losses.antt =====
-- src/recorder/RaspiTexBalls.c: where the preview worker keeps or loses buffers.
use foosball_tracker.Common.{
  ℕ, ◌+◌, ◌≡◌, refl, ap, ◌∙◌, arith, if-true, if-false, true, false, not, List, [], ◌∷◌,
}
use foosball_tracker.Common.Int.{ℤ, pos, eqb_ℤ}
use foosball_tracker.Recorder.Preview.{
  PreviewState, Driver, first_error, raspitex_draw, process_bufs, process_returned_bufs, worker_end,
}
use foosball_tracker.Recorder.Preview.Accounting.{total, count, count-append, one}

passed_over :
    (d : Driver) (queue : List ℕ) (s : PreviewState)
    → s.preview_stop ≡ true
    → process_bufs d queue s ≡ (pos 0, record s { preview_queue = [] })
unfolding process_bufs
passed_over d [] s stopped = refl
passed_over d (buf ∷ queue) s stopped =
    if-true s.preview_stop _ _ stopped ∙ passed_over d queue s stopped

-- Once the preview is stopped, processing the queue takes every buffer out of it and gives none back:
-- all that waited are lost, and the result is that of success.
pub stopped_loses_queue :
    (d : Driver) (s : PreviewState)
    → s.preview_stop ≡ true
    → ((process_returned_bufs d s).0 ≡ pos 0)
      × ((b : ℕ) → total b (process_returned_bufs d s).1 + count b s.preview_queue ≡ total b s)
unfolding process_returned_bufs
stopped_loses_queue d s stopped =
    rw (passed_over d s.preview_queue s stopped) (refl, λ b. omega arith)

process_failed :
    (d : Driver) (buf : ℕ) (queue : List ℕ) (s : PreviewState) (r : ℤ × PreviewState)
    → s.preview_stop ≡ false
    → raspitex_draw d s buf ≡ r
    → eqb_ℤ r.0 (pos 0) ≡ false
    → process_bufs d (buf ∷ queue) s
      ≡ (r.0, record r.1 { preview_queue = queue; preview_stop = true })
unfolding process_bufs
process_failed d buf queue s r going e failed =
    if-false s.preview_stop _ _ going ∙ rw e (if-true (not (eqb_ℤ r.0 (pos 0))) _ _ (ap not failed))

-- Where a texture cannot be updated from the first buffer of the queue, that buffer is lost: it is
-- neither drawn, nor in the queue, nor given back, and the preview stops.
pub failed_update_loses :
    (d : Driver) (s : PreviewState) (buf : ℕ) (queue : List ℕ)
    → s.preview_stop ≡ false
    → s.preview_queue ≡ buf ∷ queue
    → eqb_ℤ (first_error (d.updates s.calls)) (pos 0) ≡ false
    → ((b : ℕ) → total b (process_returned_bufs d s).1 + one b buf ≡ total b s)
      × ((process_returned_bufs d s).1.preview_stop ≡ true)
unfolding process_returned_bufs raspitex_draw
failed_update_loses d s buf queue going at failed =
    let rc = first_error (d.updates s.calls) in
    let drew = if-true (not (eqb_ℤ rc (pos 0))) _ _ (ap not failed) in
    let result =
      process_failed d buf queue s (rc, record s { calls = s.calls + 1 }) going drew failed in
    rw (ap (λ q. process_bufs d q s) at ∙ result)
      (λ b. let waiting = ap (count b) at in omega arith, refl)

-- The end of the worker gives back all that waits, and nothing is lost, but it keeps the buffer whose
-- image is the texture.
pub worker_end_keeps :
    (s : PreviewState)
    → ((worker_end s).preview_queue ≡ [])
      × ((b : ℕ) → total b (worker_end s) ≡ total b s)
      × ((worker_end s).preview_buf ≡ s.preview_buf)
unfolding worker_end
worker_end_keeps s =
    (refl, λ b. let both = count-append b s.pool_queue s.preview_queue in omega arith, refl)
