-- ===== src/Recorder/Preview/Runs.antt =====
-- src/recorder/RaspiTexBalls.c: runs of the preview worker and of the camera's callback, in any order.
use foosball_tracker.Common.{
  ℕ, ◌+◌, ◌≡◌, refl, sym, ap, subst, ◌∙◌, arith, if◌then◌else◌, Bool, true, false, not, List, [],
  ◌∷◌, ◌++◌, some, some-inj,
}
use mathlib.Core.Path.{ap₂}
use mathlib.Core.List.{append_assoc, append-nil}
use foosball_tracker.Common.Int.{pos, eqb_ℤ}
use foosball_tracker.Recorder.Preview.{
  PreviewState, Driver, process_bufs, process_returned_bufs, send_bufs, send_empty, worker_round,
  Filled, end_of_stream, no_data, frame, deliver, output_cb,
}
use foosball_tracker.Recorder.Preview.Accounting.{
  held, total, count, count-append, IsProcessed, process_bufs-IsProcessed, true_of_not,
}

-- What sending leaves, where the port takes every buffer.
record IsSent (pool : List ℕ) (s r : PreviewState) : Type 0 where
  empty : r.pool_queue ≡ []
  camera : (b : ℕ) → count b r.camera ≡ count b s.camera + count b pool
  queue : r.preview_queue ≡ s.preview_queue
  texture : r.preview_buf ≡ s.preview_buf
  drawn : r.drawn ≡ s.drawn
  still : r.preview_stop ≡ s.preview_stop

send_bufs-IsSent :
    (d : Driver) (pool : List ℕ) (s : PreviewState)
    → ((k : ℕ) → d.send_succeeds k ≡ true)
    → IsSent pool s (send_bufs d pool s)
unfolding send_bufs
send_bufs-IsSent d [] s takes = record {
  empty = refl;
  camera = λ b. omega arith;
  queue = refl;
  texture = refl;
  drawn = refl;
  still = refl;
}
send_bufs-IsSent d (buf ∷ pool) s takes =
    let sent =
      send_bufs-IsSent d pool (record s { camera = s.camera ++ (buf ∷ []); calls = s.calls + 1 })
        takes in
    rw (takes s.calls) (record {
      empty = sent.empty;
      camera = λ b. let behind = count-append b s.camera (buf ∷ []) in omega (arith, sent.camera b);
      queue = sent.queue;
      texture = sent.texture;
      drawn = sent.drawn;
      still = sent.still;
    })

abbrev frame_of : Filled → List ℕ → List ℕ
frame_of frame (buf ∷ camera) = buf ∷ []
frame_of what camera = []

-- The frame that a call of the callback delivers.
abbrev pub delivered : Filled → PreviewState → List ℕ
delivered what s = frame_of what s.camera

-- What happens to the preview, and the frames that the camera delivers meanwhile: a round of the
-- worker while it is not stopped, or a call of the callback.
pub data Run (d : Driver) (s : PreviewState) : List ℕ → PreviewState → Type 0 where
  start : Run d s [] s
  round :
      (frames : List ℕ) (s1 : PreviewState)
      → Run d s frames s1
      → s1.preview_stop ≡ false
      → Run d s frames (worker_round d s1).1
  callback :
      (frames : List ℕ) (s1 s2 : PreviewState) (what : Filled)
      → Run d s frames s1
      → output_cb what s1 ≡ some s2
      → Run d s (frames ++ delivered what s1) s2

-- Every buffer is there as often as before, and the frames drawn or waiting are those delivered, in order.
abbrev pub IsComplete : PreviewState → List ℕ → PreviewState → Type 0
IsComplete s frames s1 =
    ((b : ℕ) → total b s1 ≡ total b s)
    × (s1.drawn ++ s1.preview_queue ≡ (s.drawn ++ s.preview_queue) ++ frames)

kept_if :
    (Q : PreviewState → Type 0) (c : Bool) (stopped going : PreviewState)
    → stopped.preview_stop ≡ true
    → (c ≡ false → Q going)
    → (if c then stopped else going).preview_stop ≡ false
    → Q (if c then stopped else going)
kept_if Q true stopped going h k on = absurd (cc)
kept_if Q false stopped going h k on = k refl

worker_round-kept :
    (d : Driver) (s : PreviewState)
    → ((k : ℕ) → d.send_succeeds k ≡ true)
    → s.preview_stop ≡ false
    → (worker_round d s).1.preview_stop ≡ false
    → IsComplete s [] (worker_round d s).1
unfolding worker_round send_empty process_returned_bufs
worker_round-kept d s takes going on =
    let sent = send_bufs-IsSent d s.pool_queue s takes in
    let sent_state = send_bufs d s.pool_queue s in
    let processed : (b : ℕ)
        → IsProcessed b sent_state sent_state.preview_queue
            (process_bufs d sent_state.preview_queue sent_state) =
      λ b. process_bufs-IsProcessed b d sent_state.preview_queue sent_state (sent.still ∙ going) in
    let rc = (process_bufs d sent_state.preview_queue sent_state).0 in
    kept_if (IsComplete s []) (not (eqb_ℤ rc (pos 0))) _ _ refl
      (λ fine.
        let (all, empty, listed, going_on) =
          (processed 0).success (true_of_not (eqb_ℤ rc (pos 0)) fine) in
        (
          λ b.
              let behind = ((processed b).success (true_of_not (eqb_ℤ rc (pos 0)) fine)).0 in
              let waiting = ap (count b) sent.queue in
              let none_left = ap (count b) empty in
              let pool = ap (count b) sent.empty in
              let texture = ap (held b) sent.texture in omega (arith, sent.camera b),
          ap₂ ◌++◌ listed empty ∙ ap (λ xs. xs ++ []) (ap₂ ◌++◌ sent.drawn sent.queue),
        ))
      on

deliver-kept :
    (what : Filled) (bufs : List ℕ) (s s1 : PreviewState)
    → s.camera ≡ bufs
    → deliver what bufs s ≡ some s1
    → s1.preview_stop ≡ false
    → IsComplete s (frame_of what bufs) s1 × (s.preview_stop ≡ false)
unfolding deliver
deliver-kept what [] s s1 at e on = absurd (cc)
deliver-kept end_of_stream (buf ∷ camera) s s1 at e on =
    let stopped = ap (λ r. r.preview_stop) (some-inj e) in absurd (cc)
deliver-kept no_data (buf ∷ camera) s s1 at e on =
    subst (λ r. IsComplete s [] r × (s.preview_stop ≡ false)) (some-inj e)
      (
        (
          λ b.
              let behind = count-append b s.pool_queue (buf ∷ []) in
              let taken = ap (count b) at in omega arith,
          sym (append-nil (s.drawn ++ s.preview_queue)),
        ),
        ap (λ r. r.preview_stop) (some-inj e) ∙ on,
      )
deliver-kept frame (buf ∷ camera) s s1 at e on =
    subst (λ r. IsComplete s (buf ∷ []) r × (s.preview_stop ≡ false)) (some-inj e)
      (
        (
          λ b.
              let behind = count-append b s.preview_queue (buf ∷ []) in
              let taken = ap (count b) at in omega arith,
          sym (append_assoc s.drawn s.preview_queue (buf ∷ [])),
        ),
        ap (λ r. r.preview_stop) (some-inj e) ∙ on,
      )

-- While the preview is not stopped, the camera port takes every buffer it is sent, and in whatever
-- order rounds of the worker and calls of the callback come, each buffer stands as often as before in
-- the pool, at the camera, in the queue or as the texture, so none is lost and none is used twice. The
-- frames drawn followed by those that wait are the frames that the camera delivered, in order.
pub Run-IsComplete :
    (d : Driver) (s s1 : PreviewState) (frames : List ℕ)
    → ((k : ℕ) → d.send_succeeds k ≡ true)
    → Run d s frames s1
    → s1.preview_stop ≡ false
    → IsComplete s frames s1
unfolding output_cb
Run-IsComplete d s _ _ takes start on = (λ b. refl, sym (append-nil _))
Run-IsComplete d s _ _ takes (round frames s1 run going) on =
    let (same, order) = Run-IsComplete d s s1 frames takes run going in
    let (kept, moved) = worker_round-kept d s1 takes going on in
    (λ b. kept b ∙ same b, moved ∙ append-nil _ ∙ order)
Run-IsComplete d s _ _ takes (callback frames s1 s2 what run e) on =
    let ((kept, moved), going) = deliver-kept what s1.camera s1 s2 refl e on in
    let (same, order) = Run-IsComplete d s s1 frames takes run going in
    (
      λ b. kept b ∙ same b,
      moved
          ∙ ap (λ xs. xs ++ delivered what s1) order
          ∙ append_assoc (s.drawn ++ s.preview_queue) frames (delivered what s1),
    )
