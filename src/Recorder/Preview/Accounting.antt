-- ===== src/Recorder/Preview/Accounting.antt =====
-- src/recorder/RaspiTexBalls.c: where each buffer is while the preview worker draws the queue.
use foosball_tracker.Common.{
  ℕ, ◌==◌, ◌+◌, ◌≤◌, ◌≡◌, refl, sym, ap, ◌∙◌, arith, if◌then◌else◌, Bool, true, false, not, List,
  [], ◌∷◌, ◌++◌, Option, none, some,
}
use mathlib.Core.List.{append_assoc, append-nil}
use foosball_tracker.Common.Int.{ℤ, pos, eqb_ℤ}
use foosball_tracker.Recorder.Preview.{
  PreviewState, Driver, release_previous, first_error, do_drawing, raspitex_draw, process_bufs,
}

-- 1 for the buffer itself, 0 for another one.
unfoldable pub one : ℕ → ℕ → ℕ
one b buf = if b == buf then 1 else 0

one-le : (b buf : ℕ) → one b buf ≤ 1
unfolding one
one-le b buf = ground arith

-- How often a buffer stands in a list.
abbrev pub count : ℕ → List ℕ → ℕ
count b [] = 0
count b (buf ∷ bufs) = one b buf + count b bufs

pub count-append : (b : ℕ) (xs ys : List ℕ) → count b (xs ++ ys) ≡ count b xs + count b ys
count-append b [] ys = omega arith
count-append b (x ∷ xs) ys = omega (arith, count-append b xs ys)

abbrev pub held : ℕ → Option ℕ → ℕ
held b none = 0
held b (some buf) = one b buf

no_both : (b : Bool) → not b ≡ true → b ≡ true → ⊥
no_both b h k = ground arith

pub true_of_not : (b : Bool) → not b ≡ false → b ≡ true
true_of_not b h = ground arith

-- How often a buffer stands outside the preview queue, and anywhere.
abbrev pub settled : ℕ → PreviewState → ℕ
settled b s = count b s.pool_queue + count b s.camera + held b s.preview_buf

abbrev pub total : ℕ → PreviewState → ℕ
total b s = count b s.pool_queue + count b s.camera + count b s.preview_queue + held b s.preview_buf

release_previous-held :
    (b : ℕ) (o : Option ℕ) (s : PreviewState)
    → (count b (release_previous o s).pool_queue ≡ count b s.pool_queue + held b o)
      × ((release_previous o s).camera ≡ s.camera)
      × ((release_previous o s).preview_stop ≡ s.preview_stop)
release_previous-held b none s = (omega arith, refl, refl)
release_previous-held b (some buf) s =
    (count-append b s.pool_queue (buf ∷ []) ∙ omega arith, refl, refl)

-- What a draw leaves of the buffers outside the queue.
record IsDrawn (b : ℕ) (s : PreviewState) (buf : ℕ) (r : ℤ × PreviewState) : Type 0 where
  success :
      eqb_ℤ r.0 (pos 0) ≡ true
      → (settled b r.1 ≡ settled b s + one b buf) × (r.1.drawn ≡ s.drawn ++ (buf ∷ []))
  kept : (settled b s ≤ settled b r.1) × (settled b r.1 ≤ settled b s + one b buf)
  still : r.1.preview_stop ≡ s.preview_stop

IsDrawn-if :
    (b : ℕ) (s : PreviewState) (buf : ℕ) (test : Bool) (x y : ℤ × PreviewState)
    → (test ≡ true → IsDrawn b s buf x)
    → IsDrawn b s buf y
    → IsDrawn b s buf (if test then x else y)
IsDrawn-if b s buf true x y h k = h refl
IsDrawn-if b s buf false x y h k = k

raspitex_draw-IsDrawn :
    (b : ℕ) (d : Driver) (s : PreviewState) (buf : ℕ) → IsDrawn b s buf (raspitex_draw d s buf)
unfolding raspitex_draw do_drawing
raspitex_draw-IsDrawn b d s buf =
    let (pool, camera, stop) = release_previous-held b s.preview_buf s in
    let same = ap (count b) camera in
    IsDrawn-if b s buf (not (eqb_ℤ (first_error (d.updates s.calls)) (pos 0))) _ _
      (λ bad. record {
        success =
            λ fine. absurd (no_both (eqb_ℤ (first_error (d.updates s.calls)) (pos 0)) bad fine);
        kept = (omega arith, omega arith);
        still = refl;
      })
      (record {
        success = λ fine. (omega arith, refl);
        kept = (omega arith, omega arith);
        still = stop;
      })

-- What the processing of a queue leaves: without an error every buffer of the queue was drawn, in
-- order, and none is lost; with an error at most the buffer at which it occurred is.
pub record IsProcessed (b : ℕ) (s : PreviewState) (queue : List ℕ) (r : ℤ × PreviewState)
    : Type 0 where
  pub success :
      eqb_ℤ r.0 (pos 0) ≡ true
      → (settled b r.1 ≡ settled b s + count b queue)
        × (r.1.preview_queue ≡ [])
        × (r.1.drawn ≡ s.drawn ++ queue)
        × (r.1.preview_stop ≡ false)
  pub failure :
      eqb_ℤ r.0 (pos 0) ≡ false
      → (settled b s + count b queue ≤ settled b r.1 + count b r.1.preview_queue + 1)
        × (settled b r.1 + count b r.1.preview_queue ≤ settled b s + count b queue)
        × (r.1.preview_stop ≡ true)

IsProcessed-if :
    (b : ℕ) (s : PreviewState) (queue : List ℕ) (test : Bool) (x y : ℤ × PreviewState)
    → (test ≡ true → IsProcessed b s queue x)
    → (test ≡ false → IsProcessed b s queue y)
    → IsProcessed b s queue (if test then x else y)
IsProcessed-if b s queue true x y h k = h refl
IsProcessed-if b s queue false x y h k = k refl

-- While the preview is not stopped, processing the queue either draws every buffer of it, in order,
-- loses none and leaves the queue empty; or it ends with an error, stops the preview and loses a
-- buffer at most once.
pub process_bufs-IsProcessed :
    (b : ℕ) (d : Driver) (queue : List ℕ) (s : PreviewState)
    → s.preview_stop ≡ false
    → IsProcessed b s queue (process_bufs d queue s)
unfolding process_bufs
process_bufs-IsProcessed b d [] s going = record {
  success = λ _. (omega arith, refl, sym (append-nil s.drawn), going);
  failure = λ e. absurd (cc);
}
process_bufs-IsProcessed b d (buf ∷ queue) s going =
    let drew = raspitex_draw-IsDrawn b d s buf in
    let rest = process_bufs-IsProcessed b d queue (raspitex_draw d s buf).1 (drew.still ∙ going) in
    IsProcessed-if b s (buf ∷ queue) s.preview_stop _ _ (λ stopped. absurd (cc))
      (λ _.
        IsProcessed-if b s (buf ∷ queue) (not (eqb_ℤ (raspitex_draw d s buf).0 (pos 0))) _ _
          (λ bad. record {
            success = λ fine. absurd (no_both (eqb_ℤ (raspitex_draw d s buf).0 (pos 0)) bad fine);
            failure = λ _.
                let k = drew.kept in let small = one-le b buf in (omega arith, omega arith, refl);
          })
          (λ fine.
            let (one, drawn) =
              drew.success (true_of_not (eqb_ℤ (raspitex_draw d s buf).0 (pos 0)) fine) in
            record {
              success = λ e.
                  let (all, empty, listed, on) = rest.success e in
                  (
                    omega arith,
                    empty,
                    listed ∙ ap (λ xs. xs ++ queue) drawn ∙ append_assoc s.drawn (buf ∷ []) queue,
                    on,
                  );
              failure =
                  λ e. let (low, high, off) = rest.failure e in (omega arith, omega arith, off);
            }))
