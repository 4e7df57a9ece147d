-- ===== src/Recorder/Segments/Complete.antt =====
-- src/recorder/RaspiVidBalls.c: over all its segments `encoder_buffer_callback` writes the whole stream.
use foosball_tracker.Common.{
  ℕ, ◌≡◌, ◌⊎◌, inl, inr, refl, ap, ◌∙◌, arith, Bool, true, false, ◌&&◌, ◌==◌, ==_iff, if◌then◌else◌,
  List, [], ◌∷◌, ◌++◌, some, length, take, take-nil, ◌>>=◌, Returns, value, Returns-if,
  Returns-bind, Returns-map,
}
use foosball_tracker.Recorder.Settings.{VidState}
use foosball_tracker.Recorder.KeyFrames.{Buffer}
use foosball_tracker.Recorder.OpenFile.{System}
use foosball_tracker.Recorder.Segments.{
  Recording, next_number, must_split, split, base_or, write, segment_buffer,
}
use foosball_tracker.Recorder.Segments.Files.{written, collected, IsReopened, IsReopened-collected}
use foosball_tracker.Recorder.Segments.Noting.{CanWrite, SameSettings}
use foosball_tracker.Recorder.Segments.Writing.{
  video_bytes, imv_bytes, IsWritten, write-IsWritten, IsWritten-nothing,
}
use foosball_tracker.Recorder.Segments.Splitting.{Answers, OpensNew, IsSplit, split-IsSplit}

-- What a call of the callback does to the files and to the number of the segment.
pub record IsStored (now wrote : ℕ) (b : Buffer) (splits : Bool) (r r1 : Recording) : Type 0 where
  pub same : SameSettings r r1
  pub can_write : CanWrite r1
  pub video_added : collected r1.video ≡ collected r.video ++ video_bytes wrote b
  pub imv_added :
      collected r1.imv ≡ collected r.imv ++ imv_bytes wrote b r.state.inline_motion_vectors
  pub starts :
      (r1.video.closed ≡ r.video.closed)
      ⊎ ((splits ≡ true) × (written r1.video.current ≡ video_bytes wrote b))
  pub number :
      r1.state.segment_number ≡ (if splits then next_number r.state else r.state.segment_number)

SameSettings-trans :
    (r r1 r2 : Recording) → SameSettings r r1 → SameSettings r1 r2 → SameSettings r r2
SameSettings-trans r r1 r2 s t = record {
  filename = t.filename ∙ s.filename;
  imv_filename = t.imv_filename ∙ s.imv_filename;
  pts_filename = t.pts_filename ∙ s.pts_filename;
  state = (
    t.state.0,
    t.state.1
        ∙ ap {A = VidState} {B = VidState} (λ s. record s { segment_number = t.state.0 }) s.state.1,
  );
}

-- Writing after the split, or without one.
written_after :
    (now wrote : ℕ) (b : Buffer) (r r1 r2 : Recording)
    → IsSplit now r r1
    → IsWritten wrote b r1 r2
    → IsStored now wrote b true r r2
written_after now wrote b r r1 r2 s w =
    let used : r1.state.inline_motion_vectors ≡ r.state.inline_motion_vectors =
      ap (λ s. s.inline_motion_vectors) s.same.state.1 in
    record {
      same = SameSettings-trans r r1 r2 s.same w.same;
      can_write = w.can_write;
      video_added =
          w.video_added
          ∙ ap (λ xs. xs ++ video_bytes wrote b) (IsReopened-collected r.video r1.video s.video);
      imv_added =
          w.imv_added
          ∙ ap (λ xs. xs ++ imv_bytes wrote b r1.state.inline_motion_vectors)
              (IsReopened-collected r.imv r1.imv s.imv)
          ∙ ap (λ u. collected r.imv ++ imv_bytes wrote b u) used;
      starts = fresh_file s.video;
      number = ap (λ s. s.segment_number) w.state ∙ s.number;
    }
  where
    fresh_file :
        IsReopened r.video r1.video
        → (r2.video.closed ≡ r.video.closed)
          ⊎ ((true ≡ true) × (written r2.video.current ≡ video_bytes wrote b))
    fresh_file (inl (closed, current)) = inl (w.closed ∙ closed)
    fresh_file (inr (empty, ready, all)) =
        inr (refl, w.current ∙ ap (λ xs. xs ++ video_bytes wrote b) empty)

-- Writing with no split before.
written_on :
    (now base wrote : ℕ) (b : Buffer) (r r1 : Recording)
    → IsWritten wrote b (record r { base_time = some base }) r1
    → IsStored now wrote b false r r1
written_on now base wrote b r r1 w = record {
  same = record {
    filename = w.same.filename;
    imv_filename = w.same.imv_filename;
    pts_filename = w.same.pts_filename;
    state = w.same.state;
  };
  can_write = w.can_write;
  video_added = w.video_added;
  imv_added = w.imv_added;
  starts = inl w.closed;
  number = ap (λ s. s.segment_number) w.state;
}

take-empty : (wrote : ℕ) (xs : List ℕ) → length xs ≡ 0 → take wrote xs ≡ []
take-empty wrote [] e = take-nil wrote
take-empty wrote (x ∷ xs) e = absurd (omega arith)

if-same {ℓ} : {A : Type ℓ} (b : Bool) {x : A} → (if b then x else x) ≡ x
if-same true = refl
if-same false = refl

-- An empty buffer is not written, which is as if it was.
put-IsWritten :
    (wrote : ℕ) (b : Buffer) (r : Recording)
    → CanWrite r
    → Returns (IsWritten wrote b r) (if length b.bytes == 0 then some r else write wrote b r)
put-IsWritten wrote b r c =
    Returns-if (length b.bytes == 0) _ _
      (λ empty.
        let nothing = take-empty wrote b.bytes ((==_iff _ 0).0 empty) in
        value r (
          IsWritten-nothing wrote b r c (rw nothing (if-same b.side_info))
            (rw nothing (if-same (b.side_info && r.state.inline_motion_vectors)))))
      (λ more. write-IsWritten wrote b r c)

started : {base : ℕ} (r : Recording) → CanWrite r → CanWrite (record r { base_time = some base })
started r c = record { video = c.video; imv = c.imv; pts = c.pts }

asked :
    {base : ℕ} (sys : System) (r : Recording)
    → Answers sys r
    → Answers sys (record r { base_time = some base })
asked sys r q = record { video = q.video; imv = q.imv; pts = q.pts }

renewed :
    {base : ℕ} (sys : System) (r : Recording)
    → OpensNew sys r
    → OpensNew sys (record r { base_time = some base })
renewed sys r n = record { video = n.video; imv = n.imv; pts = n.pts }

unstarted :
    {base : ℕ} (now : ℕ) (r r1 : Recording)
    → IsSplit now (record r { base_time = some base }) r1
    → IsSplit now r r1
unstarted now r r1 s = record {
  same = record {
    filename = s.same.filename;
    imv_filename = s.same.imv_filename;
    pts_filename = s.same.pts_filename;
    state = s.same.state;
  };
  can_write = s.can_write;
  video = s.video;
  imv = s.imv;
  number = s.number;
  base = s.base;
}

stored_if :
    (sys : System) (now base wrote : ℕ) (b : Buffer) (splits : Bool) (r : Recording)
    → CanWrite r
    → Answers sys r
    → (splits ≡ true → OpensNew sys r)
    → Returns (IsStored now wrote b splits r) (
        (if splits
          then split sys now (record r { base_time = some base })
          else some (record r { base_time = some base }))
        >>= λ r1. if length b.bytes == 0 then some r1 else write wrote b r1)
stored_if sys now base wrote b true r c q new =
    Returns-bind
      (split-IsSplit sys now (record r { base_time = some base }) (started r c) (asked sys r q)
        (renewed sys r (new refl)))
      λ r1 s.
        Returns-map (IsWritten wrote b r1) (IsStored now wrote b true r)
          (λ r2 w. written_after now wrote b r r1 r2 (unstarted now r r1 s) w)
          (put-IsWritten wrote b r1 s.can_write)
stored_if sys now base wrote b false r c q new =
    Returns-map (IsWritten wrote b (record r { base_time = some base }))
      (IsStored now wrote b false r) (λ r1 w. written_on now base wrote b r r1 w)
      (put-IsWritten wrote b (record r { base_time = some base }) (started r c))

-- A call of the callback returns, where each handle in use is open, no opening ends the process,
-- and a segment that starts opens no file that its handle had before. With different files for
-- the video, the motion vectors and the time stamps, all that is written of the buffer then
-- stands behind what was written to the files of the video and of the motion vectors before. If
-- the video goes on in a new file, the buffer is one that splits and the file begins with it; and
-- only then the number of the segment changes.
pub segment_buffer-IsStored :
    (sys : System) (first now wrote : ℕ) (b : Buffer) (r : Recording)
    → CanWrite r
    → Answers sys r
    → (must_split r b (base_or first r.base_time) now ≡ true → OpensNew sys r)
    → Returns
        (IsStored now wrote b (must_split r b (base_or first r.base_time) now) r)
        (segment_buffer sys first now wrote b r)
unfolding segment_buffer
segment_buffer-IsStored sys first now wrote b r c q new =
    stored_if sys now (base_or first r.base_time) wrote b
      (must_split r b (base_or first r.base_time) now) r c q new
