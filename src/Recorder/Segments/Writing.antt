-- ===== src/Recorder/Segments/Writing.antt =====
-- src/recorder/RaspiVidBalls.c: what `encoder_buffer_callback` writes of a buffer, and what a new segment
-- changes.
use foosball_tracker.Common.{
  ℕ, ◌≡◌, inl, inr, refl, sym, ap, ◌∙◌, subst, Bool, true, false, ◌&&◌, if◌then◌else◌, if-true,
  if-false, Bool-cases, List, [], ◌++◌, Option, take, Returns, value, Returns-if, Returns-bind,
}
use mathlib.Core.List.{append-nil}
use foosball_tracker.Recorder.KeyFrames.{Buffer}
use foosball_tracker.Recorder.Segments.{Handle, Recording, abort_unless, write}
use foosball_tracker.Recorder.Segments.Files.{
  IsOpen, written, collected, IsAppended, append-IsAppended, IsReady,
}
use foosball_tracker.Recorder.Segments.Noting.{
  CanWrite, SameSettings, SameSettings-eq, SameSettings-self, IsReady-IsOpen, IsOpen-IsReady,
  IsNoted, note_pts-IsNoted,
}

-- What goes to the video and to the motion vectors, where `fwrite` writes `wrote` bytes.
abbrev pub video_bytes : ℕ → Buffer → List ℕ
video_bytes wrote b = if b.side_info then [] else take wrote b.bytes

abbrev pub imv_bytes : ℕ → Buffer → Bool → List ℕ
imv_bytes wrote b used = if b.side_info && used then take wrote b.bytes else []

pub record IsWritten (wrote : ℕ) (b : Buffer) (r r1 : Recording) : Type 0 where
  pub same : SameSettings r r1
  pub state : r1.state ≡ r.state
  pub can_write : CanWrite r1
  pub closed : r1.video.closed ≡ r.video.closed
  pub current : written r1.video.current ≡ written r.video.current ++ video_bytes wrote b
  pub video_added : collected r1.video ≡ collected r.video ++ video_bytes wrote b
  pub imv_added :
      collected r1.imv ≡ collected r.imv ++ imv_bytes wrote b r.state.inline_motion_vectors

-- Nothing is written.
pub IsWritten-nothing :
    (wrote : ℕ) (b : Buffer) (r : Recording)
    → CanWrite r
    → video_bytes wrote b ≡ []
    → imv_bytes wrote b r.state.inline_motion_vectors ≡ []
    → IsWritten wrote b r r
IsWritten-nothing wrote b r c video imv = record {
  same = SameSettings-self r;
  state = refl;
  can_write = c;
  closed = refl;
  current = rw video (sym (append-nil _));
  video_added = rw video (sym (append-nil _));
  imv_added = rw imv (sym (append-nil _));
}

IsReady-moved :
    {A : Type 0} (name name1 : Option (List ℕ)) (used used1 : Bool) (h h1 : Handle A)
    → name1 ≡ name
    → used1 ≡ used
    → h1 ≡ h
    → IsReady name used h
    → IsReady name1 used1 h1
IsReady-moved name name1 used used1 h h1 names useds handles r = rw (names, useds, handles) r

IsWritten-frame :
    (wrote : ℕ) (b : Buffer) (r r1 : Recording) (out : Handle ℕ)
    → CanWrite r
    → IsAppended r.video (take wrote b.bytes) out
    → IsNoted (record r { video = out }) r1
    → video_bytes wrote b ≡ take wrote b.bytes
    → imv_bytes wrote b r.state.inline_motion_vectors ≡ []
    → IsWritten wrote b r (abort_unless wrote b r1)
IsWritten-frame wrote b r r1 out c (open_now, closed, current, added)
      (same, state, video_same, imv_same, ready) video no_imv =
    record {
      same = SameSettings-eq r _ same.filename same.imv_filename same.pts_filename state;
      state = state;
      can_write = record {
        video = subst (λ h. IsOpen h.current) (sym video_same) open_now;
        imv =
            IsReady-moved r.imv_filename r1.imv_filename r.state.inline_motion_vectors
              r1.state.inline_motion_vectors r.imv r1.imv same.imv_filename
              (ap (λ s. s.inline_motion_vectors) state) imv_same c.imv;
        pts =
            IsReady-moved r.pts_filename r1.pts_filename r.state.save_pts r1.state.save_pts r1.pts
              r1.pts same.pts_filename (ap (λ s. s.save_pts) state) refl ready;
      };
      closed = ap (λ h. h.closed) video_same ∙ closed;
      current =
          ap (λ h. written h.current) video_same
          ∙ current
          ∙ ap (◌++◌ (written r.video.current)) (sym video);
      video_added = ap collected video_same ∙ added ∙ ap (◌++◌ (collected r.video)) (sym video);
      imv_added = ap collected imv_same ∙ rw no_imv (sym (append-nil _));
    }

and-true : (a b : Bool) → a ≡ true → b ≡ true → (a && b) ≡ true
and-true a b h k = rw (h, k) refl

and-false_left : (a b : Bool) → a ≡ false → (a && b) ≡ false
and-false_left a b h = rw h refl

and-false_right : (a b : Bool) → b ≡ false → (a && b) ≡ false
and-false_right a b h = elim (Bool-cases a) [ inl t ↦ rw (t, h) refl | inr f ↦ rw f refl ]

IsWritten-imv :
    (wrote : ℕ) (b : Buffer) (r : Recording) (imv : Handle ℕ)
    → CanWrite r
    → IsAppended r.imv (take wrote b.bytes) imv
    → video_bytes wrote b ≡ []
    → imv_bytes wrote b r.state.inline_motion_vectors ≡ take wrote b.bytes
    → IsWritten wrote b r (abort_unless wrote b (record r { imv = imv }))
IsWritten-imv wrote b r imv c (open_now, closed, current, added) no_video imv_is = record {
  same = SameSettings-eq r _ refl refl refl refl;
  state = refl;
  can_write = record {
    video = c.video;
    imv = IsOpen-IsReady r.imv_filename r.state.inline_motion_vectors imv open_now;
    pts = c.pts;
  };
  closed = refl;
  current = sym (ap (◌++◌ (written r.video.current)) no_video ∙ append-nil _);
  video_added = sym (ap (◌++◌ (collected r.video)) no_video ∙ append-nil _);
  imv_added = added ∙ ap (◌++◌ (collected r.imv)) (sym imv_is);
}

-- What is written of a buffer stands behind what was written before.
pub write-IsWritten :
    (wrote : ℕ) (b : Buffer) (r : Recording)
    → CanWrite r
    → Returns (IsWritten wrote b r) (write wrote b r)
unfolding write
write-IsWritten wrote b r c =
    Returns-if b.side_info _ _
      (λ side.
        let no_video : video_bytes wrote b ≡ [] =
          if-true b.side_info [] (take wrote b.bytes) side in
        Returns-if r.state.inline_motion_vectors _ _
          (λ used.
            let imv_is : imv_bytes wrote b r.state.inline_motion_vectors ≡ take wrote b.bytes =
              if-true (b.side_info && r.state.inline_motion_vectors) _ _
                (and-true b.side_info r.state.inline_motion_vectors side used) in
            Returns-bind
              (append-IsAppended r.imv (take wrote b.bytes)
                (IsReady-IsOpen r.imv_filename r.state.inline_motion_vectors r.imv c.imv used))
              λ imv a. value _ (IsWritten-imv wrote b r imv c a no_video imv_is))
          (λ unused. value r (
            IsWritten-nothing wrote b r c no_video (
              if-false (b.side_info && r.state.inline_motion_vectors) _ _
                (and-false_right b.side_info r.state.inline_motion_vectors unused)))))
      (λ frame.
        let no_imv : imv_bytes wrote b r.state.inline_motion_vectors ≡ [] =
          if-false (b.side_info && r.state.inline_motion_vectors) _ _
            (and-false_left b.side_info r.state.inline_motion_vectors frame) in
        let video : video_bytes wrote b ≡ take wrote b.bytes =
          if-false b.side_info [] (take wrote b.bytes) frame in
        Returns-bind (append-IsAppended r.video (take wrote b.bytes) c.video) λ out a.
          Returns-bind (note_pts-IsNoted b (record r { video = out }) c.pts)
            λ r1 noted. value _ (IsWritten-frame wrote b r r1 out c a noted video no_imv))
