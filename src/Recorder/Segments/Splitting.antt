-- ===== src/Recorder/Segments/Splitting.antt =====
-- src/recorder/RaspiVidBalls.c: a new segment in `encoder_buffer_callback`.
use foosball_tracker.Common.{
  ℕ, ◌≡◌, inl, inr, refl, sym, subst, true, some, Returns, value, Returns-bind,
}
use foosball_tracker.Recorder.OpenFile.{System}
use foosball_tracker.Recorder.Segments.{Handle, Recording, next_number, split}
use foosball_tracker.Recorder.Segments.Files.{
  IsOpen, IsFresh, IsReopened, reopen-IsReopened, IsQuiet, IsReopened-IsReady,
}
use foosball_tracker.Recorder.Segments.Noting.{CanWrite, SameSettings, IsOpen-IsReady}

-- No file name of the settings makes `open_filename` end the process.
pub record Answers (sys : System) (r : Recording) : Type 0 where
  pub video : IsQuiet sys r.state r.filename
  pub imv : IsQuiet sys r.state r.imv_filename
  pub pts : IsQuiet sys r.state r.pts_filename

-- No file that the next segment opens is one that its handle had before.
pub record OpensNew (sys : System) (r : Recording) : Type 0 where
  pub video :
      IsFresh sys (record r.state { segment_number = next_number r.state }) r.filename r.video
  pub imv :
      IsFresh sys (record r.state { segment_number = next_number r.state }) r.imv_filename r.imv
  pub pts :
      IsFresh sys (record r.state { segment_number = next_number r.state }) r.pts_filename r.pts

pub record IsSplit (now : ℕ) (r r1 : Recording) : Type 0 where
  pub same : SameSettings r r1
  pub can_write : CanWrite r1
  pub video : IsReopened r.video r1.video
  pub imv : IsReopened r.imv r1.imv
  pub number : r1.state.segment_number ≡ next_number r.state
  pub base : r1.base_time ≡ some now

IsReopened-IsOpen :
    {A : Type 0} (h h1 : Handle A) → IsReopened h h1 → IsOpen h.current → IsOpen h1.current
IsReopened-IsOpen h h1 (inl (closed, current)) o = subst IsOpen (sym current) o
IsReopened-IsOpen h h1 (inr (empty, ready, same)) o = ready

pub split-IsSplit :
    (sys : System) (now : ℕ) (r : Recording)
    → CanWrite r
    → Answers sys r
    → OpensNew sys r
    → Returns (IsSplit now r) (split sys now r)
unfolding split
split-IsSplit sys now r c q new =
    let n = next_number r.state in
    Returns-bind
      (reopen-IsReopened sys r.state n r.filename true r.video
        (IsOpen-IsReady r.filename true r.video c.video) q.video new.video)
      λ video v.
        Returns-bind
          (reopen-IsReopened sys r.state n r.imv_filename r.state.inline_motion_vectors r.imv c.imv
            q.imv new.imv)
          λ imv i.
            Returns-bind
              (reopen-IsReopened sys r.state n r.pts_filename r.state.save_pts r.pts c.pts q.pts
                new.pts)
              λ pts p. value _ (record {
                same = record {
                  filename = refl;
                  imv_filename = refl;
                  pts_filename = refl;
                  state = (n, refl);
                };
                can_write = record {
                  video = IsReopened-IsOpen r.video video v c.video;
                  imv =
                      IsReopened-IsReady r.imv_filename r.state.inline_motion_vectors r.imv imv i
                        c.imv;
                  pts = IsReopened-IsReady r.pts_filename r.state.save_pts r.pts pts p c.pts;
                };
                video = v;
                imv = i;
                number = refl;
                base = refl;
              })
