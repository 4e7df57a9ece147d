-- ===== src/Recorder/Segments/Noting.antt =====
-- src/recorder/RaspiVidBalls.c: the time stamps of `encoder_buffer_callback`, and what it leaves alone.
use foosball_tracker.Common.{
  ℕ, ◌≡◌, refl, Bool, true, false, not, ◌&&◌, List, Option, none, some, Returns, value, Returns-if,
  Returns-bind,
}
use foosball_tracker.Common.Int.{ℤ, eqb_ℤ}
use foosball_tracker.Recorder.KeyFrames.{Buffer}
use foosball_tracker.Recorder.Segments.{Handle, Recording, note_pts}
use foosball_tracker.Recorder.Segments.Files.{IsOpen, append-IsAppended, IsReady}

-- Every handle that the settings use is open.
pub record CanWrite (r : Recording) : Type 0 where
  pub video : IsOpen r.video.current
  pub imv : IsReady r.imv_filename r.state.inline_motion_vectors r.imv
  pub pts : IsReady r.pts_filename r.state.save_pts r.pts

-- The file names and all settings but the number of the segment.
pub record SameSettings (r r1 : Recording) : Type 0 where
  pub filename : r1.filename ≡ r.filename
  pub imv_filename : r1.imv_filename ≡ r.imv_filename
  pub pts_filename : r1.pts_filename ≡ r.pts_filename
  pub state : (n : ℤ) × (r1.state ≡ record r.state { segment_number = n })

pub SameSettings-eq :
    (r r1 : Recording)
    → r1.filename ≡ r.filename
    → r1.imv_filename ≡ r.imv_filename
    → r1.pts_filename ≡ r.pts_filename
    → r1.state ≡ r.state
    → SameSettings r r1
SameSettings-eq r r1 name imv pts state = record {
  filename = name;
  imv_filename = imv;
  pts_filename = pts;
  state = (r.state.segment_number, state);
}

pub SameSettings-self : (r : Recording) → SameSettings r r
SameSettings-self r = SameSettings-eq r r refl refl refl refl

pub IsReady-IsOpen :
    {A : Type 0} (name : Option (List ℕ)) (used : Bool) (h : Handle A)
    → IsReady name used h
    → used ≡ true
    → IsOpen h.current
IsReady-IsOpen none used h r u = r u
IsReady-IsOpen (some name) used h r u = r

pub IsOpen-IsReady :
    {A : Type 0} (name : Option (List ℕ)) (used : Bool) (h : Handle A)
    → IsOpen h.current
    → IsReady name used h
IsOpen-IsReady none used h o = λ u. o
IsOpen-IsReady (some name) used h o = o

-- The line of a time stamp leaves all else alone.
abbrev pub IsNoted : Recording → Recording → Type 0
IsNoted r r1 =
    SameSettings r r1
    × (r1.state ≡ r.state)
    × (r1.video ≡ r.video)
    × (r1.imv ≡ r.imv)
    × IsReady r.pts_filename r.state.save_pts r1.pts

and-true_left : (a b c : Bool) → (a && b && c) ≡ true → a ≡ true
and-true_left true b c h = refl
and-true_left false b c h = cc

note_time-IsNoted :
    (b : Buffer) (r : Recording) (time : Option ℤ)
    → IsReady r.pts_filename r.state.save_pts r.pts
    → Returns (IsNoted r) (note_pts (record b { pts = time }) r)
unfolding note_pts
note_time-IsNoted b r none ready = value r (SameSettings-self r, refl, refl, refl, ready)
note_time-IsNoted b r (some time) ready =
    Returns-if (r.state.save_pts && not b.config && not (eqb_ℤ time r.lasttime)) _ _
      (λ due.
        let used = and-true_left r.state.save_pts _ _ due in
        Returns-bind
          (append-IsAppended r.pts _
            (IsReady-IsOpen r.pts_filename r.state.save_pts r.pts ready used))
          λ pts a. value _ (
            SameSettings-eq r _ refl refl refl refl,
            refl,
            refl,
            refl,
            IsOpen-IsReady r.pts_filename r.state.save_pts pts a.0,
          ))
      (λ early. value r (SameSettings-self r, refl, refl, refl, ready))

pub note_pts-IsNoted :
    (b : Buffer) (r : Recording)
    → IsReady r.pts_filename r.state.save_pts r.pts
    → Returns (IsNoted r) (note_pts b r)
note_pts-IsNoted b r ready = note_time-IsNoted b r b.pts ready
