-- ===== src/Recorder/Segments/Runs.antt =====
-- src/recorder/RaspiVidBalls.c: runs of `encoder_buffer_callback` without the circular buffer.
use foosball_tracker.Common.{ℕ, ◌≡◌, Bool, true, List, [], ◌∷◌, ◌++◌, Option, none, some, ◌>>=◌}
use foosball_tracker.Common.Int.{pos, ◌≤ℤ◌}
use foosball_tracker.Recorder.Settings.{VidState}
use foosball_tracker.Recorder.KeyFrames.{Buffer}
use foosball_tracker.Recorder.OpenFile.{System}
use foosball_tracker.Recorder.Segments.{Recording, must_split, base_or, segment_buffer}
use foosball_tracker.Recorder.Segments.Files.{collected}
use foosball_tracker.Recorder.Segments.Writing.{video_bytes, imv_bytes}
use foosball_tracker.Recorder.Segments.Splitting.{Answers, OpensNew}

-- A call of the callback: what the system answers, the two times of the clock, how many bytes `fwrite`
-- writes, and the buffer.
pub record Call : Type 0 where
  pub sys : System
  pub first : ℕ
  pub now : ℕ
  pub wrote : ℕ
  pub buffer : Buffer

unfoldable pub segment_buffers : List Call → Recording → Option Recording
segment_buffers [] r = some r
segment_buffers (c ∷ calls) r =
    segment_buffer c.sys c.first c.now c.wrote c.buffer r >>= λ r1. segment_buffers calls r1

-- The bytes of the video and of the motion vectors in all buffers.
abbrev pub all_video : List Call → List ℕ
all_video [] = []
all_video (c ∷ calls) = video_bytes c.wrote c.buffer ++ all_video calls

abbrev pub all_imv : Bool → List Call → List ℕ
all_imv used [] = []
all_imv used (c ∷ calls) = imv_bytes c.wrote c.buffer used ++ all_imv used calls

-- What a call returns has a property.
abbrev pub After : (Recording → Type 0) → Option Recording → Type 0
After P none = Unit {0}
After P (some r) = P r

-- In no call does a segment that starts open a file that its handle had before.
abbrev pub AllNew : List Call → Recording → Type 0
AllNew [] r = Unit {0}
AllNew (c ∷ calls) r =
    (must_split r c.buffer (base_or c.first r.base_time) c.now ≡ true → OpensNew c.sys r)
    × After (AllNew calls) (segment_buffer c.sys c.first c.now c.wrote c.buffer r)

abbrev pub AllAnswer : List Call → Recording → Type 0
AllAnswer [] r = Unit {0}
AllAnswer (c ∷ calls) r = Answers c.sys r × AllAnswer calls r

-- The number of a segment is from 1 to the wrap point.
abbrev pub IsNumber : VidState → Type 0
IsNumber s = (pos 1 ≤ℤ s.segment_number) × (s.segment_number ≤ℤ s.segment_wrap)

-- What a run has done.
pub record IsRun (calls : List Call) (r r1 : Recording) : Type 0 where
  pub video : collected r1.video ≡ collected r.video ++ all_video calls
  pub imv : collected r1.imv ≡ collected r.imv ++ all_imv r.state.inline_motion_vectors calls
  pub number : IsNumber r.state → IsNumber r1.state
