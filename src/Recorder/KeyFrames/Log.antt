-- ===== src/Recorder/KeyFrames/Log.antt =====
-- src/recorder/RaspiVidBalls.c: what the circular mode of `encoder_buffer_callback` promises, as a log of
-- the encoded stream with the offsets at which its key frames start.
use foosball_tracker.Common.{
  ℕ, ◌+◌, ◌%◌, ◌≤◌, ◌<◌, ◌≡◌, if◌then◌else◌, List, [], ◌∷◌, ◌++◌, Option, none, some, length,
}
use foosball_tracker.Recorder.Circular.{Circle}
use foosball_tracker.Recorder.Circular.Tail.{IsTail}
use foosball_tracker.Recorder.KeyFrames.{Buffer, KeyFrames, iframe_bufsize, start_or}
use foosball_tracker.Recorder.KeyFrames.Window.{Window}
use foosball_tracker.Recorder.KeyFrames.Moving.{Intact, Stays, drop_overwritten}

-- The stream so far, the offsets of the key frames that are listed, the oldest first, and that of the
-- frame that is not complete.
pub record Log : Type 0 where
  pub stream : List ℕ
  pub starts : List ℕ
  pub begun : Option ℕ

-- The key frames with that of a buffer, before any is dropped.
abbrev pub starts_with : Buffer → Log → List ℕ
starts_with b g =
    if b.keyframe then g.starts ++ start_or (length g.stream) g.begun ∷ [] else g.starts

-- A buffer is added to the stream, and the key frames are forgotten whose first byte is no longer among
-- the last `l`.
abbrev pub log_frame : (l : ℕ) → Buffer → Log → Log
log_frame l b g = record {
  stream = g.stream ++ b.bytes;
  starts = drop_overwritten l (length g.stream + length b.bytes) (starts_with b g);
  begun = if b.frame_end then none else some (start_or (length g.stream) g.begun);
}

-- The place and the offset of the frame that is not complete.
abbrev pub IsBegun : (l n : ℕ) → Option ℕ → Option ℕ → Type 0
IsBegun l n none none = Unit {0}
IsBegun l n (some p) (some o) = (p ≡ o % l) × (o ≤ n) × (n ≤ o + l)
IsBegun l n _ _ = ⊥

-- The state stands for the log.
pub record IsLogged (l : ℕ) (c : Circle) (f : KeyFrames) (g : Log) : Type 0 where
  pub tail : IsTail c l g.stream
  pub ring : length f.iframe_buff ≡ iframe_bufsize
  pub reads : f.iframe_buff_rpos < iframe_bufsize
  pub writes : f.iframe_buff_wpos < iframe_bufsize
  pub entries : Window l f.iframe_buff f.iframe_buff_rpos g.starts f.iframe_buff_wpos
  pub intact : Intact l (length g.stream) (start_or (length g.stream) g.begun) g.starts
  pub frame : IsBegun l (length g.stream) f.frame_start g.begun

-- The buffer is no longer than the circular buffer, neither is the frame that it belongs to, the ring
-- has room for an entry, and a key frame stays.
pub record Suits (l : ℕ) (b : Buffer) (g : Log) : Type 0 where
  pub fits : length b.bytes ≤ l
  pub frame_fits : length g.stream + length b.bytes ≤ start_or (length g.stream) g.begun + l
  pub room : length g.starts + 1 < iframe_bufsize
  pub stays : Stays l (length g.stream + length b.bytes) (length g.stream) (starts_with b g)
