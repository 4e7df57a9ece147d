-- ===== src/Recorder/Segments.antt =====
-- src/recorder/RaspiVidBalls.c: `encoder_buffer_callback` without the circular buffer: the stream goes to
-- files, a new one for each segment. An option is none where the process ends, by `exit` or a fault.
mod Tests
pub mod Files
pub mod Splitting
pub mod Runs
pub mod Complete
pub mod Noting
pub mod Writing
use foosball_tracker.Common.{
  ℕ, ◌+◌, ◌==◌, if◌then◌else◌, Bool, true, false, not, ◌&&◌, ◌||◌, List, [], ◌∷◌, ◌++◌, Option,
  none, some, length, take, ◌>>=◌,
}
use foosball_tracker.Common.Int.{ℤ, pos, ◌+ℤ◌, ◌-ℤ◌, eqb_ℤ, ltb_ℤ}
use foosball_tracker.Recorder.KeyFrames.{Buffer}
use foosball_tracker.Recorder.Cli.{same_codes}
use foosball_tracker.Recorder.OpenFile.{
  Target, file, Opening, exits, opens, fails, System, open_filename,
}
use foosball_tracker.Recorder.Settings.{VidState}

-- A file with what was written to it and not yet destroyed.
pub record Output (A : Type 0) : Type 0 where
  pub target : Target
  pub contents : List A

-- A `FILE *` that may be null, and the files that were closed before.
pub record Handle (A : Type 0) : Type 0 where
  pub current : Option (Output A)
  pub closed : List (Output A)

-- The settings, the rest of the state and of `PORT_USERDATA` that the callback uses, and the static
-- `base_time`, which is none in place of -1. The time stamps are written as a line for each.
pub record Recording : Type 0 where
  pub state : VidState
  pub filename : Option (List ℕ)
  pub imv_filename : Option (List ℕ)
  pub pts_filename : Option (List ℕ)
  pub split_now : Bool
  pub frame : ℕ
  pub starttime : ℤ
  pub lasttime : ℤ
  pub base_time : Option ℕ
  pub abort : Bool
  pub video : Handle ℕ
  pub imv : Handle ℕ
  pub pts : Handle ℤ

-- `fwrite` or `fprintf`, a fault on a null handle
unfoldable pub append : {A : Type 0} → Handle A → List A → Option (Handle A)
append h items = h.current >>= λ out.
    some (record h { current = some (record out { contents = out.contents ++ items }) })

-- Whether opening the target for "wb" truncates the other one: a file of the same name.
unfoldable pub same_file : Target → Target → Bool
same_file (file name) (file old) = same_codes name old
same_file target old = false

-- The files that were opened before, where the one that is opened again is emptied.
unfoldable pub truncate : {A : Type 0} → Target → List (Output A) → List (Output A)
unfolding same_file
truncate target [] = []
truncate target (out ∷ outs) =
    (if same_file target out.target then record out { contents = [] } else out)
    ∷ truncate target outs

-- `fopen(filename, "wb")` of the new handle, and `fclose(handle); handle = new_handle;`. That a file of
-- one handle is also that of another handle is not modelled, nor what `fclose` still flushes into a file
-- that was just emptied.
unfoldable pub replace : {A : Type 0} → Handle A → Target → Option (Handle A)
unfolding truncate
replace h target = h.current >>= λ out. some (record {
  current = some (record { target = target; contents = [] });
  closed = truncate target (h.closed ++ out ∷ []);
})

abbrev pub starts_with_dash : List ℕ → Bool
starts_with_dash [] = false
starts_with_dash (c ∷ name) = c == b'-'

-- Going on in a new file, unless that cannot be opened.
unfoldable pub go_on : {A : Type 0} → Handle A → Opening → Option (Handle A)
unfolding replace
go_on h (exits code) = none
go_on h fails = some h
go_on h (opens target) = replace h target

unfoldable pub reopen :
    {A : Type 0} → System → VidState → Option (List ℕ) → Handle A → Option (Handle A)
unfolding go_on
reopen sys s none h = some h
reopen sys s (some name) h =
    if starts_with_dash name then some h else go_on h (open_filename sys s name)

-- `segmentNumber` of the next segment
unfoldable pub next_number : VidState → ℤ
next_number s =
    let n = s.segment_number +ℤ pos 1 in
    if not (eqb_ℤ s.segment_wrap (pos 0)) && ltb_ℤ s.segment_wrap n then pos 1 else n

-- Whether the buffer starts a segment: header bytes after the time of the segment, or after a signal.
unfoldable pub must_split : Recording → Buffer → (base now : ℕ) → Bool
must_split r b base now =
    b.config
    && ((not (eqb_ℤ r.state.segment_size (pos 0))
          && ltb_ℤ (pos base +ℤ r.state.segment_size) (pos now))
        || (r.state.split_wait && r.split_now))

-- Starting a segment.
unfoldable pub split : System → (now : ℕ) → Recording → Option Recording
unfolding reopen next_number
split sys now r =
    let s = record r.state { segment_number = next_number r.state } in
    reopen sys s r.filename r.video >>= λ video. reopen sys s r.imv_filename r.imv >>= λ imv.
    reopen sys s r.pts_filename r.pts >>= λ pts. some (record r {
      state = s;
      split_now = false;
      base_time = some now;
      video = video;
      imv = imv;
      pts = pts;
    })

-- The line of a time stamp, where one is due.
unfoldable pub note_pts : Buffer → Recording → Option Recording
unfolding append
note_pts b r = elim b.pts [
  | none ↦ some r
  | some time ↦
      if r.state.save_pts && not b.config && not (eqb_ℤ time r.lasttime)
      then (let start = if r.frame == 0 then time else r.starttime in
          append r.pts ((time -ℤ start) ∷ []) >>= λ pts.
          some (record r { starttime = start; lasttime = time; frame = r.frame + 1; pts = pts }))
      else some r
]

-- `bytes_written` is compared with the length, where `fwrite` wrote so many.
abbrev pub abort_unless : ℕ → Buffer → Recording → Recording
abort_unless wrote b r = record r { abort = r.abort || not (wrote == length b.bytes) }

-- Writing a buffer that is not empty.
unfoldable pub write : (wrote : ℕ) → Buffer → Recording → Option Recording
unfolding append note_pts
write wrote b r =
    if b.side_info
    then (if r.state.inline_motion_vectors
        then (append r.imv (take wrote b.bytes) >>= λ imv.
            some (abort_unless wrote b (record r { imv = imv })))
        else some r)
    else (append r.video (take wrote b.bytes) >>= λ video.
        note_pts b (record r { video = video }) >>= λ r1. some (abort_unless wrote b r1))

abbrev pub base_or : ℕ → Option ℕ → ℕ
base_or first none = first
base_or first (some base) = base

-- The callback, where the clock shows `first` and then `now`.
unfoldable pub segment_buffer :
    System → (first now wrote : ℕ) → Buffer → Recording → Option Recording
unfolding split must_split write
segment_buffer sys first now wrote b r =
    let base = base_or first r.base_time in
    let started = record r { base_time = some base } in
    (if must_split r b base now then split sys now started else some started) >>= λ r1.
    if length b.bytes == 0 then some r1 else write wrote b r1
