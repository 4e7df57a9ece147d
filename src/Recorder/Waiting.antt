-- ===== src/Recorder/Waiting.antt =====
-- src/recorder/RaspiVidBalls.c: `pause_and_test_abort`, `wait_for_next_change` and the loop of `main` that
-- switches the capture on and off. The clock, the flag that the callback sets, keys and signals are parameters.
pub mod Polls
pub mod Ends
pub mod Circular
mod Tests
use Prim.Native.String.{String}
use foosball_tracker.Common.{
  ℕ, suc, ◌+◌, ◌==◌, leb, if◌then◌else◌, Bool, true, false, not, ◌&&◌, ◌||◌, List, [], ◌∷◌, ◌++◌,
  Option, none, some, ◌>>=◌,
}
use foosball_tracker.Common.Int.{ℤ, pos, negsuc, ◌+ℤ◌, eqb_ℤ, ltb_ℤ}
use foosball_tracker.Recorder.Settings.{
  WaitMethod, wait_method_none, wait_method_timed, wait_method_keypress, wait_method_signal,
  wait_method_forever, VidState,
}
use foosball_tracker.Recorder.Camera.Zoom.{ZoomCommand, zoom_in, zoom_out, zoom_reset}

-- What a call of `wait_for_next_change` meets: the clock in milliseconds, the values of the abort flag as
-- it reads them, the key if one is pressed, and whether the signal comes.
pub record World : Type 0 where
  pub now : ℕ
  pub aborts : List Bool
  pub key : Option ℕ
  pub signal : Bool

abbrev pub abort_interval : ℕ
abort_interval = 100

-- The loop of `pause_and_test_abort`: true for an abort, none while it waits for the next value of the
-- flag. An int holds its counter for every pause up to 2147483600.
unfoldable pub poll : (pause : ℤ) (wait : ℕ) → List Bool → Option Bool
poll pause wait [] = if ltb_ℤ (pos wait) pause then none else some false
poll pause wait (abort ∷ aborts) =
    let rest = poll pause (wait + abort_interval) aborts in
    if ltb_ℤ (pos wait) pause then (if abort then some true else rest) else some false

unfoldable pub pause_and_test_abort : (pause : ℤ) → List Bool → Option Bool
unfolding poll
pause_and_test_abort pause aborts = if eqb_ℤ pause (pos 0) then some false else poll pause 0 aborts

-- The loop of `WAIT_METHOD_FOREVER`
unfoldable pub until_abort : List Bool → Option (Unit {0})
until_abort [] = none
until_abort (abort ∷ aborts) = let rest = until_abort aborts in if abort then some tt else rest

-- What a call gives: its result, `complete_time`, and the zoom that it started.
pub record Waited : Type 0 where
  pub running : Bool
  pub complete_time : ℤ
  pub zoom : Option ZoomCommand

unfoldable pub zoom_of : (key : ℕ) → Option ZoomCommand
zoom_of key =
    if key == 105 || key == 73
    then some zoom_in
    else if key == 111 || key == 79
    then some zoom_out
    else if key == 114 || key == 82
    then some zoom_reset
    else none

abbrev pub is_exit : (key : ℕ) → Bool
is_exit key = key == 120 || key == 88

-- `complete_time`, which the first call sets.
unfoldable pub complete_at : VidState → (now : ℕ) → (complete_time : ℤ) → ℤ
complete_at s now complete_time =
    if eqb_ℤ complete_time (negsuc 0) then pos now +ℤ s.timeout else complete_time

abbrev pub keep_running : VidState → (now : ℕ) → (complete_time : ℤ) → Bool
keep_running s now complete_time =
    not (not (ltb_ℤ (pos now) complete_time) && not (eqb_ℤ s.timeout (pos 0)))

-- The `switch`, for the value of `keep_running`: the result and the zoom.
unfoldable pub wait_by :
    WaitMethod → VidState → (capturing running : Bool) → World → Option (Bool × Option ZoomCommand)
unfolding pause_and_test_abort until_abort zoom_of
wait_by wait_method_none s capturing running w =
    pause_and_test_abort s.timeout w.aborts >>= λ aborted. some (false, none)
wait_by wait_method_forever s capturing running w =
    until_abort w.aborts >>= λ aborted. some (false, none)
wait_by wait_method_timed s capturing running w =
    pause_and_test_abort (if capturing then s.on_time else s.off_time) w.aborts >>= λ aborted.
    some (if aborted then false else running, none)
wait_by wait_method_keypress s capturing running w =
    w.key >>= λ ch. some (if is_exit ch then (false, none) else (running, zoom_of ch))
wait_by wait_method_signal s capturing running w = if w.signal then some (running, none) else none

-- An option is none as long as the call waits.
unfoldable pub wait_for_next_change :
    VidState → (capturing : Bool) → (complete_time : ℤ) → World → Option Waited
unfolding complete_at wait_by
wait_for_next_change s capturing complete_time w =
    let complete = complete_at s w.now complete_time in
    wait_by s.wait_method s capturing (keep_running s w.now complete) w >>= λ r.
    some record { running = r.0; complete_time = complete; zoom = r.1 }

-- What the loop does to the camera, the encoder and the callback: `MMAL_PARAMETER_CAPTURE`,
-- `MMAL_PARAMETER_VIDEO_REQUEST_I_FRAME`, `splitNow = 1`, and a zoom.
pub data Event : Type 0 where
  capture : Bool → Event
  request_iframe : Event
  split_now : Event
  zoomed : ZoomCommand → Event

-- `state.bCapturing`, `initialCapturing` and `complete_time`
pub record Loop : Type 0 where
  pub capturing : Bool
  pub initial_capturing : Bool
  pub complete_time : ℤ
  pub events : List Event

-- The state of the program where it leaves the loop, or where it waits.
pub data Progress : Type 0 where
  left : Loop → Progress
  waits : Loop → Progress

-- `state.bCapturing = !state.bCapturing`, and the camera is told.
unfoldable pub toggle : Loop → Loop
toggle l = record l {
  capturing = not l.capturing;
  events = l.events ++ (capture (not l.capturing) ∷ []);
}

-- `if(state.splitWait)`
unfoldable pub mark_split : VidState → Loop → Loop
mark_split s l =
    if s.split_wait
    then record l {
      initial_capturing = false;
      events =
          l.events
          ++ (if l.capturing
              then request_iframe ∷ []
              else if l.initial_capturing
              then []
              else split_now ∷ []);
    }
    else l

abbrev pub zoom_events : Option ZoomCommand → List Event
zoom_events none = []
zoom_events (some command) = zoomed command ∷ []

-- What the loop does before it waits.
unfoldable pub turn : VidState → Loop → Loop
unfolding toggle mark_split
turn s l = mark_split s (toggle l)

-- Where it leaves, in the circular mode, instead of waiting.
unfoldable pub breaks : VidState → Loop → Bool
unfolding toggle
breaks s l = s.b_circular_buffer && not (toggle l).capturing

-- After a call of `wait_for_next_change`.
unfoldable pub waited : Waited → Loop → Loop
waited r l = record l { complete_time = r.complete_time; events = l.events ++ zoom_events r.zoom }

-- The loop, for what its calls meet in turn.
unfoldable pub record_loop : VidState → List World → Loop → Progress
unfolding toggle turn breaks waited
record_loop s [] l = if breaks s l then left (toggle l) else waits (turn s l)
record_loop s (w ∷ ws) l =
    if breaks s l
    then left (toggle l)
    else elim (wait_for_next_change s (turn s l).capturing (turn s l).complete_time w) [
      | none ↦ waits (turn s l)
      | some r ↦
          let after = waited r (turn s l) in
          let next = record_loop s ws after in if r.running then next else left after
    ]

-- Where the loop begins, `wait_for_next_change` not called before.
abbrev pub loop_start : VidState → Loop
loop_start s =
    let capturing = not (eqb_ℤ s.b_capturing (pos 0)) in
    record {
      capturing = capturing;
      initial_capturing = capturing;
      complete_time = negsuc 0;
      events = [];
    }
