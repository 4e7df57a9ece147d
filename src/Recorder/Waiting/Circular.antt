-- ===== src/Recorder/Waiting/Circular.antt =====
-- src/recorder/RaspiVidBalls.c: the loop of `main` in the circular mode that keys end.
use foosball_tracker.Common.{
  ℕ, suc, ◌+◌, ◌≡◌, refl, lt→ltb, ap, ◌∙◌, arith, if◌then◌else◌, Bool, true, false, not, List, [],
  ◌∷◌, Option, none, some,
}
use foosball_tracker.Common.Int.{ℤ, pos, negsuc, ◌+ℤ◌}
use foosball_tracker.Recorder.Settings.{wait_method_keypress, VidState}
use foosball_tracker.Recorder.Waiting.{
  World, Waited, complete_at, keep_running, is_exit, zoom_of, wait_by, wait_for_next_change,
  capture, Loop, Progress, left, turn, breaks, waited, toggle, mark_split, record_loop, loop_start,
}
use foosball_tracker.Recorder.Camera.Zoom.{ZoomCommand}
use foosball_tracker.Recorder.Waiting.Ends.{
  turn-complete_time, record_loop-breaks, record_loop-turn,
}

first_complete :
    (s : VidState) (timeout now : ℕ)
    → s.timeout ≡ pos (suc timeout)
    → complete_at s now (negsuc 0) ≡ pos (now + suc timeout)
unfolding complete_at ◌+ℤ◌
first_complete s timeout now timed = rw timed (ground arith)

early-running :
    (s : VidState) (timeout now : ℕ)
    → s.timeout ≡ pos (suc timeout)
    → keep_running s now (pos (now + suc timeout)) ≡ true
early-running s timeout now timed = rw (lt→ltb (now + 0) (now + suc timeout + 0) (omega arith)) refl

-- What the call gives for a key.
abbrev key_result : (exits : Bool) (zoom : Option ZoomCommand) (complete_time : ℤ) → Waited
key_result exits zoom complete_time = record {
  running = not exits;
  complete_time = complete_time;
  zoom = if exits then none else zoom;
}

key_result_lem :
    (exits : Bool) (zoom : Option ZoomCommand) (complete_time : ℤ)
    → record {
      running = (if◌then◌else◌ {A = Bool × Option ZoomCommand} exits (false, none) (true, zoom)).0;
      complete_time = complete_time;
      zoom = (if◌then◌else◌ {A = Bool × Option ZoomCommand} exits (false, none) (true, zoom)).1;
    }
      ≡ key_result exits zoom complete_time
key_result_lem true zoom complete_time = refl
key_result_lem false zoom complete_time = refl

-- The first call, before the time has passed, gives what the key says.
key_call :
    (s : VidState) (timeout ch : ℕ) (capturing : Bool) (w : World)
    → s.timeout ≡ pos (suc timeout)
    → s.wait_method ≡ wait_method_keypress
    → w.key ≡ some ch
    → wait_for_next_change s capturing (negsuc 0) w
      ≡ some (key_result (is_exit ch) (zoom_of ch) (pos (w.now + suc timeout)))
unfolding wait_for_next_change wait_by
key_call s timeout ch capturing w timed keyed pressed =
    rw (first_complete s timeout w.now timed, keyed, pressed, early-running s timeout w.now timed)
      (ap some (key_result_lem (is_exit ch) (zoom_of ch) (pos (w.now + suc timeout))))

-- How a circular recording ends: the loop that is left, with the capture on or off.
abbrev pub LeavesWith : Bool → Progress → Type 0
LeavesWith capturing p = (l : Loop) × (p ≡ left l) × (l.capturing ≡ capturing)

exits-LeavesWith :
    (exits : Bool) (p : Progress) (l : Loop)
    → LeavesWith false p
    → l.capturing ≡ true
    → LeavesWith exits (if not exits then p else left l)
exits-LeavesWith true p l off on = (l, refl, on)
exits-LeavesWith false p l off on = off

same_capturing :
    (b : Bool) (x y : Loop)
    → x.capturing ≡ y.capturing
    → (if b then x else y).capturing ≡ y.capturing
same_capturing true x y e = e
same_capturing false x y e = refl

turn-capturing : (s : VidState) (l : Loop) → (turn s l).capturing ≡ not l.capturing
unfolding turn toggle mark_split
turn-capturing s l = same_capturing s.split_wait _ _ refl

-- From a loop that captures, a circular recording leaves at once and switches the capture off.
capturing-LeavesWith :
    (s : VidState) (ws : List World) (l : Loop)
    → s.b_circular_buffer ≡ true
    → l.capturing ≡ true
    → LeavesWith false (record_loop s ws l)
unfolding breaks toggle
capturing-LeavesWith s ws l circular on =
    (toggle l, record_loop-breaks s ws l (rw (circular, on) refl), rw on refl)

-- A circular recording that keys end, with a positive timeout and the initial state that is set to
-- recording, waits for one key, and whichever it is, also one that zooms, ends with it; the capture is
-- then off, unless the key is x or X.
pub circular-one_key :
    (s : VidState) (timeout ch : ℕ) (w : World) (ws : List World)
    → s.b_circular_buffer ≡ true
    → s.wait_method ≡ wait_method_keypress
    → s.timeout ≡ pos (suc timeout)
    → s.b_capturing ≡ pos 0
    → w.key ≡ some ch
    → LeavesWith (is_exit ch) (record_loop s (w ∷ ws) (loop_start s))
unfolding breaks toggle waited
circular-one_key s timeout ch w ws circular keyed timed starts pressed =
    let off : (loop_start s).capturing ≡ false = rw starts refl in
    let l = turn s (loop_start s) in
    let on : l.capturing ≡ true = turn-capturing s (loop_start s) ∙ rw off refl in
    let fresh : l.complete_time ≡ negsuc 0 = turn-complete_time s (loop_start s) in
    let r = key_result (is_exit ch) (zoom_of ch) (pos (w.now + suc timeout)) in
    let called : wait_for_next_change s l.capturing l.complete_time w ≡ some r =
      rw fresh (key_call s timeout ch l.capturing w timed keyed pressed) in
    rw (record_loop-turn s w ws (loop_start s) r (rw (circular, off) refl) called) (
      exits-LeavesWith (is_exit ch) _ (waited r l)
        (capturing-LeavesWith s ws (waited r l) circular on) on)

-- A circular recording whose initial state is paused ends before it waits or captures anything: all that
-- it does is to switch the capture off.
pub circular-paused :
    (s : VidState) (ws : List World)
    → s.b_circular_buffer ≡ true
    → s.b_capturing ≡ pos 1
    → record_loop s ws (loop_start s)
      ≡ left record {
        capturing = false;
        initial_capturing = true;
        complete_time = negsuc 0;
        events = capture false ∷ [];
      }
unfolding breaks toggle
circular-paused s ws circular paused =
    record_loop-breaks s ws (loop_start s) (rw (circular, paused) refl) ∙ rw paused refl
