-- ===== src/Recorder/Waiting/Ends.antt =====
-- src/recorder/RaspiVidBalls.c: the loop of `main` ends when its time has passed.
use foosball_tracker.Common.{
  ℕ, zero, suc, ◌+◌, ◌≤◌, ◌≡◌, ◌≢◌, ◌⊎◌, inl, inr, refl, sym, ap, ◌∙◌, arith, if◌then◌else◌, Bool,
  true, false, List, [], ◌∷◌, none, some, Returns, Returns-some, Partial, faults, gives,
  Partial-bind, Partial-skip, Partial-if, Partial-map, Partial-self, Partial-some, Bool-cases,
  le→ltb,
}
use foosball_tracker.Common.Int.{ℤ, pos, negsuc, ◌+ℤ◌, eqb_ℤ, pos_part}
use foosball_tracker.Recorder.Settings.{
  WaitMethod, wait_method_none, wait_method_timed, wait_method_keypress, wait_method_signal,
  wait_method_forever, VidState,
}
use foosball_tracker.Recorder.Waiting.{
  World, Waited, complete_at, keep_running, is_exit, wait_by, zoom_of, wait_for_next_change, Loop,
  Progress, left, turn, breaks, waited, toggle, mark_split, record_loop,
}

pub data IsLeft : Progress → Type 0 where
  leaves : (l : Loop) → IsLeft (left l)

-- A call returns.
abbrev pub IsAnswered : VidState → World → Type 0
IsAnswered s w =
    (capturing : Bool) (complete_time : ℤ)
    → Returns (λ _. Unit {0}) (wait_for_next_change s capturing complete_time w)

abbrev pub AreAnswered : VidState → List World → Type 0
AreAnswered s [] = Unit {0}
AreAnswered s (w ∷ ws) = IsAnswered s w × AreAnswered s ws

-- A call is made at the time or later.
abbrev pub Reaches : ℕ → List World → Type 0
Reaches t [] = ⊥
Reaches t (w ∷ ws) = (t ≤ w.now) ⊎ Reaches t ws

if-stops :
    {A : Type 0} (b running : Bool) (a c : A)
    → running ≡ false
    → (if◌then◌else◌ {A = Bool × A} b (false, a) (running, c)).0 ≡ false
if-stops true running a c h = refl
if-stops false running a c h = h

abort-stops :
    (aborted running : Bool) → running ≡ false → (if aborted then false else running) ≡ false
abort-stops true running h = refl
abort-stops false running h = h

-- Where the time has passed the call says so, by whichever method it waits.
wait_by-stops :
    (m : WaitMethod) (s : VidState) (capturing running : Bool) (w : World)
    → running ≡ false
    → Partial (λ r. r.0 ≡ false) (wait_by m s capturing running w)
unfolding wait_by
wait_by-stops wait_method_none s capturing running w h = Partial-skip _ λ aborted. gives _ refl
wait_by-stops wait_method_forever s capturing running w h = Partial-skip _ λ aborted. gives _ refl
wait_by-stops wait_method_timed s capturing running w h =
    Partial-skip _ λ aborted. gives _ (abort-stops aborted running h)
wait_by-stops wait_method_keypress s capturing running w h =
    Partial-skip _ λ ch. gives _ (if-stops (is_exit ch) running none (zoom_of ch) h)
wait_by-stops wait_method_signal s capturing running w h =
    Partial-if w.signal _ _ (λ _. gives _ h) (λ _. faults)

-- The time at which the recording is complete after a call, and that a call at this time says so.
abbrev IsTimely : VidState → (complete_time : ℤ) → World → Waited → Type 0
IsTimely s complete_time w r =
    (r.complete_time ≡ complete_at s w.now complete_time)
    × (keep_running s w.now (complete_at s w.now complete_time) ≡ false → r.running ≡ false)

wait_by-Timely :
    (s : VidState) (capturing running : Bool) (w : World)
    → Partial (λ r. running ≡ false → r.0 ≡ false) (wait_by s.wait_method s capturing running w)
wait_by-Timely s capturing true w =
    Partial-map (λ r. wait_by s.wait_method s capturing true w ≡ some r) _ (λ r _ e. absurd (cc))
      (Partial-self _)
wait_by-Timely s capturing false w =
    Partial-map (λ r. r.0 ≡ false) _ (λ r h e. h)
      (wait_by-stops s.wait_method s capturing false w refl)

wait_for_next_change-Timely :
    (s : VidState) (capturing : Bool) (complete_time : ℤ) (w : World)
    → Partial (IsTimely s complete_time w) (wait_for_next_change s capturing complete_time w)
unfolding wait_for_next_change
wait_for_next_change-Timely s capturing complete_time w =
    Partial-bind
      (wait_by-Timely s capturing (keep_running s w.now (complete_at s w.now complete_time)) w)
      λ r h. gives _ (refl, h)

same_complete_time :
    (b : Bool) (x y : Loop)
    → x.complete_time ≡ y.complete_time
    → (if b then x else y).complete_time ≡ y.complete_time
same_complete_time true x y e = e
same_complete_time false x y e = refl

pub turn-complete_time : (s : VidState) (l : Loop) → (turn s l).complete_time ≡ l.complete_time
unfolding turn toggle mark_split
turn-complete_time s l = same_complete_time s.split_wait _ _ refl

pub record_loop-breaks :
    (s : VidState) (ws : List World) (l : Loop)
    → breaks s l ≡ true
    → record_loop s ws l ≡ left (toggle l)
unfolding record_loop
record_loop-breaks s [] l e = rw e refl
record_loop-breaks s (w ∷ ws) l e = rw e refl

-- A turn whose call returns.
pub record_loop-turn :
    (s : VidState) (w : World) (ws : List World) (l : Loop) (r : Waited)
    → breaks s l ≡ false
    → wait_for_next_change s (turn s l).capturing (turn s l).complete_time w ≡ some r
    → record_loop s (w ∷ ws) l
      ≡ (if r.running then record_loop s ws (waited r (turn s l)) else left (waited r (turn s l)))
unfolding record_loop
record_loop-turn s w ws l r goes e = rw (goes, e) refl

IsLeft-if :
    (b : Bool) (p : Progress) (l : Loop) → (b ≡ true → IsLeft p) → IsLeft (if b then p else left l)
IsLeft-if true p l h = h refl
IsLeft-if false p l h = leaves l

-- The loop ends in a turn whose call returns, where its rest would end.
record_loop-IsLeft :
    (s : VidState) (w : World) (ws : List World) (l : Loop)
    → IsAnswered s w
    → ((r : Waited)
        → IsTimely s (turn s l).complete_time w r
        → r.running ≡ true
        → IsLeft (record_loop s ws (waited r (turn s l))))
    → IsLeft (record_loop s (w ∷ ws) l)
record_loop-IsLeft s w ws l answered rest = elim (Bool-cases (breaks s l)) [
  | inl e ↦ rw (record_loop-breaks s (w ∷ ws) l e) (leaves _)
  | inr e ↦
      let (r, called, any) =
        Returns-some (answered (turn s l).capturing (turn s l).complete_time) in
      let timely =
        Partial-some (wait_for_next_change-Timely s (turn s l).capturing (turn s l).complete_time w)
          called in
      rw (record_loop-turn s w ws l r e called) (IsLeft-if r.running _ _ (rest r timely))
]

eqb_ℤ-ne : (a : ℤ) → a ≢ pos 0 → eqb_ℤ a (pos 0) ≡ false
eqb_ℤ-ne (pos zero) h = absurd (h refl)
eqb_ℤ-ne (pos (suc a)) h = ground arith
eqb_ℤ-ne (negsuc a) h = refl

-- A call at the time or later does not go on.
late-running :
    (s : VidState) (t now : ℕ)
    → s.timeout ≢ pos 0
    → t ≤ now
    → keep_running s now (complete_at s now (pos t)) ≡ false
unfolding complete_at
late-running s t now timed late =
    rw (eqb_ℤ-ne s.timeout timed, le→ltb (now + 0) (t + 0) (omega arith)) refl

kept :
    (s : VidState) (t : ℕ) (w : World) (r : Waited) (l : Loop)
    → l.complete_time ≡ pos t
    → r.complete_time ≡ complete_at s w.now l.complete_time
    → (waited r l).complete_time ≡ pos t
unfolding waited complete_at
kept s t w r l known e = e ∙ rw known refl

-- The loop, where the time of completion is known and a call reaches it.
due-IsLeft :
    (s : VidState) (t : ℕ) (ws : List World) (l : Loop)
    → s.timeout ≢ pos 0
    → l.complete_time ≡ pos t
    → AreAnswered s ws
    → Reaches t ws
    → IsLeft (record_loop s ws l)
due-IsLeft s t [] l timed complete answered reached = elim reached [ ]
due-IsLeft s t (w ∷ ws) l timed complete answered reached =
    record_loop-IsLeft s w ws l answered.0 λ r timely goes.
      let known = turn-complete_time s l ∙ complete in
      elim reached [
        | inl late ↦
            let stopped : r.running ≡ false =
              timely.1 (rw known (late-running s t w.now timed late)) in
            absurd (cc)
        | inr later ↦
            due-IsLeft s t ws (waited r (turn s l)) timed (kept s t w r (turn s l) known timely.0)
              answered.1 later
      ]

first :
    (s : VidState) (timeout : ℕ) (w : World) (r : Waited) (l : Loop)
    → s.timeout ≡ pos (suc timeout)
    → l.complete_time ≡ negsuc 0
    → r.complete_time ≡ complete_at s w.now l.complete_time
    → (waited r l).complete_time ≡ pos (w.now + suc timeout)
unfolding waited complete_at ◌+ℤ◌
first s timeout w r l timed fresh e = e ∙ rw (fresh, timed) (ground arith)

-- A recording with a timeout that is positive leaves its loop, by whichever method it waits and wherever it
-- is in it, once a call of `wait_for_next_change` comes the timeout after the first one, if each call returns.
pub record_loop-ends :
    (s : VidState) (timeout : ℕ) (w : World) (ws : List World) (l : Loop)
    → s.timeout ≡ pos (suc timeout)
    → l.complete_time ≡ negsuc 0
    → AreAnswered s (w ∷ ws)
    → Reaches (w.now + suc timeout) ws
    → IsLeft (record_loop s (w ∷ ws) l)
record_loop-ends s timeout w ws l timed fresh answered reached =
    record_loop-IsLeft s w ws l answered.0 λ r timely goes.
      due-IsLeft s (w.now + suc timeout) ws (waited r (turn s l))
        (λ e.
          let clash : pos (suc timeout) ≡ pos 0 = sym timed ∙ e in
          let parts = ap pos_part clash in omega arith)
        (first s timeout w r (turn s l) timed (turn-complete_time s l ∙ fresh) timely.0) answered.1
        reached
