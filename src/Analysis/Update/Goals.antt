-- ===== src/Analysis/Update/Goals.antt =====
-- src/tracker/analysis.cpp: when `analysis_update` reports a goal.
use foosball_tracker.Common.{
  ℕ, ◌+◌, ◌≡◌, ◌==◌, ◌⊎◌, inl, inr, refl, ◌∙◌, arith, Bool, false, List, [], ◌∷◌, ◌++◌, Option,
  some, if◌then◌else◌, ◌>>=◌, Partial, gives, Partial-bind, Partial-self, Partial-some,
}
use foosball_tracker.Common.Int.{ℤ, pos, ◌-ℤ◌, ltb_ℤ}
use foosball_tracker.Common.Floats.{Floats}
use foosball_tracker.Analysis.{Point, Analysis, Message, save, fast}
use foosball_tracker.Analysis.Scorer.{previous}
use foosball_tracker.Analysis.Update.{frames, tick, begin_frame, update}
use foosball_tracker.Analysis.Update.GoalParts.{
  goal_count, goal_count-append, GoalRule, Kept, branch_rule, report_no_goal, tick_no_goal,
}

-- Each frame is at least `gap` after the one before, the first after `last`.
abbrev pub Apart : ℤ → ℕ → List ℕ → Type 0
Apart gap last [] = Unit {0}
Apart gap last (f ∷ fs) = (ltb_ℤ (pos f -ℤ pos last) gap ≡ false) × Apart gap f fs

module _ {F D : Type 0} (o : Floats F D) (fps : F) where
  -- What a call in which the ball is found, or not, reports.
  abbrev pub CallGoals : Analysis F → Bool → Analysis F × List (Message F) → Type 0
  CallGoals s found r =
      ((goal_count r.1 ≡ 0) × (r.0.last_goal ≡ s.last_goal))
      ⊎ ((found ≡ false)
          × (s.ball_missing ≡ 15)
          × (goal_count r.1 ≡ 1)
          × (r.0.last_goal ≡ s.frame_number + 1)
          × (ltb_ℤ (pos (s.frame_number + 1) -ℤ pos s.last_goal) (frames o fps 15 1) ≡ false)
          × (r.0.send_save ≡ 0)
          × (r.0.send_fast ≡ 0))

  -- The call's messages hold as many goals as those of its branch.
  count_all :
      (s : Analysis F) (ms ns : List (Message F))
      → goal_count ns ≡ 0
      → goal_count ((tick o fps save s.send_save).1 ++ (tick o fps fast s.send_fast).1 ++ ms ++ ns)
        ≡ goal_count ms
  count_all s ms ns e =
      let saves = (tick o fps save s.send_save).1 in
      let fasts = (tick o fps fast s.send_fast).1 in
      omega (
        arith,
        e,
        goal_count-append (saves ++ fasts ++ ms) ns,
        goal_count-append (saves ++ fasts) ms,
        goal_count-append saves fasts,
        (tick_no_goal o fps s.send_save).0,
        (tick_no_goal o fps s.send_fast).1,
      )

  whole_call :
      (s : Analysis F) (found : Bool) (gone reported r : Analysis F × List (Message F))
      → goal_count r.1 ≡ goal_count gone.1
      → r.0.last_goal ≡ reported.0.last_goal
      → r.0.send_save ≡ reported.0.send_save
      → r.0.send_fast ≡ reported.0.send_fast
      → GoalRule o fps (begin_frame o fps s) found gone
      → Kept o fps gone.0 reported
      → CallGoals s found r
  unfolding begin_frame
  whole_call s found gone reported r c l p q (inl g) k = inl (c ∙ g.0, l ∙ k.0.1 ∙ g.1)
  whole_call s found gone reported r c l p q (inr (miss, m, g)) k =
      inr (miss, m, c ∙ g.one, l ∙ k.0.1 ∙ g.at, g.late, p ∙ k.1 ∙ g.no_save, q ∙ k.2 ∙ g.no_fast)

  -- One call of `analysis_update` reports at most one goal. It reports none and keeps the frame of the
  -- last goal; or the ball was not found and had been missing for exactly 15 frames, at least 1.5
  -- seconds have passed since the last goal, this frame becomes the frame of the last goal, and no
  -- SAVE and no FAST stay pending.
  pub update_goals :
      (s : Analysis F) (ball : Point F) (found : Bool) {r : Analysis F × List (Message F)}
      → update o fps s ball found ≡ some r
      → CallGoals s found r
  unfolding update
  update_goals s ball found = Partial-some {P = CallGoals s found} (
      Partial-bind (branch_rule o fps (begin_frame o fps s) (previous s.ball_cur) ball found)
        λ gone g. Partial-bind (report_no_goal o fps gone.0) λ reported k.
          let r : Analysis F × List (Message F) = (
            record (reported.0) { frames_since_update = reported.0.frames_since_update + 1 },
            (tick o fps save s.send_save).1
                ++ (tick o fps fast s.send_fast).1
                ++ gone.1
                ++ reported.1,
          ) in
          gives r (
            whole_call s found gone reported r (count_all s gone.1 reported.1 k.0.0) refl refl refl
              g k))

  -- The frames in which a run of calls reports a goal.
  unfoldable pub goal_frames : Analysis F → List (Point F × Bool) → Option (List ℕ)
  goal_frames s [] = some []
  goal_frames s ((ball, found) ∷ rest) = update o fps s ball found >>= λ r.
      goal_frames r.0 rest >>= λ later.
      some (if goal_count r.1 == 0 then later else (s.frame_number + 1) ∷ later)

  Apart-step :
      (s : Analysis F) (found : Bool) (r : Analysis F × List (Message F)) (later : List ℕ)
      → CallGoals s found r
      → Apart (frames o fps 15 1) r.0.last_goal later
      → Apart
          (frames o fps 15 1)
          s.last_goal
          (if goal_count r.1 == 0 then later else (s.frame_number + 1) ∷ later)
  Apart-step s found r later (inl g) h = rw (g.0) (rw (← g.1) h)
  Apart-step s found r later (inr g) h = rw (g.2) (g.4, rw (← g.3) h)

  goal_frames-Apart :
      (calls : List (Point F × Bool)) (s : Analysis F)
      → Partial (Apart (frames o fps 15 1) s.last_goal) (goal_frames s calls)
  unfolding goal_frames
  goal_frames-Apart [] s = gives [] tt
  goal_frames-Apart ((ball, found) ∷ rest) s =
      Partial-bind (Partial-self (update o fps s ball found)) λ r e.
        Partial-bind (goal_frames-Apart rest r.0) λ later h.
          gives (if goal_count r.1 == 0 then later else (s.frame_number + 1) ∷ later)
            (Apart-step s found r later (update_goals s ball found e) h)

  -- In every run of calls that return, at one frame rate for the whole run, each goal is reported at least 1.5 seconds after the
  -- goal before it, and the first one at least 1.5 seconds after the last goal of the start.
  pub goals-Apart :
      (calls : List (Point F × Bool)) (s : Analysis F) {fs : List ℕ}
      → goal_frames s calls ≡ some fs
      → Apart (frames o fps 15 1) s.last_goal fs
  goals-Apart calls s = Partial-some (goal_frames-Apart calls s)
