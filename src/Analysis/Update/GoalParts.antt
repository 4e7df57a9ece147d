-- ===== src/Analysis/Update/GoalParts.antt =====
-- src/tracker/analysis.cpp: what each part of `analysis_update` does about goals.
use foosball_tracker.Common.{
  ℕ, suc, ◌+◌, ◌≡◌, ◌==◌, ◌⊎◌, inl, inr, refl, ◌∙◌, arith, Bool, true, false, Bool-cases, List, [],
  ◌∷◌, ◌++◌, some, if◌then◌else◌, not, ◌&&◌, ltb, get_elem?, set?, ◌>>=◌, Partial, gives,
  Partial-bind, Partial-skip, Partial-map, Partial-if,
}
use foosball_tracker.Common.Int.{ℤ, pos, pos_part, ◌-ℤ◌, ltb_ℤ}
use foosball_tracker.Common.Floats.{Floats}
use foosball_tracker.Analysis.{
  Point, Analysis, Message, save, fast, red_goal, blue_goal, max_speed, is_in_goal, zero_float,
}
use foosball_tracker.Analysis.Scorer.{get_player_who_scored}
use foosball_tracker.Analysis.Update.{
  frames, tick, store_speed, note_shot, speed_of, check_shot, ball_seen, check_goal, ball_gone,
  max_from, report_speed, branch,
}

-- The goals among the messages of a call.
abbrev pub goal_count : {F : Type 0} → List (Message F) → ℕ
goal_count [] = 0
goal_count (red_goal _ ∷ ms) = suc (goal_count ms)
goal_count (blue_goal _ ∷ ms) = suc (goal_count ms)
goal_count (_ ∷ ms) = goal_count ms

pub goal_count-append :
    {F : Type 0} (ms ns : List (Message F)) → goal_count (ms ++ ns) ≡ goal_count ms + goal_count ns
goal_count-append [] ns = omega arith
goal_count-append (red_goal p ∷ ms) ns = omega (arith, goal_count-append ms ns)
goal_count-append (blue_goal p ∷ ms) ns = omega (arith, goal_count-append ms ns)
goal_count-append (m ∷ ms) ns = goal_count-append ms ns

module _ {F D : Type 0} (o : Floats F D) (fps : F) where
  -- A call without a goal leaves the frame of the last goal as it is.
  abbrev pub NoGoal : Analysis F → Analysis F × List (Message F) → Type 0
  NoGoal s r = (goal_count r.1 ≡ 0) × (r.0.last_goal ≡ s.last_goal)

  -- A call with a goal, in the frame `s.frame_number`.
  pub record Goal (s : Analysis F) (r : Analysis F × List (Message F)) : Type 0 where
    pub one : goal_count r.1 ≡ 1
    pub at : r.0.last_goal ≡ s.frame_number
    pub late : ltb_ℤ (pos s.frame_number -ℤ pos s.last_goal) (frames o fps 15 1) ≡ false
    pub no_save : r.0.send_save ≡ 0
    pub no_fast : r.0.send_fast ≡ 0

  pub tick_no_goal :
      (p : ℕ) → (goal_count (tick o fps save p).1 ≡ 0) × (goal_count (tick o fps fast p).1 ≡ 0)
  unfolding tick
  tick_no_goal p = (ground arith, ground arith)

  -- What the report of the speed leaves alone.
  abbrev pub Kept : Analysis F → Analysis F × List (Message F) → Type 0
  Kept s r = NoGoal s r × (r.0.send_save ≡ s.send_save) × (r.0.send_fast ≡ s.send_fast)

  pub report_no_goal : (s : Analysis F) → Partial (Kept s) (report_speed o fps s)
  unfolding report_speed
  report_no_goal s =
      let best =
        max_from o s.ball_speeds (pos_part (frames o fps 50 1))
          (pos s.ball_speed_index -ℤ frames o fps 50 1) (zero_float o) in
      Partial-if (ltb 100 s.frame_number && ltb_ℤ (frames o fps 5 1) (pos s.frames_since_update))
        (best >>= λ v. some (record s { frames_since_update = 0 }, max_speed v ∷ [])) (some (s, []))
        (λ _. Partial-skip best λ v.
          gives (record s { frames_since_update = 0 }, max_speed v ∷ []) ((refl, refl), refl, refl))
        (λ _. gives (s, []) ((refl, refl), refl, refl))

  one_goal :
      (b : Bool) (p : ℤ)
      → let m : Message F = if b then red_goal p else blue_goal p in goal_count (m ∷ []) ≡ 1
  one_goal true p = refl
  one_goal false p = refl

  check_goal_rule :
      (s : Analysis F) (prev_idx : ℕ)
      → Partial (λ r. NoGoal s r ⊎ Goal s r) (check_goal o fps s prev_idx)
  unfolding check_goal
  check_goal_rule s prev_idx = Partial-skip (get_elem? s.balls prev_idx) λ p.
      elim (Bool-cases (is_in_goal o p == 0)) [
        | inl z ↦ rw z (gives (s, []) (inl (refl, refl)))
        | inr z ↦
            rw z
              (elim (Bool-cases
                (ltb_ℤ (pos s.frame_number -ℤ pos s.last_goal) (frames o fps 15 1))) [
                  | inl early ↦
                      rw early
                        (gives (record s { send_save = 0; send_fast = 0 }, []) (inl (refl, refl)))
                  | inr late ↦ rw late (
                      Partial-skip (get_player_who_scored o s.balls (is_in_goal o p) s.ball_cur fps)
                        λ player.
                          gives
                            (
                              record s { send_save = 0; send_fast = 0; last_goal = s.frame_number },
                              (if is_in_goal o p == 1 then red_goal player else blue_goal player)
                                  ∷ [],
                            )
                            (inr (record {
                              one = one_goal (is_in_goal o p == 1) player;
                              at = refl;
                              late = late;
                              no_save = refl;
                              no_fast = refl;
                            })))
                ])
      ]

  -- The frame and the last goal are those before.
  abbrev pub Same : Analysis F → Analysis F → Type 0
  Same s r = (r.last_goal ≡ s.last_goal) × (r.frame_number ≡ s.frame_number)

  store_speed-Same : (s : Analysis F) (v : F) → Partial (Same s) (store_speed s v)
  unfolding store_speed
  store_speed-Same s v =
      Partial-skip (set? s.ball_speeds s.ball_speed_index v) λ ys. gives _ (refl, refl)

  note_shot-last_goal :
      (s : Analysis F) (ball : Point F) (v : F) → (note_shot o s ball v).last_goal ≡ s.last_goal
  unfolding note_shot
  note_shot-last_goal s ball v = ground arith

  check_shot_rule :
      (s : Analysis F) (prev_idx : ℕ) (ball : Point F)
      → Partial (λ r. r.last_goal ≡ s.last_goal) (check_shot o fps s prev_idx ball)
  unfolding check_shot
  check_shot_rule s prev_idx ball = Partial-skip (get_elem? s.balls prev_idx) λ p.
      Partial-skip (get_elem? s.ball_frames prev_idx) λ b.
        let diff = pos s.frame_number -ℤ pos b in
        let speed = speed_of o fps p ball diff in
        Partial-if (not (ltb_ℤ (pos 10) diff) && ltb 100 s.frame_number)
          (store_speed s speed >>= λ s1. some (note_shot o s1 ball speed)) (some s)
          (λ _.
            Partial-bind (store_speed-Same s speed)
              λ s1 e. gives (note_shot o s1 ball speed) (note_shot-last_goal s1 ball speed ∙ e.0))
          (λ _. gives s refl)

  ball_seen_rule :
      (s : Analysis F) (prev_idx : ℕ) (ball : Point F)
      → Partial (λ r. r.last_goal ≡ s.last_goal) (ball_seen o fps s prev_idx ball)
  unfolding ball_seen
  ball_seen_rule s prev_idx ball = Partial-skip (set? s.balls s.ball_cur ball) λ balls.
      Partial-skip (set? s.ball_frames s.ball_cur s.frame_number) λ stamps.
        Partial-bind
          (check_shot_rule
            (record s {
              ball_missing = 0;
              balls = balls;
              ball_frames = stamps;
              ball_cur = s.ball_cur + 1;
            })
            prev_idx ball)
          λ s1 e.
            gives (if ltb s1.ball_cur 256 then s1 else record s1 { ball_cur = 0 }) (ground arith)

  -- What one call does about goals, in the frame `s.frame_number`: it reports a goal only if the ball
  -- has not been found, and had been missing for 15 frames before.
  abbrev pub GoalRule : Analysis F → Bool → Analysis F × List (Message F) → Type 0
  GoalRule s found r = NoGoal s r ⊎ ((found ≡ false) × (s.ball_missing ≡ 15) × Goal s r)

  GoalRule-of_Same :
      (s s1 : Analysis F) (r : Analysis F × List (Message F))
      → Same s s1
      → s.ball_missing ≡ 15
      → NoGoal s1 r ⊎ Goal s1 r
      → GoalRule s false r
  GoalRule-of_Same s s1 r e m (inl no_goal) = inl (no_goal.0, no_goal.1 ∙ e.0)
  GoalRule-of_Same s s1 r e m (inr g) = inr (
    refl,
    m,
    record {
      one = g.one;
      at = g.at ∙ e.1;
      late = rw (← e.0, ← e.1) (g.late);
      no_save = g.no_save;
      no_fast = g.no_fast;
    },
  )

  ball_gone_rule :
      (s : Analysis F) (prev_idx : ℕ) → Partial (GoalRule s false) (ball_gone o fps s prev_idx)
  unfolding ball_gone
  ball_gone_rule s prev_idx = Partial-bind (store_speed-Same s (zero_float o)) λ s1 e.
      let s2 = record s1 { ball_missing = s.ball_missing + 1 } in
      Partial-if (s.ball_missing == 15) (check_goal o fps s2 prev_idx) (some (s2, []))
        (λ m.
          Partial-map (λ r. NoGoal s2 r ⊎ Goal s2 r) (GoalRule s false)
            (λ r g. GoalRule-of_Same s s2 r e (ground arith) g) (check_goal_rule s2 prev_idx))
        (λ _. gives (s2, []) (inl (refl, e.0)))

  pub branch_rule :
      (s : Analysis F) (prev_idx : ℕ) (ball : Point F) (found : Bool)
      → Partial (GoalRule s found) (branch o fps s prev_idx ball found)
  unfolding branch
  branch_rule s prev_idx ball true =
      Partial-bind (ball_seen_rule s prev_idx ball) λ s1 e. gives (s1, []) (inl (refl, e))
  branch_rule s prev_idx ball false = ball_gone_rule s prev_idx
