-- ===== src/Analysis/Update/Parts.antt =====
-- src/tracker/analysis.cpp: each part of `analysis_update` keeps the layout.
use foosball_tracker.Common.{
  ℕ, ◌+◌, ◌<◌, ◌≤◌, ◌≡◌, ◌==◌, refl, ap, ◌∙◌, arith, List, [], ◌∷◌, ltb, ltb→lt, Bool-cases, inl,
  inr, some, length, set, length-set, Every-set, ◌>>=◌, Returns, value, Returns-bind, Returns-if,
  Returns-get_elem?, Returns-set?, not, ◌&&◌,
}
use foosball_tracker.Common.Int.{pos, pos_part, ◌-ℤ◌, ltb_ℤ}
use foosball_tracker.Common.Floats.{Floats}
use foosball_tracker.Analysis.{Point, Analysis, is_in_goal, zero_float, max_speed}
use foosball_tracker.Analysis.Update.{
  frames, store_speed, note_shot, check_shot, ball_seen, check_goal, ball_gone, max_from,
  report_speed, speed_of, is_save,
}
use native.Mathlib.Nat.{le_refl}
use foosball_tracker.Analysis.Update.Layout.{
  BarInRange, IsValid, IsStored, Layout, max_from_of_window, get_player_who_scored-Returns,
}

module _ {F D : Type 0} (o : Floats F D) where
  pub store_speed-IsStored :
      (s : Analysis F) (v : F)
      → IsStored o s
      → Returns (λ r. IsStored o r × (r.ball_cur ≡ s.ball_cur)) (store_speed s v)
  unfolding store_speed
  store_speed-IsStored s v h =
      Returns-bind (Returns-set? s.ball_speeds s.ball_speed_index v (rw h.speeds_len h.speed_in))
        λ ys e. value _ (
          record {
            screen_len = h.screen_len;
            balls_len = h.balls_len;
            frames_len = h.frames_len;
            speeds_len = ap length e ∙ length-set s.ball_speeds s.ball_speed_index v ∙ h.speeds_len;
            cur_in = omega arith;
            speed_in = ground (arith, h.speed_in);
            frames_past = h.frames_past;
            bars_in = h.bars_in;
          },
          refl,
        )

  pub note_shot-IsStored :
      (s : Analysis F) (ball : Point F) (speed : F)
      → IsStored o s
      → IsStored o (note_shot o s ball speed) × ((note_shot o s ball speed).ball_cur ≡ s.ball_cur)
  unfolding note_shot
  note_shot-IsStored s ball speed h = elim (Bool-cases (is_save o ball speed)) [
    | inl p ↦ rw p (h, refl)
    | inr p ↦ elim (Bool-cases (o.single.lt (o.single.lit 300 1) speed)) [
      | inl q ↦ rw (p, q) (h, refl)
      | inr q ↦ rw (p, q) (h, refl)
    ]
  ]

  module _ (fps : F) where
    pub check_shot-IsStored :
        (s : Analysis F) (prev_idx : ℕ) (ball : Point F)
        → prev_idx < 256
        → IsStored o s
        → Returns (λ r. IsStored o r × (r.ball_cur ≡ s.ball_cur)) (check_shot o fps s prev_idx ball)
    unfolding check_shot
    check_shot-IsStored s prev_idx ball lt v =
        Returns-bind (Returns-get_elem? s.balls prev_idx (rw v.balls_len lt)) λ p _.
          Returns-bind (Returns-get_elem? s.ball_frames prev_idx (rw v.frames_len lt)) λ b _.
            let diff = pos s.frame_number -ℤ pos b in
            let speed = speed_of o fps p ball diff in
            Returns-if (not (ltb_ℤ (pos 10) diff) && ltb 100 s.frame_number)
              (store_speed s speed >>= λ s1. some (note_shot o s1 ball speed)) (some s)
              (λ _.
                Returns-bind (store_speed-IsStored s speed v)
                  λ s1 h. let k = note_shot-IsStored s1 ball speed h.0 in value _ (k.0, k.1 ∙ h.1))
              (λ _. value s (v, refl))

    pub seen_stored :
        (s : Analysis F) (ball : Point F)
        → BarInRange o ball
        → IsValid o s
        → (balls : List (Point F)) (ball_frames : List ℕ) → balls ≡ set s.balls s.ball_cur ball
        → ball_frames ≡ set s.ball_frames s.ball_cur s.frame_number
        → Layout o s.balls_screen balls ball_frames s.ball_speeds 0 s.ball_speed_index
            s.frame_number
    seen_stored s ball bar v balls ball_frames e f = record {
      screen_len = v.screen_len;
      balls_len = ap length e ∙ length-set s.balls s.ball_cur ball ∙ v.balls_len;
      frames_len = ap length f ∙ length-set s.ball_frames s.ball_cur s.frame_number ∙ v.frames_len;
      speeds_len = v.speeds_len;
      cur_in = omega arith;
      speed_in = v.speed_in;
      frames_past = rw f (
          Every-set (λ b. b ≤ s.frame_number) s.ball_frames s.ball_cur s.frame_number v.frames_past
            (le_refl s.frame_number));
      bars_in = rw e (Every-set (BarInRange o) s.balls s.ball_cur ball v.bars_in bar);
    }

    pub in_place : (s : Analysis F) → IsStored o s → s.ball_cur < 256 → IsValid o s
    in_place s h lt = record {
      screen_len = h.screen_len;
      balls_len = h.balls_len;
      frames_len = h.frames_len;
      speeds_len = h.speeds_len;
      cur_in = lt;
      speed_in = h.speed_in;
      frames_past = h.frames_past;
      bars_in = h.bars_in;
    }

    pub stored : (s : Analysis F) → IsValid o s → IsStored o s
    stored s v = record {
      screen_len = v.screen_len;
      balls_len = v.balls_len;
      frames_len = v.frames_len;
      speeds_len = v.speeds_len;
      cur_in = omega arith;
      speed_in = v.speed_in;
      frames_past = v.frames_past;
      bars_in = v.bars_in;
    }

    pub ball_seen-IsValid :
        (s : Analysis F) (prev_idx : ℕ) (ball : Point F)
        → prev_idx < 256
        → BarInRange o ball
        → IsValid o s
        → Returns (IsValid o) (ball_seen o fps s prev_idx ball)
    unfolding ball_seen
    ball_seen-IsValid s prev_idx ball lt bar v =
        Returns-bind (Returns-set? s.balls s.ball_cur ball (rw v.balls_len v.cur_in)) λ balls e.
          Returns-bind
            (Returns-set? s.ball_frames s.ball_cur s.frame_number (rw v.frames_len v.cur_in))
            λ frames f.
              Returns-bind
                (check_shot-IsStored
                  (record s {
                    ball_missing = 0;
                    balls = balls;
                    ball_frames = frames;
                    ball_cur = s.ball_cur + 1;
                  })
                  prev_idx ball lt (seen_stored s ball bar v balls frames e f))
                λ s1 h. elim (Bool-cases (ltb s1.ball_cur 256)) [
                  | inl p ↦ rw p (value s1 (in_place s1 h.0 (ltb→lt _ _ p)))
                  | inr p ↦ rw p (value _ h.0)
                ]

    pub check_goal-IsValid :
        (s : Analysis F) (prev_idx : ℕ)
        → prev_idx < 256
        → IsValid o s
        → Returns (λ r. IsValid o r.0) (check_goal o fps s prev_idx)
    unfolding check_goal
    check_goal-IsValid s prev_idx lt v =
        Returns-bind (Returns-get_elem? s.balls prev_idx (rw v.balls_len lt)) λ p _.
          let goal = is_in_goal o p in
          elim (Bool-cases (goal == 0)) [
            | inl z ↦ rw z (value _ v)
            | inr z ↦
                rw z
                  (elim (Bool-cases
                    (ltb_ℤ (pos s.frame_number -ℤ pos s.last_goal) (frames o fps 15 1))) [
                      | inl early ↦ rw early (value _ v)
                      | inr late ↦ rw late (
                          Returns-bind
                            (get_player_who_scored-Returns o s.balls goal s.ball_cur fps v.balls_len
                              v.bars_in v.cur_in)
                            λ player _. value _ v)
                    ])
          ]

    pub ball_gone-IsValid :
        (s : Analysis F) (prev_idx : ℕ)
        → prev_idx < 256
        → IsValid o s
        → Returns (λ r. IsValid o r.0) (ball_gone o fps s prev_idx)
    unfolding ball_gone
    ball_gone-IsValid s prev_idx lt v =
        Returns-bind (store_speed-IsStored s (zero_float o) (stored s v)) λ s1 h.
          let v1 = in_place s1 h.0 (rw (h.1) v.cur_in) in
          let s2 = record s1 { ball_missing = s.ball_missing + 1 } in
          Returns-if (s.ball_missing == 15) (check_goal o fps s2 prev_idx) (some (s2, []))
            (λ _. check_goal-IsValid s2 prev_idx lt v1) (λ _. value (s2, []) v1)

    pub report_speed-IsValid :
        (s : Analysis F)
        → pos_part (frames o fps 50 1) ≤ 300
        → IsValid o s
        → Returns (λ r. IsValid o r.0) (report_speed o fps s)
    unfolding report_speed
    report_speed-IsValid s few v =
        let num = frames o fps 50 1 in
        Returns-if (ltb 100 s.frame_number && ltb_ℤ (frames o fps 5 1) (pos s.frames_since_update))
          (max_from o s.ball_speeds (pos_part num) (pos s.ball_speed_index -ℤ num) (zero_float o)
            >>= λ best. some (record s { frames_since_update = 0 }, max_speed best ∷ []))
          (some (s, []))
          (λ _.
            Returns-bind
              (max_from_of_window o s.ball_speeds s.ball_speed_index num (zero_float o) v.speeds_len
                v.speed_in few)
              λ best _. value _ v)
          (λ _. value _ v)
