-- ===== src/Analysis/Update/Layout.antt =====
-- src/tracker/analysis.cpp: the layout of the analysis state, and the loops that read it.
use foosball_tracker.Common.{
  ℕ, zero, suc, ◌+◌, ◌-◌, ◌<◌, ◌≤◌, ◌≡◌, ◌==◌, arith, List, if◌then◌else◌, le→ltb, lt→ltb, some,
  length, Every, Returns, value, Returns-bind, Returns-if, Returns-get_elem?, not, ◌&&◌,
}
use foosball_tracker.Common.Int.{
  ℤ, pos, negsuc, pos_part, neg_part, ◌-ℤ◌, ltb_ℤ, eqb_ℤ, -ℤ_pos_parts, add_one_pos, add_one_negsuc,
  add_one_minus_one, add-negsuc-pos,
}
use foosball_tracker.Common.Floats.{Floats}
use foosball_tracker.Analysis.{Point, Analysis, get_player_bar}
use foosball_tracker.Analysis.Scorer.{
  previous, Scan, count_hit, bar_teams, look_back, get_player_who_scored,
}
use foosball_tracker.Analysis.Update.{max_from}

module _ {F D : Type 0} (o : Floats F D) where
  -- `getPlayerBar` gives an index of `barTeams`.
  abbrev pub BarInRange : Point F → Type 0
  BarInRange p = (n : ℕ) × (n < 9) × (get_player_bar o p ≡ pos n)

  -- The arrays have their sizes, the indices lie inside them, no ball is from a later frame, and
  -- each ball is at a bar.
  pub record Layout (screen balls : List (Point F)) (ball_frames : List ℕ) (speeds : List F)
      (cur speed_index frame : ℕ) : Type 0 where
    pub screen_len : length screen ≡ 256
    pub balls_len : length balls ≡ 256
    pub frames_len : length ball_frames ≡ 256
    pub speeds_len : length speeds ≡ 300
    pub cur_in : cur < 256
    pub speed_in : speed_index < 300
    pub frames_past : Every (λ b. b ≤ frame) ball_frames
    pub bars_in : Every BarInRange balls

  abbrev pub IsValid : Analysis F → Type 0
  IsValid s =
      Layout s.balls_screen s.balls s.ball_frames s.ball_speeds s.ball_cur s.ball_speed_index
        s.frame_number

  -- Validity while the next index of the history may stand at the end of the arrays.
  abbrev pub IsStored : Analysis F → Type 0
  IsStored s =
      Layout s.balls_screen s.balls s.ball_frames s.ball_speeds 0 s.ball_speed_index s.frame_number

  pub previous-lt : (i : ℕ) → i < 256 → previous i < 256
  previous-lt i h = ground arith

  pub cur_idx-count_hit-lt :
      (team : ℕ) (s : Scan) (n owner : ℕ)
      → s.cur_idx < 256
      → (count_hit team (pos n) owner (record s { cur_idx = previous s.cur_idx })).cur_idx < 256
  unfolding count_hit
  cur_idx-count_hit-lt team s n owner h = ground arith

  pub look_back-Returns :
      (balls : List (Point F)) (team rounds : ℕ) (s : Scan)
      → length balls ≡ 256
      → Every BarInRange balls
      → s.cur_idx < 256
      → Returns (λ _. Unit {0}) (look_back o balls team rounds s)
  unfolding look_back
  look_back-Returns balls team zero s len bars h = value s tt
  look_back-Returns balls team (suc rounds) s len bars h =
      Returns-bind (Returns-get_elem? balls (previous s.cur_idx) (rw len (previous-lt s.cur_idx h)))
        λ ball at.
          let (n, small, bar) = bars (previous s.cur_idx) ball at in
          rw bar (
            Returns-bind (Returns-get_elem? bar_teams n small) λ owner _.
              let s1 = count_hit team (pos n) owner (record s { cur_idx = previous s.cur_idx }) in
              Returns-if (not (owner == team) && eqb_ℤ (pos n) s.player && (s1.hits == 6)) (some s1)
                (look_back o balls team rounds s1) (λ _. value s1 tt)
                (λ _.
                  look_back-Returns balls team rounds s1 len bars
                    (cur_idx-count_hit-lt team s n owner h)))

  pub max_from-Returns :
      (speeds : List F) (rounds : ℕ) (i : ℤ) (best : F)
      → length speeds ≡ 300
      → neg_part i ≤ 300
      → pos_part i + rounds ≤ 300 + neg_part i
      → Returns (λ _. Unit {0}) (max_from o speeds rounds i best)
  unfolding max_from
  max_from-Returns speeds zero i best len low high = value best tt
  max_from-Returns speeds (suc rounds) (pos i) best len low high =
      rw (le→ltb (i + 0) 0 (omega arith)) (
        Returns-bind (Returns-get_elem? speeds i (rw len (omega arith))) λ v _.
          rw (add_one_pos i)
            (max_from-Returns speeds rounds (pos (i + 1)) _ len (omega arith) (omega arith)))
  max_from-Returns speeds (suc rounds) (negsuc zero) best len low high =
      rw (add-negsuc-pos 0 300 (omega arith)) (
        Returns-bind (Returns-get_elem? speeds 299 (rw len (omega arith))) λ v _.
          rw add_one_minus_one
            (max_from-Returns speeds rounds (pos 0) _ len (omega arith) (omega arith)))
  max_from-Returns speeds (suc rounds) (negsuc (suc i)) best len low high =
      rw (lt→ltb 0 (0 + suc (suc i)) (omega arith), add-negsuc-pos (suc i) 300 (omega arith))
        (Returns-bind (Returns-get_elem? speeds (300 - suc (suc i)) (rw len (omega arith))) λ v _.
          rw (add_one_negsuc i)
            (max_from-Returns speeds rounds (negsuc i) _ len (omega arith) (omega arith)))

  pub max_from_of_window :
      (speeds : List F) (index : ℕ) (num : ℤ) (best : F)
      → length speeds ≡ 300
      → index < 300
      → pos_part num ≤ 300
      → Returns (λ _. Unit {0}) (max_from o speeds (pos_part num) (pos index -ℤ num) best)
  unfolding max_from
  max_from_of_window speeds index (pos n) best len lt few =
      max_from-Returns speeds n (pos index -ℤ pos n) best len (omega (arith, -ℤ_pos_parts index n))
        (omega (arith, -ℤ_pos_parts index n))
  max_from_of_window speeds index (negsuc n) best len lt few = value best tt

  pub get_player_who_scored-Returns :
      (balls : List (Point F)) (team cur : ℕ) (fps : F)
      → length balls ≡ 256
      → Every BarInRange balls
      → cur < 256
      → Returns (λ _. Unit {0}) (get_player_who_scored o balls team cur fps)
  unfolding get_player_who_scored
  get_player_who_scored-Returns balls team cur fps len bars h =
      Returns-bind
        (look_back-Returns balls team
          (if ltb_ℤ (pos 256) (o.to_int (o.single.mul (o.single.lit 25 1) fps))
            then 256
            else pos_part (o.to_int (o.single.mul (o.single.lit 25 1) fps)))
          (record { cur_idx = cur; player = pos 0; hits = 0 }) len bars h)
        λ s _. value _ tt
