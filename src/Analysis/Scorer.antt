-- ===== src/Analysis/Scorer.antt =====
-- src/tracker/analysis.cpp: `getPlayerWhoScored`, which looks back through the ball history.
use foosball_tracker.Common.{
  ℕ, zero, suc, ◌+◌, ◌-◌, ◌==◌, if◌then◌else◌, not, ◌&&◌, List, [], ◌∷◌, Option, some, get_elem?,
  ◌>>=◌,
}
use foosball_tracker.Common.Int.{ℤ, pos, pos_part, ltb_ℤ, eqb_ℤ, get_at?}
use foosball_tracker.Common.Floats.{Floats}
use foosball_tracker.Analysis.{Point, history_count, get_player_bar}

-- `playerBarFrameThreshold` and `barTeams`
abbrev pub bar_frame_threshold : ℕ
bar_frame_threshold = 6

abbrev pub bar_teams : List ℕ
bar_teams = 0 ∷ 1 ∷ 1 ∷ 2 ∷ 1 ∷ 2 ∷ 1 ∷ 2 ∷ 2 ∷ []

-- The locals of the loop.
pub record Scan : Type 0 where
  pub cur_idx : ℕ
  pub player : ℤ
  pub hits : ℕ

abbrev pub previous : ℕ → ℕ
previous i = if i == 0 then history_count - 1 else i - 1

-- One round of the loop for a bar: nothing for a bar of the team that let the goal in, else a hit
-- more for the same bar, or the first hit of another one.
unfoldable pub count_hit : ℕ → ℤ → ℕ → Scan → Scan
count_hit team p owner s =
    if owner == team
    then s
    else if eqb_ℤ p s.player
    then record s { hits = s.hits + 1 }
    else record s { player = p; hits = 1 }

module _ {F D : Type 0} (o : Floats F D) (balls : List (Point F)) (team : ℕ) where
  -- The loop with `rounds` left. It breaks when one more hit of the same bar makes the hits that are
  -- wanted. A read out of bounds is a fault.
  unfoldable pub look_back : ℕ → Scan → Option Scan
  look_back zero s = some s
  look_back (suc rounds) s =
      let i = previous s.cur_idx in
      get_elem? balls i >>= λ ball.
      let p = get_player_bar o ball in
      get_at? bar_teams p >>= λ owner.
      let s1 = count_hit team p owner (record s { cur_idx = i }) in
      let rest = look_back rounds s1 in
      if not (owner == team) && eqb_ℤ p s.player && (s1.hits == bar_frame_threshold)
      then some s1
      else rest

  -- `getPlayerWhoScored`
  unfoldable pub get_player_who_scored : ℕ → F → Option ℤ
  unfolding look_back
  get_player_who_scored ball_cur stable_fps =
      let wanted = o.to_int (o.single.mul (o.single.lit 25 1) stable_fps) in
      let max_i = if ltb_ℤ (pos history_count) wanted then history_count else pos_part wanted in
      look_back max_i (record { cur_idx = ball_cur; player = pos 0; hits = 0 }) >>= λ s. some (
        if (s.hits == bar_frame_threshold) && ltb_ℤ (pos 0) s.player && not (ltb_ℤ (pos 8) s.player)
        then s.player
        else pos 0)
