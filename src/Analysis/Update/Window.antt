-- ===== src/Analysis/Update/Window.antt =====
-- src/tracker/analysis.cpp: the window of the maximum speed in `analysis_update` at a high frame rate.
use foosball_tracker.Common.{
  ℕ, zero, suc, ◌+◌, ◌-◌, ◌≤◌, ◌<◌, ◌≡◌, refl, ap, ◌∙◌, arith, true, false, leb, lt→ltb, List, [],
  ◌∷◌, none, some, ◌>>=◌,
}
use foosball_tracker.Common.Int.{pos, negsuc, sub_ℕ, ◌+ℤ◌, ◌-ℤ◌, ltb_ℤ}
use foosball_tracker.Common.Floats.{Floats}
use foosball_tracker.Analysis.{Analysis, max_speed, zero_float}
use foosball_tracker.Analysis.Update.{frames, max_from, report_speed}

leb-false : (a b : ℕ) → b < a → leb a b ≡ false
leb-false a b h = ground arith

sub-negative : (a b : ℕ) → a < b → sub_ℕ a b ≡ negsuc (b - a - 1)
sub-negative a b h = rw (leb-false b a h) refl

start_below : (a b : ℕ) → a < b → pos a -ℤ pos b ≡ negsuc (b - a - 1)
unfolding ◌-ℤ◌
start_below a b h =
    sub-negative (a + 0) (0 + b) (omega arith)
    ∙ ap negsuc {x = 0 + b - (a + 0) - 1} {y = b - a - 1} (omega arith)

module _ {F D : Type 0} (o : Floats F D) where
  -- A window that begins more than 300 places before the first is read out of bounds.
  max_from_below :
      (speeds : List F) (rounds k : ℕ) (best : F)
      → 300 ≤ k
      → max_from o speeds (suc rounds) (negsuc k) best ≡ none
  unfolding max_from ◌+ℤ◌
  max_from_below speeds rounds k best h =
      rw (lt→ltb 0 (0 + suc k) (omega arith), sub-negative (0 + 300) (suc k + 0) (omega arith)) refl

  window_below :
      (speeds : List F) (n index : ℕ) (best : F)
      → 300 + index < suc n
      → max_from o speeds (suc n) (pos index -ℤ pos (suc n)) best ≡ none
  window_below speeds n index best h =
      ap (λ i. max_from o speeds (suc n) i best) (start_below index (suc n) (omega arith))
      ∙ max_from_below speeds n (suc n - index - 1) best (omega arith)

  module _ (fps : F) where
    -- Where five seconds are more frames than 300 and the index of the ring of speeds together, a report
    -- of the maximum speed that is due reads before the start of the ring.
    pub report_speed_below :
        (s : Analysis F) (n : ℕ)
        → 100 < s.frame_number
        → ltb_ℤ (frames o fps 5 1) (pos s.frames_since_update) ≡ true
        → frames o fps 50 1 ≡ pos n
        → 300 + s.ball_speed_index < n
        → report_speed o fps s ≡ none
    unfolding report_speed
    report_speed_below s zero late due count many = absurd (omega arith)
    report_speed_below s (suc n) late due count many =
        rw (lt→ltb 100 s.frame_number late, due, count)
          (ap (λ best. best >>= λ v. some (record s { frames_since_update = 0 }, max_speed v ∷ []))
            (window_below s.ball_speeds n s.ball_speed_index (zero_float o) many))
