-- ===== src/Analysis/Ball/Tests.antt =====
-- src/tracker/analysis.cpp: a buffer with a ball, in fixed-point arithmetic.
use foosball_tracker.Common.{
  ℕ, ◌+◌, ◌*◌, ◌<◌, ◌≤◌, ◌≡◌, refl, sym, ap, subst, some-inj, arith, zero, suc, Bool, true, false,
  ltb, ◌&&◌, List, [], ◌∷◌, replicate, length-replicate, Every, Every-replicate, some,
}
use foosball_tracker.Common.Int.{pos}
use foosball_tracker.Common.Fixed.{fixed}
use foosball_tracker.Analysis.{Point, Analysis, Message, get_player_bar}
use foosball_tracker.Analysis.Update.Layout.{IsValid, BarInRange}
use foosball_tracker.Analysis.Pixels.{scan}
use foosball_tracker.Analysis.Ball.{
  Bounds, Peak, find_peak, weigh, ball_found, process_ball_buffer, field_bounds, outside, far_from,
  find_peak_step, weigh_step, screen_position, field_position, to_screen, low_bound, high_bound,
}
use foosball_tracker.Analysis.Ball.Maximum.{pixel_at, IsPeak, find_peak-IsPeak}
use foosball_tracker.Analysis.Ball.Safety.{
  BallInRange, process_ball_buffer-IsValid, ball_found_average,
}

abbrev pixels : List ℕ
pixels = 0 ∷ 150 ∷ 9 ∷ 30 ∷ 200 ∷ 0 ∷ []

abbrev field : Bounds
field = record { xmin = pos 0; xmax = pos 2; ymin = pos 0; ymax = pos 1 }

abbrev all_below : ℕ → List ℕ → Bool
all_below n [] = true
all_below n (x ∷ xs) = ltb x n && all_below n xs

below-Every : (n : ℕ) (xs : List ℕ) → all_below n xs ≡ true → Every (λ v. v < n) xs
below-Every n [] h i v e = absurd (cc)
below-Every n (x ∷ xs) h zero v e =
    let lt : x < n = ground arith in subst (λ a. a < n) (some-inj e) lt
below-Every n (x ∷ xs) h (suc i) v e = below-Every n xs (ground arith) i v e

pixels-byte : Every (λ v. v < 256) pixels
pixels-byte = below-Every 256 pixels refl

abbrev peak : Peak
peak = record { maxx = 1; maxy = 1; max_value = 200 }

find_peak-IsPeak_example :
    (p : Peak) × (find_peak field 3 2 pixels ≡ some p) × IsPeak field 3 2 pixels 6 p
find_peak-IsPeak_example = find_peak-IsPeak field 3 2 pixels (omega arith)

ball_found_average_example :
    ((1 < 3) × (1 < 2) × (outside field 1 1 ≡ false))
    × (pixel_at 3 pixels 1 1 ≡ some 200)
    × ((y x v : ℕ)
        → x < 3
        → y < 2
        → pixel_at 3 pixels y x ≡ some v
        → outside field y x ≡ false
        → v ≤ 200)
    × (100 < 200)
    × (270 < 389)
    × (368 ≤ 6 * 389)
    × (389 ≤ 368 + 5 * 389)
    × (230 ≤ 6 * 389)
    × (389 ≤ 230 + 5 * 389)
unfolding find_peak find_peak_step outside weigh weigh_step far_from ball_found scan
ball_found_average_example =
    ball_found_average field peak (record { avgx = 368; avgy = 230; weight = 389 }) 3 2 pixels
      pixels-byte (omega arith) refl refl refl

abbrev origin : Point ℕ
origin = record { x = 0; y = 0 }

abbrev start : Analysis ℕ
start = record {
  balls = replicate 256 origin;
  ball_frames = replicate 256 0;
  balls_screen = replicate 256 origin;
  ball_cur = 7;
  ball_missing = 1;
  field = record { xmin = 0; xmax = 1000; ymin = 0; ymax = 1000 };
  frame_number = 100;
  ball_speeds = replicate 300 0;
  ball_speed_index = 0;
  frames_since_update = 0;
  send_save = 0;
  send_fast = 0;
  last_goal = 10;
}

abbrev bar_one : Point ℕ
bar_one = record { x = 0; y = 91 }

bar_one-BarInRange : (p : Point ℕ) → bar_one ≡ p → BarInRange fixed p
unfolding get_player_bar
bar_one-BarInRange p e = subst (BarInRange fixed) e (1, omega arith, refl)

start-IsValid : IsValid fixed start
unfolding get_player_bar
start-IsValid = record {
  screen_len = length-replicate 256 origin;
  balls_len = length-replicate 256 origin;
  frames_len = length-replicate {A = ℕ} 256 0;
  speeds_len = length-replicate {A = ℕ} 300 0;
  cur_in = omega arith;
  speed_in = omega arith;
  frames_past = Every-replicate (λ b. b ≤ 100) 256 0 (omega arith);
  bars_in = Every-replicate (BarInRange fixed) 256 origin (1, omega arith, refl);
}

start-BallInRange : BallInRange fixed 40_000 start pixels 3 2
unfolding find_peak find_peak_step weigh weigh_step far_from outside field_bounds low_bound
    high_bound scan screen_position field_position to_screen
start-BallInRange p w ep ew found =
    let at : peak ≡ p = some-inj ep in
    let weights : record { avgx = 368; avgy = 230; weight = 389 } ≡ w =
      some-inj (subst (λ q. weigh q 3 2 pixels ≡ some w) (sym at) ew) in
    bar_one-BarInRange _
      (ap (λ v. field_position fixed start.field (screen_position fixed v 3 2)) weights)

process_ball_buffer-IsValid_example :
    (r : Analysis ℕ × List (Message ℕ)) × (process_ball_buffer fixed 40_000 start pixels 3 2
      ≡ some r)
    × IsValid fixed r.0
process_ball_buffer-IsValid_example =
    process_ball_buffer-IsValid fixed 40_000 start 3 2 pixels (omega arith) pixels-byte
      (omega arith) start-BallInRange start-IsValid
