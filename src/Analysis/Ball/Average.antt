-- ===== src/Analysis/Ball/Average.antt =====
-- src/tracker/analysis.cpp: the second loop of `analysis_process_ball_buffer` weighs the pixels around
-- the brightest one.
use foosball_tracker.Common.{
  ℕ, ◌+◌, ◌*◌, ◌<◌, ◌≤◌, ◌≡◌, sym, some-inj, ◌∙◌, arith, true, false, Bool-cases, inl, inr, List,
  some, length, Every, Returns-some,
}
use mathlib.Core.Path.{ap₂}
use native.Mathlib.Nat.{le_refl, mul-le-mul}
use foosball_tracker.Analysis.Pixels.Rule.{scan-Returns}
use foosball_tracker.Analysis.Ball.{Peak, Weight, far_from, weigh_step, weigh}
use foosball_tracker.Analysis.Ball.Maximum.{pixel_at, before_or_here}

-- Near the maximum a pixel's place is within 5 of it.
near_of_test :
    (p : Peak) (y x : ℕ)
    → far_from p y x ≡ false
    → (p.maxy ≤ y + 5) × (y ≤ p.maxy + 5) × (p.maxx ≤ x + 5) × (x ≤ p.maxx + 5)
unfolding far_from
near_of_test p y x h = ground arith

peak-ne-far : (p : Peak) (y x : ℕ) → far_from p y x ≡ true → (p.maxy ≡ y) → (p.maxx ≡ x) → ⊥
unfolding far_from
peak-ne-far p y x h ey ex = ground arith

near_above : (m x v s a : ℕ) → x ≤ m → a ≤ m * s → a + x * v ≤ m * (s + v)
near_above m x v s a h k = let le : x * v ≤ m * v = mul-le-mul h (le_refl v) in omega arith

near_below : (m x v s a : ℕ) → m ≤ x + 5 → m * s ≤ a + 5 * s → m * (s + v) ≤ a + x * v + 5 * (s + v)
near_below m x v s a h k = let le : m * v ≤ (x + 5) * v = mul-le-mul h (le_refl v) in omega arith

module _ (p : Peak) (width height : ℕ) (pixels : List ℕ) (bytes : Every (λ v. v < 256) pixels) where
  -- What holds of the sums after the first `n` pixels.
  pub record IsAverage (n : ℕ) (w : Weight) : Type 0 where
    pub weight_le : w.weight ≤ 255 * n
    pub inside_x : w.avgx ≤ width * w.weight
    pub inside_y : w.avgy ≤ height * w.weight
    pub near_x : (w.avgx ≤ (p.maxx + 5) * w.weight) × (p.maxx * w.weight ≤ w.avgx + 5 * w.weight)
    pub near_y : (w.avgy ≤ (p.maxy + 5) * w.weight) × (p.maxy * w.weight ≤ w.avgy + 5 * w.weight)
    pub peak_in :
        p.maxx < width
        → p.maxy * width + p.maxx < n
        → pixel_at width pixels p.maxy p.maxx ≡ some p.max_value
        → p.max_value ≤ w.weight

  weigh_step-IsAverage :
      (y x v : ℕ) (w : Weight)
      → y < height
      → x < width
      → pixel_at width pixels y x ≡ some v
      → IsAverage (y * width + x) w
      → IsAverage (y * width + x + 1) (weigh_step p y x v w)
  unfolding weigh_step
  weigh_step-IsAverage y x v w hy hx at h = elim (Bool-cases (far_from p y x)) [
    | inl far ↦ rw far (record {
      weight_le = omega (arith, h.weight_le);
      inside_x = h.inside_x;
      inside_y = h.inside_y;
      near_x = h.near_x;
      near_y = h.near_y;
      peak_in = λ a l e. elim (before_or_here width y x p.maxy p.maxx hx a l) [
        | inl q ↦ h.peak_in a q e
        | inr q ↦ absurd (peak-ne-far p y x far q.0 q.1)
      ];
    })
    | inr near ↦
        let (a, c, d, e) = near_of_test p y x near in
        rw near (record {
          weight_le = omega (arith, h.weight_le, bytes (y * width + x) v at);
          inside_x = near_above width x v w.weight w.avgx (omega arith) h.inside_x;
          inside_y = near_above height y v w.weight w.avgy (omega arith) h.inside_y;
          near_x = (
            near_above (p.maxx + 5) x v w.weight w.avgx e h.near_x.0,
            near_below p.maxx x v w.weight w.avgx d h.near_x.1,
          );
          near_y = (
            near_above (p.maxy + 5) y v w.weight w.avgy c h.near_y.0,
            near_below p.maxy y v w.weight w.avgy a h.near_y.1,
          );
          peak_in = λ a l e. elim (before_or_here width y x p.maxy p.maxx hx a l) [
            | inl q ↦ omega (arith, h.peak_in a q e)
            | inr q ↦ omega (arith, some-inj (sym e ∙ ap₂ (pixel_at width pixels) q.0 q.1 ∙ at))
          ];
        })
  ]

  -- In a buffer of at least `height * width` bytes the second loop returns. Each sum is bounded by the
  -- weight, the weight by 255 for each pixel, and the average lies within 5 columns and 5 rows of the
  -- brightest pixel, which is itself weighed.
  pub weigh-IsAverage :
      height * width ≤ length pixels
      → (w : Weight) × (weigh p width height pixels ≡ some w) × IsAverage (height * width) w
  unfolding weigh
  weigh-IsAverage h = Returns-some (
      scan-Returns (weigh_step p) width height pixels IsAverage weigh_step-IsAverage
        (record { avgx = 0; avgy = 0; weight = 0 }) h
        (record {
          weight_le = omega arith;
          inside_x = omega arith;
          inside_y = omega arith;
          near_x = (omega arith, omega arith);
          near_y = (omega arith, omega arith);
          peak_in = λ _ l. absurd (omega arith);
        }))
