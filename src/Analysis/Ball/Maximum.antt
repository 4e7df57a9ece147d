-- ===== src/Analysis/Ball/Maximum.antt =====
-- src/tracker/analysis.cpp: the first loop of `analysis_process_ball_buffer` finds the brightest pixel
-- of the field.
use foosball_tracker.Common.{
  ℕ, ◌+◌, ◌*◌, ◌<◌, ◌≤◌, ◌≡◌, ◌⊎◌, inl, inr, sym, ◌∙◌, ap, arith, false, Bool-cases, ltb, ltb→lt,
  ltb→le, some-inj, List, Option, some, length, get_elem?, Returns-some,
}
use mathlib.Core.Path.{ap₂}
use native.Mathlib.Decide.{dec_lt}
use native.Mathlib.Nat.{le_refl}
use foosball_tracker.Analysis.Pixels.Rule.{scan-Returns}
use foosball_tracker.Analysis.Ball.{Bounds, Peak, outside, find_peak_step, find_peak}

-- The pixel at column `x` of row `y`.
abbrev pub pixel_at : (width : ℕ) → List ℕ → (y x : ℕ) → Option ℕ
pixel_at width pixels y x = get_elem? pixels (y * width + x)

index_lt : (w y x y' x' : ℕ) → x < w → y < y' → y * w + x < y' * w + x'
index_lt w y x y' x' h l = let next : (y + 1) * w ≤ y' * w = grind arith in omega arith

-- Two places of rows that are `width` long are the same if their indices are.
pub index_injective :
    (w y x y' x' : ℕ) → x < w → x' < w → y * w + x ≡ y' * w + x' → (y ≡ y') × (x ≡ x')
index_injective w y x y' x' h h' e = elim (dec_lt y y') [
  | yes l ↦ absurd (omega (arith, index_lt w y x y' x' h l))
  | no nl ↦ elim (dec_lt y' y) [
    | yes l ↦ absurd (omega (arith, index_lt w y' x' y x h' l))
    | no nl' ↦
        let same : y ≡ y' = omega arith in
        let rows : y * w ≡ y' * w = ap (λ k. k * w) same in (same, omega arith)
  ]
]

-- A pixel among the first `n + 1`, where `n` is the index of `y` and `x`.
pub before_or_here :
    (w y x y' x' : ℕ)
    → x < w
    → x' < w
    → y' * w + x' < y * w + x + 1
    → (y' * w + x' < y * w + x) ⊎ ((y' ≡ y) × (x' ≡ x))
before_or_here w y x y' x' h h' l = elim (dec_lt (y' * w + x') (y * w + x)) [
  | yes q ↦ inl q
  | no q ↦ inr (index_injective w y' x' y x h' h (omega arith))
]

module _ (b : Bounds) (width height : ℕ) (pixels : List ℕ) where
  -- `p` is the maximum of the field among the first `n` pixels, the first of its value; a value of 0
  -- means that no pixel of the field is brighter than 0.
  pub record IsPeak (n : ℕ) (p : Peak) : Type 0 where
    pub place :
        0 < p.max_value
        → (p.maxx < width)
          × (p.maxy < height)
          × (p.maxy * width + p.maxx < n)
          × (outside b p.maxy p.maxx ≡ false)
          × (pixel_at width pixels p.maxy p.maxx ≡ some p.max_value)
    pub top :
        (y x v : ℕ)
        → x < width
        → y * width + x < n
        → pixel_at width pixels y x ≡ some v
        → outside b y x ≡ false
        → v ≤ p.max_value
    pub first :
        (y x v : ℕ)
        → x < width
        → y * width + x < p.maxy * width + p.maxx
        → pixel_at width pixels y x ≡ some v
        → outside b y x ≡ false
        → v < p.max_value

  same_value :
      (y x v y' x' v' : ℕ)
      → (y' ≡ y) × (x' ≡ x)
      → pixel_at width pixels y x ≡ some v
      → pixel_at width pixels y' x' ≡ some v'
      → v' ≡ v
  same_value y x v y' x' v' q at at' = some-inj (sym at' ∙ ap₂ (pixel_at width pixels) q.0 q.1 ∙ at)

  -- The bound on the first `n + 1` pixels, from that on the first `n` and the one after.
  top_next :
      (y x v m : ℕ)
      → x < width
      → pixel_at width pixels y x ≡ some v
      → (outside b y x ≡ false → v ≤ m)
      → ((y' x' v' : ℕ)
          → x' < width
          → y' * width + x' < y * width + x
          → pixel_at width pixels y' x' ≡ some v'
          → outside b y' x' ≡ false
          → v' ≤ m)
      → (y' x' v' : ℕ) → x' < width
      → y' * width + x' < y * width + x + 1
      → pixel_at width pixels y' x' ≡ some v'
      → outside b y' x' ≡ false
      → v' ≤ m
  top_next y x v m hx at here old y' x' v' hx' l at' out =
      elim (before_or_here width y x y' x' hx hx' l) [
        | inl q ↦ old y' x' v' hx' q at' out
        | inr q ↦
            let value : v' ≡ v = same_value y x v y' x' v' q at at' in
            let inner : outside b y x ≡ false = ap₂ (outside b) (sym q.0) (sym q.1) ∙ out in
            omega (arith, here inner)
      ]

  find_peak_step-IsPeak :
      (y x v : ℕ) (p : Peak)
      → y < height
      → x < width
      → pixel_at width pixels y x ≡ some v
      → IsPeak (y * width + x) p
      → IsPeak (y * width + x + 1) (find_peak_step b y x v p)
  unfolding find_peak_step
  find_peak_step-IsPeak y x v p hy hx at h = elim (Bool-cases (outside b y x)) [
    | inl out ↦ rw out (record {
      place = λ q. let (a, c, l, d, e) = h.place q in (a, c, omega arith, d, e);
      top = top_next y x v p.max_value hx at (λ inner. absurd (cc)) h.top;
      first = h.first;
    })
    | inr inner ↦ rw inner (elim (Bool-cases (ltb p.max_value v)) [
      | inl bright ↦ rw bright (record {
        place = λ q. (hx, hy, omega arith, inner, at);
        top =
            top_next y x v v hx at (λ _. le_refl v)
              λ y' x' v' a l c d. omega (arith, h.top y' x' v' a l c d, ltb→lt _ _ bright);
        first = λ y' x' v' a l c d. omega (arith, h.top y' x' v' a l c d, ltb→lt _ _ bright);
      })
      | inr dim ↦ rw dim (record {
        place = λ q. let (a, c, l, d, e) = h.place q in (a, c, omega arith, d, e);
        top = top_next y x v p.max_value hx at (λ _. ltb→le _ _ dim) h.top;
        first = h.first;
      })
    ])
  ]

  -- In a buffer of at least `height * width` pixels the first loop returns, and what it returns is the
  -- brightest pixel of the field and the first of that brightness, or a value of 0.
  pub find_peak-IsPeak :
      height * width ≤ length pixels
      → (p : Peak) × (find_peak b width height pixels ≡ some p) × IsPeak (height * width) p
  unfolding find_peak
  find_peak-IsPeak h = Returns-some (
      scan-Returns (find_peak_step b) width height pixels IsPeak find_peak_step-IsPeak
        (record { maxx = 0; maxy = 0; max_value = 0 }) h
        (record {
          place = λ q. absurd (omega arith);
          top = λ y x v hx hn. absurd (omega arith);
          first = λ y x v hx hn. absurd (omega arith);
        }))
