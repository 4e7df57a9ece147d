-- ===== src/Util/PowerOfTwo.antt =====
-- src/tracker/util.cpp: the sizes of `SharedMemTexture`.
use foosball_tracker.Common.{ℕ, ◌*◌, ◌^◌, ◌≡◌, ◌≤◌, ◌<◌, refl, arith, inl, inr, ◌⊎◌}
use native.Mathlib.Decide.{dec_le}
use foosball_tracker.Util.{first_fit, fit_step, fit_from, pot_size}

-- The smallest power of two from 64 to 2048 that is at least the size, or 0 where there is none.
abbrev pub IsPot : (size pot : ℕ) → Type 0
IsPot size pot =
    (size ≤ 2048
      → (k : ℕ) × (k ≤ 5) × (pot ≡ 64 * 2 ^ k) × (size ≤ pot) × ((k ≡ 0) ⊎ (pot < 2 * size)))
    × (2048 < size → pot ≡ 0)

-- The six rounds of the loop for one size.
abbrev rounds : ℕ → ℕ
rounds size = first_fit 2048 size (
    first_fit 1024 size
      (first_fit 512 size (first_fit 256 size (first_fit 128 size (first_fit 64 size 0)))))

found-IsPot :
    (size k : ℕ)
    → k ≤ 5
    → rounds size ≡ 64 * 2 ^ k
    → size ≤ 64 * 2 ^ k
    → size ≤ 2048
    → (k ≡ 0) ⊎ (64 * 2 ^ k < 2 * size)
    → IsPot size (rounds size)
found-IsPot size k small e fits in_range least = (
  (λ _. (k, small, e, rw e fits, elim least [ inl z ↦ inl z | inr h ↦ inr (rw e h) ])),
  λ h. absurd (omega arith),
)

miss : (pot size : ℕ) → pot < size → first_fit pot size 0 ≡ 0
miss pot size h = ground arith

hit : (pot size : ℕ) → size ≤ pot → first_fit pot size 0 ≡ pot
hit pot size h = ground arith

keep : (pot size found : ℕ) → 0 < found → first_fit pot size found ≡ found
keep pot size found h = ground arith

rounds-IsPot : (size : ℕ) → IsPot size (rounds size)
rounds-IsPot size = elim (dec_le size 64) [
  | yes fits ↦
      found-IsPot size 0 (omega arith)
        (rw
          (
            hit 64 size (omega arith),
            keep 128 size 64 (omega arith),
            keep 256 size 64 (omega arith),
            keep 512 size 64 (omega arith),
            keep 1024 size 64 (omega arith),
            keep 2048 size 64 (omega arith),
          )
          refl)
        (omega arith) (omega arith) (inl refl)
  | no a ↦ elim (dec_le size 128) [
    | yes fits ↦
        found-IsPot size 1 (omega arith)
          (rw
            (
              miss 64 size (omega arith),
              hit 128 size (omega arith),
              keep 256 size 128 (omega arith),
              keep 512 size 128 (omega arith),
              keep 1024 size 128 (omega arith),
              keep 2048 size 128 (omega arith),
            )
            refl)
          (omega arith) (omega arith) (inr (omega arith))
    | no b ↦ elim (dec_le size 256) [
      | yes fits ↦
          found-IsPot size 2 (omega arith)
            (rw
              (
                miss 64 size (omega arith),
                miss 128 size (omega arith),
                hit 256 size (omega arith),
                keep 512 size 256 (omega arith),
                keep 1024 size 256 (omega arith),
                keep 2048 size 256 (omega arith),
              )
              refl)
            (omega arith) (omega arith) (inr (omega arith))
      | no c ↦ elim (dec_le size 512) [
        | yes fits ↦
            found-IsPot size 3 (omega arith)
              (rw
                (
                  miss 64 size (omega arith),
                  miss 128 size (omega arith),
                  miss 256 size (omega arith),
                  hit 512 size (omega arith),
                  keep 1024 size 512 (omega arith),
                  keep 2048 size 512 (omega arith),
                )
                refl)
              (omega arith) (omega arith) (inr (omega arith))
        | no d ↦ elim (dec_le size 1024) [
          | yes fits ↦
              found-IsPot size 4 (omega arith)
                (rw
                  (
                    miss 64 size (omega arith),
                    miss 128 size (omega arith),
                    miss 256 size (omega arith),
                    miss 512 size (omega arith),
                    hit 1024 size (omega arith),
                    keep 2048 size 1024 (omega arith),
                  )
                  refl)
                (omega arith) (omega arith) (inr (omega arith))
          | no e ↦ elim (dec_le size 2048) [
            | yes fits ↦
                found-IsPot size 5 (omega arith)
                  (rw
                    (
                      miss 64 size (omega arith),
                      miss 128 size (omega arith),
                      miss 256 size (omega arith),
                      miss 512 size (omega arith),
                      miss 1024 size (omega arith),
                      hit 2048 size (omega arith),
                    )
                    refl)
                  (omega arith) (omega arith) (inr (omega arith))
            | no f ↦ (
              (λ h. absurd (omega arith)),
              λ h.
                  rw
                    (
                      miss 64 size (omega arith),
                      miss 128 size (omega arith),
                      miss 256 size (omega arith),
                      miss 512 size (omega arith),
                      miss 1024 size (omega arith),
                      miss 2048 size (omega arith),
                    )
                    refl,
            )
          ]
        ]
      ]
    ]
  ]
]

-- Both sizes of the texture are the smallest powers of two from 64 to 2048 that hold the image, and
-- where the image is larger than 2048 pixels the size is 0.
pub pot_size-IsPot :
    (w h : ℕ) → IsPot w (pot_size w h).pot_width × IsPot h (pot_size w h).pot_height
unfolding pot_size fit_from fit_step
pot_size-IsPot w h = (rounds-IsPot w, rounds-IsPot h)
