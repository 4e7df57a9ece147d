-- ===== src/Analysis/Pixels/Rule.antt =====
-- The rule for a loop over a pixel buffer: an invariant over the number of pixels passed.
use foosball_tracker.Common.{
  ℕ, zero, suc, ◌+◌, ◌*◌, ◌<◌, ◌≤◌, ◌≡◌, ◌≢◌, sym, subst, ◌∙◌, ap, arith, List, [], ◌∷◌, some,
  length, get_elem?, drop, Returns, value, Returns-bind,
}
use native.Mathlib.Nat.{add-zero, zero-mul}
use foosball_tracker.Analysis.Pixels.{scan_row, scan_rows, scan}

drop-cons {ℓ} :
    {A : Type ℓ} (n : ℕ) (xs ys : List A) (a : A)
    → drop n xs ≡ a ∷ ys
    → (get_elem? xs n ≡ some a) × (drop (suc n) xs ≡ ys)
drop-cons zero [] ys a e = absurd (cc)
drop-cons (suc n) [] ys a e = absurd (cc)
drop-cons zero (x ∷ xs) ys a e = (cc, cc)
drop-cons (suc n) (x ∷ xs) ys a e = drop-cons n xs ys a e

drop-ne-nil {ℓ} : {A : Type ℓ} (n : ℕ) (xs : List A) → n < length xs → drop n xs ≢ []
drop-ne-nil n [] h = elim h [ ]
drop-ne-nil zero (x ∷ xs) h = λ e. cc
drop-ne-nil (suc n) (x ∷ xs) h = drop-ne-nil n xs (omega arith)

module _ {S : Type 0} (step : ℕ → ℕ → ℕ → S → S) (width height : ℕ) (pixels : List ℕ)
    (P : ℕ → S → Type 0)
    (keep : (y x v : ℕ) (s : S)
      → y < height
      → x < width
      → get_elem? pixels (y * width + x) ≡ some v
      → P (y * width + x) s
      → P (y * width + x + 1) (step y x v s)) where
  scan_row-Returns :
      (y rounds x : ℕ) (ptr : List ℕ) (s : S)
      → y < height
      → x + rounds ≡ width
      → height * width ≤ length pixels
      → ptr ≡ drop (y * width + x) pixels
      → P (y * width + x) s
      → Returns
          (λ r. (r.0 ≡ drop (y * width + width) pixels) × P (y * width + width) r.1)
          (scan_row step y rounds x ptr s)
  unfolding scan_row
  scan_row-Returns y zero x ptr s hy hx hl e p =
      let end : y * width + x ≡ y * width + width = omega arith in
      value (ptr, s) (e ∙ ap (λ n. drop n pixels) end, subst (λ n. P n s) end p)
  scan_row-Returns y (suc rounds) x [] s hy hx hl e p =
      absurd (drop-ne-nil (y * width + x) pixels (grind arith) (sym e))
  scan_row-Returns y (suc rounds) x (v ∷ ptr) s hy hx hl e p =
      let (at, rest) = drop-cons (y * width + x) pixels ptr v (sym e) in
      scan_row-Returns y rounds (x + 1) ptr (step y x v s) hy (omega arith) hl
        (sym rest
          ∙ ap (λ n. drop n pixels) {x = suc (y * width + x)} {y = y * width + (x + 1)}
              (omega arith))
        (subst (λ n. P n (step y x v s)) (omega arith) (keep y x v s hy (omega arith) at p))

  scan_rows-Returns :
      (rounds y : ℕ) (ptr : List ℕ) (s : S)
      → y + rounds ≡ height
      → height * width ≤ length pixels
      → ptr ≡ drop (y * width) pixels
      → P (y * width) s
      → Returns (P (height * width)) (scan_rows step width rounds y ptr s)
  unfolding scan_rows
  scan_rows-Returns zero y ptr s hy hl e p = value s (subst (λ n. P (n * width) s) (omega arith) p)
  scan_rows-Returns (suc rounds) y ptr s hy hl e p =
      Returns-bind
        (scan_row-Returns y width 0 ptr s (omega arith) (omega arith) hl (rw add-zero e)
          (rw add-zero p))
        λ r h.
          scan_rows-Returns rounds (y + 1) r.0 r.1 (omega arith) hl
            (h.0 ∙ ap (λ n. drop n pixels) (grind arith)) (subst (λ n. P n r.1) (grind arith) h.1)

  -- An invariant that every round keeps holds at the end, and a buffer that is long enough is never
  -- read past its end.
  pub scan-Returns :
      (s : S)
      → height * width ≤ length pixels
      → P 0 s
      → Returns (P (height * width)) (scan step width height pixels s)
  unfolding scan
  scan-Returns s hl p =
      scan_rows-Returns height 0 pixels s (omega arith) hl (rw zero-mul) (rw zero-mul p)
