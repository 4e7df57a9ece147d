-- ===== src/Analysis/FieldBounds/Entries.antt =====
-- src/tracker/analysis.cpp: what a row or a column of a buffer adds up to in
-- `analysis_process_field_buffer`, described pixel by pixel.
use foosball_tracker.Common.{
  ℕ, zero, suc, ◌+◌, ◌*◌, ◌/◌, ◌%◌, ◌==◌, ==_iff, ◌<◌, ◌≡◌, ◌≢◌, refl, sym, ap, ◌∙◌, some-inj,
  arith, ltb, if◌then◌else◌, Bool, true, false, Bool-cases, inl, inr, List, Option, none, some,
  get_elem?, set, get_elem?-set_self, get_elem?-set_ne, length,
}
use native.Mathlib.Numerals.{add-one}
use native.Mathlib.Nat.{mul-add-div_right, mul-add-mod_self_right, div-eq_of_lt, mod-eq_of_lt}

-- A pixel counts if it is above 20.
abbrev pub counted : Option ℕ → ℕ
counted none = 0
counted (some v) = if ltb 20 v then v else 0

-- The pixels that count among the first `n` that are in the set.
abbrev pub counted_in : (ℕ → Bool) → List ℕ → (n : ℕ) → ℕ
counted_in among pixels zero = 0
counted_in among pixels (suc n) =
    counted_in among pixels n + (if among n then counted (get_elem? pixels n) else 0)

-- The indices of a column and of a row.
abbrev pub in_column : (width x i : ℕ) → Bool
in_column width x i = x == i % width

abbrev pub in_row : (width y i : ℕ) → Bool
in_row width y i = y == i / width

pub in_column-at : (width y x j : ℕ) → x < width → in_column width j (y * width + x) ≡ (j == x)
in_column-at width y x j h = ap (λ k. j == k) (mul-add-mod_self_right y width x ∙ mod-eq_of_lt h)

pub in_row-at : (width y x j : ℕ) → x < width → in_row width j (y * width + x) ≡ (j == y)
in_row-at width y x j h =
    let none_more : x / width ≡ 0 = div-eq_of_lt h in
    ap (λ k. j == k) (mul-add-div_right (omega arith) y x ∙ omega arith)

counted_in-next :
    (among : ℕ → Bool) (pixels : List ℕ) (n v : ℕ)
    → get_elem? pixels n ≡ some v
    → counted_in among pixels (n + 1)
      ≡ counted_in among pixels n + (if among n then counted (some v) else 0)
counted_in-next among pixels n v at = rw (add-one, at) refl

-- Noise adds nothing.
pub counted_in-noise :
    (among : ℕ → Bool) (pixels : List ℕ) (n v : ℕ)
    → get_elem? pixels n ≡ some v
    → ltb 20 v ≡ false
    → counted_in among pixels (n + 1) ≡ counted_in among pixels n
counted_in-noise among pixels n v at noise =
    counted_in-next among pixels n v at ∙ rw noise (ground arith)

-- Adding the pixel to its own sum is right for every sum.
pub set-counted_in :
    (among : ℕ → Bool) (pixels xs : List ℕ) (n v i j a : ℕ)
    → get_elem? pixels n ≡ some v
    → ltb 20 v ≡ true
    → among n ≡ (j == i)
    → i < length xs
    → get_elem? xs i ≡ some a
    → get_elem? xs j ≡ some (counted_in among pixels n)
    → get_elem? (set xs i (a + v)) j ≡ some (counted_in among pixels (n + 1))
set-counted_in among pixels xs n v i j a at counts here hi old_i old_j =
    elim (Bool-cases (j == i)) [
      | inl same ↦
          let e : j ≡ i = (==_iff j i).0 same in
          let value : counted_in among pixels n ≡ a =
            some-inj (sym old_j ∙ ap (get_elem? xs) e ∙ old_i) in
          ap (get_elem? (set xs i (a + v))) e
          ∙ get_elem?-set_self xs i (a + v) hi
          ∙ ap some (
              ap (λ k. k + v) (sym value)
              ∙ sym (counted_in-next among pixels n v at ∙ rw (here, same, counts) refl))
      | inr other ↦
          let e : i ≢ j = λ q. ground arith in
          get_elem?-set_ne xs i j (a + v) e
          ∙ old_j
          ∙ ap some (sym (counted_in-next among pixels n v at ∙ rw (here, other) (omega arith)))
    ]
