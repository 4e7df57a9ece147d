-- ===== src/Analysis/FieldBounds/Totals.antt =====
-- src/tracker/analysis.cpp: the sums over rows and columns in `analysis_process_field_buffer`.
use foosball_tracker.Common.{
  ℕ, zero, suc, ◌+◌, ◌*◌, ◌<◌, ◌≤◌, ◌≡◌, refl, sym, ap, ◌==◌, Bool, true, ◌∙◌, some-inj, arith, ltb,
  List, [], ◌∷◌, Option, some, length, get_elem?, set, replicate, length-set, length-replicate,
  Every, Returns, value, Returns-bind, Returns-map, Returns-if, Returns-get_elem?, Returns-set?,
  Returns-some, ◌>>=◌,
}
use foosball_tracker.Analysis.Pixels.Rule.{scan-Returns}
use foosball_tracker.Analysis.FieldBounds.Entries.{
  counted_in, in_row, in_column, in_row-at, in_column-at, counted_in-noise, set-counted_in,
}
use foosball_tracker.Analysis.FieldBounds.{Sums, add_at, sum_step, sum_pixels}

abbrev pub sum : List ℕ → ℕ
sum [] = 0
sum (x ∷ xs) = x + sum xs

sum-set : (xs : List ℕ) (i a v : ℕ) → get_elem? xs i ≡ some a → sum (set xs i (a + v)) ≡ sum xs + v
sum-set [] i a v e = absurd (cc)
sum-set (x ∷ xs) zero a v e = let same : x ≡ a = some-inj e in omega arith
sum-set (x ∷ xs) (suc i) a v e = let rest = sum-set xs i a v e in omega arith

sum-replicate : (n : ℕ) → sum (replicate n 0) ≡ 0
sum-replicate zero = refl
sum-replicate (suc n) = omega (arith, sum-replicate n)

-- The entry has grown by `v`.
abbrev IsAddedAt : List ℕ → ℕ → ℕ → List ℕ → Type 0
IsAddedAt xs i v ys =
    (length ys ≡ length xs)
    × (sum ys ≡ sum xs + v)
    × ((a : ℕ) × (get_elem? xs i ≡ some a) × (ys ≡ set xs i (a + v)))

add_at-Returns :
    (xs : List ℕ) (i v : ℕ) → i < length xs → Returns (IsAddedAt xs i v) (add_at xs i v)
unfolding add_at
add_at-Returns xs i v h = Returns-bind (Returns-get_elem? xs i h) λ a at.
    Returns-map (λ ys. ys ≡ set xs i (a + v)) (IsAddedAt xs i v)
      (λ ys e. (ap length e ∙ length-set xs i (a + v), ap sum e ∙ sum-set xs i a v at, (a, at, e)))
      (Returns-set? xs i (a + v) h)

-- What holds of the sums of the first `n` pixels of a buffer of bytes.
pub record IsSums (width height : ℕ) (pixels : List ℕ) (n : ℕ) (s : Sums) : Type 0 where
  pub rows : length s.x_sums ≡ height
  pub columns : length s.y_sums ≡ width
  pub row_sum : sum s.x_sums ≡ s.total_value
  pub column_sum : sum s.y_sums ≡ s.total_value
  pub row_at :
      (y : ℕ) → y < height → get_elem? s.x_sums y ≡ some (counted_in (in_row width y) pixels n)
  pub column_at :
      (x : ℕ) → x < width → get_elem? s.y_sums x ≡ some (counted_in (in_column width x) pixels n)
  pub total_le : s.total_value ≤ 255 * n

-- Adding to one entry is right for each of the entries.
added :
    (among : ℕ → ℕ → Bool) (pixels xs ys : List ℕ) (n v i j : ℕ)
    → get_elem? pixels n ≡ some v
    → ltb 20 v ≡ true
    → among j n ≡ (j == i)
    → i < length xs
    → IsAddedAt xs i v ys
    → get_elem? xs j ≡ some (counted_in (among j) pixels n)
    → get_elem? ys j ≡ some (counted_in (among j) pixels (n + 1))
added among pixels xs ys n v i j at counts here hi (len, all, (a, old, e)) old_j =
    ap (λ zs. get_elem? zs j) e
    ∙ set-counted_in (among j) pixels xs n v i j a at counts here hi old old_j

sum_step-IsSums :
    (width height : ℕ) (pixels : List ℕ) (y x v : ℕ) (sums : Option Sums)
    → y < height
    → x < width
    → v < 256
    → get_elem? pixels (y * width + x) ≡ some v
    → Returns (IsSums width height pixels (y * width + x)) sums
    → Returns (IsSums width height pixels (y * width + x + 1)) (sum_step y x v sums)
unfolding sum_step
sum_step-IsSums width height pixels y x v _ hy hx byte at (value s h) =
    Returns-if (ltb 20 v)
      (add_at s.x_sums y v >>= λ x_sums. add_at s.y_sums x v >>= λ y_sums.
        some (record { x_sums = x_sums; y_sums = y_sums; total_value = s.total_value + v }))
      (some s)
      (λ counts. Returns-bind (add_at-Returns s.x_sums y v (rw h.rows hy)) λ x_sums ex.
        Returns-bind (add_at-Returns s.y_sums x v (rw h.columns hx)) λ y_sums ey. value _ (record {
          rows = ex.0 ∙ h.rows;
          columns = ey.0 ∙ h.columns;
          row_sum = omega (arith, ex.1, h.row_sum);
          column_sum = omega (arith, ey.1, h.column_sum);
          row_at = λ j hj.
              added (in_row width) pixels s.x_sums x_sums (y * width + x) v y j at counts
                (in_row-at width y x j hx) (rw h.rows hy) ex (h.row_at j hj);
          column_at = λ j hj.
              added (in_column width) pixels s.y_sums y_sums (y * width + x) v x j at counts
                (in_column-at width y x j hx) (rw h.columns hx) ey (h.column_at j hj);
          total_le = omega (arith, h.total_le, byte);
        }))
      (λ noise. value s (record {
        rows = h.rows;
        columns = h.columns;
        row_sum = h.row_sum;
        column_sum = h.column_sum;
        row_at = λ j hj.
            h.row_at j hj
            ∙ ap some (sym (counted_in-noise (in_row width j) pixels (y * width + x) v at noise));
        column_at = λ j hj.
            h.column_at j hj
            ∙ ap some
                (sym (counted_in-noise (in_column width j) pixels (y * width + x) v at noise));
        total_le = omega (arith, h.total_le);
      }))

get_elem?-replicate : (n i : ℕ) → i < n → get_elem? {A = ℕ} (replicate n 0) i ≡ some 0
get_elem?-replicate zero i h = elim h [ ]
get_elem?-replicate (suc n) zero h = refl
get_elem?-replicate (suc n) (suc i) h = get_elem?-replicate n i (omega arith)

-- In a buffer of at least `height * width` bytes the loop reads and writes inside its bounds. For each
-- row and for each column there is the sum of its pixels above 20, the row sums and the column sums both add up to the
-- total, and that is at most 255 for each pixel.
pub sum_pixels-IsSums :
    (width height : ℕ) (pixels : List ℕ)
    → height * width ≤ length pixels
    → Every (λ v. v < 256) pixels
    → (s : Sums) × (sum_pixels width height pixels ≡ some s)
      × IsSums width height pixels (height * width) s
unfolding sum_pixels
sum_pixels-IsSums width height pixels hl bytes = Returns-some (
    Returns-bind
      (scan-Returns sum_step width height pixels (λ n. Returns (IsSums width height pixels n))
        (λ y x v s hy hx at p.
          sum_step-IsSums width height pixels y x v s hy hx (bytes (y * width + x) v at) at p)
        (some (record { x_sums = replicate height 0; y_sums = replicate width 0; total_value = 0 }))
        hl
        (value _ (record {
          rows = length-replicate height 0;
          columns = length-replicate width 0;
          row_sum = sum-replicate height;
          column_sum = sum-replicate width;
          row_at = λ j hj. get_elem?-replicate height j hj;
          column_at = λ j hj. get_elem?-replicate width j hj;
          total_le = omega arith;
        })))
      λ s p. p)
