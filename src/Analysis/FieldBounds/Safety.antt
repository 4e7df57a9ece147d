-- ===== src/Analysis/FieldBounds/Safety.antt =====
-- src/tracker/analysis.cpp: `analysis_process_field_buffer` as a whole.
use foosball_tracker.Common.{
  ℕ, ◌*◌, if◌then◌else◌, get_elem?, ◌<◌, ◌≤◌, ◌≡◌, refl, List, some, length, Every,
}
use foosball_tracker.Common.Int.{ℤ, pos, ◌+ℤ◌, ◌-ℤ◌}
use foosball_tracker.Common.Floats.{Floats}
use foosball_tracker.Analysis.{Analysis}
use foosball_tracker.Analysis.FieldBounds.{Sums, Ends, to_field, smooth, process_field_buffer}
use foosball_tracker.Analysis.FieldBounds.Entries.{counted_in, in_row, in_column}
use foosball_tracker.Analysis.FieldBounds.Totals.{sum, sum_pixels-IsSums}
use foosball_tracker.Analysis.FieldBounds.Extent.{IsExtent, extent-IsExtent}

-- The sum of the pixels above 20 of one column, and of one row.
abbrev pub column_sum : (width height : ℕ) → List ℕ → (x : ℕ) → ℕ
column_sum width height pixels x = counted_in (in_column width x) pixels (height * width)

abbrev pub row_sum : (width height : ℕ) → List ℕ → (y : ℕ) → ℕ
row_sum width height pixels y = counted_in (in_row width y) pixels (height * width)

module _ {F D : Type 0} (o : Floats F D) where
  open o use {single, double, widen, narrow}

  -- Four fifths of the old value and one fifth of the new one.
  abbrev pub moved : F → F → F
  moved old new = narrow (
      double.add (widen (single.mul (single.lit 80 2) old))
        (double.mul (double.lit 20 2) (widen new)))

  -- The pixel's corner `i` of `size` on the screen, which goes from -1 to 1.
  abbrev pub corner : ℤ → ℕ → F
  corner i size =
      single.sub
        (single.div (single.mul (single.lit 20 1) (single.of_int i)) (single.of_int (pos size)))
        (single.lit 10 1)

  -- `a` away from `b`: 1.0715 times `a` less 0.0715 times `b`.
  abbrev pub spread : (lo hi : F) → F
  spread lo hi =
      single.add
        (single.mul (single.mul (single.lit 5 1) (single.sub (single.lit 0 1) (single.lit 143 3)))
          hi)
        (single.mul (single.mul (single.lit 5 1) (single.lit 2143 3)) lo)

  abbrev pub spread_up : (lo hi : F) → F
  spread_up lo hi =
      single.add (single.mul (single.mul (single.lit 5 1) (single.lit 2143 3)) hi) (
        single.mul (single.mul (single.lit 5 1) (single.sub (single.lit 0 1) (single.lit 143 3)))
          lo)

  -- The screen coordinates of the ends of the field, cut off at the border of the screen.
  abbrev pub low_end : Ends → (size : ℕ) → F
  low_end e size =
      let border = single.sub (single.lit 0 1) (single.lit 10 1) in
      let a =
        spread (corner (pos e.first -ℤ pos 1) size) (corner (pos e.last +ℤ pos 1 +ℤ pos 1) size) in
      if single.lt a border then border else a

  abbrev pub high_end : Ends → (size : ℕ) → F
  high_end e size =
      let border = single.lit 10 1 in
      let b =
        spread_up (corner (pos e.first -ℤ pos 1) size)
          (corner (pos e.last +ℤ pos 1 +ℤ pos 1) size) in
      if single.lt border b then border else b

  -- What a call leaves: the field moved towards the ends of the rows and columns of the buffer.
  pub record IsField (s : Analysis F) (width height : ℕ) (pixels : List ℕ) (r : Analysis F)
      : Type 0 where
    pub sums : Sums
    pub column_at :
        (x : ℕ) → x < width → get_elem? sums.y_sums x ≡ some (column_sum width height pixels x)
    pub row_at :
        (y : ℕ) → y < height → get_elem? sums.x_sums y ≡ some (row_sum width height pixels y)
    pub column_total : sum sums.y_sums ≡ sums.total_value
    pub row_total : sum sums.x_sums ≡ sums.total_value
    pub column_count : length sums.y_sums ≡ width
    pub row_count : length sums.x_sums ≡ height
    pub columns : Ends
    pub rows : Ends
    pub columns_right : IsExtent sums.total_value width sums.y_sums columns
    pub rows_right : IsExtent sums.total_value height sums.x_sums rows
    pub result : r ≡ record s {
      field = record {
        xmin = moved s.field.xmin (low_end columns width);
        xmax = moved s.field.xmax (high_end columns width);
        ymin = moved s.field.ymin (low_end rows height);
        ymax = moved s.field.ymax (high_end rows height);
      };
    }

  -- For a buffer of bytes of the stated size, with at least one row and one column,
  -- `analysis_process_field_buffer` returns: no access is out of bounds and neither mean divides
  -- by zero. It changes only the field. With the sum of the pixels above 20 of each row and
  -- column, every row or column before the first or behind the last end is at most half the mean,
  -- rounded down, and the ends are above it if any pixel is above 20. Each side of the field
  -- becomes four fifths of what it was and one fifth of its end, which is mapped to the screen,
  -- spread by the factor 1.143 and cut off at the border.
  pub process_field_buffer-IsField :
      (s : Analysis F) (width height : ℕ) (pixels : List ℕ)
      → 0 < width
      → 0 < height
      → height * width ≤ length pixels
      → Every (λ v. v < 256) pixels
      → (r : Analysis F) × (process_field_buffer o s pixels width height ≡ some r)
        × IsField s width height pixels r
  unfolding process_field_buffer to_field smooth ◌+ℤ◌ ◌-ℤ◌
  process_field_buffer-IsField s width height pixels hw hh hl bytes =
      let (sums, es, t) = sum_pixels-IsSums width height pixels hl bytes in
      let (xs, ex, hx) =
        extent-IsExtent sums.total_value width sums.y_sums t.columns t.column_sum hw in
      let (ys, ey, hy) = extent-IsExtent sums.total_value height sums.x_sums t.rows t.row_sum hh in
      (
        _,
        rw (es, ex, ey) refl,
        record {
          sums = sums;
          column_at = t.column_at;
          row_at = t.row_at;
          column_total = t.column_sum;
          row_total = t.row_sum;
          column_count = t.columns;
          row_count = t.rows;
          columns = xs;
          rows = ys;
          columns_right = hx;
          rows_right = hy;
          result = refl;
        },
      )
