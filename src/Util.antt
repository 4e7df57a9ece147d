-- ===== src/Util.antt =====
-- src/tracker/util.cpp: textures in shared memory, the order of colour bytes, the dump to the console.
pub mod PowerOfTwo
pub mod Colours
pub mod Shaders
mod Tests
use foosball_tracker.Common.{
  ℕ, zero, suc, ◌+◌, ◌*◌, ◌==◌, ltb, leb, if◌then◌else◌, Bool, true, false, ◌&&◌, List, [], ◌∷◌,
  ◌++◌, Option, none, some, ◌>>=◌,
}
use foosball_tracker.Analysis.Pixels.{scan_row}

-- `potWidth` and `potHeight`
pub record PotSize : Type 0 where
  pub pot_width : ℕ
  pub pot_height : ℕ

-- The body of the loop over `pot`, for one of the two.
abbrev pub first_fit : (pot size found : ℕ) → ℕ
first_fit pot size found = if leb size pot && (found == 0) then pot else found

unfoldable pub fit_step : (w h pot : ℕ) → PotSize → PotSize
fit_step w h pot p = record {
  pot_width = first_fit pot w p.pot_width;
  pot_height = first_fit pot h p.pot_height;
}

-- `for (pot = 64; pot <= 2048; pot *= 2)`, six rounds.
unfoldable pub fit_from : (rounds w h pot : ℕ) → PotSize → PotSize
unfolding fit_step
fit_from zero w h pot p = p
fit_from (suc rounds) w h pot p = fit_from rounds w h (pot * 2) (fit_step w h pot p)

-- The sizes that `SharedMemTexture` asks for. They are 0 where nothing fits.
unfoldable pub pot_size : (w h : ℕ) → PotSize
unfolding fit_from
pot_size w h = fit_from 6 w h 64 (record { pot_width = 0; pot_height = 0 })

-- `brga_to_rgba`: the first and the third byte of each pixel change places. Behind the last whole
-- pixel three bytes are treated like a pixel, and one or two are a fault: the code reads and writes
-- past the end of the buffer.
unfoldable pub brga_to_rgba : List ℕ → Option (List ℕ)
brga_to_rgba [] = some []
brga_to_rgba (b ∷ []) = none
brga_to_rgba (b ∷ g ∷ []) = none
brga_to_rgba (b ∷ g ∷ r ∷ []) = some (r ∷ g ∷ b ∷ [])
brga_to_rgba (b ∷ g ∷ r ∷ a ∷ rest) = brga_to_rgba rest >>= λ out. some (r ∷ g ∷ b ∷ a ∷ out)

-- The characters that `dump_buffer_to_console` prints.
pub data Shade : Type 0 where
  dot : Shade
  comma : Shade
  small_x : Shade
  capital_x : Shade

abbrev pub shade : ℕ → Shade
shade value =
    if ltb 150 value
    then capital_x
    else if ltb 50 value
    then small_x
    else if ltb 10 value
    then comma
    else dot

abbrev pub print_shade : ℕ → ℕ → ℕ → List Shade → List Shade
print_shade y x value printed = printed ++ (shade value ∷ [])

-- The outer loop of `dump_buffer_to_console`: the lines that it prints, from a buffer of bytes.
unfoldable pub dump_lines : (width rounds y : ℕ) → List ℕ → Option (List (List Shade))
unfolding scan_row
dump_lines width zero y ptr = some []
dump_lines width (suc rounds) y ptr = scan_row print_shade y (width * 4) 0 ptr [] >>= λ r.
    dump_lines width rounds (y + 1) r.0 >>= λ lines. some (r.1 ∷ lines)
