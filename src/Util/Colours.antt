-- ===== src/Util/Colours.antt =====
-- src/tracker/util.cpp: `brga_to_rgba`, and the console dump.
use foosball_tracker.Common.{
  ℕ, zero, suc, ◌+◌, ◌*◌, ◌≡◌, ◌≤◌, refl, ap, arith, List, [], ◌∷◌, ◌++◌, some, length, take, drop,
  ◌-◌, ◌>>=◌,
}
use foosball_tracker.Analysis.Pixels.{scan_row}
use foosball_tracker.Util.{brga_to_rgba, Shade, shade, print_shade, dump_lines}
use mathlib.Core.List.{append_assoc, append-nil}

-- A buffer of whole pixels.
abbrev pub pixels : List (ℕ × ℕ × ℕ × ℕ) → List ℕ
pixels [] = []
pixels ((a, b, c, d) ∷ rest) = a ∷ b ∷ c ∷ d ∷ pixels rest

abbrev pub swap_first_third : List (ℕ × ℕ × ℕ × ℕ) → List (ℕ × ℕ × ℕ × ℕ)
swap_first_third [] = []
swap_first_third ((a, b, c, d) ∷ rest) = (c, b, a, d) ∷ swap_first_third rest

once : (ps : List (ℕ × ℕ × ℕ × ℕ)) → brga_to_rgba (pixels ps) ≡ some (pixels (swap_first_third ps))
unfolding brga_to_rgba
once [] = refl
once ((a, b, c, d) ∷ ps) = rw (once ps) refl

swap_first_third_twice : (ps : List (ℕ × ℕ × ℕ × ℕ)) → swap_first_third (swap_first_third ps) ≡ ps
swap_first_third_twice [] = refl
swap_first_third_twice (p ∷ ps) = ap (◌∷◌ p) (swap_first_third_twice ps)

-- On a buffer of whole pixels `brga_to_rgba` exchanges the first and the third byte of each pixel and
-- nothing else, and a second call restores the buffer.
pub brga_to_rgba-pixels :
    (ps : List (ℕ × ℕ × ℕ × ℕ))
    → (brga_to_rgba (pixels ps) ≡ some (pixels (swap_first_third ps)))
      × ((brga_to_rgba (pixels ps) >>= λ out. brga_to_rgba out) ≡ some (pixels ps))
brga_to_rgba-pixels ps =
    (once ps, rw (once ps, once (swap_first_third ps), swap_first_third_twice ps) refl)

-- What is printed for a buffer: one line after the other, a character for each byte.
abbrev pub shades : List ℕ → List Shade
shades [] = []
shades (v ∷ vs) = shade v ∷ shades vs

abbrev pub lines_of : (line height : ℕ) → List ℕ → List (List Shade)
lines_of line zero bytes = []
lines_of line (suc height) bytes = shades (take line bytes) ∷ lines_of line height (drop line bytes)

print_row :
    (n y x : ℕ) (bytes : List ℕ) (printed : List Shade)
    → n ≤ length bytes
    → scan_row print_shade y n x bytes printed
      ≡ some (drop n bytes, printed ++ shades (take n bytes))
unfolding scan_row
print_row zero y x bytes printed h = rw (append-nil printed) refl
print_row (suc n) y x [] printed h = absurd (omega arith)
print_row (suc n) y x (v ∷ bytes) printed h =
    rw
      (
        print_row n y (x + 1) bytes (printed ++ (shade v ∷ [])) (omega arith),
        append_assoc printed (shade v ∷ []) (shades (take n bytes)),
      )
      refl

length-drop : (n : ℕ) (bytes : List ℕ) → length (drop n bytes) ≡ length bytes - n
length-drop zero bytes = omega arith
length-drop (suc n) [] = omega arith
length-drop (suc n) (v ∷ bytes) = let rest = length-drop n bytes in omega arith

-- `dump_buffer_to_console` prints each row of `4 * width` bytes of the buffer on a line, one character
-- for each byte, and reads nothing behind a buffer of `width * height * 4` bytes.
pub dump_lines_lem :
    (width height y : ℕ) (bytes : List ℕ)
    → height * (width * 4) ≤ length bytes
    → dump_lines width height y bytes ≡ some (lines_of (width * 4) height bytes)
unfolding dump_lines
dump_lines_lem width zero y bytes h = refl
dump_lines_lem width (suc height) y bytes h =
    let len = length-drop (width * 4) bytes in
    rw
      (
        print_row (width * 4) y 0 bytes [] (grind arith),
        dump_lines_lem width height (y + 1) (drop (width * 4) bytes) (grind arith),
      )
      refl
