-- ===== src/Tga/Tests.antt =====
-- src/tracker/tga.c: a small image.
use foosball_tracker.Common.{ℕ, ◌≡◌, refl, arith, true, false, List, [], ◌∷◌, some}
use foosball_tracker.Tga.{Output, fwrite, write_items, header_items, header_of, write_tga, load_tga}
use foosball_tracker.Tga.RoundTrip.{
  IsAll, IsCut, image_bytes, write_tga-IsWritten, load_tga-write_tga,
}

abbrev pixels : List ℕ
pixels = 1 ∷ 2 ∷ 3 ∷ 4 ∷ 5 ∷ 6 ∷ 7 ∷ 8 ∷ []

abbrev stream : Output
stream = record { contents = 9 ∷ []; calls = 0 }

-- A stream that accepts three bytes at a time, which are not enough for the pixels.
abbrev narrow : ℕ → ℕ
narrow k = 3

write_tga-IsWritten_example :
    ((write_tga narrow stream 2 1 pixels).0 ≡ true
      → IsAll stream (image_bytes 2 1 pixels) (write_tga narrow stream 2 1 pixels).1)
    × ((write_tga narrow stream 2 1 pixels).0 ≡ false
        → IsCut stream (image_bytes 2 1 pixels) (write_tga narrow stream 2 1 pixels).1)
write_tga-IsWritten_example = write_tga-IsWritten narrow stream 2 1 pixels

narrow_fails : (write_tga narrow stream 2 1 pixels).0 ≡ false
unfolding write_tga write_items fwrite header_items header_of
narrow_fails = refl

wide_succeeds : (write_tga (λ k. 100) (record { contents = []; calls = 0 }) 2 1 pixels).0 ≡ true
unfolding write_tga write_items fwrite header_items header_of
wide_succeeds = refl

load_tga-write_tga_example :
    load_tga
      (some (write_tga (λ k. 100) (record { contents = []; calls = 0 }) 2 1 pixels).1.contents)
      true
    ≡ some pixels
load_tga-write_tga_example =
    load_tga-write_tga (λ k. 100) 2 1 pixels (omega arith) (omega arith) (omega arith) refl
      wide_succeeds
