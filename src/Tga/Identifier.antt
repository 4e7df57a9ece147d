-- ===== src/Tga/Identifier.antt =====
-- src/tracker/tga.c: `load_tga` of a file with an identifier. It calls `fseek(fp, SEEK_CUR, id_length)`
-- where `fseek(fp, id_length, SEEK_CUR)` skips the identifier.
use foosball_tracker.Common.{
  ℕ, zero, suc, ◌*◌, ◌==◌, ◌%◌, ◌≤◌, ◌<◌, ◌≡◌, refl, arith, true, false, List, [], ◌∷◌, ◌++◌, some,
  length, length-append, take,
}
use foosball_tracker.Tga.{
  Input, header_items, header_of, fread, read_byte, read_short, read_header, fseek, is_supported,
  image_length, read_image, load_tga,
}
use foosball_tracker.Tga.RoundTrip.{concat, short_join, length_wrap, eqb_self}

-- A true colour image with an identifier, which stands between the header and the pixels.
abbrev pub with_identifier : (width height : ℕ) → (identifier pixels : List ℕ) → List ℕ
with_identifier width height identifier pixels =
    concat (header_items (record (header_of width height) { id_length = length identifier }))
    ++ (identifier ++ pixels)

bad_whence : (f : Input) (offset whence : ℕ) → 3 ≤ whence → fseek f offset whence ≡ f
unfolding fseek
bad_whence f offset whence h = ground arith

length-take : (n : ℕ) (xs : List ℕ) → n ≤ length xs → length (take n xs) ≡ n
length-take zero xs h = refl
length-take (suc n) [] h = absurd (omega arith)
length-take (suc n) (x ∷ xs) h = let rest = length-take n xs (omega arith) in omega arith

-- An identifier of 3 to 255 bytes is not skipped: the image that is read begins with the identifier
-- and lacks the last pixels of the file.
pub load_tga_identifier :
    (width height : ℕ) (identifier pixels : List ℕ)
    → width < 65536
    → height < 65536
    → width * height * 4 < 2147483648
    → 3 ≤ length identifier
    → length identifier < 256
    → length pixels ≡ width * height * 4
    → load_tga (some (with_identifier width height identifier pixels)) true
      ≡ some (take (width * height * 4) (identifier ++ pixels))
unfolding load_tga header_items header_of read_header read_byte read_short is_supported read_image
    image_length fread
load_tga_identifier width height identifier pixels hw hh fits long short len =
    let all : length (take (width * height * 4) (identifier ++ pixels)) ≡ width * height * 4 =
      length-take (width * height * 4) (identifier ++ pixels)
        (let both = length-append identifier pixels in omega arith) in
    let small : length identifier % 256 ≡ length identifier = omega arith in
    let some_id : (length identifier == 0) ≡ false = ground arith in
    rw
      (
        short_join width hw,
        short_join height hh,
        small,
        some_id,
        bad_whence _ 1 (length identifier) long,
        length_wrap (width * height * 4) fits,
        all,
        eqb_self (width * height * 4),
      )
      refl
