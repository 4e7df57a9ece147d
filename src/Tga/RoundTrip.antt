-- ===== src/Tga/RoundTrip.antt =====
-- src/tracker/tga.c: `load_tga` reads what `write_tga` writes.
use foosball_tracker.Common.{
  ℕ, Bool, subst, take-append_of_le, take-append_of_ge, take-long, ◌+◌, ◌*◌, ◌/◌, ◌%◌, ◌==◌, ◌<◌,
  ◌≡◌, refl, sym, ap, ◌∙◌, arith, leb, true, false, Bool-cases, inl, inr, List, [], ◌∷◌, ◌++◌, some,
  length, length-append, take,
}
use mathlib.Core.List.{append_assoc, append-nil}
use foosball_tracker.Tga.{
  Output, fwrite, write_items, header_items, header_of, write_tga, fread, read_byte, read_short,
  read_header, fseek, is_supported, image_length, read_image, load_tga,
}

-- All items one after the other.
abbrev pub concat : List (List ℕ) → List ℕ
concat [] = []
concat (item ∷ items) = item ++ concat items

-- All of the bytes stand behind the contents, or a part of them from the front, which is not all.
abbrev pub IsAll : Output → List ℕ → Output → Type 0
IsAll f bytes f1 = f1.contents ≡ f.contents ++ bytes

abbrev pub IsCut : Output → List ℕ → Output → Type 0
IsCut f bytes f1 = (n : ℕ) × (n < length bytes) × (f1.contents ≡ f.contents ++ take n bytes)

abbrev IsWritten : Output → List ℕ → Bool × Output → Type 0
IsWritten f bytes r = (r.0 ≡ true → IsAll f bytes r.1) × (r.0 ≡ false → IsCut f bytes r.1)

item_cut :
    (item rest : List ℕ) (n : ℕ)
    → leb (length item) n ≡ false
    → (n < length (item ++ rest)) × (take n item ≡ take n (item ++ rest))
item_cut item rest n cut =
    let short : n < length item = ground arith in
    let both = length-append item rest in
    (omega arith, sym (take-append_of_le n item rest (omega arith)))

item_fits : (item : List ℕ) (n : ℕ) → leb (length item) n ≡ true → take n item ≡ item
item_fits item n fits = take-long n item (ground arith)

-- The items that follow one that fits.
behind :
    (f f1 : Output) (item rest : List ℕ) (r : Bool × Output)
    → f1.contents ≡ f.contents ++ item
    → IsWritten f1 rest r
    → IsWritten f (item ++ rest) r
behind f f1 item rest r e (all, cut) = (
  (λ t. all t ∙ ap (λ xs. xs ++ rest) e ∙ append_assoc f.contents item rest),
  (λ t.
      let (n, less, at) = cut t in
      let both = length-append item rest in
      (
        length item + n,
        omega arith,
        at
            ∙ ap (λ xs. xs ++ take n rest) e
            ∙ append_assoc f.contents item (take n rest)
            ∙ ap (◌++◌ f.contents) (sym (take-append_of_ge item rest n)),
      )),
)

write_items-IsWritten :
    (accepts : ℕ → ℕ) (items : List (List ℕ)) (f : Output)
    → IsWritten f (concat items) (write_items accepts items f)
unfolding write_items fwrite
write_items-IsWritten accepts [] f = ((λ t. sym (append-nil f.contents)), (λ t. absurd (cc)))
write_items-IsWritten accepts (item ∷ items) f =
    let f1 : Output = record {
      contents = f.contents ++ take (accepts f.calls) item;
      calls = f.calls + 1;
    } in
    elim (Bool-cases (leb (length item) (accepts f.calls))) [
      | inl fits ↦ rw fits (
          behind f f1 item (concat items) (write_items accepts items f1)
            (ap (◌++◌ f.contents) (item_fits item (accepts f.calls) fits))
            (write_items-IsWritten accepts items f1))
      | inr cut ↦
          let (less, same) = item_cut item (concat items) (accepts f.calls) cut in
          rw cut ((λ t. absurd (cc)), (λ t. (accepts f.calls, less, ap (◌++◌ f.contents) same)))
    ]

-- The bytes of a true colour image of that size: 18 bytes before the pixels, with the height as the y
-- origin, then the width, the height, 32 bits for a pixel and the descriptor 0.
abbrev pub image_bytes : (width height : ℕ) → List ℕ → List ℕ
image_bytes width height buffer =
    0
    ∷ 0
    ∷ 2
    ∷ 0
    ∷ 0
    ∷ 0
    ∷ 0
    ∷ 0
    ∷ 0
    ∷ 0
    ∷ height % 256
    ∷ height / 256 % 256
    ∷ width % 256
    ∷ width / 256 % 256
    ∷ height % 256
    ∷ height / 256 % 256
    ∷ 32
    ∷ 0
    ∷ buffer

low_byte : (v : ℕ) → v % 65536 % 256 ≡ v % 256
low_byte v = omega arith

high_byte : (v : ℕ) → v % 65536 / 256 % 256 ≡ v / 256 % 256
high_byte v = omega arith

header_bytes :
    (width height : ℕ) (buffer : List ℕ)
    → concat (header_items (header_of width height) ++ (buffer ∷ []))
      ≡ image_bytes width height buffer
unfolding header_items header_of
header_bytes width height buffer =
    rw (low_byte width, high_byte width, low_byte height, high_byte height, append-nil buffer) refl

-- If `write_tga` succeeds, the stream has accepted the bytes of the image behind what it had before, and
-- if it fails, a part of them from the front, which is not all: it stops at the first call of `fwrite`
-- that fails.
pub write_tga-IsWritten :
    (accepts : ℕ → ℕ) (f : Output) (width height : ℕ) (buffer : List ℕ)
    → ((write_tga accepts f width height buffer).0 ≡ true
        → IsAll f (image_bytes width height buffer) (write_tga accepts f width height buffer).1)
      × ((write_tga accepts f width height buffer).0 ≡ false
          → IsCut f (image_bytes width height buffer) (write_tga accepts f width height buffer).1)
unfolding write_tga
write_tga-IsWritten accepts f width height buffer =
    subst (λ bytes. IsWritten f bytes (write_tga accepts f width height buffer))
      (header_bytes width height buffer)
      (write_items-IsWritten accepts (header_items (header_of width height) ++ (buffer ∷ [])) f)

pub short_join : (v : ℕ) → v < 65536 → v % 65536 % 256 + 256 * (v % 65536 / 256 % 256) ≡ v
short_join v h = omega arith

short_bytes : (v : ℕ) → v < 65536 → v % 256 + 256 * (v / 256 % 256) ≡ v
short_bytes v h = omega arith

pub length_wrap : (n : ℕ) → n < 2147483648 → n % 4294967296 ≡ n
length_wrap n h = omega arith

take-all : (xs : List ℕ) → take (length xs) xs ≡ xs
take-all [] = refl
take-all (x ∷ xs) = ap (◌∷◌ x) (take-all xs)

pub eqb_self : (n : ℕ) → (n == n) ≡ true
eqb_self n = ground arith

read_back :
    (width height : ℕ) (buffer : List ℕ)
    → width < 65536
    → height < 65536
    → width * height * 4 < 2147483648
    → length buffer ≡ width * height * 4
    → load_tga (some (image_bytes width height buffer)) true ≡ some buffer
unfolding load_tga read_header read_byte read_short is_supported read_image image_length fread fseek
read_back width height buffer hw hh small len =
    let all : take (width * height * 4) buffer ≡ buffer = rw (sym len) (take-all buffer) in
    rw
      (
        short_bytes width hw,
        short_bytes height hh,
        length_wrap (width * height * 4) small,
        all,
        len,
        eqb_self (width * height * 4),
      )
      refl

-- If `write_tga` succeeds on an empty file, `load_tga` reads the pixels back, provided that the width and
-- the height fit into shorts, the buffer has four bytes for each pixel, and these are less than 2^31.
pub load_tga-write_tga :
    (accepts : ℕ → ℕ) (width height : ℕ) (buffer : List ℕ)
    → width < 65536
    → height < 65536
    → width * height * 4 < 2147483648
    → length buffer ≡ width * height * 4
    → (write_tga accepts (record { contents = []; calls = 0 }) width height buffer).0 ≡ true
    → load_tga
        (some
          (write_tga accepts (record { contents = []; calls = 0 }) width height buffer).1.contents)
        true
      ≡ some buffer
load_tga-write_tga accepts width height buffer hw hh small len ok =
    ap (λ bytes. load_tga (some bytes) true)
      ((write_tga-IsWritten accepts (record { contents = []; calls = 0 }) width height buffer).0 ok)
    ∙ read_back width height buffer hw hh small len
