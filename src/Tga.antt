-- ===== src/Tga.antt =====
-- src/tracker/tga.c and tga.h: TGA images. A file is the list of its bytes, shorts are stored in the
-- order of the ARM host, the low byte first.
pub mod RoundTrip
pub mod Identifier
mod Tests
use foosball_tracker.Common.{
  ℕ, zero, suc, ◌+◌, ◌-◌, ◌*◌, ◌/◌, ◌%◌, ◌^◌, ◌==◌, leb, if◌then◌else◌, Bool, true, false, not,
  ◌&&◌, ◌||◌, List, [], ◌∷◌, ◌++◌, Option, none, some, length, take, drop, ◌>>=◌,
}

pub record ColormapInfo : Type 0 where
  pub offset : ℕ
  pub length_of_map : ℕ
  pub bpp : ℕ

pub record ImageInfo : Type 0 where
  pub x_origin : ℕ
  pub y_origin : ℕ
  pub width : ℕ
  pub height : ℕ
  pub bpp : ℕ
  pub descriptor : ℕ

pub record Header : Type 0 where
  pub id_length : ℕ
  pub color_map_type : ℕ
  pub image_type : ℕ
  pub colormap_info : ColormapInfo
  pub image_info : ImageInfo

abbrev pub true_color : ℕ
true_color = 2

-- A stream open for writing: the bytes that it has accepted, and the number of calls so far.
pub record Output : Type 0 where
  pub contents : List ℕ
  pub calls : ℕ

-- `fwrite`: whether all bytes were accepted. How many the stream accepts in which call, with its buffer
-- and its errors, is a parameter; where it accepts less than all, these are the first.
unfoldable pub fwrite : (accepts : ℕ → ℕ) → List ℕ → Output → Bool × Output
fwrite accepts bytes f = (
  leb (length bytes) (accepts f.calls),
  record { contents = f.contents ++ take (accepts f.calls) bytes; calls = f.calls + 1 },
)

-- `if (fwrite(..) != ..) goto write_fail` for one item after the other.
unfoldable pub write_items : (accepts : ℕ → ℕ) → List (List ℕ) → Output → Bool × Output
unfolding fwrite
write_items accepts [] f = (true, f)
write_items accepts (item ∷ items) f =
    let (ok, f1) = fwrite accepts item f in
    let rest = write_items accepts items f1 in if ok then rest else (false, f1)

abbrev byte : ℕ → List ℕ
byte v = v % 256 ∷ []

abbrev short : ℕ → List ℕ
short v = v % 256 ∷ v / 256 % 256 ∷ []

-- The items of the header in the order in which they are written.
unfoldable pub header_items : Header → List (List ℕ)
header_items h =
    byte h.id_length
    ∷ byte h.color_map_type
    ∷ byte h.image_type
    ∷ short h.colormap_info.offset
    ∷ short h.colormap_info.length_of_map
    ∷ byte h.colormap_info.bpp
    ∷ short h.image_info.x_origin
    ∷ short h.image_info.y_origin
    ∷ short h.image_info.width
    ∷ short h.image_info.height
    ∷ byte h.image_info.bpp
    ∷ byte h.image_info.descriptor
    ∷ []

-- The header that `write_tga` fills in. Its fields are shorts, which keep the low 16 bits.
unfoldable pub header_of : (width height : ℕ) → Header
header_of width height = record {
  id_length = 0;
  color_map_type = 0;
  image_type = true_color;
  colormap_info = record { offset = 0; length_of_map = 0; bpp = 0 };
  image_info = record {
    x_origin = 0;
    y_origin = height % 65536;
    width = width % 65536;
    height = height % 65536;
    bpp = 32;
    descriptor = 0;
  };
}

-- `write_tga`: true for the result 0, false for -1.
unfoldable pub write_tga :
    (accepts : ℕ → ℕ) → Output → (width height : ℕ) → (buffer : List ℕ) → Bool × Output
write_tga accepts f width height buffer =
    write_items accepts (header_items (header_of width height) ++ (buffer ∷ [])) f

-- A file open for reading.
pub record Input : Type 0 where
  pub bytes : List ℕ
  pub position : ℕ

-- `fread` of so many bytes, if there are so many.
unfoldable pub fread : ℕ → Input → Option (List ℕ × Input)
fread n f =
    let got = take n (drop f.position f.bytes) in
    if length got == n then some (got, record f { position = f.position + n }) else none

unfoldable pub read_byte : Input → Option (ℕ × Input)
read_byte f = elim (drop f.position f.bytes) [
  | a ∷ _ ↦ some (a, record f { position = f.position + 1 })
  | _ ↦ none
]

unfoldable pub read_short : Input → Option (ℕ × Input)
read_short f = elim (drop f.position f.bytes) [
  | a ∷ b ∷ _ ↦ some (a + 256 * b, record f { position = f.position + 2 })
  | _ ↦ none
]

-- `read_header`. What it leaves in the header when it fails is not modelled.
unfoldable pub read_header : Input → Option (Header × Input)
unfolding read_byte read_short
read_header f0 = read_byte f0 >>= λ id_length. read_byte id_length.1 >>= λ color_map_type.
    read_byte color_map_type.1 >>= λ image_type. read_short image_type.1 >>= λ offset.
    read_short offset.1 >>= λ map_length. read_byte map_length.1 >>= λ map_bpp.
    read_short map_bpp.1 >>= λ x_origin. read_short x_origin.1 >>= λ y_origin.
    read_short y_origin.1 >>= λ width. read_short width.1 >>= λ height.
    read_byte height.1 >>= λ bpp. read_byte bpp.1 >>= λ descriptor. some (
      record {
        id_length = id_length.0;
        color_map_type = color_map_type.0;
        image_type = image_type.0;
        colormap_info = record { offset = offset.0; length_of_map = map_length.0; bpp = map_bpp.0 };
        image_info = record {
          x_origin = x_origin.0;
          y_origin = y_origin.0;
          width = width.0;
          height = height.0;
          bpp = bpp.0;
          descriptor = descriptor.0;
        };
      },
      descriptor.1,
    )

-- `fseek(fp, offset, whence)`, where SEEK_SET is 0, SEEK_CUR 1 and SEEK_END 2. Any other whence is an
-- error that leaves the position as it is.
unfoldable pub fseek : Input → (offset whence : ℕ) → Input
fseek f offset whence =
    if whence == 0
    then record f { position = offset }
    else if whence == 1
    then record f { position = f.position + offset }
    else if whence == 2
    then record f { position = length f.bytes + offset }
    else f

-- The test for the image types that are read.
unfoldable pub is_supported : Header → Bool
is_supported h =
    (h.image_type == true_color) && ((h.image_info.bpp == 24) || (h.image_info.bpp == 32))

-- `int buflen`, as its 32 bits: the product wraps around. `malloc` and `fread` take it for the unsigned
-- number of these bits, a `size_t` of the 32-bit ARM.
unfoldable pub image_length : Header → ℕ
image_length h = h.image_info.width * h.image_info.height * (h.image_info.bpp / 8) % 2 ^ 32

-- The part of `load_tga` after the allocation. The arguments of `fseek` are in the code's order.
unfoldable pub read_image : Header → Input → Option (List ℕ)
read_image h f =
    fread (image_length h) (if not (h.id_length == 0) then fseek f 1 h.id_length else f)
    >>= λ image. some image.0

-- `load_tga` of the file with those bytes, if it could be opened, and whether `malloc` succeeds.
unfoldable pub load_tga : Option (List ℕ) → (malloc : Bool) → Option (List ℕ)
load_tga file malloc = file >>= λ bytes.
    read_header (record { bytes = bytes; position = 0 }) >>= λ h.
    if is_supported h.0 && malloc then read_image h.0 h.1 else none
