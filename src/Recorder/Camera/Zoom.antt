-- ===== src/Recorder/Camera/Zoom.antt =====
-- src/recorder/RaspiCamControl.c: `raspicamcontrol_zoom_in_zoom_out` and `raspicamcontrol_set_rotation`.
-- The fields of the crop rectangle are the bits of ints of 32 bits.
pub mod Bounds
use foosball_tracker.Common.{
  ℕ, ◌+◌, ◌-◌, ◌*◌, ◌/◌, ◌%◌, ltb, leb, if◌then◌else◌, Bool, true, false, Option, none, some,
}
use foosball_tracker.Common.Int.{ℤ, pos, negsuc}

-- 2 ^ 32 and 2 ^ 31
abbrev pub u32_mod : ℕ
u32_mod = 4_294_967_296

abbrev pub sign_bit : ℕ
sign_bit = 2_147_483_648

-- `(unsigned int)(65536 * 0.15)`
abbrev pub zoom_full : ℕ
zoom_full = 9830

-- `65536UL / 10`
abbrev pub zoom_increment : ℕ
zoom_increment = 6553

pub data ZoomCommand : Type 0 where
  zoom_in : ZoomCommand
  zoom_out : ZoomCommand
  zoom_reset : ZoomCommand

-- `crop.rect`
pub record Crop : Type 0 where
  pub x : ℕ
  pub y : ℕ
  pub width : ℕ
  pub height : ℕ

-- `(65536 - crop.rect.width) / 2`, which an unsigned int takes: the quotient of ints, towards 0.
unfoldable pub centered : ℕ → ℕ
centered width =
    if leb width 65_536
    then (65_536 - width) / 2
    else if ltb width sign_bit
    then (u32_mod - (width - 65_536) / 2) % u32_mod
    else (65_536 + (u32_mod - width)) / 2

-- The size, before the rectangle is centred.
unfoldable pub resize : ZoomCommand → Crop → Crop
resize zoom_in c =
    if leb c.width (zoom_full + zoom_increment)
    then record c { width = zoom_full; height = zoom_full }
    else record c {
      width = (c.width + u32_mod - zoom_increment) % u32_mod;
      height = (c.height + u32_mod - zoom_increment) % u32_mod;
    }
resize zoom_out c =
    let increased_size = (c.width + zoom_increment) % u32_mod in
    if ltb increased_size c.width
    then record c { width = 65_536; height = 65_536 }
    else record c { width = increased_size; height = increased_size }
resize zoom_reset c = c

-- The rectangle that is set.
unfoldable pub zoom : ZoomCommand → Crop → Crop
unfolding centered resize
zoom zoom_reset c = record { x = 0; y = 0; width = 65_536; height = 65_536 }
zoom command c =
    let sized = resize command c in
    record sized { x = centered sized.width; y = centered sized.width }

-- `roi`, in parts of 65536
pub record Roi : Type 0 where
  pub x : ℕ
  pub y : ℕ
  pub w : ℕ
  pub h : ℕ

-- The whole call, where the camera gives its rectangle or not and takes a rectangle or not: the result
-- and the region.
unfoldable pub zoom_in_zoom_out :
    (got : Option Crop) (takes : Crop → Bool) → ZoomCommand → Roi → ℕ × Roi
unfolding zoom
zoom_in_zoom_out none takes command roi = (0, roi)
zoom_in_zoom_out (some crop) takes command roi =
    let c = zoom command crop in
    if takes c then (0, record { x = c.x; y = c.x; w = c.width; h = c.width }) else (1, roi)

-- `((rotation % 360) / 90) * 90`, with the remainder and the quotient of C, towards 0.
unfoldable pub my_rotation : ℤ → ℤ
my_rotation (pos n) = pos (n % 360 / 90 * 90)
my_rotation (negsuc n) =
    let m = (n + 1) % 360 / 90 * 90 in if leb m 0 then pos 0 else negsuc (m - 1)
