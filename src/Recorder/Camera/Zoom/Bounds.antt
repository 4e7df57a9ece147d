-- ===== src/Recorder/Camera/Zoom/Bounds.antt =====
-- src/recorder/RaspiCamControl.c: the rectangles that zooming sets.
use foosball_tracker.Common.{◌+◌, ◌-◌, ◌/◌, ◌≤◌, ◌<◌, ◌≡◌, refl, arith}
use foosball_tracker.Recorder.Camera.Zoom.{
  ZoomCommand, zoom_in, zoom_out, zoom_reset, Crop, zoom_full, zoom_increment, sign_bit, zoom,
}

-- A square in the middle of the sensor, at least of the smallest size and at most the sensor.
pub record IsCentered (c : Crop) : Type 0 where
  pub square : c.height ≡ c.width
  pub left : c.x ≡ (65_536 - c.width) / 2
  pub top : c.y ≡ c.x
  pub large : zoom_full ≤ c.width
  pub small : c.width ≤ 65_536

-- Zooming in, and back to the whole, and out where there is room for a step, keeps a centred square.
pub zoom-IsCentered :
    (command : ZoomCommand) (c : Crop)
    → IsCentered c
    → (command ≡ zoom_out → c.width + zoom_increment ≤ 65_536)
    → IsCentered (zoom command c)
unfolding zoom
zoom-IsCentered zoom_in c h room = ground arith
zoom-IsCentered zoom_out c h room = let fits = room refl in ground arith
zoom-IsCentered zoom_reset c h room = ground arith

-- Above the smallest size a step in and a step out cancel each other.
pub zoom_out-zoom_in :
    (c : Crop)
    → IsCentered c
    → zoom_full + zoom_increment < c.width
    → zoom zoom_out (zoom zoom_in c) ≡ c
unfolding zoom
zoom_out-zoom_in c h above = ground arith

-- Zooming out of a centred rectangle whose width with a step added is more than 65537, which is more than
-- one above the sensor's 65536, gives a rectangle that is larger than the sensor and starts before it:
-- the int at its place is negative.
pub zoom_out_over :
    (c : Crop)
    → IsCentered c
    → 65_537 < c.width + zoom_increment
    → (65_536 < (zoom zoom_out c).width) × (sign_bit ≤ (zoom zoom_out c).x)
unfolding zoom
zoom_out_over c h over = ground arith
