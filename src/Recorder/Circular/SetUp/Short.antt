-- ===== src/Recorder/Circular/SetUp/Short.antt =====
-- src/recorder/RaspiVidBalls.c: a circular buffer for a timeout below a second.
use foosball_tracker.Common.{
  ℕ, suc, ◌/◌, ◌<◌, ◌≡◌, ◌⊎◌, inl, inr, refl, arith, true, false, List, [], ◌∷◌, Option, none, some,
  length, le→ltb, ◌==◌,
}
use foosball_tracker.Common.Int.{ℤ, pos}
use foosball_tracker.Recorder.Settings.{wait_method_keypress, wait_method_signal, VidState}
use foosball_tracker.Recorder.Circular.{Circle, copy_into, copy_to_end, push_data}
use foosball_tracker.Recorder.Circular.SetUp.{ready, bits, allocate, set_up_circular}

-- A circle without a place.
abbrev pub no_room : Circle → Circle
no_room c = record c { cb_buff = []; cb_len = 0; cb_wptr = 0; cb_wrap = false; header_wptr = 0 }

push_data-no_room : (c : Circle) (b : ℕ) (bytes : List ℕ) → push_data (no_room c) (b ∷ bytes) ≡ none
unfolding push_data copy_into copy_to_end
push_data-no_room c b bytes = rw (le→ltb (suc (length bytes)) 0 (omega arith)) refl

bits-short :
    (s : VidState) (bitrate timeout : ℕ)
    → s.bitrate ≡ pos bitrate
    → s.timeout ≡ pos timeout
    → timeout < 1000
    → bits s ≡ pos 0
unfolding bits
bits-short s bitrate timeout rate time short =
    let none_whole : timeout / 1000 ≡ 0 = omega arith in rw (rate, time, none_whole) (ground arith)

allocate-no_room :
    (malloc : ℤ → Option (List ℕ)) (c : Circle)
    → malloc (pos 0) ≡ some []
    → allocate malloc (pos 0) c ≡ ready (no_room c)
unfolding allocate
allocate-no_room malloc c room = rw (allocate, room) refl

suc-nonzero : (n : ℕ) → (suc n == 0) ≡ false
suc-nonzero n = ground arith

-- The circular mode with an output file, waiting for keys or for a signal, accepts every timeout
-- from 1 to 999 milliseconds, with any positive bitrate. If `malloc(0)` gives a buffer, that has
-- no place then: any data that is pushed into it, if it is not empty, is written behind the
-- buffer.
pub set_up_short :
    (malloc : ℤ → Option (List ℕ)) (s : VidState) (c : Circle) (bitrate timeout b : ℕ)
    (bytes : List ℕ)
    → s.bitrate ≡ pos (suc bitrate)
    → s.timeout ≡ pos (suc timeout)
    → suc timeout < 1000
    → (s.wait_method ≡ wait_method_keypress) ⊎ (s.wait_method ≡ wait_method_signal)
    → malloc (pos 0) ≡ some []
    → (set_up_circular malloc true s c ≡ ready (no_room c))
      × (push_data (no_room c) (b ∷ bytes) ≡ none)
unfolding set_up_circular
set_up_short malloc s c bitrate timeout b bytes rate time short (inl keys) room = (
  rw
      (
        bits-short s (suc bitrate) (suc timeout) rate time short,
        rate,
        time,
        keys,
        suc-nonzero bitrate,
        suc-nonzero timeout,
      )
      (allocate-no_room malloc c room),
  push_data-no_room c b bytes,
)
set_up_short malloc s c bitrate timeout b bytes rate time short (inr signals) room = (
  rw
      (
        bits-short s (suc bitrate) (suc timeout) rate time short,
        rate,
        time,
        signals,
        suc-nonzero bitrate,
        suc-nonzero timeout,
      )
      (allocate-no_room malloc c room),
  push_data-no_room c b bytes,
)
