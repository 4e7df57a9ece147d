-- ===== src/Recorder/Circular/Header.antt =====
-- src/recorder/RaspiVidBalls.c: the header bytes that `encoder_buffer_callback` saves.
use foosball_tracker.Common.{
  ℕ, ◌+◌, ◌≤◌, ◌≡◌, refl, ap, ◌∙◌, arith, ltb, ltb→le, List, [], ◌∷◌, some, length, length-set,
  Returns, value, Returns-bind, Returns-if, Returns-map, Returns-set?, Returns-some,
}
use foosball_tracker.Recorder.Circular.{Circle, copy_into, save_header}

-- The header array has its 29 places and the next free one is behind at most the last.
abbrev pub HasHeader : Circle → Type 0
HasHeader c = (length c.header_bytes ≡ 29) × (c.header_wptr ≤ 29)

copy_into-Returns :
    (buff : List ℕ) (at : ℕ) (bytes : List ℕ)
    → at + length bytes ≤ length buff
    → Returns (λ r. length r ≡ length buff) (copy_into buff at bytes)
unfolding copy_into
copy_into-Returns buff at [] fits = value buff refl
copy_into-Returns buff at (b ∷ bytes) fits =
    Returns-bind (Returns-set? buff at b (omega arith)) λ buff1 e.
      let same = ap length e ∙ length-set buff at b in
      Returns-map (λ r. length r ≡ length buff1) (λ r. length r ≡ length buff) (λ r h. h ∙ same)
        (copy_into-Returns buff1 (at + 1) bytes (omega arith))

save_header-Returns :
    (c : Circle) (bytes : List ℕ)
    → HasHeader c
    → Returns
        (λ c1. HasHeader c1 × (c1.cb_buff ≡ c.cb_buff) × (c1.cb_wptr ≡ c.cb_wptr))
        (save_header c bytes)
unfolding save_header
save_header-Returns c bytes (places, next) =
    Returns-if (ltb 29 (c.header_wptr + length bytes)) _ _
      (λ _. value c ((places, next), refl, refl))
      (λ fits.
        let small = ltb→le 29 (c.header_wptr + length bytes) fits in
        Returns-bind (copy_into-Returns c.header_bytes c.header_wptr bytes (omega arith))
          λ saved same. value _ ((same ∙ places, small), refl, refl))

-- Header bytes, however many a buffer has, are saved inside the array of 29 or not at all, which keeps
-- the array and its next place valid and leaves the circular buffer alone.
pub save_header-HasHeader :
    (c : Circle) (bytes : List ℕ)
    → HasHeader c
    → (c1 : Circle) × (save_header c bytes ≡ some c1)
      × HasHeader c1
      × (c1.cb_buff ≡ c.cb_buff)
      × (c1.cb_wptr ≡ c.cb_wptr)
save_header-HasHeader c bytes h =
    let (c1, e, (kept, buff, place)) = Returns-some (save_header-Returns c bytes h) in
    (c1, e, kept, buff, place)
