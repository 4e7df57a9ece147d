-- ===== src/Recorder/KeyFrames.antt =====
-- src/recorder/RaspiVidBalls.c: the ring of key frames that `encoder_buffer_callback` keeps beside the
-- circular buffer, and what the end of `main` saves of both.
mod Tests
pub mod Places
pub mod Endless
pub mod Keeping
pub mod Saved
pub mod Saving
pub mod Refinement
pub mod Log
pub mod Moving
pub mod Window
use foosball_tracker.Common.{
  not, ℕ, zero, suc, ◌+◌, ◌-◌, ◌%◌, ltb, leb, ◌==◌, if◌then◌else◌, Bool, true, false, ◌&&◌, ◌||◌,
  List, [], ◌∷◌, ◌++◌, Option, none, some, length, get_elem?, set?, ◌>>=◌,
}
use foosball_tracker.Common.Int.{ℤ}
use foosball_tracker.Recorder.Circular.{Circle, push_data, save_header}

abbrev pub iframe_bufsize : ℕ
iframe_bufsize = 60_000

-- The ring in `PORT_USERDATA`, and the static `frame_start`, which is none in place of -1.
pub record KeyFrames : Type 0 where
  pub iframe_buff : List ℕ
  pub iframe_buff_wpos : ℕ
  pub iframe_buff_rpos : ℕ
  pub frame_start : Option ℕ

-- The data of a buffer of the encoder, the flags that the callback reads, and the time stamp, none for
-- MMAL_TIME_UNKNOWN.
pub record Buffer : Type 0 where
  pub bytes : List ℕ
  pub config : Bool
  pub side_info : Bool
  pub keyframe : Bool
  pub frame_end : Bool
  pub pts : Option ℤ

abbrev pub next_place : ℕ → ℕ
next_place i = (i + 1) % iframe_bufsize

-- The place where the current frame starts.
abbrev pub start_or : ℕ → Option ℕ → ℕ
start_or wptr none = wptr
start_or wptr (some p) = p

-- `frame_start`, and the entry of a key frame
unfoldable pub note_frame : Buffer → ℕ → KeyFrames → Option KeyFrames
note_frame b wptr f =
    let start = start_or wptr f.frame_start in
    let starting = if b.frame_end then none else some start in
    if b.keyframe
    then (set? f.iframe_buff f.iframe_buff_wpos start >>= λ buff. some (record f {
      iframe_buff = buff;
      iframe_buff_wpos = next_place f.iframe_buff_wpos;
      frame_start = starting;
    }))
    else some (record f { frame_start = starting })

-- The condition of the `while` loop, for a buffer of `n` bytes and the key frame at `p`.
unfoldable pub is_overtaken : (cb_len cb_wptr n p : ℕ) → Bool
is_overtaken cb_len cb_wptr n p =
    (leb cb_wptr p && ltb p (cb_wptr + n)) || (ltb p cb_wptr && ltb (p + cb_len) (cb_wptr + n))

-- The `while` loop, from the read position `r`, within the fuel: the position where it stops.
unfoldable pub move_along : (fuel cb_len cb_wptr n : ℕ) → List ℕ → (r : ℕ) → Option ℕ
move_along zero cb_len cb_wptr n buff r = none
move_along (suc fuel) cb_len cb_wptr n buff r =
    let rest = move_along fuel cb_len cb_wptr n buff (next_place r) in
    get_elem? buff r >>= λ p. if is_overtaken cb_len cb_wptr n p then rest else some r

-- Moving the read position along, with the fuel of a round for each place of the ring.
unfoldable pub overtake : Circle → (n : ℕ) → KeyFrames → Option KeyFrames
overtake c n f =
    if next_place f.iframe_buff_rpos == f.iframe_buff_wpos
    then some f
    else (move_along iframe_bufsize c.cb_len c.cb_wptr n f.iframe_buff f.iframe_buff_rpos >>= λ r.
        some (record f { iframe_buff_rpos = r }))

-- Whether the four bytes from `p` on are 0, 0, 0, 1, read as far as needed.
unfoldable pub has_start_code : List ℕ → ℕ → Option Bool
has_start_code buff p = get_elem? buff p >>= λ b0.
    if not (b0 == 0)
    then some false
    else (get_elem? buff (p + 1) >>= λ b1.
        if not (b1 == 0)
        then some false
        else (get_elem? buff (p + 2) >>= λ b2.
            if not (b2 == 0)
            then some false
            else (get_elem? buff (p + 3) >>= λ b3. some (b3 == 1))))

-- The `for` loop that checks the list of key frames, within the fuel: how many errors are logged.
unfoldable pub check_frames : (fuel : ℕ) → List ℕ → List ℕ → (i wpos : ℕ) → Option ℕ
unfolding has_start_code
check_frames zero buff iframes i wpos = none
check_frames (suc fuel) buff iframes i wpos =
    let rest = check_frames fuel buff iframes (next_place i) wpos in
    if i == wpos
    then some 0
    else (get_elem? iframes i >>= λ p. has_start_code buff p >>= λ good.
        rest >>= λ errors. some (if good then errors else errors + 1))

-- A buffer of frame data, before the list is checked.
unfoldable pub store_frame : Buffer → Circle → KeyFrames → Option (Circle × KeyFrames)
unfolding note_frame overtake push_data
store_frame b c f = note_frame b c.cb_wptr f >>= λ f1.
    overtake c (length b.bytes) f1 >>= λ f2. push_data c b.bytes >>= λ c1. some (c1, f2)

-- The circular mode of the callback, with the number of errors that are logged.
unfoldable pub keep_buffer : Buffer → Circle → KeyFrames → Option (Circle × KeyFrames × ℕ)
unfolding store_frame check_frames
keep_buffer b c f =
    if b.config
    then (save_header c b.bytes >>= λ c1.
        some (c1, f, if ltb 29 (c.header_wptr + length b.bytes) then 1 else 0))
    else if b.side_info
    then some (c, f, 0)
    else (store_frame b c f >>= λ r.
        check_frames (iframe_bufsize + 1) r.0.cb_buff r.1.iframe_buff r.1.iframe_buff_rpos
          r.1.iframe_buff_wpos
        >>= λ errors. some (r.0, r.1, errors))

-- What `fwrite` reads: `n` bytes from the place `at` on, a fault behind the end.
unfoldable pub slice? : List ℕ → (at n : ℕ) → Option (List ℕ)
slice? buff at zero = some []
slice? buff at (suc n) = get_elem? buff at >>= λ b. slice? buff (at + 1) n >>= λ bs. some (b ∷ bs)

-- `copy_from_end`, for the oldest key frame at `p`
abbrev pub copy_from_end : Circle → ℕ → ℕ
copy_from_end c p = if c.cb_wrap then c.cb_len - p else 0

abbrev pub copy_from_start : Circle → ℕ → ℕ
copy_from_start c p =
    let behind = c.cb_len - (c.cb_len - p) in
    if c.cb_wrap then (if ltb c.cb_wptr behind then c.cb_wptr else behind) else c.cb_wptr

-- The bytes that the end of `main` writes to the file.
unfoldable pub saved : Circle → KeyFrames → Option (List ℕ)
unfolding slice?
saved c f = get_elem? f.iframe_buff f.iframe_buff_rpos >>= λ p.
    slice? c.header_bytes 0 c.header_wptr >>= λ header.
    slice? c.cb_buff p (copy_from_end c p) >>= λ old.
    slice? c.cb_buff 0 (copy_from_start c p) >>= λ new. some (header ++ (old ++ new))
