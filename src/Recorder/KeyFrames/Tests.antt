-- ===== src/Recorder/KeyFrames/Tests.antt =====
-- src/recorder/RaspiVidBalls.c: the circular mode of the callback at small buffers.
use foosball_tracker.Common.{
  ℕ, zero, suc, ◌+◌, ◌%◌, ◌≤◌, ◌<◌, ◌≡◌, inl, refl, ap, arith, true, false, List, [], ◌∷◌, none,
  some, length, get_elem?, replicate, length-replicate, Every-replicate,
}
use native.Mathlib.Nat.{mod-eq_of_lt}
use foosball_tracker.Recorder.Circular.{Circle}
use foosball_tracker.Recorder.Circular.Header.{HasHeader}
use foosball_tracker.Recorder.Circular.Tail.{Holds, IsTail}
use foosball_tracker.Recorder.KeyFrames.{
  Buffer, KeyFrames, iframe_bufsize, move_along, store_frame, keep_buffer, check_frames, saved,
}
use foosball_tracker.Recorder.KeyFrames.Log.{Log, IsLogged}
use foosball_tracker.Recorder.KeyFrames.Endless.{
  IsFresh, IsFresh-IsLogged, no_log, store_frame-keyless,
}
use foosball_tracker.Recorder.KeyFrames.Keeping.{
  IsSuitable, log_buffer, keep_buffer-IsLogged, check_frames-behind,
}
use foosball_tracker.Recorder.KeyFrames.Saved.{saved_stream}

abbrev header : List ℕ
header = 9 ∷ replicate 28 0

abbrev fresh_circle : Circle
fresh_circle = record {
  cb_buff = replicate 8 0;
  cb_len = 8;
  cb_wptr = 0;
  cb_wrap = false;
  header_bytes = header;
  header_wptr = 1;
}

abbrev fresh_ring : KeyFrames
fresh_ring = record {
  iframe_buff = replicate iframe_bufsize 0;
  iframe_buff_wpos = 0;
  iframe_buff_rpos = 0;
  frame_start = none;
}

fresh : IsFresh fresh_circle fresh_ring
fresh = record {
  start = refl;
  ring = length-replicate {A = ℕ} iframe_bufsize 0;
  zeros = Every-replicate (λ p. p ≡ 0) iframe_bufsize 0 refl;
  reads = refl;
  writes = refl;
  frame = refl;
}

abbrev key_frame : Buffer
key_frame = record {
  bytes = 0 ∷ 0 ∷ 0 ∷ 1 ∷ 7 ∷ [];
  config = false;
  side_info = false;
  keyframe = true;
  frame_end = true;
  pts = none;
}

key_frame-IsSuitable : IsSuitable 8 key_frame no_log
key_frame-IsSuitable no_header frame = (
  record {
    fits = omega arith;
    frame_fits = omega arith;
    room = omega arith;
    stays = inl (0, refl, omega arith);
  },
  (omega arith, tt),
)

keep_buffer-IsLogged_example :
    (c1 : Circle) × (f1 : KeyFrames) × (errors : ℕ) × (keep_buffer key_frame fresh_circle fresh_ring
      ≡ some (c1, f1, errors))
    × IsLogged 8 c1 f1 (log_buffer 8 key_frame no_log)
    × HasHeader c1
keep_buffer-IsLogged_example =
    keep_buffer-IsLogged 8 key_frame fresh_circle fresh_ring no_log
      (IsFresh-IsLogged 8 fresh_circle fresh_ring fresh (omega arith) refl refl) (refl, omega arith)
      key_frame-IsSuitable

abbrev other_frame : Buffer
other_frame = record key_frame { keyframe = false }

store_frame-keyless_example :
    ((fuel : ℕ) → move_along fuel 8 0 5 fresh_ring.iframe_buff 0 ≡ none)
    × (store_frame other_frame fresh_circle fresh_ring ≡ none)
store_frame-keyless_example =
    store_frame-keyless other_frame fresh_circle fresh_ring fresh refl (omega arith)

abbrev ring : ℕ → KeyFrames
ring p = record fresh_ring { iframe_buff = p ∷ replicate 59_999 0; iframe_buff_wpos = 1 }

abbrev log_of : ℕ → List ℕ → Log
log_of o stream = record { stream = stream; starts = o ∷ []; begun = none }

logged :
    (l o : ℕ) (c : Circle) (stream : List ℕ)
    → IsTail c l stream
    → length stream ≤ o + l
    → o ≤ length stream
    → IsLogged l c (ring (o % l)) (log_of o stream)
logged l o c stream t near le = record {
  tail = t;
  ring = ap suc (length-replicate {A = ℕ} 59_999 0);
  reads = omega arith;
  writes = omega arith;
  entries = (refl, refl);
  intact = (near, le);
  frame = tt;
}

abbrev six_bytes : List ℕ
six_bytes = 1 ∷ 2 ∷ 3 ∷ 4 ∷ 5 ∷ 6 ∷ []

-- Six bytes went through a buffer of four.
abbrev six : Circle
six = record fresh_circle { cb_buff = 5 ∷ 6 ∷ 3 ∷ 4 ∷ []; cb_len = 4; cb_wptr = 2; cb_wrap = true }

six-Holds : Holds 4 six.cb_buff six_bytes
six-Holds zero lt near = absurd (omega (arith, near))
six-Holds (suc zero) lt near = absurd (omega (arith, near))
six-Holds (suc (suc zero)) lt near = refl
six-Holds (suc (suc (suc zero))) lt near = refl
six-Holds (suc (suc (suc (suc zero)))) lt near = refl
six-Holds (suc (suc (suc (suc (suc zero))))) lt near = refl
six-Holds (suc (suc (suc (suc (suc (suc i)))))) lt near = absurd (omega (arith, lt))

six-IsTail : IsTail six 4 six_bytes
six-IsTail = record {
  nonempty = omega arith;
  len = refl;
  size = refl;
  place = refl;
  holds = six-Holds;
}

saved_stream_example : saved six (ring 3) ≡ some (9 ∷ 4 ∷ 5 ∷ 6 ∷ [])
saved_stream_example =
    saved_stream 4 six (ring 3) (log_of 3 six_bytes)
      (logged 4 3 six six_bytes six-IsTail (omega arith) (omega arith)) (refl, omega arith) 3 []
      refl (inl refl) (omega arith) (λ full. omega arith)

-- A stream of up to the buffer's length, without a wrap.
abbrev four_bytes : List ℕ
four_bytes = 1 ∷ 2 ∷ 3 ∷ 0 ∷ []

four-Holds :
    (l : ℕ)
    → 4 ≤ l
    → (buff : List ℕ) → ((i : ℕ) → i < 4 → get_elem? buff i ≡ get_elem? four_bytes i)
    → Holds l buff four_bytes
four-Holds l le buff same i lt near =
    let here : i % l ≡ i = mod-eq_of_lt (omega (arith, lt)) in rw here (same i lt)

reads_four :
    (rest : List ℕ) (i : ℕ) → i < 4 → get_elem? (1 ∷ 2 ∷ 3 ∷ 0 ∷ rest) i ≡ get_elem? four_bytes i
reads_four rest zero lt = refl
reads_four rest (suc zero) lt = refl
reads_four rest (suc (suc zero)) lt = refl
reads_four rest (suc (suc (suc zero))) lt = refl
reads_four rest (suc (suc (suc (suc i)))) lt = absurd (omega (arith, lt))

abbrev full : Circle
full = record fresh_circle { cb_buff = four_bytes; cb_len = 4 }

full-IsTail : IsTail full 4 four_bytes
full-IsTail = record {
  nonempty = omega arith;
  len = refl;
  size = refl;
  place = refl;
  holds = four-Holds 4 (omega arith) four_bytes (reads_four []);
}

check_frames-behind_example : check_frames 60_001 full.cb_buff (ring 3).iframe_buff 0 1 ≡ none
check_frames-behind_example =
    check_frames-behind 4 60_001 full (ring 3) (log_of 3 four_bytes) 3 []
      (logged 4 3 full four_bytes full-IsTail (omega arith) (omega arith)) refl (omega arith)
      (omega arith) refl refl
