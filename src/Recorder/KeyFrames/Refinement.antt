-- ===== src/Recorder/KeyFrames/Refinement.antt =====
-- src/recorder/RaspiVidBalls.c: the circular mode of `encoder_buffer_callback` keeps its log.
use foosball_tracker.Common.{
  ℕ, ◌+◌, ◌%◌, ◌≤◌, ◌<◌, ◌≡◌, ◌≢◌, refl, sym, ap, ◌∙◌, subst, arith, Bool, true, false,
  if◌then◌else◌, Bool-cases, inl, inr, List, [], ◌∷◌, ◌++◌, Option, none, some, length,
  length-append, length-set, set, set?-eq-set,
}
use foosball_tracker.Recorder.Circular.{Circle}
use foosball_tracker.Recorder.Circular.Tail.{Filling, push_data-IsTail}
use foosball_tracker.Recorder.KeyFrames.{
  Buffer, KeyFrames, iframe_bufsize, next_place, start_or, note_frame, store_frame,
}
use foosball_tracker.Recorder.KeyFrames.Window.{Window, Window-push}
use foosball_tracker.Recorder.KeyFrames.Moving.{
  Chain, Intact, drop_overwritten, drop_overwritten-Intact, overtake-Window,
}
use foosball_tracker.Recorder.KeyFrames.Log.{Log, IsLogged, Suits, IsBegun, starts_with, log_frame}

Chain-snoc : (o hi : ℕ) (os : List ℕ) → Chain o hi os → Chain o hi (os ++ hi ∷ [])
Chain-snoc o hi [] h = (h, omega arith)
Chain-snoc o hi (p ∷ os) (le, rest) = (le, Chain-snoc p hi os rest)

Intact-snoc :
    (l n hi : ℕ) (os : List ℕ) → n ≤ hi + l → Intact l n hi os → Intact l n hi (os ++ hi ∷ [])
Intact-snoc l n hi [] near h = (near, omega arith)
Intact-snoc l n hi (o ∷ os) near (first, rest) = (first, Chain-snoc o hi os rest)

Chain-mono : (o hi hi1 : ℕ) (os : List ℕ) → hi ≤ hi1 → Chain o hi os → Chain o hi1 os
Chain-mono o hi hi1 [] le h = omega arith
Chain-mono o hi hi1 (p ∷ os) le (first, rest) = (first, Chain-mono p hi hi1 os le rest)

Intact-mono : (l n hi hi1 : ℕ) (os : List ℕ) → hi ≤ hi1 → Intact l n hi os → Intact l n hi1 os
Intact-mono l n hi hi1 [] le h = tt
Intact-mono l n hi hi1 (o ∷ os) le (first, rest) = (first, Chain-mono o hi hi1 os le rest)

start_or-place :
    (l n : ℕ) (p o : Option ℕ) → IsBegun l n p o → start_or (n % l) p ≡ start_or n o % l
start_or-place l n none none h = refl
start_or-place l n (some p) (some o) h = h.0
start_or-place l n none (some o) h = absurd h
start_or-place l n (some p) none h = absurd h

start_or-le : (l n : ℕ) (p o : Option ℕ) → IsBegun l n p o → start_or n o ≤ n
start_or-le l n none none h = omega arith
start_or-le l n (some p) (some o) h = h.1
start_or-le l n none (some o) h = absurd h
start_or-le l n (some p) none h = absurd h

-- The new entry of a key frame, and the start of the frame.
note_frame-Window :
    (l : ℕ) (b : Buffer) (c : Circle) (f : KeyFrames) (g : Log)
    → IsLogged l c f g
    → length g.starts + 1 < iframe_bufsize
    → (buff : List ℕ) × (w : ℕ) × (note_frame b c.cb_wptr f
        ≡ some (record f {
          iframe_buff = buff;
          iframe_buff_wpos = w;
          frame_start = if b.frame_end then none else some (start_or (length g.stream) g.begun % l);
        }))
      × (length buff ≡ iframe_bufsize)
      × (w < iframe_bufsize)
      × Window l buff f.iframe_buff_rpos (starts_with b g) w
unfolding note_frame
note_frame-Window l b c f g v room =
    let start = start_or (length g.stream) g.begun in
    let place : start_or c.cb_wptr f.frame_start ≡ start % l =
      ap (λ p. start_or p f.frame_start) v.tail.place
      ∙ start_or-place l (length g.stream) f.frame_start g.begun v.frame in
    elim (Bool-cases b.keyframe) [
      | inl key ↦
          let inside : f.iframe_buff_wpos < length f.iframe_buff =
            let r = v.ring in let w = v.writes in omega arith in
          rw (key, place, set?-eq-set f.iframe_buff f.iframe_buff_wpos (start % l) inside)
            (
              set f.iframe_buff f.iframe_buff_wpos (start % l),
              next_place f.iframe_buff_wpos,
              refl,
              length-set f.iframe_buff f.iframe_buff_wpos (start % l) ∙ v.ring,
              omega arith,
              Window-push l f.iframe_buff f.iframe_buff_rpos g.starts f.iframe_buff_wpos start
                  v.reads (omega arith) inside v.entries,
            )
      | inr other ↦
          rw (other, place) (f.iframe_buff, f.iframe_buff_wpos, refl, v.ring, v.writes, v.entries)
    ]

starts_with-Intact :
    (l : ℕ) (b : Buffer) (g : Log)
    → length g.stream ≤ start_or (length g.stream) g.begun + l
    → Intact l (length g.stream) (start_or (length g.stream) g.begun) g.starts
    → Intact l (length g.stream) (start_or (length g.stream) g.begun) (starts_with b g)
starts_with-Intact l b g near h = elim (Bool-cases b.keyframe) [
  | inl key ↦
      rw key (Intact-snoc l (length g.stream) (start_or (length g.stream) g.begun) g.starts near h)
  | inr other ↦ rw other h
]

pub length-starts_with : (b : Buffer) (g : Log) → length (starts_with b g) ≤ length g.starts + 1
length-starts_with b g = elim (Bool-cases b.keyframe) [
  | inl key ↦
      rw key
        (let e = length-append g.starts (start_or (length g.stream) g.begun ∷ []) in omega arith)
  | inr other ↦ rw other (omega arith)
]

-- The start of the next frame, whether or not this buffer ends its frame.
IsBegun-next :
    (l n m start : ℕ) (ended : Bool)
    → start ≤ n + m
    → n + m ≤ start + l
    → IsBegun l
        (n + m)
        (if ended then none else some (start % l))
        (if ended then none else some start)
      × (start ≤ start_or (n + m) (if ended then none else some start))
IsBegun-next l n m start true le near = (tt, le)
IsBegun-next l n m start false le near = ((refl, le, near), omega arith)

-- A buffer of frame data that suits the log is stored: the state then stands for the log with that
-- buffer, so that every listed key frame still has its first byte in the circular buffer.
pub store_frame-IsLogged :
    (l : ℕ) (b : Buffer) (c : Circle) (f : KeyFrames) (g : Log)
    → IsLogged l c f g
    → Suits l b g
    → (c1 : Circle) × (f1 : KeyFrames) × (store_frame b c f ≡ some (c1, f1))
      × IsLogged l c1 f1 (log_frame l b g)
      × (Filling c l g.stream
          → length (g.stream ++ b.bytes) ≢ l
          → Filling c1 l (g.stream ++ b.bytes))
      × (c1.header_bytes ≡ c.header_bytes)
      × (c1.header_wptr ≡ c.header_wptr)
unfolding store_frame
store_frame-IsLogged l b c f g v s =
    let n = length g.stream in
    let m = length b.bytes in
    let start = start_or n g.begun in
    let le = start_or-le l n f.frame_start g.begun v.frame in
    let near : n ≤ start + l = let x = s.frame_fits in omega arith in
    let intact = starts_with-Intact l b g near v.intact in
    let (buff, w, noted, ring, writes, entries) = note_frame-Window l b c f g v s.room in
    let f1 : KeyFrames = record f {
      iframe_buff = buff;
      iframe_buff_wpos = w;
      frame_start = if b.frame_end then none else some (start % l);
    } in
    let small : length (starts_with b g) < iframe_bufsize =
      let x = length-starts_with b g in let y = s.room in omega arith in
    let (r1, moved, reads, kept) =
      overtake-Window l n start m c f1 (starts_with b g) v.tail.nonempty v.tail.len v.tail.place
        v.reads small entries intact s.stays in
    let (c1, pushed, tail, filling, header, header_place) =
      push_data-IsTail c l g.stream b.bytes v.tail s.fits in
    let longer : n + m ≡ length (g.stream ++ b.bytes) = sym (length-append g.stream b.bytes) in
    let (frame, mono) = IsBegun-next l n m start b.frame_end (omega arith) s.frame_fits in
    let begun1 : Option ℕ = if b.frame_end then none else some start in
    (
      c1,
      record f1 { iframe_buff_rpos = r1 },
      rw (noted, moved, pushed) refl,
      record {
        tail = tail;
        ring = ring;
        reads = reads;
        writes = writes;
        entries = kept;
        intact =
            subst
              (λ k. Intact l k (start_or k begun1) (drop_overwritten l (n + m) (starts_with b g)))
              longer
              (Intact-mono l (n + m) start (start_or (n + m) begun1) _ mono
                (drop_overwritten-Intact l n (n + m) start (starts_with b g) intact));
        frame =
            subst (λ k. IsBegun l k (if b.frame_end then none else some (start % l)) begun1) longer
              frame;
      },
      filling,
      header,
      header_place,
    )
