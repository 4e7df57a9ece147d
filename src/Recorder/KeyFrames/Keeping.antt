-- ===== src/Recorder/KeyFrames/Keeping.antt =====
-- src/recorder/RaspiVidBalls.c: the circular mode of `encoder_buffer_callback` for every kind of buffer.
use foosball_tracker.Common.{
  ℕ, zero, suc, ◌+◌, ◌%◌, ◌≤◌, ◌<◌, ◌≡◌, inl, inr, refl, sym, ap, ◌∙◌, subst, arith, false, not,
  ◌==◌, ==_iff, if◌then◌else◌, Bool-cases, ltb, ◌||◌, List, [], ◌∷◌, none, some, length, get_elem?,
  get_elem?-behind, Returns, value, Returns-bind, Returns-if, Returns-some, Returns-get_elem?,
  Partial, gives, Partial-if, Partial-skip, Partial-some,
}
use foosball_tracker.Recorder.Circular.{Circle, save_header, copy_into}
use foosball_tracker.Recorder.Circular.Header.{HasHeader, save_header-HasHeader}
use foosball_tracker.Recorder.Circular.Tail.{Holds}
use foosball_tracker.Recorder.KeyFrames.{
  Buffer, KeyFrames, start_or, iframe_bufsize, next_place, has_start_code, check_frames,
  keep_buffer,
}
use foosball_tracker.Recorder.KeyFrames.Window.{Window, Window-end}
use foosball_tracker.Recorder.KeyFrames.Moving.{Intact, length-drop_overwritten}
use foosball_tracker.Recorder.KeyFrames.Log.{Log, IsLogged, Suits, starts_with, log_frame}
use foosball_tracker.Recorder.KeyFrames.Refinement.{store_frame-IsLogged, length-starts_with}

has_start_code-Returns :
    (buff : List ℕ) (p : ℕ) → p + 3 < length buff → Returns (λ _. Unit {0}) (has_start_code buff p)
unfolding has_start_code
has_start_code-Returns buff p h = Returns-bind (Returns-get_elem? buff p (omega arith)) λ b0 _.
    Returns-if (not (b0 == 0)) _ _ (λ _. value _ tt)
      λ _. Returns-bind (Returns-get_elem? buff (p + 1) (omega arith)) λ b1 _.
        Returns-if (not (b1 == 0)) _ _ (λ _. value _ tt)
          λ _. Returns-bind (Returns-get_elem? buff (p + 2) (omega arith)) λ b2 _.
            Returns-if (not (b2 == 0)) _ _ (λ _. value _ tt)
              λ _. Returns-bind (Returns-get_elem? buff (p + 3) h) λ b3 _. value _ tt

-- No start code goes over the end of a circular buffer of `l` bytes.
abbrev pub Whole : (l : ℕ) → List ℕ → Type 0
Whole l [] = Unit {0}
Whole l (o ∷ os) = (o % l + 3 < l) × Whole l os

check_frames-Returns :
    (fuel l : ℕ) (buff iframes : List ℕ) (i w : ℕ) (os : List ℕ)
    → length buff ≡ l
    → i < iframe_bufsize
    → length os < fuel
    → length os < iframe_bufsize
    → Window l iframes i os w
    → Whole l os
    → Returns (λ _. Unit {0}) (check_frames fuel buff iframes i w)
unfolding check_frames
check_frames-Returns zero l buff iframes i w os size lt enough room h whole = absurd (omega arith)
check_frames-Returns (suc fuel) l buff iframes i w [] size lt enough room h whole =
    rw ((==_iff i w).1 h) (value 0 tt)
check_frames-Returns (suc fuel) l buff iframes i w (o ∷ os) size lt enough room (here, rest)
      (fits, whole) =
    Returns-if (i == w) _ _ (λ _. value 0 tt)
      λ _. rw here (
        Returns-bind (has_start_code-Returns buff (o % l) (omega arith)) λ good _.
          Returns-bind
            (check_frames-Returns fuel l buff iframes (next_place i) w os size (omega arith)
              (omega arith) (omega arith) rest whole)
            λ errors _. value _ tt)

-- Saving header bytes changes nothing else.
save_header-same :
    (c : Circle) (bytes : List ℕ)
    → Partial
        (λ c1.
          (c1.cb_buff ≡ c.cb_buff)
          × (c1.cb_len ≡ c.cb_len)
          × (c1.cb_wptr ≡ c.cb_wptr)
          × (c1.cb_wrap ≡ c.cb_wrap))
        (save_header c bytes)
unfolding save_header
save_header-same c bytes =
    Partial-if (ltb 29 (c.header_wptr + length bytes)) _ _ (λ _. gives c (refl, refl, refl, refl))
      λ _.
        Partial-skip (copy_into c.header_bytes c.header_wptr bytes)
          λ saved. gives _ (refl, refl, refl, refl)

IsLogged-same :
    (l : ℕ) (c c1 : Circle) (f : KeyFrames) (g : Log)
    → c1.cb_buff ≡ c.cb_buff
    → c1.cb_len ≡ c.cb_len
    → c1.cb_wptr ≡ c.cb_wptr
    → IsLogged l c f g
    → IsLogged l c1 f g
IsLogged-same l c c1 f g buff len place v = record {
  tail = record {
    nonempty = v.tail.nonempty;
    len = len ∙ v.tail.len;
    size = ap (λ b. length b) buff ∙ v.tail.size;
    place = place ∙ v.tail.place;
    holds = subst (λ b. Holds l b g.stream) (sym buff) v.tail.holds;
  };
  ring = v.ring;
  reads = v.reads;
  writes = v.writes;
  entries = v.entries;
  intact = v.intact;
  frame = v.frame;
}

-- What the callback adds to the log.
abbrev pub log_buffer : (l : ℕ) → Buffer → Log → Log
log_buffer l b g = if b.config || b.side_info then g else log_frame l b g

-- Header bytes and side information are always suitable.
abbrev pub IsSuitable : (l : ℕ) → Buffer → Log → Type 0
IsSuitable l b g =
    (b.config ≡ false) → (b.side_info ≡ false) → Suits l b g × Whole l (log_frame l b g).starts

-- For a suitable buffer of any kind the circular mode of the callback returns, without an access out of
-- bounds, and the state stands for the log with what the buffer adds: frame data only.
pub keep_buffer-IsLogged :
    (l : ℕ) (b : Buffer) (c : Circle) (f : KeyFrames) (g : Log)
    → IsLogged l c f g
    → HasHeader c
    → IsSuitable l b g
    → (c1 : Circle) × (f1 : KeyFrames) × (errors : ℕ) × (keep_buffer b c f ≡ some (c1, f1, errors))
      × IsLogged l c1 f1 (log_buffer l b g)
      × HasHeader c1
unfolding keep_buffer
keep_buffer-IsLogged l b c f g v h s = elim (Bool-cases b.config) [
  | inl header ↦
      let (c1, e, kept, _, _) = save_header-HasHeader c b.bytes h in
      let (buff, len, place, wrap) = Partial-some (save_header-same c b.bytes) e in
      rw (header, e) (c1, f, _, refl, IsLogged-same l c c1 f g buff len place v, kept)
  | inr no_header ↦ elim (Bool-cases b.side_info) [
    | inl side ↦ rw (no_header, side) (c, f, 0, refl, v, h)
    | inr frame ↦
        let (suits, whole) = s no_header frame in
        let room : length (log_frame l b g).starts < iframe_bufsize =
          let more = length-starts_with b g in
          let fewer =
            length-drop_overwritten l (length g.stream + length b.bytes) (starts_with b g) in
          let r = suits.room in omega arith in
        let (c1, f1, e, v1, _, bytes, place) = store_frame-IsLogged l b c f g v suits in
        let (errors, checked, _) = Returns-some (
          check_frames-Returns (iframe_bufsize + 1) l c1.cb_buff f1.iframe_buff f1.iframe_buff_rpos
            f1.iframe_buff_wpos (log_frame l b g).starts v1.tail.size v1.reads (omega arith) room
            v1.entries whole) in
        let header1 : HasHeader c1 =
          (ap (λ b. length b) bytes ∙ h.0, subst (λ n. n ≤ 29) (sym place) h.1) in
        rw (no_header, frame, e) (rw checked (c1, f1, errors, refl, v1, header1))
  ]
]

-- Of a buffer and a ring that a run has kept, and that is not full, if the oldest listed key
-- frame starts at the last place of the circular buffer, with a first byte 0 like that of a start
-- code, the check of the list reads behind the buffer.
pub check_frames-behind :
    (l fuel : ℕ) (c : Circle) (f : KeyFrames) (g : Log) (o : ℕ) (os : List ℕ)
    → IsLogged l c f g
    → g.starts ≡ o ∷ os
    → length g.starts < iframe_bufsize
    → o < length g.stream
    → o % l + 1 ≡ l
    → get_elem? g.stream o ≡ some 0
    → check_frames fuel c.cb_buff f.iframe_buff f.iframe_buff_rpos f.iframe_buff_wpos ≡ none
unfolding check_frames has_start_code
check_frames-behind l zero c f g o os v e room before at zero_byte = refl
check_frames-behind l (suc fuel) c f g o os v e room before at zero_byte =
    let entries =
      subst (λ xs. Window l f.iframe_buff f.iframe_buff_rpos xs f.iframe_buff_wpos) e v.entries in
    let intact =
      subst (λ xs. Intact l (length g.stream) (start_or (length g.stream) g.begun) xs) e v.intact in
    let last =
      Window-end l f.iframe_buff f.iframe_buff_rpos g.starts f.iframe_buff_wpos v.reads v.entries in
    let few = ap (λ xs. length xs) e in
    let more : (f.iframe_buff_rpos == f.iframe_buff_wpos) ≡ false =
      ground (arith, last, few, v.reads) in
    let first : get_elem? c.cb_buff (o % l) ≡ some 0 = v.tail.holds o before intact.0 ∙ zero_byte in
    let behind : get_elem? c.cb_buff (o % l + 1) ≡ none =
      get_elem?-behind c.cb_buff (o % l + 1) (let size = v.tail.size in omega arith) in
    rw (more, entries.0, first, behind) refl
