-- ===== src/Recorder/KeyFrames/Saved.antt =====
-- src/recorder/RaspiVidBalls.c: the end of `main` saves the stream from the oldest listed key frame on.
use foosball_tracker.Common.{
  ℕ, ◌+◌, ◌-◌, ◌%◌, ◌≤◌, ◌<◌, ◌≡◌, inl, inr, refl, sym, ap, ◌∙◌, subst, arith, true, false,
  if◌then◌else◌, if-true, if-false, Bool-cases, List, [], ◌∷◌, ◌++◌, some, length, get_elem?, take,
  drop, length-drop, drop-drop,
}
use foosball_tracker.Recorder.Circular.{Circle}
use foosball_tracker.Recorder.Circular.Header.{HasHeader}
use foosball_tracker.Recorder.Circular.Tail.{Filling}
use foosball_tracker.Recorder.KeyFrames.{
  KeyFrames, start_or, slice?, copy_from_end, copy_from_start, saved,
}
use foosball_tracker.Recorder.KeyFrames.Log.{Log, IsLogged}
use foosball_tracker.Recorder.KeyFrames.Window.{Window}
use foosball_tracker.Recorder.KeyFrames.Moving.{Intact}
use foosball_tracker.Recorder.KeyFrames.Saving.{
  slice?-take, take-take, copies-short, copies-wrapped,
}

-- The saved header bytes.
abbrev pub header_of : Circle → List ℕ
header_of c = take c.header_wptr c.header_bytes

saved-copies :
    (c : Circle) (f : KeyFrames) (p : ℕ) (old new : List ℕ)
    → HasHeader c
    → get_elem? f.iframe_buff f.iframe_buff_rpos ≡ some p
    → slice? c.cb_buff p (copy_from_end c p) ≡ some old
    → slice? c.cb_buff 0 (copy_from_start c p) ≡ some new
    → saved c f ≡ some (header_of c ++ (old ++ new))
unfolding saved
saved-copies c f p old new (places, next) oldest first second =
    let header : slice? c.header_bytes 0 c.header_wptr ≡ some (take c.header_wptr c.header_bytes) =
      slice?-take c.header_bytes 0 c.header_wptr (omega arith) in
    rw (oldest, header, first, second) refl

oldest_place :
    (l : ℕ) (c : Circle) (f : KeyFrames) (g : Log) (o : ℕ) (os : List ℕ)
    → IsLogged l c f g
    → g.starts ≡ o ∷ os
    → (get_elem? f.iframe_buff f.iframe_buff_rpos ≡ some (o % l)) × (length g.stream ≤ o + l)
oldest_place l c f g o os v e =
    let entries =
      subst (λ xs. Window l f.iframe_buff f.iframe_buff_rpos xs f.iframe_buff_wpos) e v.entries in
    let intact =
      subst (λ xs. Intact l (length g.stream) (start_or (length g.stream) g.begun) xs) e v.intact in
    (entries.0, intact.0)

module _ (l : ℕ) (c : Circle) (f : KeyFrames) (g : Log) (v : IsLogged l c f g) (h : HasHeader c)
    (o : ℕ) (os : List ℕ) (oldest : g.starts ≡ o ∷ os) where
  -- A stream shorter than the circular buffer is saved whole behind the header bytes.
  saved-short : c.cb_wrap ≡ false → length g.stream < l → saved c f ≡ some (header_of c ++ g.stream)
  saved-short short lt =
      let (first, second) = copies-short c l (o % l) g.stream v.tail short lt in
      saved-copies c f (o % l) [] g.stream h (oldest_place l c f g o os v oldest).0 first second

  -- Where the write pointer has gone over the end and not beyond the place of the oldest listed key
  -- frame, the stream from that frame on is saved behind the header bytes.
  saved-from_key_frame :
      c.cb_wrap ≡ true
      → o < length g.stream
      → c.cb_wptr ≤ o % l
      → saved c f ≡ some (header_of c ++ drop o g.stream)
  saved-from_key_frame full before behind =
      let (place, near) = oldest_place l c f g o os v oldest in
      let (first, second, sizes) = copies-wrapped c l o g.stream v.tail full before near behind in
      let all : take (l - o % l) (drop o g.stream)
            ++ take c.cb_wptr (drop (o + (l - o % l)) g.stream)
          ≡ drop o g.stream =
        ap (λ xs. take (l - o % l) (drop o g.stream) ++ take c.cb_wptr xs)
          (sym (drop-drop o (l - o % l) g.stream))
        ∙ take-take (l - o % l) c.cb_wptr (drop o g.stream)
            (sizes ∙ sym (length-drop o g.stream)) in
      saved-copies c f (o % l) _ _ h place first second ∙ ap (λ xs. some (header_of c ++ xs)) all

  -- Of a buffer and a ring that a run has kept, with an oldest listed key frame that starts
  -- before the end of the stream: if the write pointer has never gone over the end and the stream
  -- is shorter than the buffer, the header bytes are saved and behind them the whole stream. If
  -- it has gone over the end and is not beyond the place of that key frame, the header bytes are
  -- saved and behind them the stream from the key frame on. A stream that has just filled the
  -- buffer is not covered.
  pub saved_stream :
      Filling c l g.stream
      → o < length g.stream
      → (c.cb_wrap ≡ true → c.cb_wptr ≤ o % l)
      → saved c f ≡ some (header_of c ++ (if c.cb_wrap then drop o g.stream else g.stream))
  saved_stream filling before behind = elim (Bool-cases c.cb_wrap) [
    | inl full ↦
        saved-from_key_frame full before (behind full)
        ∙ ap (λ xs. some (header_of c ++ xs)) (sym (if-true c.cb_wrap _ _ full))
    | inr short ↦
        saved-short short (elim filling [ inl full ↦ absurd (cc) | inr lt ↦ lt ])
        ∙ ap (λ xs. some (header_of c ++ xs)) (sym (if-false c.cb_wrap _ _ short))
  ]
