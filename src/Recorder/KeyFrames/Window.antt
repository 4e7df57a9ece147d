-- ===== src/Recorder/KeyFrames/Window.antt =====
-- src/recorder/RaspiVidBalls.c: the entries between the read and the write position of the ring of key
-- frames.
use foosball_tracker.Common.{
  ℕ, ◌+◌, ◌%◌, ◌<◌, ◌≡◌, ◌≢◌, sym, ap, ◌∙◌, subst, arith, List, [], ◌∷◌, ◌++◌, some, length,
  get_elem?, set, get_elem?-set_self, get_elem?-set_ne,
}
use foosball_tracker.Recorder.KeyFrames.{next_place, iframe_bufsize}

-- From `r` on the ring has the places of these offsets of the stream, and ends before `w`.
abbrev pub Window : (l : ℕ) → List ℕ → (r : ℕ) → List ℕ → (w : ℕ) → Type 0
Window l buff r [] w = r ≡ w
Window l buff r (o ∷ os) w = (get_elem? buff r ≡ some (o % l)) × Window l buff (next_place r) os w

pub Window-end :
    (l : ℕ) (buff : List ℕ) (r : ℕ) (os : List ℕ) (w : ℕ)
    → r < iframe_bufsize
    → Window l buff r os w
    → (r + length os) % iframe_bufsize ≡ w
Window-end l buff r [] w lt h = omega arith
Window-end l buff r (o ∷ os) w lt (here, rest) =
    let further = Window-end l buff (next_place r) os w (omega arith) rest in omega arith

-- A write to the write position of a ring that is not full changes no entry.
pub Window-set :
    (l : ℕ) (buff : List ℕ) (r : ℕ) (os : List ℕ) (w v : ℕ)
    → r < iframe_bufsize
    → length os < iframe_bufsize
    → Window l buff r os w
    → Window l (set buff w v) r os w
Window-set l buff r [] w v lt room h = h
Window-set l buff r (o ∷ os) w v lt room (here, rest) =
    let last = Window-end l buff r (o ∷ os) w lt (here, rest) in
    let apart : w ≢ r = λ e. absurd (omega (arith, e)) in
    (
      get_elem?-set_ne buff w r v apart ∙ here,
      Window-set l buff (next_place r) os w v (omega arith) (omega arith) rest,
    )

pub Window-snoc :
    (l : ℕ) (buff : List ℕ) (r : ℕ) (os : List ℕ) (w o : ℕ)
    → get_elem? buff w ≡ some (o % l)
    → Window l buff r os w
    → Window l buff r (os ++ o ∷ []) (next_place w)
Window-snoc l buff r [] w o here e =
    (subst (λ i. get_elem? buff i ≡ some (o % l)) (sym e) here, ap next_place e)
Window-snoc l buff r (p ∷ os) w o here (first, rest) =
    (first, Window-snoc l buff (next_place r) os w o here rest)

-- Writing an entry at the write position and moving that on adds the entry.
pub Window-push :
    (l : ℕ) (buff : List ℕ) (r : ℕ) (os : List ℕ) (w o : ℕ)
    → r < iframe_bufsize
    → length os < iframe_bufsize
    → w < length buff
    → Window l buff r os w
    → Window l (set buff w (o % l)) r (os ++ o ∷ []) (next_place w)
Window-push l buff r os w o lt room inside h =
    Window-snoc l (set buff w (o % l)) r os w o (get_elem?-set_self buff w (o % l) inside)
      (Window-set l buff r os w (o % l) lt room h)
