-- ===== src/Recorder/KeyFrames/Moving.antt =====
-- src/recorder/RaspiVidBalls.c: where the `while` loop of `encoder_buffer_callback` stops.
use foosball_tracker.Common.{
  ℕ, zero, suc, ◌+◌, ◌%◌, ◌≤◌, ◌<◌, ◌≡◌, ◌⊎◌, inl, inr, refl, ap, arith, ltb, ltb→lt, ltb→le,
  le→ltb, ◌==◌, ==_iff, if◌then◌else◌, Bool-cases, List, [], ◌∷◌, some, length,
}
use foosball_tracker.Recorder.Circular.{Circle}
use foosball_tracker.Recorder.KeyFrames.{
  KeyFrames, iframe_bufsize, next_place, move_along, overtake,
}
use foosball_tracker.Recorder.KeyFrames.Places.{is_overtaken-true, is_overtaken-false}
use foosball_tracker.Recorder.KeyFrames.Window.{Window, Window-end}

-- The key frames from the first on that is still in a buffer of `l` bytes where the stream has `end`
-- bytes.
abbrev pub drop_overwritten : (l end : ℕ) → List ℕ → List ℕ
drop_overwritten l end [] = []
drop_overwritten l end (o ∷ os) = if ltb (o + l) end then drop_overwritten l end os else o ∷ os

-- From `o` on the offsets do not fall, and they end at most at `hi`.
abbrev pub Chain : (o hi : ℕ) → List ℕ → Type 0
Chain o hi [] = o ≤ hi
Chain o hi (p ∷ os) = (o ≤ p) × Chain p hi os

-- The offsets do not fall, and none is overwritten where the stream has `n` bytes.
abbrev pub Intact : (l n hi : ℕ) → List ℕ → Type 0
Intact l n hi [] = Unit {0}
Intact l n hi (o ∷ os) = (n ≤ o + l) × Chain o hi os

-- Some offset before `here` is not overwritten where the stream has `end` bytes.
abbrev pub Kept : (l end here : ℕ) → List ℕ → Type 0
Kept l end here [] = ⊥
Kept l end here (o ∷ os) = ((o < here) × (end ≤ o + l)) ⊎ Kept l end here os

-- The same, or there is one offset only, and that is not overwritten.
abbrev pub Stays : (l end here : ℕ) → List ℕ → Type 0
Stays l end here os = ((o : ℕ) × (os ≡ o ∷ []) × (end ≤ o + l)) ⊎ Kept l end here os

Intact-tail : (l n hi o : ℕ) (os : List ℕ) → Intact l n hi (o ∷ os) → Intact l n hi os
Intact-tail l n hi o [] h = tt
Intact-tail l n hi o (p ∷ os) (near, (le, rest)) = (omega arith, rest)

Kept-lt : (l end here hi o : ℕ) (os : List ℕ) → Chain o hi os → Kept l end here os → o < here
Kept-lt l end here hi o [] h k = absurd k
Kept-lt l end here hi o (p ∷ os) (le, rest) (inl (lt, fits)) = omega arith
Kept-lt l end here hi o (p ∷ os) (le, rest) (inr k) =
    let lt = Kept-lt l end here hi p os rest k in omega arith

pub drop_overwritten-Intact :
    (l n end hi : ℕ) (os : List ℕ) → Intact l n hi os → Intact l end hi (drop_overwritten l end os)
drop_overwritten-Intact l n end hi [] h = tt
drop_overwritten-Intact l n end hi (o ∷ os) h = elim (Bool-cases (ltb (o + l) end)) [
  | inl over ↦ rw over (drop_overwritten-Intact l n end hi os (Intact-tail l n hi o os h))
  | inr fits ↦ rw fits (ltb→le (o + l) end fits, h.1)
]

pub length-drop_overwritten :
    (l end : ℕ) (os : List ℕ) → length (drop_overwritten l end os) ≤ length os
length-drop_overwritten l end [] = omega arith
length-drop_overwritten l end (o ∷ os) = elim (Bool-cases (ltb (o + l) end)) [
  | inl over ↦ rw over (let rest = length-drop_overwritten l end os in omega arith)
  | inr fits ↦ rw fits (omega arith)
]

-- With a key frame that stays, the loop stops at the first that does, in a round for each entry.
move_along-Window :
    (fuel l n m hi : ℕ) (buff : List ℕ) (r : ℕ) (os : List ℕ) (w : ℕ)
    → 0 < l
    → length os ≤ fuel
    → r < iframe_bufsize
    → Window l buff r os w
    → Intact l n hi os
    → Kept l (n + m) n os
    → (r1 : ℕ) × (move_along fuel l (n % l) m buff r ≡ some r1)
      × (r1 < iframe_bufsize)
      × Window l buff r1 (drop_overwritten l (n + m) os) w
unfolding move_along
move_along-Window fuel l n m hi buff r [] w pos enough lt h near k = absurd k
move_along-Window zero l n m hi buff r (o ∷ os) w pos enough lt h near k = absurd (omega arith)
move_along-Window (suc fuel) l n m hi buff r (o ∷ os) w pos enough lt (here, rest) near k =
    elim (Bool-cases (ltb (o + l) (n + m))) [
      | inl over ↦
          let reached = ltb→lt (o + l) (n + m) over in
          let k1 : Kept l (n + m) n os = elim k [
            | inl (before, fits) ↦ absurd (omega arith)
            | inr k1 ↦ k1
          ] in
          let before = Kept-lt l (n + m) n hi o os near.1 k1 in
          rw (here, over, is_overtaken-true l o n m pos before near.0 reached)
            (move_along-Window fuel l n m hi buff (next_place r) os w pos (omega arith)
              (omega arith) rest (Intact-tail l n hi o os near) k1)
      | inr stays ↦
          let short = ltb→le (o + l) (n + m) stays in
          let before : o < n = elim k [
            | inl (before, fits) ↦ before
            | inr k1 ↦ Kept-lt l (n + m) n hi o os near.1 k1
          ] in
          rw (here, stays, is_overtaken-false l o n m pos before near.0 short)
            (r, refl, lt, (here, rest))
    ]

drop_overwritten-single :
    (l end here : ℕ) (os : List ℕ)
    → length os ≡ 1
    → Stays l end here os
    → drop_overwritten l end os ≡ os
drop_overwritten-single l end here [] e s = refl
drop_overwritten-single l end here (o ∷ p ∷ os) e s = absurd (omega arith)
drop_overwritten-single l end here (o ∷ []) e (inl (p, same, fits)) =
    let eq : o ≡ p = cc in rw (le→ltb (o + l) end (omega arith)) refl
drop_overwritten-single l end here (o ∷ []) e (inr (inl (lt, fits))) =
    rw (le→ltb (o + l) end fits) refl
drop_overwritten-single l end here (o ∷ []) e (inr (inr k)) = absurd k

Stays-Kept :
    (l end here : ℕ) (os : List ℕ) → (length os ≡ 1 → ⊥) → Stays l end here os → Kept l end here os
Stays-Kept l end here os more (inl (o, e, fits)) = absurd (more (ap length e))
Stays-Kept l end here os more (inr k) = k

-- Where a key frame stays, the read position is moved to the first that does.
pub overtake-Window :
    (l n hi m : ℕ) (c : Circle) (f : KeyFrames) (os : List ℕ)
    → 0 < l
    → c.cb_len ≡ l
    → c.cb_wptr ≡ n % l
    → f.iframe_buff_rpos < iframe_bufsize
    → length os < iframe_bufsize
    → Window l f.iframe_buff f.iframe_buff_rpos os f.iframe_buff_wpos
    → Intact l n hi os
    → Stays l (n + m) n os
    → (r1 : ℕ) × (overtake c m f ≡ some (record f { iframe_buff_rpos = r1 }))
      × (r1 < iframe_bufsize)
      × Window l f.iframe_buff r1 (drop_overwritten l (n + m) os) f.iframe_buff_wpos
unfolding overtake
overtake-Window l n hi m c f os pos len place lt room h near s =
    let last = Window-end l f.iframe_buff f.iframe_buff_rpos os f.iframe_buff_wpos lt h in
    elim (Bool-cases (next_place f.iframe_buff_rpos == f.iframe_buff_wpos)) [
      | inl one ↦
          let single : length os ≡ 1 = let e = (==_iff _ _).0 one in omega arith in
          let all : drop_overwritten l (n + m) os ≡ os =
            drop_overwritten-single l (n + m) n os single s in
          rw (one, all) (f.iframe_buff_rpos, refl, lt, h)
      | inr more ↦
          let k =
            Stays-Kept l (n + m) n os (λ single. absurd (ground (arith, last, more, single))) s in
          let (r1, e, inside, kept) =
            move_along-Window iframe_bufsize l n m hi f.iframe_buff f.iframe_buff_rpos os
              f.iframe_buff_wpos pos (omega arith) lt h near k in
          rw (more, len, place, e) (r1, refl, inside, kept)
    ]
