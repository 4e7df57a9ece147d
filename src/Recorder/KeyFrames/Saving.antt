-- ===== src/Recorder/KeyFrames/Saving.antt =====
-- src/recorder/RaspiVidBalls.c: what the end of `main` saves of the circular buffer.
use foosball_tracker.Common.{
  ℕ, zero, suc, ◌+◌, ◌-◌, ◌%◌, ◌≤◌, ◌<◌, ◌≡◌, inl, inr, refl, sym, ap, ◌∙◌, subst, arith, true,
  false, if◌then◌else◌, ltb, List, [], ◌∷◌, ◌++◌, some, length, get_elem?, take, drop, take-drop,
  length-drop, take-all, drop-get_elem?, >>=-eq-some, get_elem?_total,
}
use native.Mathlib.Nat.{mod-lt, mod-eq_of_lt, add-mod_right}
use foosball_tracker.Common.Places.{mod-add-cases, mod-next}
use foosball_tracker.Recorder.Circular.{Circle}
use foosball_tracker.Recorder.Circular.Tail.{IsTail, Holds}
use foosball_tracker.Recorder.KeyFrames.{slice?, copy_from_end, copy_from_start}

pub slice?-take :
    (buff : List ℕ) (at k : ℕ)
    → at + k ≤ length buff
    → slice? buff at k ≡ some (take k (drop at buff))
unfolding slice?
slice?-take buff at zero h = refl
slice?-take buff at (suc k) h =
    let (b, e) = get_elem?_total buff at (omega arith) in
    let next : drop (at + 1) buff ≡ drop (suc at) buff =
      ap (λ i. drop i buff) {x = at + 1} {y = suc at} (omega arith) in
    rw (e, slice?-take buff (at + 1) k (omega arith), drop-get_elem? at buff e, next) refl

-- A piece of the circular buffer that ends before the buffer does is a piece of the stream.
slice?-stream :
    (l : ℕ) (buff stream : List ℕ) (i at k : ℕ)
    → Holds l buff stream
    → length stream ≤ i + l
    → i + k ≤ length stream
    → at + k ≤ l
    → (0 < k → i % l ≡ at)
    → slice? buff at k ≡ some (take k (drop i stream))
unfolding slice?
slice?-stream l buff stream i at zero holds near inside fits place = refl
slice?-stream l buff stream i at (suc k) holds near inside fits place =
    let here = place (omega arith) in
    let (b, e) = get_elem?_total stream i (omega arith) in
    let read : get_elem? buff at ≡ some b =
      subst (λ p. get_elem? buff p ≡ some b) here (holds i (omega arith) near ∙ e) in
    let next : drop (i + 1) stream ≡ drop (suc i) stream =
      ap (λ j. drop j stream) {x = i + 1} {y = suc i} (omega arith) in
    let rest =
      slice?-stream l buff stream (i + 1) (at + 1) k holds (omega arith) (omega arith) (omega arith)
        (λ more. mod-next l i (omega (arith, here, more, fits)) ∙ ap (λ p. p + 1) here) in
    rw (read, rest, drop-get_elem? i stream e, next) refl

-- Two pieces that follow each other.
pub take-take : (j k : ℕ) (xs : List ℕ) → j + k ≡ length xs → take j xs ++ take k (drop j xs) ≡ xs
take-take j k xs e =
    let left = length-drop j xs in
    let all : take k (drop j xs) ≡ drop j xs =
      ap (λ n. take n (drop j xs)) {x = k} {y = length (drop j xs)} (omega arith)
      ∙ take-all (drop j xs) in
    ap (◌++◌ (take j xs)) all ∙ take-drop j xs

slice?-append :
    (buff : List ℕ) (at j k : ℕ) (xs ys : List ℕ)
    → slice? buff at j ≡ some xs
    → slice? buff (at + j) k ≡ some ys
    → slice? buff at (j + k) ≡ some (xs ++ ys)
unfolding slice?
slice?-append buff at zero k xs ys first second =
    let here : slice? buff (at + 0) k ≡ slice? buff at (0 + k) =
      ap (λ i. slice? buff i k) {x = at + 0} {y = at} (omega arith)
      ∙ ap (slice? buff at) {x = k} {y = 0 + k} (omega arith) in
    let none_first : xs ≡ [] = cc in rw none_first (sym here ∙ second)
slice?-append buff at (suc j) k xs ys first second =
    let (b, read, rest) = >>=-eq-some (get_elem? buff at) _ first in
    let (bs, further, same) = >>=-eq-some (slice? buff (at + 1) j) _ rest in
    let moved : slice? buff (at + 1 + j) k ≡ some ys =
      ap (λ i. slice? buff i k) {x = at + 1 + j} {y = at + suc j} (omega arith) ∙ second in
    let longer : suc j + k ≡ suc (j + k) = omega arith in
    let one : xs ≡ b ∷ bs = cc in
    rw (longer, read, slice?-append buff (at + 1) j k bs ys further moved, one) refl

-- The pieces of the stream that the two copies from the circular buffer save, where it was never full.
pub copies-short :
    (c : Circle) (l p : ℕ) (stream : List ℕ)
    → IsTail c l stream
    → c.cb_wrap ≡ false
    → length stream < l
    → (slice? c.cb_buff p (copy_from_end c p) ≡ some [])
      × (slice? c.cb_buff 0 (copy_from_start c p) ≡ some stream)
unfolding slice?
copies-short c l p stream t short lt =
    let at : c.cb_wptr ≡ length stream = t.place ∙ mod-eq_of_lt lt in
    let whole =
      slice?-stream l c.cb_buff stream 0 0 (length stream) t.holds (omega arith) (omega arith)
        (omega arith) (λ more. mod-eq_of_lt t.nonempty) in
    rw (short, at) (refl, whole ∙ ap some (take-all stream))

-- The two copies where the oldest key frame starts behind the write pointer.
pub copies-wrapped :
    (c : Circle) (l o : ℕ) (stream : List ℕ)
    → IsTail c l stream
    → c.cb_wrap ≡ true
    → o < length stream
    → length stream ≤ o + l
    → c.cb_wptr ≤ o % l
    → (slice? c.cb_buff (o % l) (copy_from_end c (o % l)) ≡ some (take (l - o % l) (drop o stream)))
      × (slice? c.cb_buff 0 (copy_from_start c (o % l))
          ≡ some (take c.cb_wptr (drop (o + (l - o % l)) stream)))
      × (l - o % l + c.cb_wptr ≡ length stream - o)
copies-wrapped c l o stream t full before near behind =
    let n = length stream in
    let p = o % l in
    let inside : p < l = mod-lt o t.nonempty in
    let place = t.place in
    let to_end : o + (n - o) ≡ n = omega arith in
    let place1 : (o + (n - o)) % l ≡ c.cb_wptr = ap (λ k. k % l) to_end ∙ sym place in
    let around : (l ≤ p + (n - o)) × (c.cb_wptr + l ≡ p + (n - o)) =
      elim (mod-add-cases l o (n - o) t.nonempty (omega arith)) [
        | inl (fits, here) ↦ absurd (omega (arith, before))
        | inr (over, here) ↦ (over, omega (arith, place1, here))
      ] in
    let lap : (o + (l - p)) % l ≡ 0 = elim (mod-add-cases l o (l - p) t.nonempty (omega arith)) [
      | inl (fits, here) ↦ absurd (omega arith)
      | inr (over, here) ↦ omega (arith, here)
    ] in
    let len : c.cb_len - p ≡ l - p = ap (λ k. k - p) t.len in
    let back : c.cb_len - (l - p) ≡ p = let e = t.len in omega arith in
    let start : (if ltb c.cb_wptr p then c.cb_wptr else p) ≡ c.cb_wptr = ground arith in
    rw (full, len, back, start)
      (
        slice?-stream l c.cb_buff stream o p (l - p) t.holds near (omega arith) (omega arith)
            (λ more. refl),
        slice?-stream l c.cb_buff stream (o + (l - p)) 0 c.cb_wptr t.holds (omega arith)
            (omega arith) (omega arith) (λ more. lap),
        omega arith,
      )

-- The two copies where the oldest key frame starts before the write pointer: the rest of the buffer
-- behind the pointer is older than that frame.
pub copies-stale :
    (c : Circle) (l o : ℕ) (stream : List ℕ)
    → IsTail c l stream
    → c.cb_wrap ≡ true
    → o < length stream
    → length stream ≤ o + l
    → l ≤ length stream
    → o % l < c.cb_wptr
    → (slice? c.cb_buff (o % l) (copy_from_end c (o % l))
        ≡ some (drop o stream ++ take (l - c.cb_wptr) (drop (length stream - l) stream)))
      × (slice? c.cb_buff 0 (copy_from_start c (o % l))
          ≡ some (take (o % l) (drop (length stream - l + (l - c.cb_wptr)) stream)))
      × (l - c.cb_wptr + o % l ≡ o + l - length stream)
copies-stale c l o stream t full before near filled ahead =
    let n = length stream in
    let p = o % l in
    let w = c.cb_wptr in
    let inside : w < l = let q = mod-lt n t.nonempty in let e = t.place in omega arith in
    let to_end : o + (n - o) ≡ n = omega arith in
    let place1 : (o + (n - o)) % l ≡ w = ap (λ k. k % l) to_end ∙ sym t.place in
    let straight : w ≡ p + (n - o) = elim (mod-add-cases l o (n - o) t.nonempty (omega arith)) [
      | inl (fits, here) ↦ omega (arith, place1, here)
      | inr (over, here) ↦ absurd (omega (arith, place1, here))
    ] in
    let lap_back : n - l + l ≡ n = omega arith in
    let old_place : (n - l) % l ≡ w =
      sym (add-mod_right (n - l) l) ∙ ap (λ k. k % l) lap_back ∙ sym t.place in
    let lap : (n - l + (l - w)) % l ≡ 0 =
      elim (mod-add-cases l (n - l) (l - w) t.nonempty (omega arith)) [
        | inl (fits, here) ↦ absurd (omega (arith, old_place))
        | inr (over, here) ↦ omega (arith, old_place, here)
      ] in
    let len : c.cb_len - p ≡ n - o + (l - w) = let e = t.len in omega arith in
    let back : c.cb_len - (n - o + (l - w)) ≡ p = let e = t.len in omega arith in
    let start : (if ltb w p then w else p) ≡ p = ground arith in
    let newest : slice? c.cb_buff p (n - o) ≡ some (drop o stream) =
      slice?-stream l c.cb_buff stream o p (n - o) t.holds near (omega arith) (omega arith)
        (λ more. refl)
      ∙ ap some (
          ap (λ k. take k (drop o stream)) (sym (length-drop o stream))
          ∙ take-all (drop o stream)) in
    let behind : slice? c.cb_buff (p + (n - o)) (l - w)
        ≡ some (take (l - w) (drop (n - l) stream)) =
      slice?-stream l c.cb_buff stream (n - l) (p + (n - o)) (l - w) t.holds (omega arith)
        (omega arith) (omega arith) (λ more. old_place ∙ straight) in
    rw (full, len, back, start)
      (
        slice?-append c.cb_buff p (n - o) (l - w) _ _ newest behind,
        slice?-stream l c.cb_buff stream (n - l + (l - w)) 0 p t.holds (omega arith) (omega arith)
            (omega arith) (λ more. lap),
        omega arith,
      )
