-- ===== src/Recorder/KeyFrames/Places.antt =====
-- src/recorder/RaspiVidBalls.c: places of the circular buffer as offsets in the encoded stream, and
-- which of them the `while` loop of `encoder_buffer_callback` takes for overtaken.
use foosball_tracker.Common.{ℕ, ◌+◌, ◌-◌, ◌%◌, ◌≤◌, ◌<◌, ◌≡◌, inl, inr, ap, arith, true, false}
use foosball_tracker.Common.Places.{mod-add-cases}
use foosball_tracker.Recorder.KeyFrames.{is_overtaken}

module _ (l o n m : ℕ) (pos : 0 < l) (before : o < n) (near : n ≤ o + l) where
  -- An earlier byte that is still in the buffer is overtaken exactly where the new bytes reach its
  -- place.
  pub is_overtaken-true : o + l < n + m → is_overtaken l (n % l) m (o % l) ≡ true
  unfolding is_overtaken
  is_overtaken-true reached =
      let e : o + (n - o) ≡ n = omega arith in
      let place = ap (λ k. k % l) e in
      elim (mod-add-cases l o (n - o) pos (omega arith)) [
        | inl (fits, here) ↦ ground arith
        | inr (over, around) ↦ ground arith
      ]

  pub is_overtaken-false : n + m ≤ o + l → is_overtaken l (n % l) m (o % l) ≡ false
  unfolding is_overtaken
  is_overtaken-false short =
      let e : o + (n - o) ≡ n = omega arith in
      let place = ap (λ k. k % l) e in
      elim (mod-add-cases l o (n - o) pos (omega arith)) [
        | inl (fits, here) ↦ ground arith
        | inr (over, around) ↦ ground arith
      ]
