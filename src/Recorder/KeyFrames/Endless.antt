-- ===== src/Recorder/KeyFrames/Endless.antt =====
-- src/recorder/RaspiVidBalls.c: where the `while` loop of `encoder_buffer_callback` does not end.
use foosball_tracker.Common.{
  ℕ, zero, suc, ◌<◌, [], ◌≡◌, refl, sym, ◌∙◌, subst, arith, true, false, List, none, length,
  get_elem?_total, Every,
}
use native.Mathlib.Nat.{zero-mod}
use foosball_tracker.Recorder.Circular.{Circle}
use foosball_tracker.Recorder.KeyFrames.{
  Buffer, KeyFrames, iframe_bufsize, next_place, is_overtaken, move_along, note_frame, overtake,
  store_frame,
}
use foosball_tracker.Recorder.KeyFrames.Log.{Log, IsLogged, IsBegun}

-- Where every entry of the array is overtaken, in use or not, the loop ends in no number of rounds.
pub move_along-endless :
    (fuel l w m : ℕ) (buff : List ℕ) (r : ℕ)
    → length buff ≡ iframe_bufsize
    → r < iframe_bufsize
    → Every (λ p. is_overtaken l w m p ≡ true) buff
    → move_along fuel l w m buff r ≡ none
unfolding move_along
move_along-endless zero l w m buff r size lt all = refl
move_along-endless (suc fuel) l w m buff r size lt all =
    let (p, e) = get_elem?_total buff r (omega arith) in
    rw (e, all r p e) (move_along-endless fuel l w m buff (next_place r) size (omega arith) all)

-- The state in which `main` starts.
pub record IsFresh (c : Circle) (f : KeyFrames) : Type 0 where
  pub start : c.cb_wptr ≡ 0
  pub ring : length f.iframe_buff ≡ iframe_bufsize
  pub zeros : Every (λ p. p ≡ 0) f.iframe_buff
  pub reads : f.iframe_buff_rpos ≡ 0
  pub writes : f.iframe_buff_wpos ≡ 0
  pub frame : f.frame_start ≡ none

abbrev pub no_log : Log
no_log = record { stream = []; starts = []; begun = none }

-- It stands for the empty log, if the circular buffer has its length.
pub IsFresh-IsLogged :
    (l : ℕ) (c : Circle) (f : KeyFrames)
    → IsFresh c f
    → 0 < l
    → c.cb_len ≡ l
    → length c.cb_buff ≡ l
    → IsLogged l c f no_log
IsFresh-IsLogged l c f h pos len size = record {
  tail = record {
    nonempty = pos;
    len = len;
    size = size;
    place = h.start ∙ sym (zero-mod l);
    holds = λ i lt. absurd (omega (arith, lt));
  };
  ring = h.ring;
  reads = let r = h.reads in omega arith;
  writes = let w = h.writes in omega arith;
  entries = h.reads ∙ sym h.writes;
  intact = tt;
  frame = subst (λ p. IsBegun l 0 p none) (sym h.frame) tt;
}

-- The first frame data of a recording without the flag of a key frame makes the loop endless: every
-- entry of the empty ring is 0, the place that is written.
pub store_frame-keyless :
    (b : Buffer) (c : Circle) (f : KeyFrames)
    → IsFresh c f
    → b.keyframe ≡ false
    → 0 < length b.bytes
    → ((fuel : ℕ)
        → move_along fuel c.cb_len c.cb_wptr (length b.bytes) f.iframe_buff f.iframe_buff_rpos
          ≡ none)
      × (store_frame b c f ≡ none)
unfolding store_frame note_frame overtake is_overtaken
store_frame-keyless b c f h plain some_bytes =
    let all : Every (λ p. is_overtaken c.cb_len c.cb_wptr (length b.bytes) p ≡ true) f.iframe_buff =
      λ i p e. let zero_entry = h.zeros i p e in let start = h.start in ground arith in
    let endless = λ (fuel : ℕ).
      move_along-endless fuel c.cb_len c.cb_wptr (length b.bytes) f.iframe_buff f.iframe_buff_rpos
        h.ring (let r = h.reads in omega arith) all in
    let never =
      subst
        (λ r. move_along iframe_bufsize c.cb_len c.cb_wptr (length b.bytes) f.iframe_buff r ≡ none)
        h.reads (endless iframe_bufsize) in
    (endless, rw (plain, h.reads, h.writes, never) refl)
