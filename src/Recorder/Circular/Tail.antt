-- ===== src/Recorder/Circular/Tail.antt =====
-- src/recorder/RaspiVidBalls.c: the circular buffer of `encoder_buffer_callback` keeps the end of the
-- encoded stream.
use foosball_tracker.Common.{
  ℕ, ◌+◌, ◌%◌, ◌≤◌, ◌<◌, ◌≡◌, ◌⊎◌, inl, inr, refl, sym, ap, ◌∙◌, subst, arith, true, ltb, lt→ltb,
  ◌||◌, List, [], ◌∷◌, ◌++◌, some, length, length-append, length-set, get_elem?, set,
  get_elem?-set_self, get_elem?-set_ne, Partial, gives, Partial-some, Partial-skip, take, drop,
  set?-eq-set, ◌≢◌,
}
use mathlib.Core.List.{append-nil, append_assoc}
use mathlib.Core.Bool.{or-true}
use native.Mathlib.Nat.{mod-lt, mod-eq_of_lt, mod-add-mod}
use native.Mathlib.Decide.{dec_lt}
use foosball_tracker.Common.Places.{mod-ne, get_elem?-append_left, get_elem?-append_last}
use foosball_tracker.Recorder.Circular.{Circle, push_data, copy_into, copy_to_end}
use foosball_tracker.Recorder.Circular.Bytewise.{push_bytes, push_data_circular}

-- The last `l` bytes of the stream, or all of a shorter one, stand at their places.
abbrev pub Holds : (l : ℕ) → List ℕ → List ℕ → Type 0
Holds l buff stream =
    (i : ℕ)
    → i < length stream
    → length stream ≤ i + l
    → get_elem? buff (i % l) ≡ get_elem? stream i

pub record IsTail (c : Circle) (l : ℕ) (stream : List ℕ) : Type 0 where
  pub nonempty : 0 < l
  pub len : c.cb_len ≡ l
  pub size : length c.cb_buff ≡ l
  pub place : c.cb_wptr ≡ length stream % l
  pub holds : Holds l c.cb_buff stream

Holds-push :
    (l : ℕ) (buff : List ℕ) (stream : List ℕ) (b : ℕ)
    → 0 < l
    → length buff ≡ l
    → Holds l buff stream
    → Holds l (set buff (length stream % l) b) (stream ++ b ∷ [])
Holds-push l buff stream b pos size h i lt near =
    let longer : length (stream ++ b ∷ []) ≡ length stream + 1 = length-append stream (b ∷ []) in
    elim (dec_lt i (length stream)) [
      | yes old ↦
          get_elem?-set_ne buff (length stream % l) (i % l) b
            (λ e. mod-ne l i (length stream) old (omega arith) (sym e))
          ∙ h i old (omega arith)
          ∙ sym (get_elem?-append_left stream (b ∷ []) i old)
      | no new ↦
          let e : i ≡ length stream = omega arith in
          let inside = mod-lt (length stream) pos in
          rw e (
            get_elem?-set_self buff (length stream % l) b (omega arith)
            ∙ sym (get_elem?-append_last stream b))
    ]

push_bytes-Holds :
    (l : ℕ) (buff : List ℕ) (stream : List ℕ) (bytes : List ℕ)
    → 0 < l
    → length buff ≡ l
    → Holds l buff stream
    → Partial
        (λ r. Holds l r.0 (stream ++ bytes) × (r.1 ≡ length (stream ++ bytes) % l))
        (push_bytes l (buff, length stream % l) bytes)
push_bytes-Holds l buff stream [] pos size h = rw (append-nil stream) (gives _ (h, refl))
push_bytes-Holds l buff stream (b ∷ bytes) pos size h =
    let inside = mod-lt (length stream) pos in
    let longer : length (stream ++ b ∷ []) ≡ length stream + 1 = length-append stream (b ∷ []) in
    let next : (length stream % l + 1) % l ≡ length (stream ++ b ∷ []) % l =
      mod-add-mod (length stream) l 1 ∙ ap (λ k. k % l) (sym longer) in
    rw
      (
        set?-eq-set buff (length stream % l) b (omega arith),
        next,
        sym (append_assoc stream (b ∷ []) bytes),
      )
      (push_bytes-Holds l (set buff (length stream % l) b) (stream ++ b ∷ []) bytes pos
        (length-set buff (length stream % l) b ∙ size) (Holds-push l buff stream b pos size h))

-- The write position has gone over the end, or the buffer was never full.
abbrev pub Filling : Circle → ℕ → List ℕ → Type 0
Filling c l stream = (c.cb_wrap ≡ true) ⊎ (length stream < l)

push_data-fields :
    (c : Circle) (bytes : List ℕ)
    → Partial
        (λ c1.
          (c1.cb_len ≡ c.cb_len)
          × (c1.cb_wrap ≡ (c.cb_wrap || ltb c.cb_len (c.cb_wptr + length bytes)))
          × (c1.header_bytes ≡ c.header_bytes)
          × (c1.header_wptr ≡ c.header_wptr))
        (push_data c bytes)
unfolding push_data
push_data-fields c bytes =
    Partial-skip (copy_into c.cb_buff c.cb_wptr (take (copy_to_end c bytes) bytes)) λ buff1.
      Partial-skip (copy_into buff1 0 (drop (copy_to_end c bytes) bytes))
        λ buff2. gives _ (refl, refl, refl, refl)

wrapped-Filling :
    (c c1 : Circle) (l : ℕ) (stream bytes : List ℕ)
    → IsTail c l stream
    → c1.cb_wrap ≡ (c.cb_wrap || ltb c.cb_len (c.cb_wptr + length bytes))
    → Filling c l stream
    → length (stream ++ bytes) ≢ l
    → Filling c1 l (stream ++ bytes)
wrapped-Filling c c1 l stream bytes t wrap (inl before) ne = inl (wrap ∙ rw before refl)
wrapped-Filling c c1 l stream bytes t wrap (inr short) ne =
    let longer = length-append stream bytes in
    let at : c.cb_wptr ≡ length stream = t.place ∙ mod-eq_of_lt short in
    let len = t.len in
    elim (dec_lt (length (stream ++ bytes)) l) [
      | yes fits ↦ inr fits
      | no over ↦
          let more : ltb c.cb_len (c.cb_wptr + length bytes) ≡ true =
            lt→ltb _ _ (omega (arith, ne)) in
          inl (wrap ∙ ap (λ b. c.cb_wrap || b) more ∙ or-true c.cb_wrap)
    ]

-- Pushing a buffer that fits keeps the end of the stream, which is longer by that buffer, and leaves the
-- header alone.
pub push_data-IsTail :
    (c : Circle) (l : ℕ) (stream bytes : List ℕ)
    → IsTail c l stream
    → length bytes ≤ l
    → (c1 : Circle) × (push_data c bytes ≡ some c1)
      × IsTail c1 l (stream ++ bytes)
      × (Filling c l stream → length (stream ++ bytes) ≢ l → Filling c1 l (stream ++ bytes))
      × (c1.header_bytes ≡ c.header_bytes)
      × (c1.header_wptr ≡ c.header_wptr)
push_data-IsTail c l stream bytes t fits =
    let inside = mod-lt (length stream) t.nonempty in
    let lt : c.cb_wptr < c.cb_len = let p = t.place in let q = t.len in omega arith in
    let (c1, stored, pushed, size, _) =
      push_data_circular c bytes (t.size ∙ sym t.len) lt (let q = t.len in omega arith) in
    let (len, wrap, header, header_place) = Partial-some (push_data-fields c bytes) stored in
    let pushed1 : push_bytes l (c.cb_buff, length stream % l) bytes
        ≡ some (c1.cb_buff, c1.cb_wptr) =
      subst (λ k. push_bytes k (c.cb_buff, length stream % k) bytes ≡ some (c1.cb_buff, c1.cb_wptr))
        t.len
        (subst (λ k. push_bytes c.cb_len (c.cb_buff, k) bytes ≡ some (c1.cb_buff, c1.cb_wptr))
          (t.place ∙ ap (λ k. length stream % k) (sym t.len)) pushed) in
    let (holds, place) =
      Partial-some (push_bytes-Holds l c.cb_buff stream bytes t.nonempty t.size t.holds) pushed1 in
    (
      c1,
      stored,
      record {
        nonempty = t.nonempty;
        len = len ∙ t.len;
        size = size ∙ t.len;
        place = place;
        holds = holds;
      },
      λ filling ne. wrapped-Filling c c1 l stream bytes t wrap filling ne,
      header,
      header_place,
    )
