-- ===== src/Recorder/Circular/Bytewise.antt =====
-- src/recorder/RaspiVidBalls.c: the two copies of `encoder_buffer_callback` are a circular buffer.
use foosball_tracker.Common.{
  ℕ, suc, ◌+◌, ◌-◌, ◌%◌, ◌≤◌, ◌<◌, ◌≡◌, refl, sym, ap, ◌∙◌, subst, arith, ltb, Bool-cases, inl, inr,
  List, [], ◌∷◌, ◌++◌, Option, none, some, length, take, drop, set?, ◌>>=◌, Returns, value,
  Returns-bind, Returns-set?, Returns-some, >>=-eq-some, some-inj, ltb→lt, ltb→le, ◌⊎◌, length-set,
  take-drop, length-take, length-drop, take-all, drop-all,
}
use native.Mathlib.Nat.{add-zero, mod-eq_of_lt, mod_self, mod-lt, add-mod_left}
use native.Mathlib.Decide.{dec_lt}
use foosball_tracker.Recorder.Circular.{Circle, copy_into, copy_to_end, push_data}

-- The reference: one byte after the other, each at the write pointer, which then moves on by one and
-- from the last place to the first.
abbrev pub push_bytes : (len : ℕ) → List ℕ × ℕ → List ℕ → Option (List ℕ × ℕ)
push_bytes len r [] = some r
push_bytes len r (b ∷ bytes) =
    set? r.0 r.1 b >>= λ buff. push_bytes len (buff, (r.1 + 1) % len) bytes

bind_ext {ℓ κ} :
    {A : Type ℓ} {B : Type κ} (o : Option A) (f g : A → Option B)
    → ((a : A) → f a ≡ g a)
    → (o >>= f) ≡ (o >>= g)
bind_ext none f g h = refl
bind_ext (some a) f g h = h a

bind_assoc {ℓ κ μ} :
    {A : Type ℓ} {B : Type κ} {C : Type μ} (o : Option A) (f : A → Option B) (g : B → Option C)
    → ((o >>= f) >>= g) ≡ (o >>= λ a. f a >>= g)
bind_assoc none f g = refl
bind_assoc (some a) f g = refl

push_bytes-append :
    (len : ℕ) (r : List ℕ × ℕ) (xs ys : List ℕ)
    → push_bytes len r (xs ++ ys) ≡ (push_bytes len r xs >>= λ r1. push_bytes len r1 ys)
push_bytes-append len r [] ys = refl
push_bytes-append len r (b ∷ xs) ys =
    bind_ext (set? r.0 r.1 b) _ _ (λ buff. push_bytes-append len (buff, (r.1 + 1) % len) xs ys)
    ∙ sym (bind_assoc (set? r.0 r.1 b) _ _)

last_place :
    (len : ℕ) (buff : List ℕ) (at : ℕ) (bytes : List ℕ)
    → length bytes ≡ 0
    → push_bytes len (buff, (at + 1) % len) bytes
      ≡ (copy_into buff (at + 1) bytes >>= λ buff1. some (buff1, (at + suc (length bytes)) % len))
unfolding copy_into
last_place len buff at [] none_left = refl
last_place len buff at (b ∷ bytes) none_left = absurd (omega arith)

-- Without a wrap the bytes are one copy.
push_bytes-straight :
    (len : ℕ) (buff : List ℕ) (at : ℕ) (bytes : List ℕ)
    → at < len
    → at + length bytes ≤ len
    → push_bytes len (buff, at) bytes
      ≡ (copy_into buff at bytes >>= λ buff1. some (buff1, (at + length bytes) % len))
unfolding copy_into
push_bytes-straight len buff at [] lt fits = rw (add-zero at, mod-eq_of_lt lt) refl
push_bytes-straight len buff at (b ∷ bytes) lt fits =
    bind_ext (set? buff at b) _ _ (λ buff1. elim (dec_lt (at + 1) len) [
      | yes inside ↦
          let further : at + 1 + length bytes ≡ at + suc (length bytes) = omega arith in
          rw (mod-eq_of_lt inside) (
            push_bytes-straight len buff1 (at + 1) bytes inside (omega arith)
            ∙ ap (λ n. copy_into buff1 (at + 1) bytes >>= λ buff2. some (buff2, n % len)) further)
      | no outside ↦ last_place len buff1 at bytes (omega arith)
    ])
    ∙ sym (bind_assoc (set? buff at b) _ _)

push_bytes-Returns :
    (len : ℕ) (buff : List ℕ) (at : ℕ) (bytes : List ℕ)
    → length buff ≡ len
    → at < len
    → Returns (λ r. (length r.0 ≡ len) × (r.1 < len)) (push_bytes len (buff, at) bytes)
push_bytes-Returns len buff at [] size lt = value _ (size, lt)
push_bytes-Returns len buff at (b ∷ bytes) size lt =
    Returns-bind (Returns-set? buff at b (omega arith)) λ buff1 e.
      push_bytes-Returns len buff1 ((at + 1) % len) bytes
        (ap length e ∙ length-set buff at b ∙ size) (mod-lt (at + 1) (omega arith))

two_copies :
    (len : ℕ) (buff : List ℕ) (at n : ℕ) (xs ys : List ℕ)
    → at < len
    → at + length xs ≤ len
    → ((buff1 : List ℕ)
        → (copy_into buff1 0 ys >>= λ buff2. some (buff2, n))
          ≡ push_bytes len (buff1, (at + length xs) % len) ys)
    → (copy_into buff at xs >>= λ buff1. copy_into buff1 0 ys >>= λ buff2. some (buff2, n))
      ≡ push_bytes len (buff, at) (xs ++ ys)
two_copies len buff at n xs ys lt fits second =
    bind_ext (copy_into buff at xs) _ _ second
    ∙ sym (bind_assoc (copy_into buff at xs) _ _)
    ∙ ap (λ o. o >>= λ r. push_bytes len r ys) (sym (push_bytes-straight len buff at xs lt fits))
    ∙ sym (push_bytes-append len (buff, at) xs ys)

-- The first copy takes all, or fills the buffer to its end.
copy_to_end-cases :
    (c : Circle) (bytes : List ℕ)
    → c.cb_wptr < c.cb_len
    → ((copy_to_end c bytes ≡ length bytes) × (c.cb_wptr + length bytes ≤ c.cb_len))
      ⊎ ((c.cb_wptr + copy_to_end c bytes ≡ c.cb_len) × (copy_to_end c bytes ≤ length bytes))
unfolding copy_to_end
copy_to_end-cases c bytes lt = elim (Bool-cases (ltb (length bytes) (c.cb_len - c.cb_wptr))) [
  | inl all ↦ inl (rw all refl, (let small = ltb→lt _ _ all in omega arith))
  | inr fills ↦
      let large = ltb→le (length bytes) (c.cb_len - c.cb_wptr) fills in
      inr (rw fills (omega arith), rw fills large)
]

first_copy_fits :
    (c : Circle) (bytes : List ℕ)
    → c.cb_wptr < c.cb_len
    → c.cb_wptr + length (take (copy_to_end c bytes) bytes) ≤ c.cb_len
first_copy_fits c bytes lt = elim (copy_to_end-cases c bytes lt) [
  | inl (all, inside) ↦
      let first = length-take (copy_to_end c bytes) bytes (omega arith) in omega arith
  | inr (fills, some_left) ↦
      let first = length-take (copy_to_end c bytes) bytes some_left in omega arith
]

second_copy :
    (c : Circle) (bytes buff1 : List ℕ)
    → c.cb_wptr < c.cb_len
    → length bytes ≤ c.cb_len
    → (copy_into buff1 0 (drop (copy_to_end c bytes) bytes) >>= λ buff2.
        some (buff2, (c.cb_wptr + length bytes) % c.cb_len))
      ≡ push_bytes c.cb_len
          (buff1, (c.cb_wptr + length (take (copy_to_end c bytes) bytes)) % c.cb_len)
          (drop (copy_to_end c bytes) bytes)
unfolding copy_into
second_copy c bytes buff1 lt fits = elim (copy_to_end-cases c bytes lt) [
  | inl (all, inside) ↦ rw (all, take-all bytes, drop-all bytes) refl
  | inr (fills, some_left) ↦
      let ys = drop (copy_to_end c bytes) bytes in
      let first = length-take (copy_to_end c bytes) bytes some_left in
      let left = length-drop (copy_to_end c bytes) bytes in
      let full : c.cb_wptr + length (take (copy_to_end c bytes) bytes) ≡ c.cb_len = omega arith in
      let around : c.cb_wptr + length bytes ≡ c.cb_len + length ys = omega arith in
      ap (λ n. copy_into buff1 0 ys >>= λ buff2. some (buff2, n))
        (ap (λ n. n % c.cb_len) around
          ∙ add-mod_left c.cb_len (length ys)
          ∙ ap (λ n. n % c.cb_len) {x = length ys} {y = 0 + length ys} (omega arith))
      ∙ sym (push_bytes-straight c.cb_len buff1 0 ys (omega arith) (omega arith))
      ∙ ap (λ m. push_bytes c.cb_len (buff1, m) ys)
          (sym (ap (λ n. n % c.cb_len) full ∙ mod_self c.cb_len))
]

-- The two copies are the pushes of the bytes.
push_data-push_bytes :
    (c : Circle) (bytes : List ℕ)
    → c.cb_wptr < c.cb_len
    → length bytes ≤ c.cb_len
    → (push_data c bytes >>= λ c1. some (c1.cb_buff, c1.cb_wptr))
      ≡ push_bytes c.cb_len (c.cb_buff, c.cb_wptr) bytes
unfolding push_data
push_data-push_bytes c bytes lt fits =
    let k = copy_to_end c bytes in
    bind_assoc (copy_into c.cb_buff c.cb_wptr (take k bytes)) _ _
    ∙ bind_ext (copy_into c.cb_buff c.cb_wptr (take k bytes)) _ _
        (λ buff1. bind_assoc (copy_into buff1 0 (drop k bytes)) _ _)
    ∙ two_copies c.cb_len c.cb_buff c.cb_wptr ((c.cb_wptr + length bytes) % c.cb_len) (take k bytes)
        (drop k bytes) lt (first_copy_fits c bytes lt) (λ buff1. second_copy c bytes buff1 lt fits)
    ∙ ap (push_bytes c.cb_len (c.cb_buff, c.cb_wptr)) (take-drop k bytes)

-- A buffer of at most the length of the circular buffer is stored by the two copies as if one byte
-- after the other was written at the write pointer, which wraps to the start behind the last place:
-- no copy goes over the end, and the pointer stays inside.
pub push_data_circular :
    (c : Circle) (bytes : List ℕ)
    → length c.cb_buff ≡ c.cb_len
    → c.cb_wptr < c.cb_len
    → length bytes ≤ c.cb_len
    → (c1 : Circle) × (push_data c bytes ≡ some c1)
      × (push_bytes c.cb_len (c.cb_buff, c.cb_wptr) bytes ≡ some (c1.cb_buff, c1.cb_wptr))
      × (length c1.cb_buff ≡ c.cb_len)
      × (c1.cb_wptr < c.cb_len)
push_data_circular c bytes size lt fits =
    let (r, e, inside) =
      Returns-some (push_bytes-Returns c.cb_len c.cb_buff c.cb_wptr bytes size lt) in
    let whole = push_data-push_bytes c bytes lt fits ∙ e in
    let (c1, stored, same) = >>=-eq-some (push_data c bytes) _ whole in
    let pair = some-inj same in
    (
      c1,
      stored,
      e ∙ sym same,
      ap (λ r. length r.0) pair ∙ inside.0,
      subst (λ r. r.1 < c.cb_len) (sym pair) inside.1,
    )
