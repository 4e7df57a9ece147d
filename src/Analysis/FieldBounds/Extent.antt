-- ===== src/Analysis/FieldBounds/Extent.antt =====
-- src/tracker/analysis.cpp: the ends of the field on one axis in `analysis_process_field_buffer`.
use foosball_tracker.Common.{
  ℕ, zero, suc, ◌+◌, ◌-◌, ◌*◌, ◌/◌, ◌<◌, ◌≤◌, ◌≡◌, refl, sym, ◌∙◌, some-inj, arith, false, inl, inr,
  ◌⊎◌, ltb, ltb→lt, ltb→le, ◌==◌, List, [], ◌∷◌, some, length, get_elem?, Returns, value,
  Returns-bind, Returns-if, Returns-get_elem?, Returns-some, ◌≢◌, subst,
}
use native.Mathlib.Decide.{ℕ_discrete, dec_lt}
use native.Mathlib.Nat.{div-mul-le_self}
use foosball_tracker.Analysis.FieldBounds.{Ends, first_above, last_above, extent}
use foosball_tracker.Analysis.FieldBounds.Totals.{sum}

-- `sums[i]` is at most the bound.
abbrev pub Below : ℕ → List ℕ → ℕ → Type 0
Below bound sums i = (v : ℕ) → get_elem? sums i ≡ some v → v ≤ bound

abbrev pub IsAbove : ℕ → List ℕ → ℕ → Type 0
IsAbove bound sums i = (v : ℕ) × (get_elem? sums i ≡ some v) × (bound < v)

-- The first index above the bound, or 0 and there is none.
abbrev pub IsFirst : ℕ → List ℕ → ℕ → Type 0
IsFirst bound sums i =
    (IsAbove bound sums i × ((j : ℕ) → j < i → Below bound sums j))
    ⊎ ((i ≡ 0) × ((j : ℕ) → j < length sums → Below bound sums j))

-- The last index above the bound, or 0 and there is none after 0.
abbrev pub IsLast : ℕ → List ℕ → ℕ → Type 0
IsLast bound sums i =
    (IsAbove bound sums i ⊎ (i ≡ 0)) × ((j : ℕ) → i < j → j < length sums → Below bound sums j)

Below-of_entry :
    (bound : ℕ) (sums : List ℕ) (i a : ℕ)
    → get_elem? sums i ≡ some a
    → a ≤ bound
    → Below bound sums i
Below-of_entry bound sums i a at h v e = let same : a ≡ v = some-inj (sym at ∙ e) in omega arith

Below-cases :
    (bound : ℕ) (sums : List ℕ) (x j : ℕ)
    → Below bound sums x
    → ((j ≢ x) → Below bound sums j)
    → Below bound sums j
Below-cases bound sums x j here others = elim (ℕ_discrete j x) [
  | yes e ↦ subst (Below bound sums) (sym e) here
  | no n ↦ others n
]

first_above-IsFirst :
    (bound : ℕ) (sums : List ℕ) (rounds x : ℕ)
    → x + rounds ≡ length sums
    → ((j : ℕ) → j < x → Below bound sums j)
    → Returns (IsFirst bound sums) (first_above bound sums rounds x)
unfolding first_above
first_above-IsFirst bound sums zero x e past = value 0 (inr (refl, λ j h. past j (omega arith)))
first_above-IsFirst bound sums (suc rounds) x e past =
    Returns-bind (Returns-get_elem? sums x (omega arith)) λ v at.
      Returns-if (ltb bound v) (some x) (first_above bound sums rounds (x + 1))
        (λ h. value x (inl ((v, at, ltb→lt bound v h), past)))
        (λ h. first_above-IsFirst bound sums rounds (x + 1) (omega arith) (λ j l.
          Below-cases bound sums x j (Below-of_entry bound sums x v at (ltb→le bound v h))
            λ n. past j (omega arith)))

last_above-IsLast :
    (bound : ℕ) (sums : List ℕ) (x : ℕ)
    → (x < length sums)
    → ((j : ℕ) → x < j → j < length sums → Below bound sums j)
    → Returns (IsLast bound sums) (last_above bound sums x)
unfolding last_above
last_above-IsLast bound sums zero h past = value 0 (inr refl, past)
last_above-IsLast bound sums (suc x) h past =
    Returns-bind (Returns-get_elem? sums (suc x) h) λ v at.
      Returns-if (ltb bound v) (some (suc x)) (last_above bound sums x)
        (λ b. value (suc x) (inl (v, at, ltb→lt bound v b), past))
        (λ b. last_above-IsLast bound sums x (omega arith) (λ j l k.
          Below-cases bound sums (suc x) j
            (Below-of_entry bound sums (suc x) v at (ltb→le bound v b))
            λ n. past j (omega arith) k))

-- Entries that are each at most the bound add up to at most so many times the bound.
sum-le :
    (bound : ℕ) (sums : List ℕ)
    → ((j : ℕ) → j < length sums → Below bound sums j)
    → sum sums ≤ length sums * bound
sum-le bound [] h = omega arith
sum-le bound (x ∷ sums) h =
    let rest = sum-le bound sums (λ j l. h (suc j) (omega arith)) in
    let here : x ≤ bound = h 0 (omega arith) x refl in grind arith

-- What `analysis_process_field_buffer` takes the ends of an axis to be, from the sums along it.
pub record IsExtent (total size : ℕ) (sums : List ℕ) (e : Ends) : Type 0 where
  pub ordered : e.first ≤ e.last
  pub inside : e.last < size
  pub left : (j : ℕ) → j < e.first → Below (total / (2 * size)) sums j
  pub right : (j : ℕ) → e.last < j → j < size → Below (total / (2 * size)) sums j
  pub first_counts : 0 < total → IsAbove (total / (2 * size)) sums e.first
  pub last_counts : 0 < total → IsAbove (total / (2 * size)) sums e.last

-- Half the mean cannot bound every sum.
some_above :
    (total size : ℕ) (sums : List ℕ)
    → length sums ≡ size
    → sum sums ≡ total
    → 0 < size
    → 0 < total
    → ((j : ℕ) → j < length sums → Below (total / (2 * size)) sums j)
    → ⊥
some_above total size sums len e hs ht h =
    let most = sum-le (total / (2 * size)) sums h in
    let half : total / (2 * size) * (2 * size) ≤ total = div-mul-le_self total (2 * size) in
    grind arith

first_le_last :
    (bound : ℕ) (sums : List ℕ) (i j : ℕ)
    → IsFirst bound sums i
    → IsLast bound sums j
    → i < length sums
    → i ≤ j
first_le_last bound sums i j (inr (e, none_above)) last h = omega arith
first_le_last bound sums i j (inl ((v, at, above), past)) last h = elim (dec_lt j i) [
  | yes lt ↦ absurd (let le = last.1 i lt h v at in omega arith)
  | no n ↦ omega arith
]

above-lt : (bound : ℕ) (sums : List ℕ) (i : ℕ) → IsAbove bound sums i → i < length sums
above-lt bound [] i (v, at, above) = absurd (cc)
above-lt bound (x ∷ sums) zero (v, at, above) = omega arith
above-lt bound (x ∷ sums) (suc i) (v, at, above) =
    let rest = above-lt bound sums i (v, at, above) in omega arith

first-lt :
    (bound : ℕ) (sums : List ℕ) (i : ℕ) → IsFirst bound sums i → 0 < length sums → i < length sums
first-lt bound sums i (inl (above, past)) h = above-lt bound sums i above
first-lt bound sums i (inr (e, past)) h = omega arith

last-lt :
    (bound : ℕ) (sums : List ℕ) (i : ℕ) → IsLast bound sums i → 0 < length sums → i < length sums
last-lt bound sums i (inl above, past) h = above-lt bound sums i above
last-lt bound sums i (inr e, past) h = omega arith

last-IsAbove :
    (bound : ℕ) (sums : List ℕ) (i j : ℕ)
    → IsAbove bound sums i
    → i ≤ j
    → IsLast bound sums j
    → IsAbove bound sums j
last-IsAbove bound sums i j above le (inl here, past) = here
last-IsAbove bound sums i j above le (inr e, past) =
    let same : i ≡ j = omega arith in subst (IsAbove bound sums) same above

ends-IsExtent :
    (total size : ℕ) (sums : List ℕ) (i j : ℕ)
    → length sums ≡ size
    → sum sums ≡ total
    → 0 < size
    → IsFirst (total / (2 * size)) sums i
    → IsLast (total / (2 * size)) sums j
    → IsExtent total size sums (record { first = i; last = j })
ends-IsExtent total size sums i j len e hs first last =
    let some_sum : 0 < length sums = omega arith in
    let le =
      first_le_last (total / (2 * size)) sums i j first last
        (first-lt (total / (2 * size)) sums i first some_sum) in
    let counts : 0 < total → IsAbove (total / (2 * size)) sums i = λ ht. elim first [
      | inl (above, past) ↦ above
      | inr (zero_here, past) ↦ absurd (some_above total size sums len e hs ht past)
    ] in
    record {
      ordered = le;
      inside = omega (arith, last-lt (total / (2 * size)) sums j last some_sum);
      left = λ k l. elim first [
        | inl (above, past) ↦ past k l
        | inr (zero_here, past) ↦ absurd (omega arith)
      ];
      right = λ k l h. last.1 k l (omega arith);
      first_counts = counts;
      last_counts = λ ht. last-IsAbove (total / (2 * size)) sums i j (counts ht) le last;
    }

not_zero : (n : ℕ) → 0 < n → (n == 0) ≡ false
not_zero n h = ground arith

-- Along an axis of at least one pixel whose sums add up to the total, the ends are found inside the
-- axis and in order. Every sum before the first or after the last is at most half the mean, and when
-- the total is not zero both ends are themselves above half the mean, so they are not the 0 that
-- stands for an end that is not found.
pub extent-IsExtent :
    (total size : ℕ) (sums : List ℕ)
    → length sums ≡ size
    → sum sums ≡ total
    → 0 < size
    → (e : Ends) × (extent total size sums ≡ some e) × IsExtent total size sums e
unfolding extent
extent-IsExtent total size sums len e hs = rw (not_zero (2 * size) (omega arith)) (
    Returns-some (
      Returns-bind
        (first_above-IsFirst (total / (2 * size)) sums size 0 (omega arith)
          (λ j h. absurd (omega arith)))
        λ i first.
          Returns-bind
            (last_above-IsLast (total / (2 * size)) sums (size - 1) (omega arith)
              (λ j l h. absurd (omega arith)))
            λ j last. value _ (ends-IsExtent total size sums i j len e hs first last)))
