-- ===== src/Recorder/OpenFile/Conversion.antt =====
-- src/recorder/RaspiVidBalls.c: which name `open_filename` opens.
use foosball_tracker.Common.{
  ℕ, ◌≡◌, ◌≢◌, ◌⊎◌, ◌↔◌, inl, inr, refl, sym, ap, ◌∙◌, arith, Bool, not, true, false, ◌==◌, ==_iff,
  ◌||◌, Bool-cases, List, [], ◌∷◌, ◌++◌, Option, none, some, Option-cases, if-true, if-false,
  Partial, faults, gives, Partial-if, Partial-some,
}
use foosball_tracker.Common.Int.{ℤ, pos, negsuc, eqb_ℤ}
use foosball_tracker.Recorder.Settings.{VidState}
use foosball_tracker.Recorder.OpenFile.{
  Opening, System, expand, open_name, open_filename, split_at, is_digit, ends_in_conversion,
  has_segment_number,
}

-- No character is `c`.
abbrev pub Free : ℕ → List ℕ → Type 0
Free c [] = Unit {0}
Free c (x ∷ name) = (x ≢ c) × Free c name

abbrev pub Digits : List ℕ → Type 0
Digits [] = Unit {0}
Digits (x ∷ name) = (is_digit x ≡ true) × Digits name

-- A text without a percent sign, one such sign, digits, a `u` or a `d`, and any text.
pub record HasNumber (name : List ℕ) : Type 0 where
  pub before : List ℕ
  pub digits : List ℕ
  pub conversion : ℕ
  pub rest : List ℕ
  pub no_percent : Free b'%' before
  pub all_digits : Digits digits
  pub is_number : (conversion ≡ b'u') ⊎ (conversion ≡ b'd')
  pub whole : name ≡ before ++ (b'%' ∷ (digits ++ (conversion ∷ rest)))

==-false : (a b : ℕ) → a ≢ b → (a == b) ≡ false
==-false a b ne = ground (arith, ne)

==-ne : (a b : ℕ) → (a == b) ≡ false → a ≢ b
==-ne a b h e = ground arith

is_u_or_d : (c : ℕ) → (c == b'u' || c == b'd') ≡ true → (c ≡ b'u') ⊎ (c ≡ b'd')
is_u_or_d c h = elim (Bool-cases (c == b'u')) [
  | inl u ↦ inl ((==_iff c b'u').0 u)
  | inr other ↦ inr ((==_iff c b'd').0 (sym (ap (λ b. b || c == b'd') other) ∙ h))
]

split_at-some :
    (c : ℕ) (before behind : List ℕ)
    → Free c before
    → split_at c (before ++ c ∷ behind) ≡ some (before, behind)
unfolding split_at
split_at-some c [] behind h = rw ((==_iff c c).1 refl) refl
split_at-some c (x ∷ before) behind (ne, h) =
    rw (==-false x c ne, split_at-some c before behind h) refl

ends_in_conversion-true :
    (digits : List ℕ) (c : ℕ) (rest : List ℕ)
    → Digits digits
    → (c ≡ b'u') ⊎ (c ≡ b'd')
    → ends_in_conversion (digits ++ c ∷ rest) ≡ true
unfolding ends_in_conversion
ends_in_conversion-true [] c rest h (inl u) = rw u refl
ends_in_conversion-true [] c rest h (inr d) = rw d refl
ends_in_conversion-true (x ∷ digits) c rest (digit, h) k =
    rw digit (ends_in_conversion-true digits c rest h k)

ends_in_conversion-cases :
    (name : List ℕ)
    → ends_in_conversion name ≡ true
    → (digits : List ℕ) × (c : ℕ) × (rest : List ℕ) × Digits digits
      × ((c ≡ b'u') ⊎ (c ≡ b'd'))
      × (name ≡ digits ++ c ∷ rest)
unfolding ends_in_conversion
ends_in_conversion-cases [] h = absurd (cc)
ends_in_conversion-cases (x ∷ name) h = elim (Bool-cases (is_digit x)) [
  | inl digit ↦
      let rest_ends : ends_in_conversion name ≡ true = sym (if-true (is_digit x) _ _ digit) ∙ h in
      let (digits, c, rest, all, k, e) = ends_in_conversion-cases name rest_ends in
      (x ∷ digits, c, rest, (digit, all), k, ap (◌∷◌ x) e)
  | inr other ↦
      let last : (x == b'u' || x == b'd') ≡ true = sym (if-false (is_digit x) _ _ other) ∙ h in
      ([], x, name, tt, is_u_or_d x last, refl)
]

abbrev IsSplitAt : ℕ → List ℕ → List ℕ × List ℕ → Type 0
IsSplitAt c name r = Free c r.0 × (name ≡ r.0 ++ c ∷ r.1)

IsSplitAt-cons :
    (c x : ℕ) (name : List ℕ) (found : Option (List ℕ × List ℕ))
    → x ≢ c
    → Partial (IsSplitAt c name) found
    → Partial
        (IsSplitAt c (x ∷ name))
        (elim found [ none ↦ none | some (before, behind) ↦ some (x ∷ before, behind) ])
IsSplitAt-cons c x name none ne h = faults
IsSplitAt-cons c x name (some (before, behind)) ne h =
    let (free, e) = Partial-some h refl in gives _ ((ne, free), ap (◌∷◌ x) e)

split_at-IsSplitAt : (c : ℕ) (name : List ℕ) → Partial (IsSplitAt c name) (split_at c name)
unfolding split_at
split_at-IsSplitAt c [] = faults
split_at-IsSplitAt c (x ∷ name) =
    Partial-if (x == c) _ _
      (λ same. let e = (==_iff x c).0 same in gives ([], name) (tt, ap (λ y. y ∷ name) e))
      (λ other.
        IsSplitAt-cons c x name (split_at c name) (==-ne x c other) (split_at-IsSplitAt c name))

has_segment_number-HasNumber : (name : List ℕ) → has_segment_number name ≡ true → HasNumber name
unfolding has_segment_number
has_segment_number-HasNumber name h = elim (Option-cases (split_at b'%' name)) [
  | inl missing ↦
      let none_found : false ≡ true = sym (rw (has_segment_number, missing) refl) ∙ h in absurd (cc)
  | inr ((before, behind), found) ↦
      let (free, e) = Partial-some (split_at-IsSplitAt b'%' name) found in
      let ends : ends_in_conversion behind ≡ true = sym (rw (has_segment_number, found) refl) ∙ h in
      let (digits, c, rest, all, k, e1) = ends_in_conversion-cases behind ends in
      record {
        before = before;
        digits = digits;
        conversion = c;
        rest = rest;
        no_percent = free;
        all_digits = all;
        is_number = k;
        whole = e ∙ ap (λ xs. before ++ b'%' ∷ xs) e1;
      }
]

has_segment_number-found :
    (name before behind : List ℕ)
    → split_at b'%' name ≡ some (before, behind)
    → has_segment_number name ≡ ends_in_conversion behind
unfolding has_segment_number
has_segment_number-found name before behind found = rw (has_segment_number, found) refl

has_segment_number_iff : (name : List ℕ) → (has_segment_number name ≡ true) ↔ HasNumber name
unfolding has_segment_number
has_segment_number_iff name = (
  has_segment_number-HasNumber name,
  λ h.
      let name1 = h.before ++ b'%' ∷ (h.digits ++ h.conversion ∷ h.rest) in
      let found = split_at-some b'%' h.before (h.digits ++ h.conversion ∷ h.rest) h.no_percent in
      let ends = ends_in_conversion-true h.digits h.conversion h.rest h.all_digits h.is_number in
      ap has_segment_number h.whole
      ∙ has_segment_number-found name1 h.before (h.digits ++ h.conversion ∷ h.rest) found
      ∙ ends,
)

-- The recording is split into segments, by time or by the trigger.
abbrev pub Splits : VidState → Type 0
Splits s = (s.segment_size ≢ pos 0) ⊎ (s.split_wait ≡ true)

-- Which name is opened.
abbrev pub IsExpanded : System → VidState → List ℕ → Opening → Type 0
IsExpanded sys s name o =
    (Splits s × HasNumber name × (o ≡ open_name sys s (sys.print_number name s.segment_number)))
    ⊎ ((Splits s × (¬ HasNumber name) × (o ≡ open_name sys s (sys.print_time name)))
        ⊎ ((s.segment_size ≡ pos 0) × (s.split_wait ≡ false) × (o ≡ open_name sys s name)))

Splits-of_test :
    (size : ℤ) (wait : Bool)
    → (not (eqb_ℤ size (pos 0)) || wait) ≡ true
    → (size ≢ pos 0) ⊎ (wait ≡ true)
Splits-of_test size true h = inr refl
Splits-of_test size false h =
    inl λ e. let zero_size : (not (eqb_ℤ size (pos 0)) || false) ≡ false = rw e refl in absurd (cc)

no_split :
    (size : ℤ) (wait : Bool)
    → (not (eqb_ℤ size (pos 0)) || wait) ≡ false
    → (size ≡ pos 0) × (wait ≡ false)
no_split size true h = absurd (ground arith)
no_split (pos n) false h = (ap pos (ground arith), refl)
no_split (negsuc n) false h = absurd (cc)

-- While the recording is split into segments, `open_filename` opens the name with the number of the segment
-- in it exactly where the first percent sign of the name is followed by digits and a `u` or a `d`, and
-- the name with the time in it otherwise; while it is not split, it opens the name as it is.
pub open_filename-IsExpanded :
    (sys : System) (s : VidState) (name : List ℕ) → IsExpanded sys s name (open_filename sys s name)
unfolding open_filename expand
open_filename-IsExpanded sys s name =
    elim (Bool-cases (not (eqb_ℤ s.segment_size (pos 0)) || s.split_wait)) [
      | inl splits ↦ elim (Bool-cases (has_segment_number name)) [
        | inl number ↦ inl (
          Splits-of_test s.segment_size s.split_wait splits,
          (has_segment_number_iff name).0 number,
          rw (splits, number) refl,
        )
        | inr time ↦ inr (
            inl (
              Splits-of_test s.segment_size s.split_wait splits,
              (λ h. let number = (has_segment_number_iff name).1 h in absurd (cc)),
              rw (splits, time) refl,
            ))
      ]
      | inr whole ↦
          let (size, wait) = no_split s.segment_size s.split_wait whole in
          inr (inr (size, wait, rw whole refl))
    ]
