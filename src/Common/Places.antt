-- ===== src/Common/Places.antt =====
-- Places of a circular buffer as remainders of offsets, and reads in a list that grew at its end.
use foosball_tracker.Common.{
  ℕ, zero, suc, ◌+◌, ◌-◌, ◌%◌, ◌≤◌, ◌<◌, ◌≡◌, ◌≢◌, ◌⊎◌, inl, inr, refl, sym, ap, ◌∙◌, arith, List,
  [], ◌∷◌, ◌++◌, some, length, get_elem?,
}
use native.Mathlib.Nat.{mod-eq_of_lt, mod-lt, mod-add-mod, add-mod_left}
use native.Mathlib.Decide.{dec_lt}

-- The place of an offset that is at most the buffer's length further: in the same lap or the next.
pub mod-add-cases :
    (l o d : ℕ)
    → 0 < l
    → d ≤ l
    → ((o % l + d < l) × ((o + d) % l ≡ o % l + d))
      ⊎ ((l ≤ o % l + d) × ((o + d) % l + l ≡ o % l + d))
mod-add-cases l o d lt le = elim (dec_lt (o % l + d) l) [
  | yes same ↦ inl (same, sym (mod-add-mod o l d) ∙ mod-eq_of_lt same)
  | no next ↦
      let r = mod-lt o lt in
      let e : o % l + d ≡ l + (o % l + d - l) = omega arith in
      let wrapped : (o + d) % l ≡ o % l + d - l =
        sym (mod-add-mod o l d)
        ∙ ap (λ n. n % l) e
        ∙ add-mod_left l (o % l + d - l)
        ∙ mod-eq_of_lt (omega arith) in
      inr (omega arith, omega arith)
]

-- Two offsets less than the buffer's length apart have two places.
pub mod-ne : (l i n : ℕ) → i < n → n < i + l → i % l ≢ n % l
mod-ne l i n lt near same =
    let e : i + (n - i) ≡ n = omega arith in
    let moved : (i + (n - i)) % l ≡ i % l = ap (λ k. k % l) e ∙ sym same in
    elim (mod-add-cases l i (n - i) (omega arith) (omega arith)) [
      | inl (fits, here) ↦ absurd (omega arith)
      | inr (over, around) ↦ absurd (omega arith)
    ]

-- The place of the next offset, away from the end.
pub mod-next : (l i : ℕ) → i % l + 1 < l → (i + 1) % l ≡ i % l + 1
mod-next l i lt = sym (mod-add-mod i l 1) ∙ mod-eq_of_lt lt

pub get_elem?-append_left {ℓ} :
    {A : Type ℓ} (xs ys : List A) (i : ℕ) → i < length xs → get_elem? (xs ++ ys) i ≡ get_elem? xs i
get_elem?-append_left [] ys i h = elim h [ ]
get_elem?-append_left (x ∷ xs) ys zero h = refl
get_elem?-append_left (x ∷ xs) ys (suc i) h = get_elem?-append_left xs ys i (omega arith)

pub get_elem?-append_last {ℓ} :
    {A : Type ℓ} (xs : List A) (y : A) → get_elem? (xs ++ y ∷ []) (length xs) ≡ some y
get_elem?-append_last [] y = refl
get_elem?-append_last (x ∷ xs) y = get_elem?-append_last xs y
