-- ===== src/Recorder/Camera/Cycle/Behind.antt =====
-- src/recorder/RaspiCamControl.c: the demo reads behind its tables.
use Prim.Native.String.{String}
use foosball_tracker.Common.{
  ℕ, zero, suc, ◌+◌, ◌-◌, ◌≤◌, ◌≡◌, refl, sym, ap, ◌∙◌, arith, List, ◌++◌, ◌↔◌, Option, none, some,
  ◌>>=◌, Option-cases, inl, inr,
}
use native.Mathlib.Decide.{dec_le}
use foosball_tracker.Common.Int.{ℤ, ◌+ℤ◌, ◌-ℤ◌}
use foosball_tracker.Recorder.Camera.Cycle.{Setting, Cycle, cycle_start, cycle_test, cycle_calls}

-- What follows a call does not return if it did not return before.
after_call :
    {A B C : Type 0} (m : Option A) (f g : A → Option B) (h k : A → B → C)
    → ((a : A) → f a ≡ none → g a ≡ none)
    → (m >>= λ a. f a >>= λ b. some (h a b)) ≡ none
    → (m >>= λ a. g a >>= λ b. some (k a b)) ≡ none
after_call none f g h k step e = refl
after_call (some a) f g h k step e = elim (Option-cases (f a)) [
  | inl missing ↦ rw (step a missing) refl
  | inr (b, found) ↦ let returned : some (h a b) ≡ none = sym (rw found refl) ∙ e in absurd (cc)
]

-- More calls than a run that faults fault too.
cycle_calls-longer :
    (code : String → ℤ) (n k : ℕ) (c : Cycle)
    → cycle_calls code n c ≡ none
    → cycle_calls code (n + k) c ≡ none
unfolding cycle_calls
cycle_calls-longer code zero k c h = absurd (cc)
cycle_calls-longer code (suc n) k c h =
    let more : suc n + k ≡ suc (n + k) = omega arith in
    rw more (
      after_call (cycle_test code c) (λ r. cycle_calls code n r.2)
        (λ r. cycle_calls code (n + k) r.2) (λ r rest. (r.0 ++ rest.0, rest.1))
        (λ r rest. (r.0 ++ rest.0, rest.1)) (λ r e. cycle_calls-longer code n k r.2 e) h)

first_calls : (code : String → ℤ) → cycle_calls code 99 cycle_start ≡ none
unfolding cycle_calls ◌+ℤ◌ ◌-ℤ◌
first_calls code = refl

last_call :
    (code : String → ℤ) → (r : List Setting × Cycle) × (cycle_calls code 98 cycle_start ≡ some r)
unfolding cycle_calls ◌+ℤ◌ ◌-ℤ◌
last_call code = (_, refl)

-- A run of calls of the demo reads behind a table exactly where it has at least 99 calls, whatever the
-- numbers of the MMAL library: it takes the table of exposure modes to have an entry at its size.
pub cycle_calls_behind :
    (code : String → ℤ) (n : ℕ) → (cycle_calls code n cycle_start ≡ none) ↔ (99 ≤ n)
cycle_calls_behind code n = (
  λ faults. elim (dec_le 99 n) [
    | yes many ↦ many
    | no few ↦
        let e : n + (98 - n) ≡ 98 = omega (arith, few) in
        let (r, last) = last_call code in
        let behind : cycle_calls code 98 cycle_start ≡ none =
          ap (λ k. cycle_calls code k cycle_start) (sym e)
          ∙ cycle_calls-longer code n (98 - n) cycle_start faults in
        let clash : some r ≡ none = sym last ∙ behind in absurd (cc)
  ],
  λ many.
      let e : 99 + (n - 99) ≡ n = omega arith in
      ap (λ k. cycle_calls code k cycle_start) (sym e)
      ∙ cycle_calls-longer code 99 (n - 99) cycle_start (first_calls code),
)
