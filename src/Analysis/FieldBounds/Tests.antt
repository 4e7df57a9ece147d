-- ===== src/Analysis/FieldBounds/Tests.antt =====
-- src/tracker/analysis.cpp: the field in a small buffer, in fixed-point arithmetic.
use foosball_tracker.Common.{
  ℕ, ◌<◌, ◌≡◌, refl, arith, List, [], ◌∷◌, Every, Every-replicate, replicate, some,
}
use foosball_tracker.Common.Fixed.{fixed}
use foosball_tracker.Analysis.{Analysis, init}
use foosball_tracker.Analysis.FieldBounds.{extent, process_field_buffer}
use foosball_tracker.Analysis.FieldBounds.Safety.{IsField, process_field_buffer-IsField}

abbrev green : List ℕ
green = replicate 12 90

green-byte : Every (λ v. v < 256) green
green-byte = Every-replicate (λ v. v < 256) 12 90 (omega arith)

abbrev columns : List ℕ
columns = 0 ∷ 10 ∷ 70 ∷ 20 ∷ 0 ∷ []

columns-ends : extent 100 5 columns ≡ some (record { first = 2; last = 3 })
unfolding extent
columns-ends = refl

process_field_buffer-IsField_example :
    (r : Analysis ℕ) × (process_field_buffer fixed (init fixed) green 4 3 ≡ some r)
    × IsField fixed (init fixed) 4 3 green r
process_field_buffer-IsField_example =
    process_field_buffer-IsField fixed (init fixed) 4 3 green (omega arith) (omega arith)
      (omega arith) green-byte
