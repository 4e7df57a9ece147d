-- ===== src/Util/Tests.antt =====
-- src/tracker/util.cpp: a program that fails at each step, and one that does not.
use foosball_tracker.Common.{
  ℕ, ◌<◌, ◌≡◌, refl, arith, true, List, [], ◌∷◌, some, Every-replicate, ◌>>=◌,
}
use foosball_tracker.Common.Int.{pos}
use foosball_tracker.Util.{brga_to_rgba}
use foosball_tracker.Util.Colours.{pixels, swap_first_third, brga_to_rgba-pixels}
use foosball_tracker.Util.Shaders.{uniform_int, ShaderProgram, Driver, Gl, build}
use foosball_tracker.Util.Shaders.Objects.{IsBuilt, IsNamed, build-IsBuilt}

brga_to_rgba-pixels_example :
    (brga_to_rgba (pixels ((1, 2, 3, 4) ∷ []))
      ≡ some (pixels (swap_first_third ((1, 2, 3, 4) ∷ []))))
    × ((brga_to_rgba (pixels ((1, 2, 3, 4) ∷ [])) >>= λ out. brga_to_rgba out)
        ≡ some (pixels ((1, 2, 3, 4) ∷ [])))
brga_to_rgba-pixels_example = brga_to_rgba-pixels ((1, 2, 3, 4) ∷ [])

abbrev buffer : List ℕ
buffer = 0 ∷ 20 ∷ 60 ∷ 200 ∷ 9 ∷ 11 ∷ 51 ∷ 151 ∷ []

abbrev simple : ShaderProgram ℕ
simple = record {
  has_vertex_source = true;
  has_fragment_source = true;
  uniforms = record { name = 1; content = uniform_int (pos 0); location = pos 0 } ∷ [];
  attribute_names = 7 ∷ [];
  vs = 0;
  fs = 0;
  program = 0;
  attribute_locations = [];
}

abbrev driver : Driver
driver = record {
  vertex_compiles = true;
  fragment_compiles = true;
  links = true;
  attribute_location = λ n. pos n;
  uniform_location = λ n. pos n;
}

abbrev context : Gl ℕ
context = record { objects = 5 ∷ 5 ∷ []; next_name = 6; loaded_shaders = []; calls = [] }

context-IsNamed : IsNamed context
context-IsNamed = (Every-replicate (λ n. 0 < n) 2 5 (omega arith), omega arith)

build-IsBuilt_example : IsBuilt context (build driver simple context)
build-IsBuilt_example = build-IsBuilt driver simple context context-IsNamed refl
