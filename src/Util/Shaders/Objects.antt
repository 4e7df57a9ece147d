-- ===== src/Util/Shaders/Objects.antt =====
-- src/tracker/util.cpp: the GL objects that `ShaderProgram::build` creates and deletes.
use foosball_tracker.Common.{
  ℕ, zero, suc, ◌+◌, ◌==◌, ◌<◌, ◌≡◌, refl, ap, ◌∙◌, arith, if◌then◌else◌, Bool, true, false, not,
  ◌&&◌, List, [], ◌∷◌, ◌++◌, some-inj, Every,
}
use foosball_tracker.Util.Shaders.{
  ShaderProgram, Driver, Gl, remove, fail, locate_attributes, finish, build, delete_programs,
  cleanup_shaders,
}

-- Object names are above 0, and so is the next.
abbrev pub IsNamed : {F : Type 0} → Gl F → Type 0
IsNamed g = Every (λ n. 0 < n) g.objects × (0 < g.next_name)

remove-zero : (ms : List ℕ) → Every (λ n. 0 < n) ms → remove 0 ms ≡ ms
unfolding remove
remove-zero [] h = refl
remove-zero (m ∷ ms) h =
    let here : (0 == m) ≡ false = let lt = h 0 m refl in ground arith in
    rw here (ap (◌∷◌ m) (remove-zero ms (λ i. h (suc i))))

positive-cons : (m : ℕ) (ms : List ℕ) → 0 < m → Every (λ n. 0 < n) ms → Every (λ n. 0 < n) (m ∷ ms)
positive-cons m ms lt h zero n e = let same : m ≡ n = some-inj e in omega arith
positive-cons m ms lt h (suc i) n e = h i n e

remove-head : (m : ℕ) (ms : List ℕ) → remove m (m ∷ ms) ≡ ms
unfolding remove
remove-head m ms = let e : (m == m) ≡ true = ground arith in rw e refl

remove-later : (n m : ℕ) (ms : List ℕ) → n < m → remove n (m ∷ ms) ≡ m ∷ remove n ms
unfolding remove
remove-later n m ms h = let e : (n == m) ≡ false = ground arith in rw e refl

removed_all : (a b c : ℕ) (ms : List ℕ) → remove c (remove b (remove a (a ∷ b ∷ c ∷ ms))) ≡ ms
removed_all a b c ms =
    rw (remove-head a (b ∷ c ∷ ms), remove-head b (c ∷ ms), remove-head c ms) refl

module _ {F : Type 0} where
  -- What a build leaves: after a failure the objects and the loaded shaders are as before, and after a
  -- success the three new objects and the program are there.
  pub record IsBuilt (g0 : Gl F) (r : Bool × ShaderProgram F × Gl F) : Type 0 where
    pub failure :
        r.0 ≡ false → (r.2.objects ≡ g0.objects) × (r.2.loaded_shaders ≡ g0.loaded_shaders)
    pub success :
        r.0 ≡ true
        → (r.2.objects ≡ r.1.program ∷ r.1.fs ∷ r.1.vs ∷ g0.objects)
          × (r.2.loaded_shaders ≡ g0.loaded_shaders ++ (r.1 ∷ []))
          × (r.1.vs < r.1.fs)
          × (r.1.fs < r.1.program)

  IsBuilt-if :
      (g0 : Gl F) (b : Bool) (r s : Bool × ShaderProgram F × Gl F)
      → IsBuilt g0 r
      → IsBuilt g0 s
      → IsBuilt g0 (if b then r else s)
  IsBuilt-if g0 true r s h k = h
  IsBuilt-if g0 false r s h k = k

  fail-IsBuilt :
      (g0 : Gl F) (p : ShaderProgram F) (g : Gl F)
      → remove p.vs (remove p.fs (remove p.program g.objects)) ≡ g0.objects
      → g.loaded_shaders ≡ g0.loaded_shaders
      → IsBuilt g0 (fail p g)
  unfolding fail
  fail-IsBuilt g0 p g gone same = record { failure = λ _. (gone, same); success = λ e. absurd (cc) }

  finish-IsBuilt :
      (g0 : Gl F) (d : Driver) (p : ShaderProgram F) (g : Gl F)
      → g.objects ≡ p.program ∷ p.fs ∷ p.vs ∷ g0.objects
      → g.loaded_shaders ≡ g0.loaded_shaders
      → p.vs < p.fs
      → p.fs < p.program
      → IsBuilt g0 (finish d p g)
  unfolding finish
  finish-IsBuilt g0 d p g created same one two =
      IsBuilt-if g0 (locate_attributes d p.attribute_names []).0 _ _
        (record { failure = λ e. absurd (cc); success = λ _. (created, rw same refl, one, two) })
        (fail-IsBuilt g0 _ g (rw created (removed_all p.program p.fs p.vs g0.objects)) same)

  vertex_removed :
      (g : Gl F) (program : ℕ)
      → IsNamed g
      → program ≡ 0
      → remove g.next_name (remove 0 (remove program (g.next_name ∷ g.objects))) ≡ g.objects
  vertex_removed g program named unbuilt =
      let none_zero =
        remove-zero (g.next_name ∷ g.objects)
          (positive-cons g.next_name g.objects named.1 named.0) in
      rw (unbuilt, none_zero, none_zero) (remove-head g.next_name g.objects)

  fragment_removed :
      (g : Gl F) (program : ℕ)
      → IsNamed g
      → program ≡ 0
      → remove g.next_name
          (remove (g.next_name + 1) (remove program ((g.next_name + 1) ∷ g.next_name ∷ g.objects)))
        ≡ g.objects
  fragment_removed g program named unbuilt =
      let vertex = positive-cons g.next_name g.objects named.1 named.0 in
      let both = positive-cons (g.next_name + 1) (g.next_name ∷ g.objects) (omega arith) vertex in
      rw
        (
          unbuilt,
          remove-zero ((g.next_name + 1) ∷ g.next_name ∷ g.objects) both,
          remove-head (g.next_name + 1) (g.next_name ∷ g.objects),
        )
        (remove-head g.next_name g.objects)

  -- `ShaderProgram::build` of a program that was never built leaks nothing: where it fails, at whichever
  -- step, every object that it created is deleted and the program is not among the loaded ones; where
  -- it succeeds, its three objects exist and it is the last of the loaded programs.
  pub build-IsBuilt :
      (d : Driver) (p : ShaderProgram F) (g : Gl F)
      → IsNamed g
      → p.program ≡ 0
      → IsBuilt g (build d p g)
  unfolding build
  build-IsBuilt d p g named unbuilt =
      IsBuilt-if g (not (p.has_vertex_source && p.has_fragment_source)) _ _
        (record { failure = λ _. (refl, refl); success = λ e. absurd (cc) })
        (IsBuilt-if g (not d.vertex_compiles) _ _
          (fail-IsBuilt g _ _ (vertex_removed g p.program named unbuilt) refl)
          (IsBuilt-if g (not d.fragment_compiles) _ _
            (fail-IsBuilt g _ _ (fragment_removed g p.program named unbuilt) refl)
            (IsBuilt-if g (not d.links) _ _ (fail-IsBuilt g _ _ (removed_all _ _ _ g.objects) refl)
              (finish-IsBuilt g d _ _ refl refl (omega arith) (omega arith)))))

  cleanup_one :
      (p : ShaderProgram F) (g : Gl F) (objects : List ℕ)
      → g.loaded_shaders ≡ p ∷ []
      → g.objects ≡ p.program ∷ p.fs ∷ p.vs ∷ objects
      → p.vs < p.fs
      → p.fs < p.program
      → (cleanup_shaders g).objects ≡ objects
  unfolding cleanup_shaders delete_programs
  cleanup_one p g objects loaded created one two =
      ap (λ ps. (delete_programs ps g).objects) loaded
      ∙ ap (λ ms. remove p.program (remove p.vs (remove p.fs ms))) created
      ∙ rw
          (
            remove-later p.fs p.program (p.fs ∷ p.vs ∷ objects) two,
            remove-head p.fs (p.vs ∷ objects),
            remove-later p.vs p.program (p.vs ∷ objects) (omega arith),
            remove-head p.vs objects,
          )
          (remove-head p.program objects)

  -- `cleanupShaders` after one successful build that followed no other deletes exactly the objects of
  -- that build and forgets the program.
  pub cleanup_shaders-build :
      (d : Driver) (p : ShaderProgram F) (g : Gl F)
      → IsNamed g
      → p.program ≡ 0
      → g.loaded_shaders ≡ []
      → (build d p g).0 ≡ true
      → ((cleanup_shaders (build d p g).2).objects ≡ g.objects)
        × ((cleanup_shaders (build d p g).2).loaded_shaders ≡ [])
  unfolding cleanup_shaders
  cleanup_shaders-build d p g named unbuilt empty ok =
      let built = build-IsBuilt d p g named unbuilt in
      let (objects, loaded, one, two) = built.success ok in
      (
        cleanup_one (build d p g).1 (build d p g).2 g.objects
            (loaded ∙ ap (λ ps. ps ++ ((build d p g).1 ∷ [])) empty) objects one two,
        refl,
      )
