-- ===== src/Util/Shaders.antt =====
-- src/tracker/util.cpp and util.h: `ShaderProgram::build` and `cleanupShaders`. GL is a parameter: it
-- says how each step of a build turns out.
pub mod Objects
pub mod Uniforms
use foosball_tracker.Common.{
  ℕ, zero, suc, ◌+◌, ◌==◌, if◌then◌else◌, Bool, true, false, not, ◌&&◌, List, [], ◌∷◌, ◌++◌, Option,
  none, some,
}
use foosball_tracker.Common.Int.{ℤ, pos, negsuc, eqb_ℤ}

-- The initial value of a `ShaderUniform`, with its type.
pub data UniformValue (F : Type 0) : Type 0 where
  uniform_notype : UniformValue F
  uniform_int : ℤ → UniformValue F
  uniform_float : F → UniformValue F
  uniform_float2 : F → F → UniformValue F

-- A name is a number.
pub record ShaderUniform (F : Type 0) : Type 0 where
  pub name : ℕ
  pub content : UniformValue F
  pub location : ℤ

-- The arrays hold what stands before the first null name, at most 16.
pub record ShaderProgram (F : Type 0) : Type 0 where
  pub has_vertex_source : Bool
  pub has_fragment_source : Bool
  pub uniforms : List (ShaderUniform F)
  pub attribute_names : List ℕ
  pub vs : ℕ
  pub fs : ℕ
  pub program : ℕ
  pub attribute_locations : List ℤ

-- What GL answers.
pub record Driver : Type 0 where
  pub vertex_compiles : Bool
  pub fragment_compiles : Bool
  pub links : Bool
  pub attribute_location : ℕ → ℤ
  pub uniform_location : ℕ → ℤ

-- The calls that set the uniforms.
pub data UniformCall (F : Type 0) : Type 0 where
  uniform1i : ℤ → ℤ → UniformCall F
  uniform1f : ℤ → F → UniformCall F
  uniform2f : ℤ → F → F → UniformCall F

-- The objects that exist in GL, the name of the next object, and `loadedShaders`.
pub record Gl (F : Type 0) : Type 0 where
  pub objects : List ℕ
  pub next_name : ℕ
  pub loaded_shaders : List (ShaderProgram F)
  pub calls : List (UniformCall F)

-- Without the name, if it is there.
unfoldable pub remove : ℕ → List ℕ → List ℕ
remove n [] = []
remove n (m ∷ ms) = if n == m then ms else m ∷ remove n ms

-- The loop over the attributes. It gives up at the first that has no location.
unfoldable pub locate_attributes : Driver → List ℕ → List ℤ → Bool × List ℤ
locate_attributes d [] found = (true, found)
locate_attributes d (name ∷ names) found =
    let at = d.attribute_location name in
    let rest = locate_attributes d names (found ++ (at ∷ [])) in
    if eqb_ℤ at (negsuc 0) then (false, found ++ (at ∷ [])) else rest

module _ {F : Type 0} where
  -- `glCreateShader` and `glCreateProgram`, which give a new name above 0.
  abbrev pub create : Gl F → ℕ × Gl F
  create g =
      (g.next_name, record g { objects = g.next_name ∷ g.objects; next_name = g.next_name + 1 })

  -- `glDeleteShader` and `glDeleteProgram`, which pass over a name that is no object, like 0.
  abbrev pub delete : ℕ → Gl F → Gl F
  delete n g = record g { objects = remove n g.objects }

  -- The code at the label `fail`.
  unfoldable pub fail : ShaderProgram F → Gl F → Bool × ShaderProgram F × Gl F
  fail p g = (false, p, delete p.vs (delete p.fs (delete p.program g)))

  -- The loop over the uniforms: one without a location loses its type.
  unfoldable pub locate_uniform : Driver → ShaderUniform F → ShaderUniform F
  locate_uniform d u =
      let at = d.uniform_location u.name in
      if eqb_ℤ at (negsuc 0)
      then record u { location = at; content = uniform_notype }
      else record u { location = at }

  unfoldable pub locate_uniforms : Driver → List (ShaderUniform F) → List (ShaderUniform F)
  unfolding locate_uniform
  locate_uniforms d [] = []
  locate_uniforms d (u ∷ us) = locate_uniform d u ∷ locate_uniforms d us

  -- The loop that sets the initial values.
  unfoldable pub set_uniform : ShaderUniform F → List (UniformCall F)
  set_uniform u = elim u.content [
    | uniform_notype ↦ []
    | uniform_int i ↦ uniform1i u.location i ∷ []
    | uniform_float f ↦ uniform1f u.location f ∷ []
    | uniform_float2 f1 f2 ↦ uniform2f u.location f1 f2 ∷ []
  ]

  unfoldable pub set_uniforms : List (ShaderUniform F) → List (UniformCall F)
  unfolding set_uniform
  set_uniforms [] = []
  set_uniforms (u ∷ us) = set_uniform u ++ set_uniforms us

  -- The part of `build` after the link.
  unfoldable pub finish : Driver → ShaderProgram F → Gl F → Bool × ShaderProgram F × Gl F
  finish d p g =
      let (located, attributes) = locate_attributes d p.attribute_names [] in
      let p1 = record p { attribute_locations = attributes } in
      let p2 = record p1 { uniforms = locate_uniforms d p1.uniforms } in
      if located
      then (
        true,
        p2,
        record g {
          loaded_shaders = g.loaded_shaders ++ (p2 ∷ []);
          calls = g.calls ++ set_uniforms p2.uniforms;
        },
      )
      else fail p1 g

  -- `ShaderProgram::build`: true for the result 0, false for -1.
  unfoldable pub build : Driver → ShaderProgram F → Gl F → Bool × ShaderProgram F × Gl F
  build d p0 g0 =
      if not (p0.has_vertex_source && p0.has_fragment_source)
      then (false, p0, g0)
      else let p = record p0 { vs = g0.next_name; fs = 0 } in
        let g = (create g0).1 in
        if not d.vertex_compiles
        then fail p g
        else let p1 = record p { fs = g.next_name } in
          let g1 = (create g).1 in
          if not d.fragment_compiles
          then fail p1 g1
          else let p2 = record p1 { program = g1.next_name } in
            let g2 = (create g1).1 in if not d.links then fail p2 g2 else finish d p2 g2

  -- `cleanupShaders`
  unfoldable pub delete_programs : List (ShaderProgram F) → Gl F → Gl F
  delete_programs [] g = g
  delete_programs (p ∷ ps) g = delete_programs ps (delete p.program (delete p.vs (delete p.fs g)))

  unfoldable pub cleanup_shaders : Gl F → Gl F
  unfolding delete_programs
  cleanup_shaders g = record (delete_programs g.loaded_shaders g) { loaded_shaders = [] }
