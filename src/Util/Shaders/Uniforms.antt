-- ===== src/Util/Shaders/Uniforms.antt =====
-- src/tracker/util.cpp: the uniforms that `ShaderProgram::build` sets.
use foosball_tracker.Common.{
  ℕ, ◌≡◌, ◌≢◌, refl, sym, ap, ◌∙◌, Bool, true, false, List, [], ◌∷◌, ◌++◌,
}
use foosball_tracker.Common.Int.{ℤ, negsuc, eqb_ℤ}
use foosball_tracker.Util.Shaders.{
  UniformValue, uniform_notype, uniform_int, uniform_float, uniform_float2, ShaderUniform, Driver,
  UniformCall, uniform1i, uniform1f, uniform2f, locate_uniform, locate_uniforms, set_uniform,
  set_uniforms,
}

module _ {F : Type 0} where
  -- The call is for a location that exists.
  abbrev pub HasLocation : UniformCall F → Type 0
  HasLocation (uniform1i at i) = at ≢ negsuc 0
  HasLocation (uniform1f at f) = at ≢ negsuc 0
  HasLocation (uniform2f at f1 f2) = at ≢ negsuc 0

  abbrev pub AllHaveLocations : List (UniformCall F) → Type 0
  AllHaveLocations [] = Unit {0}
  AllHaveLocations (call ∷ calls) = HasLocation call × AllHaveLocations calls

  append-AllHaveLocations :
      (xs ys : List (UniformCall F))
      → AllHaveLocations xs
      → AllHaveLocations ys
      → AllHaveLocations (xs ++ ys)
  append-AllHaveLocations [] ys h k = k
  append-AllHaveLocations (x ∷ xs) ys h k = (h.0, append-AllHaveLocations xs ys h.1 k)

  set_content :
      (name : ℕ) (content : UniformValue F) (at : ℤ)
      → at ≢ negsuc 0
      → AllHaveLocations (set_uniform (record { name = name; content = content; location = at }))
  unfolding set_uniform
  set_content name uniform_notype at h = tt
  set_content name (uniform_int i) at h = (h, tt)
  set_content name (uniform_float f) at h = (h, tt)
  set_content name (uniform_float2 f1 f2) at h = (h, tt)

  located :
      (d : Driver) (u : ShaderUniform F) (b : Bool)
      → eqb_ℤ (d.uniform_location u.name) (negsuc 0) ≡ b
      → AllHaveLocations (set_uniform (locate_uniform d u))
  unfolding locate_uniform set_uniform
  located d u true e = rw e tt
  located d u false e = rw e (
      set_content u.name u.content (d.uniform_location u.name) λ missing.
        let found : true ≡ false = ap (λ at. eqb_ℤ at (negsuc 0)) (sym missing) ∙ e in absurd (cc))

  -- `ShaderProgram::build` sets only uniforms that the linked program has: a uniform that GL does not
  -- find, for which it gives the location -1, is set by no call.
  pub set_uniforms-AllHaveLocations :
      (d : Driver) (us : List (ShaderUniform F))
      → AllHaveLocations (set_uniforms (locate_uniforms d us))
  unfolding set_uniforms locate_uniforms
  set_uniforms-AllHaveLocations d [] = tt
  set_uniforms-AllHaveLocations d (u ∷ us) =
      append-AllHaveLocations (set_uniform (locate_uniform d u))
        (set_uniforms (locate_uniforms d us)) (located d u _ refl)
        (set_uniforms-AllHaveLocations d us)
