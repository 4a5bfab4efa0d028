-- ===== src/Params/Ensuring.antt =====
-- pkg/core/helpers/params.go: EnsureParamTypes and EnsureTableProperties.
use drlee.Prelude.{
  ℕ, zero, suc, ◌+◌, String, ◌≡◌, refl, ◌∙◌, true, some, List, [], ◌∷◌, length, ◌==◌, get_elem?,
  arith, Bool-cases, inl, inr, ◌↔◌, All, subst,
}
use drlee.Prelude.Result.{ok}
use drlee.Lua.{LType, LValue, type_of, same_type, same_type-eq}
use drlee.Params.{get, check_types, ensure_param_types, ensure_table_properties}

same_type_refl : (t : LType) → same_type t t ≡ true
same_type_refl t = ground arith

module _ {F : Type 0} where
  -- Each type is the one of the argument in its place, counted from `i`.
  abbrev pub InPlace : ℕ → List LType → List (LValue F) → Type 0
  InPlace i types frame =
      (j : ℕ) (t : LType) → get_elem? types j ≡ some t → type_of (get (suc (i + j)) frame) ≡ t

  check_types_sound :
      (bad : ℕ → LType → String) (i : ℕ) (types : List LType) (frame : List (LValue F))
      → check_types bad i types frame ≡ ok true
      → InPlace i types frame
  unfolding check_types
  check_types_sound bad i [] frame h j t e = cc
  check_types_sound bad i (u ∷ types) frame h zero t e =
      elim (Bool-cases (same_type (type_of (get (suc i) frame)) u)) [
        | inl q ↦ let r = same_type-eq _ _ q in let z : i + 0 ≡ i = omega arith in rw z (r ∙ cc)
        | inr q ↦ ground arith
      ]
  check_types_sound bad i (u ∷ types) frame h (suc j) t e =
      let z : i + suc j ≡ suc i + j = omega arith in
      rw z (check_types_sound bad (suc i) types frame (ground arith) j t e)

  check_types_complete :
      (bad : ℕ → LType → String) (i : ℕ) (types : List LType) (frame : List (LValue F))
      → InPlace i types frame
      → check_types bad i types frame ≡ ok true
  unfolding check_types
  check_types_complete bad i [] frame h = refl
  check_types_complete bad i (u ∷ types) frame h =
      let z : i + 0 ≡ i = omega arith in
      let first = subst (λ k. type_of (get (suc k) frame) ≡ u) z (h zero u refl) in
      let rest = check_types_complete bad (suc i) types frame (λ j t e.
        let z' : i + suc j ≡ suc i + j = omega arith in
        subst (λ k. type_of (get (suc k) frame) ≡ t) z' (h (suc j) t e)) in
      rw (first, same_type_refl u, rest) refl

  -- EnsureParamTypes returns, and then with true, exactly for a frame of as many arguments as there
  -- are types, each of the type in its place; it raises for every other frame.
  pub ensure_param_types_iff :
      (count : String) (bad : ℕ → LType → String) (types : List LType) (frame : List (LValue F))
      → (ensure_param_types count bad types frame ≡ ok true)
        ↔ ((length frame ≡ length types) × InPlace 0 types frame)
  unfolding ensure_param_types
  ensure_param_types_iff count bad types frame = elim (Bool-cases (length frame == length types)) [
    | inl q ↦ rw q (
      λ h. (ground arith, check_types_sound bad 0 types frame h),
      λ h. check_types_complete bad 0 types frame h.1,
    )
    | inr q ↦ rw q (λ h. cc, λ h. ground arith)
  ]

  abbrev pub Fits : (String → LValue F) → String × LType → Type 0
  Fits raw_get_string (key, typ) = type_of (raw_get_string key) ≡ typ

  -- EnsureTableProperties returns, and then with true, exactly if each named property of the table
  -- has its type, in whatever order the properties are looked at.
  pub ensure_table_properties_iff :
      (bad : String → LType → String) (raw_get_string : String → LValue F)
      (properties : List (String × LType))
      → (ensure_table_properties bad raw_get_string properties ≡ ok true)
        ↔ All (Fits raw_get_string) properties
  unfolding ensure_table_properties
  ensure_table_properties_iff bad raw_get_string [] = (λ h. tt, λ h. refl)
  ensure_table_properties_iff bad raw_get_string ((key, typ) ∷ properties) =
      let (sound, complete) = ensure_table_properties_iff bad raw_get_string properties in
      elim (Bool-cases (same_type (type_of (raw_get_string key)) typ)) [
        | inl q ↦ rw q (λ h. (same_type-eq _ _ q, sound h), λ h. complete h.1)
        | inr q ↦ rw q (
          λ h. cc,
          λ h.
              let e : same_type (type_of (raw_get_string key)) typ ≡ true =
                rw h.0 (same_type_refl typ) in
              cc,
        )
      ]
