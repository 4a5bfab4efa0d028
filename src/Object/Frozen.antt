-- ===== src/Object/Frozen.antt =====
-- pkg/core/object/go_object.go: what Lua cannot change.
use drlee.Prelude.{
  String, ◌≡◌, refl, ap, ◌∙◌, Bool, true, false, Option, none, some, List, [], ◌∷◌, if◌then◌else◌,
  is_some, ◌||◌, Option-cases, inl, inr, arith,
}
use drlee.Prelude.Dict.{lookup}
use drlee.Prelude.Result.{Result, ok, raise, panic, fatal, ◌>>=◌}
use drlee.Lua.{LValue}
use drlee.Object.{Table, raw_set_string, Interface, Object, get_field, l_get, set_field, l_set}

module _ {F G : Type 0} where
  -- what Go gave an object, its Go value apart
  abbrev pub AreSame : Object F G → Object F G → Type 0
  AreSame obj obj' =
      (obj'.properties ≡ obj.properties)
      × (obj'.methods ≡ obj.methods)
      × (obj'.readonly ≡ obj.readonly)
      × (obj'.protected ≡ obj.protected)

  abbrev pub After : (Object F G → Type 0) → Result (Object F G) → Type 0
  After P (ok obj) = P obj
  After P _ = Unit

  After-if :
      (P : Object F G → Type 0) (b : Bool) (x y : Result (Object F G))
      → After P x
      → After P y
      → After P (if b then x else y)
  After-if P true x y h k = h
  After-if P false x y h k = k

  After-map :
      (P Q : Object F G → Type 0) (r : Result (Object F G))
      → ((obj : Object F G) → P obj → Q obj)
      → After P r
      → After Q r
  After-map P Q (ok obj) f h = f obj h
  After-map P Q (raise m) f h = tt
  After-map P Q panic f h = tt
  After-map P Q fatal f h = tt

  Same-trans : (a b c : Object F G) → AreSame a b → AreSame b c → AreSame a c
  Same-trans a b c (p, q, r, s) (p', q', r', s') = (p' ∙ p, q' ∙ q, r' ∙ r, s' ∙ s)

  After-bind :
      (P : Object F G → Type 0) (r : Result (Object F G)) (f : Object F G → Result (Object F G))
      → After (λ obj. After P (f obj)) r
      → After P (r >>= f)
  After-bind P (ok obj) f h = h
  After-bind P (raise m) f h = tt
  After-bind P panic f h = tt
  After-bind P fatal f h = tt

module _ {F G : Type 0} (to_string : LValue F → String) (i : Interface F G) where
  After-put :
      (raw_key v : LValue F) (obj : Object F G) (t : Option (Table F))
      → After (AreSame obj) (elim t [
        | none ↦ panic
        | some t ↦ ok (record obj { table = some (raw_set_string (to_string raw_key) v t) })
      ])
  After-put raw_key v obj none = tt
  After-put raw_key v obj (some t) = (refl, refl, refl, refl)

  set_field-AreSame :
      (raw_key v : LValue F) (obj : Object F G)
      → After (AreSame obj) (set_field to_string i raw_key v obj)
  unfolding set_field
  set_field-AreSame raw_key v obj =
      let same : AreSame obj obj = (refl, refl, refl, refl) in
      After-if (AreSame obj) obj.readonly _ _ tt (
        After-if (AreSame obj) (is_some (lookup (to_string raw_key) obj.properties)) _ _
          (After-if (AreSame obj) obj.protected _ _ tt same)
          (After-if (AreSame obj) (is_some (lookup (to_string raw_key) obj.methods)) _ _
            (After-if (AreSame obj) obj.protected _ _ tt same) (After-put raw_key v obj obj.table)))

  l_set-AreSame :
      (raw_key v : LValue F) (obj : Object F G)
      → After (AreSame obj) (l_set to_string i raw_key v obj)
  unfolding l_set
  l_set-AreSame raw_key v obj = elim (Option-cases i.object_set) [
    | inl e ↦ rw (e, l_set) (set_field-AreSame raw_key v obj)
    | inr (setter, e) ↦
        let obj' : Object F G = record obj { go_value = (setter obj.go_value raw_key v).1 } in
        rw (e, l_set)
          (After-if (AreSame obj) (setter obj.go_value raw_key v).0 _ _ (refl, refl, refl, refl)
            (set_field-AreSame raw_key v obj'))
  ]

  -- assignments of a script, up to the first that fails
  unfoldable pub assign : List (LValue F × LValue F) → Object F G → Result (Object F G)
  assign [] obj = ok obj
  assign ((key, v) ∷ rest) obj = l_set to_string i key v obj >>= assign rest

  assign-AreSame :
      (ws : List (LValue F × LValue F)) (obj : Object F G) → After (AreSame obj) (assign ws obj)
  unfolding assign
  assign-AreSame [] obj = (refl, refl, refl, refl)
  assign-AreSame ((key, v) ∷ rest) obj =
      After-bind (AreSame obj) (l_set to_string i key v obj) (assign rest) (
        After-map (AreSame obj) _ (l_set to_string i key v obj)
          (λ obj' h.
            After-map (AreSame obj') (AreSame obj) (assign rest obj')
              (λ obj'' h'. Same-trans obj obj' obj'' h h') (assign-AreSame rest obj'))
          (l_set-AreSame key v obj))

  -- Whatever a script assigns to an object, under whatever keys, and whatever the Go value's own
  -- ObjectSet does: as long as the assignments succeed, a read of a key that names a property or a
  -- method gives what it gave before, if reads have no ObjectGet of their own.
  pub assign_keeps_fields :
      (ws : List (LValue F × LValue F)) (obj : Object F G) (key : LValue F)
      → i.object_get ≡ none
      → (is_some (lookup (to_string key) obj.properties)
          || is_some (lookup (to_string key) obj.methods))
        ≡ true
      → After (λ obj'. l_get to_string i key obj' ≡ l_get to_string i key obj) (assign ws obj)
  unfolding l_get get_field
  assign_keeps_fields ws obj key g h =
      After-map (AreSame obj) _ (assign ws obj)
        (λ obj' (p, q, r, s).
          ground (arith, ap (lookup (to_string key)) p, ap (lookup (to_string key)) q))
        (assign-AreSame ws obj)
