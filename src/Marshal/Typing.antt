-- ===== src/Marshal/Typing.antt =====
-- The type of Lua that a type of Go corresponds to (pkg/core/helpers/marshal.go marshalValue,
-- unmarshalValue).
use drlee.Prelude.{
  String, Bool, true, false, List, Option, none, some, ◌≡◌, refl, ◌⊎◌, inl, inr, if◌then◌else◌,
  Bool-cases,
}
use drlee.Lua.{
  LType, number_type, string_type, bool_type, function_type, table_type, user_data_type,
}
use drlee.Marshal.Types.{
  GoType, basic, duration, function_proto, map_of, slice_of, ptr_to, other, Fields, BasicKind,
  of_number, of_string, of_bool, Basic, Val, Tree, nil, bool, number, string, function, user_data,
  table, Log, Go, Tables, Outcome, gives, panics, new_table, has_user_data, type_of, ◌>>=◌,
}
use drlee.Marshal.Writing.{marshal_basic, marshal_value, struct_to_table}
use drlee.Marshal.Reading.{unmarshal_basic, unmarshal_value, unmarshal_duration, unmarshal_proto}

-- the type of Lua for a type of Go; none for what cannot pass
unfoldable pub lua_type : List String → GoType → Option LType
lua_type tags (basic _ (of_number _)) = some number_type
lua_type tags (basic _ of_string) = some string_type
lua_type tags (basic _ of_bool) = some bool_type
lua_type tags duration = some string_type
lua_type tags function_proto = some function_type
lua_type tags (map_of _ _) = some table_type
lua_type tags (slice_of _) = some table_type
lua_type tags (ptr_to _) = some (if has_user_data tags then user_data_type else table_type)
lua_type tags (other _) = none

-- nil, or of the type
abbrev Fits : {F A : Type 0} → Option LType → Tree F A → Type 0
Fits t v = (v ≡ nil) ⊎ (t ≡ some (type_of v))

module _ {F N A : Type 0} (g : Go F N A) (h : Tables F A) where
  given_basic_fits :
      (tags : List String) (d s : Bool) (b : BasicKind) (x : Basic N b) (v : Tree F A)
      → unmarshal_basic g d s b v ≡ gives x
      → Fits (lua_type tags (basic d b)) v
  unfolding unmarshal_basic lua_type
  given_basic_fits tags d s (of_number _) x (number n) e = inr refl
  given_basic_fits tags d s of_string x (string n) e = inr refl
  given_basic_fits tags d s of_bool x (bool n) e = inr refl
  given_basic_fits tags d s b x v e = cc

  basic_fits :
      (tags : List String) (d s : Bool) (b : BasicKind) (old x : Val N (basic d b)) (v : Tree F A)
      → unmarshal_value g h tags (basic d b) s old v ≡ gives x
      → Fits (lua_type tags (basic d b)) v
  unfolding unmarshal_value
  basic_fits tags d s b old x nil e = inl refl
  basic_fits tags d s b old x v e = given_basic_fits tags d s b x v e

  duration_fits :
      (tags : List String) (s : Bool) (old x : Val N duration) (v : Tree F A)
      → unmarshal_value g h tags duration s old v ≡ gives x
      → Fits (lua_type tags duration) v
  unfolding unmarshal_value unmarshal_duration lua_type
  duration_fits tags s old x nil e = inl refl
  duration_fits tags s old x (string n) e = inr refl
  duration_fits tags s old x v e = cc

  proto_fits :
      (tags : List String) (s : Bool) (old x : Val N function_proto) (v : Tree F A)
      → unmarshal_value g h tags function_proto s old v ≡ gives x
      → Fits (lua_type tags function_proto) v
  unfolding unmarshal_value unmarshal_proto lua_type
  proto_fits tags s old x nil e = inl refl
  proto_fits tags s old x (function n) e = inr refl
  proto_fits tags s old x v e = cc

  map_fits :
      (tags : List String) (s : Bool) (k t : GoType) (old x : Val N (map_of k t)) (v : Tree F A)
      → unmarshal_value g h tags (map_of k t) s old v ≡ gives x
      → Fits (lua_type tags (map_of k t)) v
  unfolding unmarshal_value lua_type
  map_fits tags s k t old x nil e = inl refl
  map_fits tags s k t old x (table n) e = inr refl
  map_fits tags s k t old x v e = cc

  slice_fits :
      (tags : List String) (s : Bool) (t : GoType) (old x : Val N (slice_of t)) (v : Tree F A)
      → unmarshal_value g h tags (slice_of t) s old v ≡ gives x
      → Fits (lua_type tags (slice_of t)) v
  unfolding unmarshal_value lua_type
  slice_fits tags s t old x nil e = inl refl
  slice_fits tags s t old x (table n) e = inr refl
  slice_fits tags s t old x v e = cc

  ptr_fits :
      (tags : List String) (s : Bool) (fs : Fields) (old x : Val N (ptr_to fs)) (v : Tree F A)
      → unmarshal_value g h tags (ptr_to fs) s old v ≡ gives x
      → Fits (lua_type tags (ptr_to fs)) v
  unfolding unmarshal_value lua_type Val
  ptr_fits tags s fs none x nil e = inl refl
  ptr_fits tags s fs (some _) x nil e = inl refl
  ptr_fits tags s fs old x (user_data a) e = elim (Bool-cases (has_user_data tags)) [
    | inl eu ↦ rw (eu) (inr refl)
    | inr eu ↦ cc
  ]
  ptr_fits tags s fs none x (table log) e = elim (Bool-cases (has_user_data tags)) [
    | inl eu ↦ cc
    | inr eu ↦ rw (eu) (inr refl)
  ]
  ptr_fits tags s fs (some old) x (table log) e = elim (Bool-cases (has_user_data tags)) [
    | inl eu ↦ cc
    | inr eu ↦ rw (eu) (inr refl)
  ]
  ptr_fits tags s fs old x v e = elim (Bool-cases (has_user_data tags)) [
    | inl eu ↦ cc
    | inr eu ↦ cc
  ]

  other_fits :
      (tags : List String) (k : String) (s : Bool) (old x : Val N (other k)) (v : Tree F A)
      → unmarshal_value g h tags (other k) s old v ≡ gives x
      → Fits (lua_type tags (other k)) v
  unfolding unmarshal_value lua_type
  other_fits tags k s old x nil e = inl refl
  other_fits tags k s old x v e = cc

  -- What is read into a place of Go is nil, or has the type of Lua that the place's type needs.
  pub unmarshal_value-lua_type :
      (tags : List String) (t : GoType) (can_set : Bool) (old x : Val N t) (v : Tree F A)
      → unmarshal_value g h tags t can_set old v ≡ gives x
      → (v ≡ nil) ⊎ (lua_type tags t ≡ some (type_of v))
  unmarshal_value-lua_type tags (basic d b) s old x v e = basic_fits tags d s b old x v e
  unmarshal_value-lua_type tags duration s old x v e = duration_fits tags s old x v e
  unmarshal_value-lua_type tags function_proto s old x v e = proto_fits tags s old x v e
  unmarshal_value-lua_type tags (map_of k t) s old x v e = map_fits tags s k t old x v e
  unmarshal_value-lua_type tags (slice_of t) s old x v e = slice_fits tags s t old x v e
  unmarshal_value-lua_type tags (ptr_to fs) s old x v e = ptr_fits tags s fs old x v e
  unmarshal_value-lua_type tags (other k) s old x v e = other_fits tags k s old x v e

bind_table :
    {F A : Type 0} (o : Outcome (Log F A)) (lv : Tree F A)
    → (o >>= λ log. gives (table log)) ≡ gives lv
    → some table_type ≡ some (type_of lv)
bind_table (gives log) lv e = cc
bind_table o lv e = cc

pointer_type :
    {F A : Type 0} (b : Bool) (a : A) (o : Outcome (Log F A)) (lv : Tree F A)
    → (if b then gives (user_data a) else (o >>= λ log. gives (table log))) ≡ gives lv
    → some (if b then user_data_type else table_type) ≡ some (type_of lv)
pointer_type true a o lv e = cc
pointer_type false a o lv e = bind_table o lv e

-- What is made of a value of Go has the type of Lua that its type needs.
pub marshal_value-lua_type :
    {F N A : Type 0} (g : Go F N A) (tags : List String) (t : GoType) (x : Val N t) (lv : Tree F A)
    → marshal_value g tags t x ≡ gives lv
    → lua_type tags t ≡ some (type_of lv)
unfolding marshal_value lua_type marshal_basic Basic Val
marshal_value-lua_type g tags (basic true b) x lv e = cc
marshal_value-lua_type g tags (basic false (of_number _)) x lv e = cc
marshal_value-lua_type g tags (basic false of_string) x lv e = cc
marshal_value-lua_type g tags (basic false of_bool) x lv e = cc
marshal_value-lua_type g tags duration x lv e = cc
marshal_value-lua_type g tags function_proto none lv e = cc
marshal_value-lua_type g tags function_proto (some p) lv e = cc
marshal_value-lua_type g tags (map_of k t) x lv e = bind_table _ lv e
marshal_value-lua_type g tags (slice_of t) x lv e = bind_table _ lv e
marshal_value-lua_type g tags (ptr_to fs) none lv e =
    pointer_type (has_user_data tags) (g.box fs none) panics lv e
marshal_value-lua_type g tags (ptr_to fs) (some xs) lv e =
    pointer_type (has_user_data tags) (g.box fs (some xs)) (struct_to_table g fs xs new_table) lv e
marshal_value-lua_type g tags (other k) x lv e = cc
