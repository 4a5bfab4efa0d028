-- ===== src/Marshal/Writing.antt =====
-- pkg/core/helpers/marshal.go marshalValue, structToTable, Marshal, MarshalMap: a value of Go as
-- a value of Lua.
use drlee.Prelude.{ℕ, suc, String, List, [], ◌∷◌, Option, none, some, if◌then◌else◌, str_eq}
use drlee.Marshal.Types.{
  GoType, basic, duration, function_proto, map_of, slice_of, ptr_to, other, Fields, no_fields,
  field, BasicKind, of_number, of_string, of_bool, Basic, Val, Vals, Tree, nil, bool, number,
  string, function, user_data, table, Log, new_table, raw_set, raw_set_int, raw_set_string, Go,
  Outcome, gives, not_castable, panics, ◌>>=◌, has_user_data, kind_of,
}

module _ {F A : Type 0} where
  unfoldable pub marshal_basic : {N : Type 0} → Go F N A → (b : BasicKind) → Basic N b → Tree F A
  unfolding Basic
  marshal_basic g (of_number k) x = number (g.to_number k x)
  marshal_basic g of_string x = string x
  marshal_basic g of_bool x = bool x

  -- the loop over a slice, from index `i` on
  unfoldable pub marshal_slice :
      {X : Type 0} → (X → Outcome (Tree F A)) → ℕ → List X → Log F A → Outcome (Log F A)
  marshal_slice m i [] log = gives log
  marshal_slice m i (x ∷ xs) log =
      m x >>= λ l_val. marshal_slice m (suc i) xs (raw_set_int log (suc i) l_val)

  -- the loop over a map
  unfoldable pub marshal_entries :
      {X Y : Type 0}
      → (X → Outcome (Tree F A))
      → (Y → Outcome (Tree F A))
      → List (X × Y)
      → Log F A
      → Outcome (Log F A)
  marshal_entries mk mv [] log = gives log
  marshal_entries mk mv ((k, v) ∷ es) log =
      mk k >>= λ key. mv v >>= λ value. marshal_entries mk mv es (raw_set log key value)

unfoldable pub entries_of : {X : Type 0} → Option (List X) → List X
entries_of none = []
entries_of (some es) = es

-- marshalValue, whose `field.Interface().(T)` panics where the type is declared, and
-- structToTable, where `NumField` panics on what a nil pointer points to.
unfoldable mutual
  unfolding Val marshal_basic marshal_slice marshal_entries entries_of

  pub marshal_value :
      {F N A : Type 0} → Go F N A → List String → (t : GoType) → Val N t → Outcome (Tree F A)
  marshal_value g tags (basic declared b) x =
      if declared then panics else gives (marshal_basic g b x)
  marshal_value g tags duration x = gives (string (g.duration_string x))
  marshal_value g tags function_proto none = panics
  marshal_value g tags function_proto (some p) = gives (function p)
  marshal_value g tags (map_of k v) x =
      marshal_entries (marshal_value g tags k) (marshal_value g tags v) (entries_of x) new_table
      >>= λ log. gives (table log)
  marshal_value g tags (slice_of t) xs =
      marshal_slice (marshal_value g tags t) 0 xs new_table >>= λ log. gives (table log)
  marshal_value g tags (ptr_to fs) none =
      if has_user_data tags then gives (user_data (g.box fs none)) else panics
  marshal_value g tags (ptr_to fs) (some xs) =
      let log = struct_to_table g fs xs new_table in
      if has_user_data tags
      then gives (user_data (g.box fs (some xs)))
      else log >>= λ table'. gives (table table')
  marshal_value g tags (other k) x = not_castable (kind_of (other k))

  pub struct_to_table :
      {F N A : Type 0} → Go F N A → (fs : Fields) → Vals N fs → Log F A → Outcome (Log F A)
  struct_to_table g no_fields xs log = gives log
  struct_to_table g (field name rest t fs) (x, xs) log =
      let l_val = marshal_value g (name ∷ rest) t x in
      if str_eq name "-"
      then struct_to_table g fs xs log
      else l_val >>= λ lv. struct_to_table g fs xs (raw_set_string log name lv)

-- Marshal, for a value of type interface{}: nil, or a value with its type
unfoldable pub marshal :
    {F N A : Type 0} → Go F N A → Option ((t : GoType) × Val N t) → Outcome (Tree F A)
unfolding marshal_value
marshal g none = gives nil
marshal g (some (t, x)) = marshal_value g [] t x

-- MarshalMap
unfoldable pub marshal_map :
    {F N A : Type 0}
    → Go F N A
    → List (String × Option ((t : GoType) × Val N t))
    → Log F A
    → Outcome (Log F A)
unfolding marshal
marshal_map g [] log = gives log
marshal_map g ((k, v) ∷ m) log = marshal g v >>= λ lv. marshal_map g m (raw_set_string log k lv)
