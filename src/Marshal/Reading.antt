-- ===== src/Marshal/Reading.antt =====
-- pkg/core/helpers/marshal.go unmarshalValue, tableToStruct, Unmarshal: a value of Lua into a
-- place of Go. `can_set` is CanSet() of the place, which is false for what Unmarshal is called
-- with; `old` is what the place holds, and the result what it holds then. A failure leaves out
-- what was set before it.
use drlee.Prelude.{
  ℕ, zero, suc, String, Bool, true, false, List, [], ◌∷◌, Option, none, some, if◌then◌else◌, str_eq,
}
use drlee.Prelude.Int.{ℤ}
use drlee.Lua.{user_data_type, table_type}
use drlee.Marshal.Types.{
  GoType, basic, duration, function_proto, map_of, slice_of, ptr_to, other, Fields, no_fields,
  field, BasicKind, of_number, of_string, of_bool, Basic, Val, Vals, Tree, nil, bool, number,
  string, function, user_data, table, Log, Go, Tables, Outcome, gives, not_assignable,
  not_user_data, not_a_duration, not_a_proto, bad_duration, panics, ◌>>=◌, has_user_data,
  basic_kind, map_kind, slice_kind, ptr_kind, other_kind, type_of, zero_val,
}

-- field.Set(v)
unfoldable pub set : {X : Type 0} → Bool → X → Outcome X
set can_set x = if can_set then gives x else panics

unfoldable pub unmarshal_duration : {F N A : Type 0} → Go F N A → Bool → Tree F A → Outcome ℤ
unfolding set
unmarshal_duration g can_set (string s) = elim (g.parse_duration s) [
  | none ↦ bad_duration s
  | some d ↦ set can_set d
]
unmarshal_duration g can_set v = not_a_duration (type_of v)

unfoldable pub unmarshal_proto : {F A : Type 0} → Bool → Tree F A → Outcome (Option ℕ)
unfolding set
unmarshal_proto can_set (function p) = set can_set (some p)
unmarshal_proto can_set v = not_a_proto (type_of v)

-- field.Set(reflect.ValueOf(ud.Value)), which panics for a value of another type
unfoldable pub unbox_to :
    {F N A : Type 0} → Go F N A → (fs : Fields) → Bool → A → Outcome (Option (Vals N fs))
unfolding set
unbox_to g fs can_set a = elim (g.unbox fs a) [ none ↦ panics | some p ↦ set can_set p ]

-- `declared`: Set panics, for the type of the value is not the type of the place
unfoldable pub unmarshal_basic :
    {F N A : Type 0} → Go F N A → Bool → Bool → (b : BasicKind) → Tree F A → Outcome (Basic N b)
unfolding set Basic
unmarshal_basic g declared can_set (of_number k) (number x) =
    if declared then panics else set can_set (g.from_number k x)
unmarshal_basic g declared can_set of_string (string s) = if declared then panics else set can_set s
unmarshal_basic g declared can_set of_bool (bool b) = if declared then panics else set can_set b
unmarshal_basic g declared can_set b v = not_assignable (type_of v) (basic_kind b)

-- m.SetMapIndex(key, value)
unfoldable pub set_map_index : {X Y : Type 0} → (X → X → Bool) → X → Y → List (X × Y) → List (X × Y)
set_map_index eq key value [] = (key, value) ∷ []
set_map_index eq key value ((k, v) ∷ m) =
    if eq k key then (k, value) ∷ m else (k, v) ∷ set_map_index eq key value m

module _ {F A X : Type 0} where
  -- the loop over a slice: `n` more elements from index `i` on
  unfoldable pub unmarshal_slice :
      (Tree F A → Outcome X) → (ℕ → Tree F A) → ℕ → ℕ → Outcome (List X)
  unmarshal_slice un raw_get_int i zero = gives []
  unmarshal_slice un raw_get_int i (suc n) =
      let rest = unmarshal_slice un raw_get_int (suc i) n in
      un (raw_get_int (suc i)) >>= λ child. rest >>= λ children. gives (child ∷ children)

  -- the function given to ForEach, over the entries; SetMapIndex panics on a nil map
  unfoldable pub unmarshal_entries :
      {Y : Type 0}
      → (X → X → Bool)
      → (Tree F A → Outcome X)
      → (Tree F A → Outcome Y)
      → List (Tree F A × Tree F A)
      → Option (List (X × Y))
      → Outcome (Option (List (X × Y)))
  unfolding set_map_index
  unmarshal_entries eq uk uv [] m = gives m
  unmarshal_entries eq uk uv ((k, v) ∷ es) none = uk k >>= λ key. uv v >>= λ value. panics
  unmarshal_entries eq uk uv ((k, v) ∷ es) (some m) = uk k >>= λ key.
      uv v >>= λ value. unmarshal_entries eq uk uv es (some (set_map_index eq key value m))

unfoldable mutual
  unfolding Val unmarshal_duration unmarshal_proto unmarshal_basic unmarshal_slice unmarshal_entries
      unbox_to

  -- unmarshalValue
  pub unmarshal_value :
      {F N A : Type 0}
      → Go F N A
      → Tables F A
      → List String
      → (t : GoType) → Bool
      → Val N t
      → Tree F A
      → Outcome (Val N t)
  unmarshal_value g h tags t can_set old nil = gives old
  unmarshal_value g h tags duration can_set old v = unmarshal_duration g can_set v
  unmarshal_value g h tags function_proto can_set old v = unmarshal_proto can_set v
  unmarshal_value g h tags (basic declared b) can_set old v = unmarshal_basic g declared can_set b v
  unmarshal_value g h tags (map_of k t) can_set old (table log) =
      unmarshal_entries (g.key_eq k) (unmarshal_value g h tags k true (zero_val g k))
        (unmarshal_value g h tags t true (zero_val g t)) (h.for_each log)
        (if can_set then some [] else old)
  unmarshal_value g h tags (map_of k t) can_set old v = not_assignable (type_of v) map_kind
  unmarshal_value g h tags (slice_of t) can_set old (table log) =
      unmarshal_slice (unmarshal_value g h tags t true (zero_val g t)) (h.raw_get_int log) 0
        (h.len log)
      >>= set can_set
  unmarshal_value g h tags (slice_of t) can_set old v = not_assignable (type_of v) slice_kind
  unmarshal_value g h tags (ptr_to fs) can_set old (user_data a) =
      if has_user_data tags then unbox_to g fs can_set a else not_assignable user_data_type ptr_kind
  unmarshal_value g h tags (ptr_to fs) can_set none (table log) =
      if has_user_data tags then not_user_data table_type else panics
  unmarshal_value g h tags (ptr_to fs) can_set (some xs) (table log) =
      let ys = table_to_struct g h fs xs log in
      if has_user_data tags then not_user_data table_type else ys >>= λ fields. gives (some fields)
  unmarshal_value g h tags (ptr_to fs) can_set old v =
      if has_user_data tags then not_user_data (type_of v) else not_assignable (type_of v) ptr_kind
  unmarshal_value g h tags (other k) can_set old v = not_assignable (type_of v) (other_kind k)

  -- tableToStruct, on what the pointer points to
  pub table_to_struct :
      {F N A : Type 0}
      → Go F N A
      → Tables F A
      → (fs : Fields) → Vals N fs
      → Log F A
      → Outcome (Vals N fs)
  table_to_struct g h no_fields xs log = gives xs
  table_to_struct g h (field name rest t fs) (x, xs) log =
      let y = unmarshal_value g h (name ∷ rest) t true x (h.raw_get_string log name) in
      let ys = table_to_struct g h fs xs log in
      if str_eq name "-"
      then (ys >>= λ fields. gives (x, fields))
      else y >>= λ value. ys >>= λ fields. gives (value, fields)

-- Unmarshal
unfoldable pub unmarshal :
    {F N A : Type 0} → Go F N A → Tables F A → (t : GoType) → Val N t → Tree F A → Outcome (Val N t)
unfolding unmarshal_value
unmarshal g h t in' v = unmarshal_value g h [] t false in' v
