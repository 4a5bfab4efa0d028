-- ===== src/Marshal/Copying.antt =====
-- The values that survive the way through Lua (pkg/core/helpers/marshal.go), and what is relied
-- on: the laws of a table of gopher-lua, the conversions of Go that lose nothing.
use drlee.Prelude.{ℕ, suc, String, Bool, true, false, List, ◌∷◌, some, str_eq, ◌≡◌, ◌≢◌, ◌⊎◌, All}
use drlee.Marshal.Types.{
  GoType, basic, duration, function_proto, map_of, slice_of, ptr_to, other, Fields, no_fields,
  field, BasicKind, of_number, of_string, of_bool, Basic, Val, Vals, Tree, nil, Log, new_table,
  raw_set_int, raw_set_string, Go, Tables, has_user_data, zero_val,
}

abbrev pub is_nil : {F A : Type 0} → Tree F A → Bool
is_nil nil = true
is_nil _ = false

-- RawGetString and RawGetInt give what was set last; Len is n after 1, …, n were set in order.
pub record TablesLaws {F A : Type 0} (h : Tables F A) : Type 0 where
  pub get_string_same :
      (log : Log F A) (k : String) (v : Tree F A) → h.raw_get_string (raw_set_string log k v) k ≡ v
  pub get_string_other :
      (log : Log F A) (k j : String) (v : Tree F A)
      → str_eq k j ≡ false
      → h.raw_get_string (raw_set_string log j v) k ≡ h.raw_get_string log k
  pub get_int_same :
      (log : Log F A) (i : ℕ) (v : Tree F A) → h.raw_get_int (raw_set_int log i v) i ≡ v
  pub get_int_other :
      (log : Log F A) (i j : ℕ) (v : Tree F A)
      → i ≢ j
      → h.raw_get_int (raw_set_int log j v) i ≡ h.raw_get_int log i
  pub len_new : h.len new_table ≡ 0
  pub len_append :
      (log : Log F A) (v : Tree F A)
      → is_nil v ≡ false
      → h.len (raw_set_int log (suc (h.len log)) v) ≡ suc (h.len log)

-- A number that float64 represents.
unfoldable pub IsExact : {F N A : Type 0} → Go F N A → (b : BasicKind) → Basic N b → Type 0
unfolding Basic
IsExact g (of_number k) x = g.from_number k (g.to_number k x) ≡ x
IsExact g of_string x = Unit
IsExact g of_bool x = Unit

-- No field after it has the name.
unfoldable pub IsNew : String → Fields → Type 0
IsNew k no_fields = Unit
IsNew k (field name _ _ fs) = (str_eq k name ≡ false) × IsNew k fs

-- `x` may be written and then read into a place that holds `old`: its numbers are exact, its
-- functions not nil, it holds no map, its structs' fields have different names, where the type has
-- a pointer to a struct the place has one already, and a field that is left out is equal in both.
unfoldable mutual
  unfolding Val IsExact IsNew

  pub Copies : {F N A : Type 0} → Go F N A → List String → (t : GoType) → Val N t → Val N t → Type 0
  Copies g tags (basic declared b) old x = (declared ≡ false) × IsExact g b x
  Copies g tags duration old x = g.parse_duration (g.duration_string x) ≡ some x
  Copies g tags function_proto old x = (p : ℕ) × (x ≡ some p)
  Copies g tags (map_of k v) old x = true ≡ false
  Copies g tags (slice_of t) old xs = All (Copies g tags t (zero_val g t)) xs
  Copies g tags (ptr_to fs) (some os) (some xs) =
      ((has_user_data tags ≡ true) × (g.unbox fs (g.box fs (some xs)) ≡ some (some xs)))
      ⊎ ((has_user_data tags ≡ false) × CopiesFields g fs os xs)
  Copies g tags (ptr_to fs) old x = (has_user_data tags ≡ true) × (g.unbox fs (g.box fs x) ≡ some x)
  Copies g tags (other k) old x = true ≡ false

  pub CopiesFields : {F N A : Type 0} → Go F N A → (fs : Fields) → Vals N fs → Vals N fs → Type 0
  CopiesFields g no_fields os xs = Unit
  CopiesFields g (field name rest t fs) (o, os) (x, xs) =
      (((str_eq name "-" ≡ true) × (o ≡ x))
        ⊎ ((str_eq name "-" ≡ false) × (IsNew name fs × Copies g (name ∷ rest) t o x)))
      × CopiesFields g fs os xs
