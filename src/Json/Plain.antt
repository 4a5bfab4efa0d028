-- ===== src/Json/Plain.antt =====
-- pkg/core/json/json.go: the JSON that comes back from Lua as it went in, and what is relied on: the
-- parser of encoding/json and the tables of gopher-lua.
use drlee.Prelude.{
  ℕ, suc, ◌+◌, String, Bool, true, false, ◌≡◌, refl, List, [], ◌∷◌, ◌++◌, All, str_eq,
}
use drlee.Lua.{LValue, number, string, is_nil}
use drlee.Json.{
  Json, json_null, json_bool, json_number, json_string, json_raw, json_array, json_object, Items,
  no_items, item, Fields, no_fields, field, array, object, array_shape, object_shape, shape_of,
  Given,
}
use drlee.Json.Decoding as D
use drlee.Json.Decoding.{Parsed, ParsedItems, ParsedFields, Entries, Heap, LuaTables}

-- What json.Unmarshal makes of the text of a tree.
unfoldable mutual
  pub parsed : {F : Type 0} → Json F → Parsed F
  parsed json_null = D.nil_value
  parsed (json_bool b) = D.bool_value b
  parsed (json_number x) = D.float64 x
  parsed (json_string s) = D.string_value s
  parsed (json_raw s) = D.other_type
  parsed (json_array js) = D.slice (parsed_items js)
  parsed (json_object fs) = D.map_value (parsed_fields fs)

  pub parsed_items : {F : Type 0} → Items F → ParsedItems F
  parsed_items no_items = D.no_items
  parsed_items (item j js) = D.item (parsed j) (parsed_items js)

  pub parsed_fields : {F : Type 0} → Fields F → ParsedFields F
  parsed_fields no_fields = D.no_fields
  parsed_fields (field k j fs) = D.field k (parsed j) (parsed_fields fs)

-- how many arrays and objects there are
unfoldable mutual
  pub size : {F : Type 0} → Json F → ℕ
  size (json_array js) = suc (size_items js)
  size (json_object fs) = suc (size_fields fs)
  size _ = 0

  pub size_items : {F : Type 0} → Items F → ℕ
  size_items no_items = 0
  size_items (item j js) = size j + size_items js

  pub size_fields : {F : Type 0} → Fields F → ℕ
  size_fields no_fields = 0
  size_fields (field k j fs) = size j + size_fields fs

abbrev pub keys : {F : Type 0} → Fields F → List String
keys no_fields = []
keys (field k _ fs) = k ∷ keys fs

abbrev pub is_null : {F : Type 0} → Json F → Bool
is_null json_null = true
is_null _ = false

-- No empty object, no null inside an array or an object, no key twice, the keys in the encoder's
-- order, no text of a userdata, and numbers that encoding/json writes.
unfoldable mutual
  pub IsPlain : {F : Type 0} → Given F → (List String → Type 0) → Json F → Type 0
  IsPlain g InOrder (json_number x) = g.is_finite x ≡ true
  IsPlain g InOrder (json_raw s) = true ≡ false
  IsPlain g InOrder (json_array js) = ArePlain g InOrder js
  IsPlain g InOrder (json_object no_fields) = true ≡ false
  IsPlain g InOrder (json_object (field k j fs)) =
      InOrder (k ∷ keys fs) × HasPlain g InOrder (field k j fs)
  IsPlain g InOrder _ = Unit

  pub ArePlain : {F : Type 0} → Given F → (List String → Type 0) → Items F → Type 0
  ArePlain g InOrder no_items = Unit
  ArePlain g InOrder (item j js) =
      (is_null j ≡ false) × (IsPlain g InOrder j × ArePlain g InOrder js)

  pub HasPlain : {F : Type 0} → Given F → (List String → Type 0) → Fields F → Type 0
  HasPlain g InOrder no_fields = Unit
  HasPlain g InOrder (field k j fs) =
      (is_null j ≡ false)
      × (All (λ k'. str_eq k k' ≡ false) (keys fs) × (IsPlain g InOrder j × HasPlain g InOrder fs))

module _ {F : Type 0} (to_number : ℕ → F) where
  -- the entries of a list, from the index `i` on
  abbrev pub numbered : ℕ → List (LValue F) → Entries F
  numbered i [] = []
  numbered i (v ∷ vs) = (number (to_number i), v) ∷ numbered (suc i) vs

abbrev pub named : {F : Type 0} → List (String × LValue F) → Entries F
named [] = []
named ((k, v) ∷ vs) = (string k, v) ∷ named vs

abbrev pub names : {F : Type 0} → List (String × LValue F) → List String
names [] = []
names ((k, _) ∷ vs) = k ∷ names vs

-- every one of the first keys is different from every one of the second
abbrev pub Differ : List String → List String → Type 0
Differ ks ks' = All (λ k. All (λ k'. str_eq k k' ≡ false) ks') ks

module _ {F : Type 0} where
  pub Differ-head :
      (before : List (String × LValue F)) (k : String) (ks : List String)
      → Differ (names before) (k ∷ ks)
      → All (λ k'. str_eq k' k ≡ false) (names before)
  Differ-head [] k ks d = tt
  Differ-head (_ ∷ before) k ks (d, ds) = (d.0, Differ-head before k ks ds)

  pub Differ-step :
      (before : List (String × LValue F)) (k : String) (v : LValue F) (ks : List String)
      → Differ (names before) (k ∷ ks)
      → All (λ k'. str_eq k k' ≡ false) ks
      → Differ (names (before ++ (k, v) ∷ [])) ks
  Differ-step [] k v ks d new = (new, tt)
  Differ-step (_ ∷ before) k v ks (d, ds) new = (d.1, Differ-step before k v ks ds new)

-- Append puts a value that is not nil behind a list, RawSetH a new key behind the others, numbers are
-- equal to themselves, and what is in order is not rearranged.
pub record Laws {F : Type 0} (g : Given F) (l : LuaTables F) (InOrder : List String → Type 0)
    : Type 0 where
  pub append_last :
      (vs : List (LValue F)) (v : LValue F)
      → is_nil v ≡ false
      → l.append (numbered g.to_number 1 vs) v ≡ numbered g.to_number 1 (vs ++ v ∷ [])
  pub set_new :
      (vs : List (String × LValue F)) (k : String) (v : LValue F)
      → is_nil v ≡ false
      → All (λ k'. str_eq k' k ≡ false) (names vs)
      → l.raw_set_h (named vs) k v ≡ named (vs ++ (k, v) ∷ [])
  pub same_number : (i : ℕ) → g.same (g.to_number i) (g.to_number i) ≡ true
  pub by_key_id : (vs : List (String × LValue F)) → InOrder (names vs) → g.by_key vs ≡ vs

module _ {F : Type 0} (g : Given F)
    (same_number : (i : ℕ) → g.same (g.to_number i) (g.to_number i) ≡ true) where
  array_shape-numbered :
      (i : ℕ) (vs : List (LValue F))
      → array_shape g.to_number g.same i (numbered g.to_number i vs) ≡ array vs
  unfolding array_shape
  array_shape-numbered i [] = refl
  array_shape-numbered i (v ∷ vs) = rw (same_number i, array_shape-numbered (suc i) vs) refl

  pub shape_of-numbered :
      (vs : List (LValue F)) → shape_of g.to_number g.same (numbered g.to_number 1 vs) ≡ array vs
  unfolding shape_of
  shape_of-numbered [] = refl
  shape_of-numbered (v ∷ vs) = array_shape-numbered 1 (v ∷ vs)

  object_shape-named :
      (vs : List (String × LValue F)) → object_shape g.to_number g.same (named vs) ≡ object vs
  unfolding object_shape
  object_shape-named [] = refl
  object_shape-named ((k, v) ∷ vs) = rw (object_shape-named vs) refl

  pub shape_of-named :
      (k : String) (v : LValue F) (vs : List (String × LValue F))
      → shape_of g.to_number g.same (named ((k, v) ∷ vs)) ≡ object ((k, v) ∷ vs)
  unfolding shape_of
  shape_of-named k v vs = object_shape-named ((k, v) ∷ vs)
