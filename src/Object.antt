-- ===== src/Object.antt =====
-- pkg/core/object/go_object.go: the objects that Go gives to Lua. A table is what `RawGet` gives
-- for each key, `to_string` is gopher-lua's String() of a value, and `G` is the type of Go values
-- behind objects, which may have an ObjectGet and an ObjectSet.
pub mod Access
pub mod Frozen
pub mod Printing
use drlee.Prelude.{
  ℕ, String, Bool, true, false, Option, none, some, List, [], ◌∷◌, if◌then◌else◌, is_some, str_eq,
  map,
}
use drlee.Prelude.Dict.{Dict, lookup, insert}
use drlee.Prelude.Result.{Result, ok, raise, panic, fatal, ◌>>=◌}
use drlee.Lua.{LValue, nil, string, user_data}

abbrev pub Table : Type 0 → Type 0
Table F = LValue F → LValue F

abbrev pub is_string : {F : Type 0} → String → LValue F → Bool
is_string key (string s) = str_eq s key
is_string key _ = false

-- RawSetString
abbrev pub raw_set_string : {F : Type 0} → String → LValue F → Table F → Table F
raw_set_string key v t k = if is_string key k then v else t k

abbrev pub new_table : {F : Type 0} → Table F
new_table key = nil

-- CanGet and CanSet: `none` where the Go value has no such method. ObjectSet also gives the Go
-- value as it is afterwards.
pub record Interface (F G : Type 0) : Type 0 where
  pub object_get : Option (G → LValue F → Option (LValue F))
  pub object_set : Option (G → LValue F → LValue F → Bool × G)

pub record Object (F G : Type 0) : Type 0 where
  pub methods : Dict ℕ
  pub properties : Dict (LValue F)
  pub table : Option (Table F)
  pub go_value : G
  pub readonly : Bool
  pub protected : Bool

module _ {F G : Type 0} where
  -- New, NewReadOnly and NewProtected, once the closures of the methods are made
  unfoldable pub new : Dict ℕ → Dict (LValue F) → G → Object F G
  new methods properties value = record {
    methods = methods;
    properties = properties;
    table = some new_table;
    go_value = value;
    readonly = false;
    protected = false;
  }

  unfoldable pub new_read_only : Dict ℕ → Dict (LValue F) → G → Object F G
  new_read_only methods properties value = record {
    methods = methods;
    properties = properties;
    table = none;
    go_value = value;
    readonly = true;
    protected = false;
  }

  unfoldable pub new_protected : Dict ℕ → Dict (LValue F) → G → Object F G
  new_protected methods properties value = record {
    methods = methods;
    properties = properties;
    table = some new_table;
    go_value = value;
    readonly = false;
    protected = true;
  }

  unfoldable pub set_property : String → LValue F → Object F G → Object F G
  set_property key value obj = record obj { properties = insert key value obj.properties }

  -- SetFunction, and SetMethod once the closure is made
  unfoldable pub set_function : String → ℕ → Object F G → Object F G
  set_function key fn obj = record obj { methods = insert key fn obj.methods }

  -- Get: `heap` says which userdata hold an object
  unfoldable pub get : (ℕ → Option (Object F G)) → LValue F → Result (Object F G)
  get heap (user_data u) = elim (heap u) [ none ↦ raise "expected GoObject" | some obj ↦ ok obj ]
  get heap _ = raise "expected user data"

  unfoldable pub must_get : (ℕ → Option (Object F G)) → LValue F → Option (Object F G)
  must_get heap (user_data u) = heap u
  must_get heap _ = none

  unfoldable pub is : (ℕ → Option (Object F G)) → LValue F → Bool
  is heap (user_data u) = is_some (heap u)
  is heap _ = false

  unfoldable pub value : (ℕ → Option (Object F G)) → LValue F → Result G
  unfolding get
  value heap v = get heap v >>= λ obj. ok obj.go_value

  unfoldable pub must_value : (ℕ → Option (Object F G)) → LValue F → Option G
  unfolding must_get
  must_value heap v = elim (must_get heap v) [ none ↦ none | some obj ↦ some obj.go_value ]

  module _ (to_string : LValue F → String) (i : Interface F G) where
    -- the custom table, read under the key as it came
    unfoldable pub get_custom : LValue F → Object F G → Result (LValue F)
    get_custom raw_key obj =
        if obj.readonly then ok nil else elim obj.table [ none ↦ panic | some t ↦ ok (t raw_key) ]

    unfoldable pub get_field : LValue F → Object F G → Result (LValue F)
    unfolding get_custom
    get_field raw_key obj = elim (lookup (to_string raw_key) obj.properties) [
      | some v ↦ ok v
      | none ↦ elim (lookup (to_string raw_key) obj.methods) [
        | some fn ↦ ok (LValue.function fn)
        | none ↦ get_custom raw_key obj
      ]
    ]

    abbrev pub from_getter : LValue F → Object F G → Option (LValue F)
    from_getter raw_key obj = elim i.object_get [
      | none ↦ none
      | some getter ↦ getter obj.go_value raw_key
    ]

    -- lGet
    unfoldable pub l_get : LValue F → Object F G → Result (LValue F)
    unfolding get_field
    l_get raw_key obj = elim (from_getter raw_key obj) [
      | some v ↦ ok v
      | none ↦ get_field raw_key obj
    ]

    -- lSet after ObjectSet
    unfoldable pub set_field : LValue F → LValue F → Object F G → Result (Object F G)
    set_field raw_key v obj =
        let key = to_string raw_key in
        if obj.readonly
        then raise "Attempt to modify read-only value"
        else if is_some (lookup key obj.properties)
        then if obj.protected then raise "Attempt to modify protected properties" else ok obj
        else if is_some (lookup key obj.methods)
        then if obj.protected then raise "Attempt to modify protected methods" else ok obj
        else elim obj.table [
          | none ↦ panic
          | some t ↦ ok (record obj { table = some (raw_set_string key v t) })
        ]

    -- lSet
    unfoldable pub l_set : LValue F → LValue F → Object F G → Result (Object F G)
    unfolding set_field
    l_set raw_key v obj = elim i.object_set [
      | none ↦ set_field raw_key v obj
      | some setter ↦
          let (done, value) = setter obj.go_value raw_key v in
          let obj' = record obj { go_value = value } in
          if done then ok obj' else set_field raw_key v obj'
    ]
