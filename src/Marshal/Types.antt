-- ===== src/Marshal/Types.antt =====
-- pkg/core/helpers/marshal.go: the Go types and values that reflect shows to Marshal and Unmarshal,
-- and the Lua values that pass. `N` is a value of one of Go's numeric types, `F` float64, `A` what
-- a userdata holds. A type is finite, so a struct does not hold itself. Fields are exported.
use drlee.Prelude.{ℕ, String, Bool, false, List, [], ◌∷◌, Option, none, ◌||◌, str_eq}
use drlee.Prelude.Int.{ℤ, pos}
use drlee.Lua.{
  LType, nil_type, bool_type, number_type, string_type, function_type, user_data_type, table_type,
}

pub data NumberKind : Type 0 where
  int64 int32 int16 int' uint64 uint32 uint16 uint float64 float32 : NumberKind

pub data BasicKind : Type 0 where
  of_number : NumberKind → BasicKind
  of_string of_bool : BasicKind

-- reflect.Kind, as far as the code tells kinds apart
pub data Kind : Type 0 where
  basic_kind : BasicKind → Kind
  map_kind slice_kind ptr_kind : Kind
  other_kind : String → Kind

-- `basic true` is a type declared by `type T int64`, of the same kind as int64. A pointer is to a
-- struct. A field has its tag `json`, split at the commas: the name and the rest.
mutual
  pub data GoType : Type 0 where
    basic : Bool → BasicKind → GoType
    duration function_proto : GoType
    map_of : GoType → GoType → GoType
    slice_of : GoType → GoType
    ptr_to : Fields → GoType
    other : String → GoType

  pub data Fields : Type 0 where
    no_fields : Fields
    field : String → List String → GoType → Fields → Fields

-- typ.Kind()
unfoldable pub kind_of : GoType → Kind
kind_of (basic _ b) = basic_kind b
kind_of duration = basic_kind (of_number int64)
kind_of function_proto = ptr_kind
kind_of (map_of _ _) = map_kind
kind_of (slice_of _) = slice_kind
kind_of (ptr_to _) = ptr_kind
kind_of (other k) = other_kind k

unfoldable pub Basic : Type 0 → BasicKind → Type 0
Basic N (of_number k) = N
Basic N of_string = String
Basic N of_bool = Bool

pub data Opaque : Type 0 where
  opaque : Opaque

-- The values of a type. `none` is nil; a map is the list of its entries in the order MapRange
-- has them; a duration is in nanoseconds; a prototype is a reference.
unfoldable mutual
  unfolding Basic

  pub Val : Type 0 → GoType → Type 0
  Val N (basic _ b) = Basic N b
  Val N duration = ℤ
  Val N function_proto = Option ℕ
  Val N (map_of k v) = Option (List (Val N k × Val N v))
  Val N (slice_of t) = List (Val N t)
  Val N (ptr_to fs) = Option (Vals N fs)
  Val N (other _) = Opaque

  pub Vals : Type 0 → Fields → Type 0
  Vals N no_fields = Unit
  Vals N (field _ _ t fs) = Val N t × Vals N fs

-- A Lua value that Marshal makes, as a tree: a table is new, and is the sets that were made in it.
mutual
  pub data Tree (F A : Type 0) : Type 0 where
    nil : Tree F A
    bool : Bool → Tree F A
    number : F → Tree F A
    string : String → Tree F A
    function : ℕ → Tree F A
    user_data : A → Tree F A
    table : Log F A → Tree F A

  pub data Log (F A : Type 0) : Type 0 where
    new_table : Log F A
    raw_set : Log F A → Tree F A → Tree F A → Log F A
    raw_set_int : Log F A → ℕ → Tree F A → Log F A
    raw_set_string : Log F A → String → Tree F A → Log F A

abbrev pub type_of : {F A : Type 0} → Tree F A → LType
type_of nil = nil_type
type_of (bool _) = bool_type
type_of (number _) = number_type
type_of (string _) = string_type
type_of (function _) = function_type
type_of (user_data _) = user_data_type
type_of (table _) = table_type

-- What the code asks of Go: the conversions between numbers, time.Duration and its String, a
-- pointer as a value of type interface{} and back (`none`: of another type), `==` on keys.
pub record Go (F N A : Type 0) : Type 0 where
  pub to_number : NumberKind → N → F
  pub from_number : NumberKind → F → N
  pub zero_number : NumberKind → N
  pub duration_string : ℤ → String
  pub parse_duration : String → Option ℤ
  pub box : (fs : Fields) → Option (Vals N fs) → A
  pub unbox : (fs : Fields) → A → Option (Option (Vals N fs))
  pub key_eq : (t : GoType) → Val N t → Val N t → Bool

-- what it asks of a table of gopher-lua
pub record Tables (F A : Type 0) : Type 0 where
  pub len : Log F A → ℕ
  pub raw_get_int : Log F A → ℕ → Tree F A
  pub raw_get_string : Log F A → String → Tree F A
  pub for_each : Log F A → List (Tree F A × Tree F A)

-- An error names the type of the Lua value, the string or the kind.
pub data Outcome {ℓ} (X : Type ℓ) : Type ℓ where
  gives : X → Outcome X
  not_assignable : LType → Kind → Outcome X
  not_user_data : LType → Outcome X
  not_a_duration not_a_proto : LType → Outcome X
  bad_duration : String → Outcome X
  not_castable : Kind → Outcome X
  panics : Outcome X

infixl 5 ◌>>=◌
abbrev pub ◌>>=◌ {ℓ κ} : {X : Type ℓ} {Y : Type κ} → Outcome X → (X → Outcome Y) → Outcome Y
gives x >>= k = k x
not_assignable t g >>= k = not_assignable t g
not_user_data t >>= k = not_user_data t
not_a_duration t >>= k = not_a_duration t
not_a_proto t >>= k = not_a_proto t
bad_duration s >>= k = bad_duration s
not_castable g >>= k = not_castable g
panics >>= k = panics

-- the loop over the tags
unfoldable pub has_user_data : List String → Bool
has_user_data [] = false
has_user_data (tag ∷ tags) = str_eq tag "UserData" || has_user_data tags

unfoldable pub zero_basic : {F N A : Type 0} → Go F N A → (b : BasicKind) → Basic N b
unfolding Basic
zero_basic g (of_number k) = g.zero_number k
zero_basic g of_string = ""
zero_basic g of_bool = false

-- reflect.New(typ).Elem()
unfoldable pub zero_val : {F N A : Type 0} → Go F N A → (t : GoType) → Val N t
unfolding Val zero_basic
zero_val g (basic _ b) = zero_basic g b
zero_val g duration = pos 0
zero_val g function_proto = none
zero_val g (map_of _ _) = none
zero_val g (slice_of _) = []
zero_val g (ptr_to _) = none
zero_val g (other _) = opaque
