-- ===== src/Lua.antt =====
-- The values of gopher-lua that pass between Lua and Go. `F` stands for `float64`. A table, a
-- function, a userdata and the two that the program never builds are references.
use drlee.Prelude.{ℕ, zero, suc, String, Bool, true, false, ◌==◌, ◌≡◌, refl, sym, ap, ◌∙◌, arith}

pub data LType : Type 0 where
  nil_type bool_type number_type string_type function_type user_data_type thread_type table_type
        channel_type :
      LType

pub LType-discrete : Discrete LType
LType-discrete = hlevel

pub data LValue (F : Type 0) : Type 0 where
  nil : LValue F
  bool : Bool → LValue F
  number : F → LValue F
  string : String → LValue F
  function : ℕ → LValue F
  user_data : ℕ → LValue F
  thread : ℕ → LValue F
  table : ℕ → LValue F
  channel : ℕ → LValue F

-- value.Type()
abbrev pub type_of : {F : Type 0} → LValue F → LType
type_of nil = nil_type
type_of (bool _) = bool_type
type_of (number _) = number_type
type_of (string _) = string_type
type_of (function _) = function_type
type_of (user_data _) = user_data_type
type_of (thread _) = thread_type
type_of (table _) = table_type
type_of (channel _) = channel_type

-- the tag as a number, as LValueType has it
abbrev pub tag : LType → ℕ
tag nil_type = 0
tag bool_type = 1
tag number_type = 2
tag string_type = 3
tag function_type = 4
tag user_data_type = 5
tag thread_type = 6
tag table_type = 7
tag channel_type = 8

abbrev pub is_nil : {F : Type 0} → LValue F → Bool
is_nil nil = true
is_nil _ = false

abbrev pub is_function : {F : Type 0} → LValue F → Bool
is_function (function _) = true
is_function _ = false

abbrev pub same_type : LType → LType → Bool
same_type a b = tag a == tag b

abbrev untag : ℕ → LType
untag zero = nil_type
untag (suc zero) = bool_type
untag (suc (suc zero)) = number_type
untag (suc (suc (suc zero))) = string_type
untag (suc (suc (suc (suc zero)))) = function_type
untag (suc (suc (suc (suc (suc zero))))) = user_data_type
untag (suc (suc (suc (suc (suc (suc zero)))))) = thread_type
untag (suc (suc (suc (suc (suc (suc (suc zero))))))) = table_type
untag _ = channel_type

untag-tag : (t : LType) → untag (tag t) ≡ t
untag-tag nil_type = refl
untag-tag bool_type = refl
untag-tag number_type = refl
untag-tag string_type = refl
untag-tag function_type = refl
untag-tag user_data_type = refl
untag-tag thread_type = refl
untag-tag table_type = refl
untag-tag channel_type = refl

pub same_type-eq : (a b : LType) → same_type a b ≡ true → a ≡ b
same_type-eq a b h =
    let e : tag a ≡ tag b = ground arith in sym (untag-tag a) ∙ ap untag e ∙ untag-tag b
