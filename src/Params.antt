-- ===== src/Params.antt =====
-- pkg/core/helpers/params/params.go and pkg/core/helpers/params.go: how the functions of the
-- program read the arguments that Lua passed. The frame is the list of them; gopher-lua's `Get`
-- counts from 1 and gives nil outside. `few` and `bad` build the messages that are raised.
pub mod Matching
pub mod Ensuring
use drlee.Prelude.{
  ℕ, zero, suc, ◌+◌, ◌-◌, String, Bool, true, false, Option, none, some, List, [], ◌∷◌, length, ltb,
  ◌==◌, if◌then◌else◌, get_elem?,
}
use drlee.Prelude.Result.{Result, ok, raise, panic, fatal, ◌>>=◌}
use drlee.Lua.{
  LType, nil_type, bool_type, number_type, string_type, function_type, user_data_type, table_type,
  LValue, nil, bool, number, string, function, user_data, table, type_of, same_type, is_function,
}

-- L.Get(idx)
unfoldable pub get : {F : Type 0} → ℕ → List (LValue F) → LValue F
get zero frame = nil
get (suc i) frame = elim (get_elem? frame i) [ none ↦ nil | some v ↦ v ]

-- The parameters with their values: AnyType and its kin. A pointer is `none` while it is nil.
pub data Param (F : Type 0) : Type 0 where
  any_param : LValue F → Param F
  number_param : F → Param F
  string_param : String → Param F
  bool_param : Bool → Param F
  function_param table_param user_data_param : Option ℕ → Param F

module _ {F : Type 0} where
  -- Type(). AnyType says string as well.
  unfoldable pub param_type : Param F → LType
  param_type (any_param _) = string_type
  param_type (number_param _) = number_type
  param_type (string_param _) = string_type
  param_type (bool_param _) = bool_type
  param_type (function_param _) = function_type
  param_type (table_param _) = table_type
  param_type (user_data_param _) = user_data_type

  -- setValue, with its type assertions
  unfoldable pub set_value : Param F → LValue F → Result (Param F)
  set_value (any_param _) v = ok (any_param v)
  set_value (number_param _) (number x) = ok (number_param x)
  set_value (string_param _) (string s) = ok (string_param s)
  set_value (bool_param _) (bool b) = ok (bool_param b)
  set_value (function_param _) (function f) = ok (function_param (some f))
  set_value (table_param _) (table t) = ok (table_param (some t))
  set_value (user_data_param _) (user_data u) = ok (user_data_param (some u))
  set_value _ _ = panic

  -- the loop of Check over `n` arguments from `idx` on
  unfoldable pub assign_all :
      (ℕ → LType → LType → String)
      → ℕ
      → ℕ
      → List (Param F)
      → List (LValue F)
      → Result (List (Param F))
  unfolding get param_type set_value
  assign_all bad idx zero types frame = ok types
  assign_all bad idx (suc n) [] frame = panic
  assign_all bad idx (suc n) (t ∷ ts) frame =
      let val = get idx frame in
      let rest = assign_all bad (suc idx) n ts frame in
      if same_type (type_of val) (param_type t)
      then (set_value t val >>= λ t'. rest >>= λ ts'. ok (t' ∷ ts'))
      else raise (bad idx (param_type t) (type_of val))

  -- Check: the callback, nil where there is none, and the parameters with their values
  unfoldable pub check :
      String
      → (ℕ → LType → LType → String)
      → ℕ
      → ℕ
      → List (Param F)
      → List (LValue F)
      → Result (LValue F × List (Param F))
  unfolding get assign_all
  check few bad start required types frame =
      let top = length frame in
      let has_cb = is_function (get top frame) in
      let cb = if has_cb then get top frame else nil in
      let n = (if has_cb then top - 1 else top) - (start - 1) in
      if ltb n required
      then raise few
      else (assign_all bad start n types frame >>= λ ts. ok (cb, ts))

  -- the loop of EnsureParamTypes
  unfoldable pub check_types : (ℕ → LType → String) → ℕ → List LType → List (LValue F) → Result Bool
  unfolding get
  check_types bad i [] frame = ok true
  check_types bad i (t ∷ ts) frame =
      let rest = check_types bad (suc i) ts frame in
      if same_type (type_of (get (suc i) frame)) t then rest else raise (bad (suc i) t)

  -- EnsureParamTypes: RaiseError and TypeError do not return
  unfoldable pub ensure_param_types :
      String → (ℕ → LType → String) → List LType → List (LValue F) → Result Bool
  unfolding check_types
  ensure_param_types count bad types frame =
      if length frame == length types then check_types bad 0 types frame else raise count

  -- EnsureTableProperties, the map's entries in the order in which `range` meets them
  unfoldable pub ensure_table_properties :
      (String → LType → String) → (String → LValue F) → List (String × LType) → Result Bool
  ensure_table_properties bad raw_get_string [] = ok true
  ensure_table_properties bad raw_get_string ((key, typ) ∷ properties) =
      let rest = ensure_table_properties bad raw_get_string properties in
      if same_type (type_of (raw_get_string key)) typ then rest else raise (bad key typ)
