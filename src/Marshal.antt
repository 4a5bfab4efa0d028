-- ===== src/Marshal.antt =====
-- pkg/core/helpers/marshal.go UnmarshalToMap: a Lua value as a Go value without a type, for the
-- arguments of sql. `F` is float64. A table is what gopher-lua tells of it: Len, RawGetInt and the
-- entries in the order of ForEach; `to_string` is String() of a key. The recursion is on fuel.
pub mod Termination
pub mod Cloning
pub mod Copying
pub mod Reading
pub mod RoundTrip
pub mod Slices
pub mod Types
pub mod Typing
pub mod Unreadable
pub mod Writing
use drlee.Prelude.{
  ℕ, zero, suc, ◌+◌, String, Bool, true, false, List, [], ◌∷◌, ltb, if◌then◌else◌, str_eq,
}
use drlee.Lua.{
  LType, LValue, nil, bool, number, string, function, user_data, thread, table, channel, type_of,
}

-- the values of type interface{} that come out; a map is an association list
mutual
  pub data GoValue (F : Type 0) : Type 0 where
    go_bool : Bool → GoValue F
    go_number : F → GoValue F
    go_string : String → GoValue F
    go_slice : Slice F → GoValue F
    go_map : GoMap F → GoValue F

  pub data Slice (F : Type 0) : Type 0 where
    empty_slice : Slice F
    slice : GoValue F → Slice F → Slice F

  pub data GoMap (F : Type 0) : Type 0 where
    empty_map : GoMap F
    entry : String → GoValue F → GoMap F → GoMap F

-- m[key] = value
unfoldable pub put : {F : Type 0} → String → GoValue F → GoMap F → GoMap F
put key v empty_map = entry key v empty_map
put key v (entry k w m) = if str_eq k key then entry key v m else entry k w (put key v m)

-- An error names the type that is not supported.
pub data Outcome (A : Type 0) : Type 0 where
  out_of_fuel : Outcome A
  not_supported : LType → Outcome A
  gives : A → Outcome A

abbrev pub and_then : {A B : Type 0} → Outcome A → (A → Outcome B) → Outcome B
and_then out_of_fuel k = out_of_fuel
and_then (not_supported t) k = not_supported t
and_then (gives a) k = k a

pub record Tables (F : Type 0) : Type 0 where
  pub len : ℕ → ℕ
  pub raw_get_int : ℕ → ℕ → LValue F
  pub entries : ℕ → List (LValue F × LValue F)
  pub to_string : LValue F → String

module _ {F : Type 0} (g : Tables F) where
  -- the loop over the array, from index `i` on, `n` more
  unfoldable pub array_of : (LValue F → Outcome (GoValue F)) → ℕ → ℕ → ℕ → Outcome (Slice F)
  array_of un t i zero = gives empty_slice
  array_of un t i (suc n) =
      let rest = array_of un t (suc i) n in
      and_then (un (g.raw_get_int t i)) (λ v. and_then rest (λ vs. gives (slice v vs)))

  -- ForEach, writing into `m`; after an error nothing is done any more
  unfoldable pub map_of :
      (LValue F → Outcome (GoValue F)) → List (LValue F × LValue F) → GoMap F → Outcome (GoMap F)
  unfolding put
  map_of un [] m = gives m
  map_of un ((key, v) ∷ rest) m =
      and_then (un v) (λ in'. map_of un rest (put (g.to_string key) in' m))

  -- UnmarshalToMap
  unfoldable pub unmarshal_to_map : ℕ → LValue F → Outcome (GoValue F)
  unfolding array_of map_of
  unmarshal_to_map fuel (bool b) = gives (go_bool b)
  unmarshal_to_map fuel (string s) = gives (go_string s)
  unmarshal_to_map fuel (number x) = gives (go_number x)
  unmarshal_to_map zero (table t) = out_of_fuel
  unmarshal_to_map (suc fuel) (table t) =
      if ltb 0 (g.len t)
      then and_then (array_of (unmarshal_to_map fuel) t 1 (g.len t)) (λ vs. gives (go_slice vs))
      else and_then (map_of (unmarshal_to_map fuel) (g.entries t) empty_map) (λ m. gives (go_map m))
  unmarshal_to_map fuel v = not_supported (type_of v)
