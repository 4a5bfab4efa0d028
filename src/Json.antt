-- ===== src/Json.antt =====
-- pkg/core/json/json.go: Lua values to JSON and back. `F` is float64. The heap gives the entries of
-- each table in the order of Next; `to_number` is lua.LNumber of a natural number and `same` compares
-- two numbers. A result is a tree, which encoding/json writes out; `external` is what a userdata
-- gives: its String(), its MarshalJSON(), or else the text "*USERDATA*".
pub mod Marks
pub mod Encoding
pub mod Sharing
pub mod Decoding
pub mod Plain
pub mod Succeeding
pub mod Again
use drlee.Prelude.{
  ℕ, zero, suc, ◌+◌, String, Bool, true, false, Option, none, some, List, [], ◌∷◌, ◌++◌, ◌==◌,
  if◌then◌else◌,
}
use drlee.Lua.{LValue, nil, bool, number, string, function, user_data, thread, table, channel}

pub data Error : Type 0 where
  nested sparse_array invalid_keys : Error
  invalid_type : Error
  external_error : String → Error

mutual
  pub data Json (F : Type 0) : Type 0 where
    json_null : Json F
    json_bool : Bool → Json F
    json_number : F → Json F
    json_string : String → Json F
    json_raw : String → Json F
    json_array : Items F → Json F
    json_object : Fields F → Json F

  pub data Items (F : Type 0) : Type 0 where
    no_items : Items F
    item : Json F → Items F → Items F

  pub data Fields (F : Type 0) : Type 0 where
    no_fields : Fields F
    field : String → Json F → Fields F → Fields F

abbrev pub is_in : ℕ → List ℕ → Bool
is_in t [] = false
is_in t (u ∷ us) = if t == u then true else is_in t us

pub data Shape (F : Type 0) : Type 0 where
  array : List (LValue F) → Shape F
  object : List (String × LValue F) → Shape F
  bad_shape : Error → Shape F

module _ {F : Type 0} (to_number : ℕ → F) (same : F → F → Bool) where
  -- the loop over a table whose first key is a number
  unfoldable pub array_shape : ℕ → List (LValue F × LValue F) → Shape F
  array_shape expected [] = array []
  array_shape expected ((number k, v) ∷ rest) =
      let others = array_shape (suc expected) rest in
      if same (to_number expected) k
      then (elim others [ array vs ↦ array (v ∷ vs) | other ↦ other ])
      else bad_shape sparse_array
  array_shape expected ((_, v) ∷ rest) = bad_shape invalid_keys

  -- the loop over a table whose first key is a string
  unfoldable pub object_shape : List (LValue F × LValue F) → Shape F
  object_shape [] = object []
  object_shape ((string k, v) ∷ rest) = elim (object_shape rest) [
    | object vs ↦ object ((k, v) ∷ vs)
    | other ↦ other
  ]
  object_shape ((_, v) ∷ rest) = bad_shape invalid_keys

  -- the switch on the first key
  unfoldable pub shape_of : List (LValue F × LValue F) → Shape F
  unfolding array_shape object_shape
  shape_of [] = array []
  shape_of ((number k, v) ∷ rest) = array_shape 1 ((number k, v) ∷ rest)
  shape_of ((string k, v) ∷ rest) = object_shape ((string k, v) ∷ rest)
  shape_of (_ ∷ rest) = bad_shape invalid_keys

-- what MarshalJSON ends with, and the tables that it has marked by then
pub data Outcome (A : Type 0) : Type 0 where
  out_of_fuel : Outcome A
  fails : Error → Outcome A
  gives : A → List ℕ → Outcome A

abbrev pub and_then : {A B : Type 0} → Outcome A → (A → List ℕ → Outcome B) → Outcome B
and_then out_of_fuel k = out_of_fuel
and_then (fails e) k = fails e
and_then (gives a visited) k = k a visited

-- json.Marshal of a slice and of a map of values, with the marks handed from one to the next
unfoldable pub encode_items :
    {F : Type 0}
    → (List ℕ → LValue F → Outcome (Json F))
    → List ℕ
    → List (LValue F)
    → Outcome (Items F)
encode_items enc visited [] = gives no_items visited
encode_items enc visited (v ∷ vs) = and_then (enc visited v) (λ j visited'.
    and_then (encode_items enc visited' vs) (λ js visited''. gives (item j js) visited''))

unfoldable pub encode_fields :
    {F : Type 0}
    → (List ℕ → LValue F → Outcome (Json F))
    → List ℕ
    → List (String × LValue F)
    → Outcome (Fields F)
encode_fields enc visited [] = gives no_fields visited
encode_fields enc visited ((k, v) ∷ vs) = and_then (enc visited v) (λ j visited'.
    and_then (encode_fields enc visited' vs) (λ js visited''. gives (field k j js) visited''))

-- What the encoder is given: the heap of tables, what a userdata says for itself, which numbers
-- encoding/json writes, and the order in which it goes through a map.
pub record Given (F : Type 0) : Type 0 where
  pub heap : ℕ → List (LValue F × LValue F)
  pub to_number : ℕ → F
  pub same : F → F → Bool
  pub external : ℕ → Option String
  pub is_finite : F → Bool
  pub by_key : List (String × LValue F) → List (String × LValue F)

module _ {F : Type 0} (g : Given F) where
  unfoldable pub encode_shape :
      (List ℕ → LValue F → Outcome (Json F)) → List ℕ → Shape F → Outcome (Json F)
  unfolding encode_items encode_fields
  encode_shape enc visited (array vs) =
      and_then (encode_items enc visited vs) (λ js visited'. gives (json_array js) visited')
  encode_shape enc visited (object vs) =
      and_then (encode_fields enc visited (g.by_key vs))
        (λ js visited'. gives (json_object js) visited')
  encode_shape enc visited (bad_shape e) = fails e

  -- Value.MarshalJSON; the fuel is the depth of tables
  unfoldable pub encode : ℕ → List ℕ → LValue F → Outcome (Json F)
  unfolding shape_of encode_shape
  encode fuel visited nil = gives json_null visited
  encode fuel visited (bool b) = gives (json_bool b) visited
  encode fuel visited (number x) =
      if g.is_finite x
      then gives (json_number x) visited
      else fails (external_error "unsupported value")
  encode fuel visited (string s) = gives (json_string s) visited
  encode fuel visited (user_data u) = elim (g.external u) [
    | some text ↦ gives (json_raw text) visited
    | none ↦ fails (external_error "MarshalJSON")
  ]
  encode zero visited (table t) = out_of_fuel
  encode (suc fuel) visited (table t) =
      let inner =
        encode_shape (encode fuel) (t ∷ visited) (shape_of g.to_number g.same (g.heap t)) in
      if is_in t visited then fails nested else inner
  encode fuel visited _ = fails invalid_type
