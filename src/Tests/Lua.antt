-- ===== src/Tests/Lua.antt =====
-- The helpers between Lua and Go at concrete inputs; a Lua number is a natural number here.
use drlee.Prelude.{ℕ, String, ◌≡◌, refl, true, false, none, some, List, [], ◌∷◌}
use drlee.Prelude.Result.{Result, ok}
use drlee.Object.Printing.{marshal_json, property_pairs}
use drlee.Lua.{LValue, nil, number, string, table, LType}
use drlee.Prelude.Dict.{lookup}
use drlee.Object.{Interface, Object, new_table, l_get, l_set}
use drlee.Object.Access.{written, l_get-l_set}
use drlee.Object.Frozen.{After, assign, assign_keeps_fields}
use drlee.Params.{Param, string_param, any_param, table_param, number_param}

abbrev bad : ℕ → LType → LType → String
bad i expected found = "bad argument"

abbrev message : LValue ℕ
message = table 4

abbrev broadcast : List (Param ℕ)
broadcast = string_param "" ∷ any_param nil ∷ table_param none ∷ []

abbrev headers : String → LValue ℕ
headers key = table 3

abbrev read_file : List (Param ℕ)
read_file = string_param "" ∷ number_param 0 ∷ []

abbrev arguments : List (LValue ℕ)
arguments = string "a.lua" ∷ []

-- an object with a property `id` and a method `close`, over a Go value that is a number
abbrev plain : Interface ℕ ℕ
plain = record { object_get = none; object_set = none }

abbrev file : Object ℕ ℕ
file = record {
  methods = ("close", 3) ∷ [];
  properties = ("id", string "f1") ∷ [];
  table = some new_table;
  go_value = 0;
  readonly = false;
  protected = true;
}

abbrev shown : LValue ℕ → String
shown (string s) = s
shown _ = "1"

-- file[1] = "a"; then file[1] is still nil and file["1"] is "a".
l_get-l_set_example :
    (l_set shown plain (number 1) (string "a") file
      ≡ ok (written shown plain file new_table "1" (string "a")))
    × (l_get shown plain (number 1) (written shown plain file new_table "1" (string "a"))
        ≡ l_get shown plain (number 1) file)
unfolding lookup
l_get-l_set_example =
    l_get-l_set shown plain file new_table (number 1) (number 1) (string "a") refl refl refl refl
      refl refl (λ s. refl)

assign_keeps_fields_example :
    After
      (λ obj'. l_get shown plain (string "id") obj' ≡ l_get shown plain (string "id") file)
      (assign shown plain ((string "id", nil) ∷ (string "x", number 2) ∷ []) file)
unfolding lookup
assign_keeps_fields_example =
    assign_keeps_fields shown plain ((string "id", nil) ∷ (string "x", number 2) ∷ []) file
      (string "id") refl refl

abbrev encode_number : LValue ℕ → Result String
encode_number (number n) = ok "1"
encode_number _ = ok ""

abbrev sized : Object ℕ ℕ
sized = record {
  methods = [];
  properties = ("id", number 1) ∷ ("size", nil) ∷ [];
  table = some new_table;
  go_value = 0;
  readonly = false;
  protected = false;
}

-- json.Encode gives no bytes for nil, so that a property which is nil makes text that is not JSON.
nil_property_printed :
    marshal_json encode_number (λ t. ok "[]") sized
    ≡ ok "{\"customProperties\":[],\"properties\":{\"id\":1,\"size\":}}"
unfolding marshal_json property_pairs
nil_property_printed = refl
