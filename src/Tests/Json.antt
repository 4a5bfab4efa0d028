-- ===== src/Tests/Json.antt =====
-- The JSON encoder on a table that holds itself, and on one that holds another twice.
use drlee.Prelude.{ℕ, suc, zero, ◌≡◌, refl, true, none, List, [], ◌∷◌, ◌==◌}
use drlee.Lua.{LValue, number, table}
use drlee.Json.{Given, encode, fails, nested, shape_of, array_shape, encode_shape, encode_items}
use drlee.Prelude.{◌++◌, length}
use drlee.Prelude.Int.{pos_part}
use drlee.Lua.{string}
use drlee.Json.{
  Json, json_object, field, no_fields, json_array, item, no_items, json_number, json_string,
}
use drlee.Json.Decoding.{LuaTables, Heap}

-- Table 0 is { 0 }, a table in itself; table 1 is { 2, 2 }; the others are empty.
abbrev tables : ℕ → List (LValue ℕ × LValue ℕ)
tables zero = (number 1, table 0) ∷ []
tables (suc zero) = (number 1, table 2) ∷ (number 2, table 2) ∷ []
tables (suc (suc t)) = []

abbrev given : Given ℕ
given = record {
  heap = tables;
  to_number = λ n. n;
  same = λ a b. a == b;
  external = λ u. none;
  is_finite = λ x. true;
  by_key = λ vs. vs;
}

encode_cycle : encode given 4 [] (table 0) ≡ fails nested
unfolding encode shape_of array_shape encode_shape encode_items
encode_cycle = refl

-- a table's entries under gopher-lua, with numbers in ℕ
abbrev lua_tables : LuaTables ℕ
lua_tables = record {
  append = λ es v. es ++ (number (suc (length es)), v) ∷ [];
  raw_set_h = λ es k v. es ++ (string k, v) ∷ [];
  from_int = pos_part;
}

-- {"a":[1,2],"b":"x"}
abbrev document : Json ℕ
document = json_object (
    field "a" (json_array (item (json_number 1) (item (json_number 2) no_items)))
      (field "b" (json_string "x") no_fields))

abbrev empty_heap : Heap ℕ
empty_heap = record { entries = λ t. []; next = 0 }
