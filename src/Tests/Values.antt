-- ===== src/Tests/Values.antt =====
-- Typed values of Go written to Lua and read, and the copy of a value of Lua.
use drlee.Prelude.{
  ℕ, suc, String, true, false, [], ◌∷◌, none, some, ◌≡◌, refl, ◌⊎◌, str_eq, arith, if◌then◌else◌,
  ◌==◌, eq_refl,
}
use drlee.Prelude.Int.{pos}
use drlee.Marshal.Types.{
  GoType, basic, duration, slice_of, ptr_to, Fields, no_fields, field, of_number, of_string,
  float64, int64, Val, Vals, Tree, nil, table, Log, new_table, raw_set, raw_set_int, raw_set_string,
  Go, Tables, Outcome, gives, panics, has_user_data, Basic, type_of,
}
use drlee.Marshal.Types as T
use drlee.Marshal.Copying.{TablesLaws}
use drlee.Marshal.Writing.{marshal_value, marshal_slice}
use drlee.Marshal.Reading.{unmarshal_value, unmarshal_basic, set}
use drlee.Marshal.Typing.{lua_type, unmarshal_value-lua_type}
use drlee.Marshal.Unreadable.{unmarshal_value-slice_of_pointers}

-- numbers are natural, every duration is 0s, and nothing comes out of a userdata
abbrev pub plain : Go ℕ ℕ ℕ
plain = record {
  to_number = λ k n. n;
  from_number = λ k x. x;
  zero_number = λ k. 0;
  duration_string = λ d. "0s";
  parse_duration = λ s. some (pos 0);
  box = λ fs p. 0;
  unbox = λ fs a. none;
  key_eq = λ t x y. false;
}

-- a table by the sets that were made: the last one with the key counts
abbrev last_int : {F A : Type 0} → Log F A → ℕ → Tree F A
last_int new_table i = nil
last_int (raw_set log k v) i = last_int log i
last_int (raw_set_int log j v) i = if j == i then v else last_int log i
last_int (raw_set_string log k v) i = last_int log i

abbrev last_string : {F A : Type 0} → Log F A → String → Tree F A
last_string new_table k = nil
last_string (raw_set log _ v) k = last_string log k
last_string (raw_set_int log j v) k = last_string log k
last_string (raw_set_string log j v) k = if str_eq k j then v else last_string log k

abbrev size : {F A : Type 0} → Log F A → ℕ
size new_table = 0
size (raw_set log k v) = size log
size (raw_set_int log j v) = if j == suc (size log) then suc (size log) else size log
size (raw_set_string log k v) = size log

abbrev logs : Tables ℕ ℕ
logs = record {
  len = size;
  raw_get_int = last_int;
  raw_get_string = last_string;
  for_each = λ log. [];
}

logs-laws : TablesLaws logs
logs-laws = record {
  get_string_same = λ log k v. rw (eq_refl k) refl;
  get_string_other = λ log k j v e. rw (e) refl;
  get_int_same = λ log i v. ground arith;
  get_int_other = λ log i j v e. ground arith;
  len_new = refl;
  len_append = λ log v e. ground arith;
}

-- struct { Inner *struct { N float64 `json:"n"` } `json:"inner"`; Arr []int64 `json:"arr"`;
-- Skip string `json:"-"` }
abbrev inner_fields : Fields
inner_fields = field "n" [] (basic false (of_number float64)) no_fields

abbrev sample_fields : Fields
sample_fields = field "inner" [] (ptr_to inner_fields) (
    field "arr" [] (slice_of (basic false (of_number int64)))
      (field "-" [] (basic false of_string) no_fields))

abbrev Sample : Type 0
Sample = Vals ℕ sample_fields

sample : Sample
unfolding Vals Basic
sample = (some (7, tt), (1 ∷ 2 ∷ [], ("kept", tt)))

receiver : Sample
unfolding Vals Basic
receiver = (some (0, tt), ([], ("kept", tt)))

-- Marshal of struct { N float64 `json:"n"` }{5}, and of a slice of one pointer to it
abbrev five : Tree ℕ ℕ
five = table (raw_set_string new_table "n" (T.number 5))

abbrev fives : Tree ℕ ℕ
fives = table (raw_set_int new_table 1 five)

five_written :
    unfold Val Basic in (marshal_value plain [] (ptr_to inner_fields) (some (5, tt)) ≡ gives five)
unfolding marshal_value has_user_data
five_written = refl

five_read :
    unfold Val Basic in
    (unmarshal_value plain logs [] (ptr_to inner_fields) false (some (0, tt)) five
      ≡ gives (some (5, tt)))
unfolding unmarshal_value has_user_data unmarshal_basic set
five_read = refl

unmarshal_value-lua_type_example :
    (five ≡ nil) ⊎ (lua_type [] (ptr_to inner_fields) ≡ some (type_of five))
unfolding Val Basic
unmarshal_value-lua_type_example =
    unmarshal_value-lua_type plain logs [] (ptr_to inner_fields) false (some (0, tt)) (some (5, tt))
      five five_read

fives_written :
    unfold Val Basic in
    (marshal_value plain [] (slice_of (ptr_to inner_fields)) (some (5, tt) ∷ []) ≡ gives fives)
unfolding marshal_value has_user_data marshal_slice
fives_written = refl

unmarshal_value-slice_of_pointers_example :
    unfold Val in
    (unmarshal_value plain logs [] (slice_of (ptr_to inner_fields)) true [] fives) ≡ panics
unfolding Val Basic has_user_data
unmarshal_value-slice_of_pointers_example =
    unmarshal_value-slice_of_pointers plain logs logs-laws [] inner_fields true [] [] (5, tt) fives
      refl fives_written
