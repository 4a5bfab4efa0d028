-- ===== src/Sql/Running.antt =====
-- pkg/core/sql/sql.go query and exec: what the goroutine does with a statement. What the database
-- answers is given; a value of a column is nil or a value of Go with its type.
use drlee.Prelude.{ℕ, String, Option, none, some, List, [], ◌∷◌, concat}
use drlee.Prelude.Dict.{Dict, insert}
use drlee.Prelude.Result.{Result, ok, panic}
use drlee.Context.{Returned, fails, gives}
use drlee.Marshal.Types.{
  GoType, Val, Tree, Log, new_table, raw_set_string, number, table, Go, Outcome, Kind, basic_kind,
  of_number, of_string, of_bool, map_kind, slice_kind, ptr_kind, other_kind, int64, int32, int16,
  int', uint64, uint32, uint16, uint, float64, float32, not_assignable, not_user_data,
  not_a_duration, not_a_proto, bad_duration, not_castable, panics, NumberKind, ◌>>=◌,
}
use drlee.Marshal.Types as T
use drlee.Marshal.Writing.{marshal_map}

abbrev pub Any : Type 0 → Type 0
Any N = Option ((t : GoType) × Val N t)

-- sql.Rows: what Err, Columns and Close give, and what Scan gives after each Next that is true.
-- `broken` is the error that ended the iteration early, which Err tells after it.
pub record Rows (V : Type 0) : Type 0 where
  pub err : Option String
  pub columns : Returned (List String)
  pub scans : List (Returned (List V))
  pub broken : Option String
  pub close_err : Option String

-- What is given to the callback later: an error, or rows that are still to be marshalled.
pub data Answer (V : Type 0) : Type 0 where
  l_error : String → Answer V
  rows : List (Dict V) → Answer V

-- A run of the function: the calls that it queues, how often it closes the rows, its own error.
pub record Run (V : Type 0) : Type 0 where
  pub calls : List (Answer V)
  pub closes : ℕ
  pub returned : Option String

module _ {V : Type 0} where
  -- m[colName] = *val, for each column
  unfoldable pub row_of : List String → List V → Dict V → Dict V
  unfolding insert
  row_of (col ∷ cols) (v ∷ vs) m = row_of cols vs (insert col v m)
  row_of _ _ m = m

  -- the loop over Next
  unfoldable pub scan_rows : List String → List (Returned (List V)) → Returned (List (Dict V))
  unfolding row_of
  scan_rows cols [] = gives []
  scan_rows cols (fails e ∷ _) = fails e
  scan_rows cols (gives vs ∷ scans) = elim (scan_rows cols scans) [
    | fails e ↦ fails e
    | gives items ↦ gives (row_of cols vs [] ∷ items)
  ]

  -- query's function; the deferred Close gives the error that is returned
  unfoldable pub run_query : Returned (Rows V) → Run V
  unfolding scan_rows
  run_query (fails e) = record { calls = l_error e ∷ []; closes = 0; returned = none }
  run_query (gives r) = elim r.err [
    | some e ↦ record { calls = l_error e ∷ []; closes = 1; returned = r.close_err }
    | none ↦ elim r.columns [
      | fails e ↦ record { calls = l_error e ∷ []; closes = 1; returned = r.close_err }
      | gives cols ↦ elim (scan_rows cols r.scans) [
        | fails e ↦ record { calls = l_error e ∷ []; closes = 1; returned = r.close_err }
        | gives items ↦ record { calls = rows items ∷ []; closes = 1; returned = r.close_err }
      ]
    ]
  ]

-- Kind.String()
abbrev pub number_name : NumberKind → String
number_name int64 = "int64"
number_name int32 = "int32"
number_name int16 = "int16"
number_name int' = "int"
number_name uint64 = "uint64"
number_name uint32 = "uint32"
number_name uint16 = "uint16"
number_name uint = "uint"
number_name float64 = "float64"
number_name float32 = "float32"

abbrev pub kind_name : Kind → String
kind_name (basic_kind (of_number k)) = number_name k
kind_name (basic_kind of_string) = "string"
kind_name (basic_kind of_bool) = "bool"
kind_name map_kind = "map"
kind_name slice_kind = "slice"
kind_name ptr_kind = "ptr"
kind_name (other_kind k) = k

-- The arguments that the callback of query or exec is called with: an error, or nil and a result.
pub data Reply (X : Type 0) : Type 0 where
  reply_error : String → Reply X
  reply_result : X → Reply X

-- what comes of an outcome of Marshal: the other errors are those of Unmarshal
unfoldable pub replied : {X : Type 0} → Outcome X → Result (Reply X)
replied (T.gives x) = ok (reply_result x)
replied (not_castable k) = ok (reply_error (concat (kind_name k) " unable to be casted to lua"))
replied _ = panic

module _ {F N A : Type 0} (g : Go F N A) where
  -- the loop over the rows of a result: the tables that are appended
  unfoldable pub marshal_rows : List (Dict (Any N)) → Outcome (List (Tree F A))
  marshal_rows [] = T.gives []
  marshal_rows (item ∷ items) = marshal_map g item new_table >>= λ value.
      marshal_rows items >>= λ tb. T.gives (table value ∷ tb)

  -- the scoped call, and the call of the callback with an error
  unfoldable pub answer : Answer (Any N) → Result (Reply (List (Tree F A)))
  unfolding marshal_rows replied
  answer (l_error e) = ok (reply_error e)
  answer (rows items) = replied (marshal_rows items)

  -- exec's function: what ExecContext, LastInsertId and RowsAffected give; the table of the result
  unfoldable pub run_exec : Returned (Returned N × Returned N) → Reply (Log F A)
  run_exec (fails e) = reply_error e
  run_exec (gives (fails e, _)) = reply_error e
  run_exec (gives (gives id, fails e)) = reply_error e
  run_exec (gives (gives id, gives affected)) = reply_result (
      raw_set_string (raw_set_string new_table "last_inserted_id" (number (g.to_number int64 id)))
        "rows_affected" (number (g.to_number int64 affected)))
