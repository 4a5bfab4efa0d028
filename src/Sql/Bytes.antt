-- ===== src/Sql/Bytes.antt =====
-- pkg/core/sql/sql.go query with pkg/core/helpers/marshal.go: rows with a column that Marshal cannot
-- cast, such as the bytes that a driver gives for text.
use drlee.Prelude.{some, List, ◌∷◌, ◌≢◌}
use drlee.Prelude.Dict.{Dict}
use drlee.Marshal.Types.{slice_of, other, Opaque, Val, Outcome, gives}
use drlee.Sql.Running.{Any}

abbrev Fails : {X : Type 0} → Outcome X → Type 0
Fails o = (x : _) → o ≢ gives x

-- the value of a column that a driver gives as []byte, with at least one byte
unfoldable pub bytes : (N : Type 0) → Opaque → List Opaque → Any N
unfolding Val
bytes N b bs = some (slice_of (other "uint8"), b ∷ bs)
