-- ===== src/Tests/Marshal.antt =====
-- UnmarshalToMap on nested tables, and on one that holds itself.
use drlee.Prelude.{ℕ, zero, suc, String, ◌≡◌, ◌≢◌, refl, List, [], ◌∷◌, some, All, arith}
use drlee.Lua.{LValue, string, table}
use drlee.Marshal.{
  Tables, unmarshal_to_map, array_of, map_of, out_of_fuel, gives, go_slice, go_string, slice,
  empty_slice, go_map, entry, empty_map, put,
}
use drlee.Marshal.Types.{Tree}
use drlee.Marshal.Cloning.{clone, IsData, IsRanked, clone-IsData}
use drlee.Marshal.Termination.{IsAcyclic, RanksBelow, unmarshal_ends}

-- Table 1 is { "x" }, and every other one is { a = table 1 }, but table 1 itself is in no table.
abbrev lengths : ℕ → ℕ
lengths (suc zero) = 1
lengths _ = 0

abbrev items : ℕ → ℕ → LValue ℕ
items t i = string "x"

abbrev fields : ℕ → List (LValue ℕ × LValue ℕ)
fields (suc (suc t)) = (string "a", table 1) ∷ []
fields _ = []

abbrev text : LValue ℕ → String
text (string s) = s
text _ = "1"

abbrev nested : Tables ℕ
nested = record { len = lengths; raw_get_int = items; entries = fields; to_string = text }

abbrev rank : ℕ → ℕ
rank (suc (suc t)) = 1
rank _ = 0

fields-rank : (t : ℕ) → All (λ (key, v). RanksBelow rank (rank t) v) (fields t)
fields-rank zero = tt
fields-rank (suc zero) = tt
fields-rank (suc (suc t)) = (omega arith, tt)

nested-IsAcyclic : IsAcyclic nested rank
nested-IsAcyclic = record { items = λ t i. tt; fields = fields-rank }

unmarshal_ends_example : unmarshal_to_map nested 2 (table 2) ≢ out_of_fuel
unmarshal_ends_example = unmarshal_ends nested rank 2 (table 2) nested-IsAcyclic (omega arith)

unmarshal_nested :
    unmarshal_to_map nested 2 (table 2)
    ≡ gives (go_map (entry "a" (go_slice (slice (go_string "x") empty_slice)) empty_map))
unfolding unmarshal_to_map map_of array_of put
unmarshal_nested = refl

abbrev cyclic : Tables ℕ
cyclic = record nested { len = λ t. 1; raw_get_int = λ t i. table t }

nested-IsRanked : IsRanked nested (λ u. u) rank
nested-IsRanked zero = tt
nested-IsRanked (suc zero) = tt
nested-IsRanked (suc (suc t)) = ((tt, omega arith), tt)

clone-IsData_example :
    (copy : Tree ℕ ℕ) × ((clone nested (λ u. u) 2 (table 2) ≡ some copy) × IsData copy)
clone-IsData_example = clone-IsData nested (λ u. u) rank 2 (table 2) nested-IsRanked (omega arith)
