-- ===== src/Marshal/Cloning.antt =====
-- pkg/core/helpers/marshal.go Clone, cloneTable: a copy of a value of Lua, made of new tables.
-- `held` is what a userdata holds. A table is a reference, and what ForEach tells of it.
use drlee.Prelude.{
  ℕ, zero, suc, ◌≤◌, ◌≡◌, refl, true, false, List, [], ◌∷◌, Option, none, some, All, All-map, arith,
}
use drlee.Lua.{LValue, nil, bool, number, string, function, user_data, thread, table, channel}
use drlee.Marshal.{Tables}
use drlee.Marshal.Types.{Tree, Log, new_table, raw_set, raw_set_int, raw_set_string}
use drlee.Marshal.Types as T
use drlee.Marshal.Termination.{RanksBelow, Ranks-weaken}

module _ {F A : Type 0} where
  -- the function given to ForEach, over the entries
  unfoldable pub clone_entries :
      (LValue F → Option (Tree F A)) → List (LValue F × LValue F) → Log F A → Option (Log F A)
  clone_entries clone [] new_table' = some new_table'
  clone_entries clone ((key, value) ∷ es) new_table' = elim (clone key) [
    | none ↦ none
    | some k ↦ elim (clone value) [
      | none ↦ none
      | some v ↦ clone_entries clone es (raw_set new_table' k v)
    ]
  ]

  -- Clone; `none` is out of fuel
  unfoldable pub clone : Tables F → (ℕ → A) → ℕ → LValue F → Option (Tree F A)
  unfolding clone_entries
  clone g held fuel (number x) = some (T.number x)
  clone g held fuel (bool b) = some (T.bool b)
  clone g held fuel (string s) = some (T.string s)
  clone g held zero (table t) = none
  clone g held (suc fuel) (table t) =
      elim (clone_entries (clone g held fuel) (g.entries t) new_table) [
        | none ↦ none
        | some log ↦ some (T.table log)
      ]
  clone g held fuel (user_data u) = some (T.user_data (held u))
  clone g held fuel v = some T.nil

-- No function is in the value, at any depth.
unfoldable mutual
  pub IsData : {F A : Type 0} → Tree F A → Type 0
  IsData (T.function p) = true ≡ false
  IsData (T.table log) = IsDataLog log
  IsData v = Unit

  pub IsDataLog : {F A : Type 0} → Log F A → Type 0
  IsDataLog new_table = Unit
  IsDataLog (raw_set log k v) = IsDataLog log × (IsData k × IsData v)
  IsDataLog (raw_set_int log i v) = IsDataLog log × IsData v
  IsDataLog (raw_set_string log k v) = IsDataLog log × IsData v

module _ {F A : Type 0} (g : Tables F) (held : ℕ → A) where
  -- What a table holds, keys and values, has a lower rank: no table holds itself, at any depth.
  abbrev pub IsRanked : (ℕ → ℕ) → Type 0
  IsRanked rank =
      (t : ℕ)
      → All (λ (key, v). RanksBelow rank (rank t) key × RanksBelow rank (rank t) v) (g.entries t)

  abbrev Copied : Option (Tree F A) → Type 0
  Copied o = (v : Tree F A) × ((o ≡ some v) × IsData v)

  entries-Copied :
      (copy : LValue F → Option (Tree F A)) (es : List (LValue F × LValue F)) (log : Log F A)
      → IsDataLog log
      → All (λ (key, v). Copied (copy key) × Copied (copy v)) es
      → (log' : Log F A) × ((clone_entries copy es log ≡ some log') × IsDataLog log')
  unfolding clone_entries IsData
  entries-Copied copy [] log d h = (log, (refl, d))
  entries-Copied copy ((key, v) ∷ es) log d (((k', (ek, dk)), (v', (ev, dv))), h) =
      let (log', (e, d')) = entries-Copied copy es (raw_set log k' v') (d, (dk, dv)) h in
      (log', (rw (clone_entries, ek, ev, e), d'))

  clone-Copied :
      (rank : ℕ → ℕ)
      → IsRanked rank
      → (fuel : ℕ) (v : LValue F) → RanksBelow rank fuel v
      → Copied (clone g held fuel v)
  unfolding clone IsData
  clone-Copied rank a fuel nil r = (T.nil, (refl, tt))
  clone-Copied rank a fuel (bool x) r = (T.bool x, (refl, tt))
  clone-Copied rank a fuel (number x) r = (T.number x, (refl, tt))
  clone-Copied rank a fuel (string x) r = (T.string x, (refl, tt))
  clone-Copied rank a fuel (function x) r = (T.nil, (refl, tt))
  clone-Copied rank a fuel (user_data x) r = (T.user_data (held x), (refl, tt))
  clone-Copied rank a fuel (thread x) r = (T.nil, (refl, tt))
  clone-Copied rank a fuel (channel x) r = (T.nil, (refl, tt))
  clone-Copied rank a zero (table t) r = grind arith
  clone-Copied rank a (suc fuel) (table t) r =
      let low : rank t ≤ fuel = omega arith in
      let inner = λ (v : LValue F) (b : RanksBelow rank (rank t) v).
        clone-Copied rank a fuel v (Ranks-weaken g rank (rank t) fuel v low b) in
      let (log, (e, d)) =
        entries-Copied (clone g held fuel) (g.entries t) new_table tt
          (All-map _ _ (g.entries t) (λ (key, v) b. (inner key b.0, inner v b.1)) (a t)) in
      (T.table log, (rw (clone, e), d))

  -- Clone ends on every value whose tables do not hold themselves, at any depth, and the copy holds
  -- no function: with the tables ranked so that each holds lower ones only, a depth above the rank
  -- is enough.
  pub clone-IsData :
      (rank : ℕ → ℕ) (fuel : ℕ) (v : LValue F)
      → IsRanked rank
      → RanksBelow rank fuel v
      → (copy : Tree F A) × ((clone g held fuel v ≡ some copy) × IsData copy)
  clone-IsData rank fuel v a r = clone-Copied rank a fuel v r
