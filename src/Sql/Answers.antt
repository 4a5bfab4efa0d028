-- ===== src/Sql/Answers.antt =====
-- pkg/core/sql/sql.go: what query answers with, which frames it takes, and the functions of a
-- transaction.
use drlee.Prelude.{
  ℕ, String, Option, none, some, List, [], ◌∷◌, ◌++◌, map, length, length-append, false, ◌≡◌, refl,
  arith, ltb, ◌⊎◌, inl, inr,
}
use drlee.Prelude.Result.{Result, ok, raise, panic}
use drlee.Lua.{LValue, user_data}
use drlee.Context.{Returned, fails, gives}
use drlee.Marshal.{GoValue}
use drlee.Sql.{
  statement_of, unmarshal_arguments, last, Held, object_of, tx, begin, tx_statement, tx_end,
  check_tx, tx_of,
}
use drlee.Sql.Running.{Rows, rows, run_query, scan_rows, row_of}

Returned-cases :
    {X : Type 0} (o : Returned X) → ((e : String) × (o ≡ fails e)) ⊎ ((x : X) × (o ≡ gives x))
Returned-cases (fails e) = inl (e, refl)
Returned-cases (gives x) = inr (x, refl)

module _ {V : Type 0} where
  abbrev pub opened : Returned (Rows V) → ℕ
  opened (fails e) = 0
  opened (gives r) = 1

  abbrev Once : Rows V → Type 0
  Once r = (length (run_query (gives r)).calls ≡ 1) × ((run_query (gives r)).closes ≡ 1)

  opened-Once :
      (err : Option String) (columns : Returned (List String)) (scans : List (Returned (List V)))
      (broken close_err : Option String)
      → Once (record {
        err = err;
        columns = columns;
        scans = scans;
        broken = broken;
        close_err = close_err;
      })
  unfolding run_query
  opened-Once (some e) columns scans broken close_err = (refl, refl)
  opened-Once none (fails e) scans broken close_err = (refl, refl)
  opened-Once none (gives cols) scans broken close_err =
      elim (Returned-cases (scan_rows cols scans)) [
        | inl (e, eq) ↦ rw (run_query, eq) (refl, refl)
        | inr (items, eq) ↦ rw (run_query, eq) (refl, refl)
      ]

  -- Whatever the database answers, query calls its callback exactly once, and rows that were opened
  -- are closed exactly once.
  pub run_query_answers_once :
      (db : Returned (Rows V))
      → (length (run_query db).calls ≡ 1) × ((run_query db).closes ≡ opened db)
  unfolding run_query
  run_query_answers_once (fails e) = (refl, refl)
  run_query_answers_once (gives r) = opened-Once r.err r.columns r.scans r.broken r.close_err

  scan_rows-gives :
      (cols : List String) (values : List (List V))
      → scan_rows cols (map gives values) ≡ gives (map (λ vs. row_of cols vs []) values)
  unfolding scan_rows
  scan_rows-gives cols [] = refl
  scan_rows-gives cols (vs ∷ values) = rw (scan_rows-gives cols values) refl

  -- Rows without an error and with columns, each of which can be scanned, are all given to the
  -- callback, in their order, also if the database broke the iteration off with an error.
  pub run_query-rows :
      (r : Rows V) (cols : List String) (values : List (List V))
      → r.err ≡ none
      → r.columns ≡ gives cols
      → r.scans ≡ map gives values
      → (run_query (gives r)).calls ≡ rows (map (λ vs. row_of cols vs []) values) ∷ []
  unfolding run_query
  run_query-rows r cols values e1 e2 e3 =
      rw (run_query, e1, e2, e3, scan_rows-gives cols values) refl

module _ {F : Type 0} where
  -- each value is read as the one beside it
  abbrev pub Reads : (LValue F → Result (GoValue F)) → List (LValue F) → List (GoValue F) → Type 0
  Reads un [] [] = Unit
  Reads un (v ∷ vs) (x ∷ xs) = (un v ≡ ok x) × Reads un vs xs
  Reads un _ _ = ok tt ≡ panic

  unmarshal_arguments-Reads :
      (un : LValue F → Result (GoValue F)) (vs : List (LValue F)) (xs : List (GoValue F))
      (cb : LValue F)
      → Reads un vs xs
      → unmarshal_arguments un (vs ++ cb ∷ []) ≡ ok xs
  unfolding unmarshal_arguments
  unmarshal_arguments-Reads un [] [] cb h = refl
  unmarshal_arguments-Reads un (v ∷ []) (x ∷ []) cb h = rw (h.0) refl
  unmarshal_arguments-Reads un (v ∷ w ∷ vs) (x ∷ y ∷ xs) cb h =
      rw (h.0, unmarshal_arguments-Reads un (w ∷ vs) (y ∷ xs) cb h.1) refl
  unmarshal_arguments-Reads un [] (x ∷ xs) cb h = cc
  unmarshal_arguments-Reads un (v ∷ []) [] cb h = cc
  unmarshal_arguments-Reads un (v ∷ []) (x ∷ y ∷ xs) cb h = let bad = h.1 in cc
  unmarshal_arguments-Reads un (v ∷ w ∷ vs) [] cb h = cc
  unmarshal_arguments-Reads un (v ∷ w ∷ vs) (x ∷ []) cb h = let bad = h.1 in cc

  last-append : (vs : List (LValue F)) (cb : LValue F) → last (vs ++ cb ∷ []) ≡ cb
  last-append [] cb = refl
  last-append (v ∷ []) cb = refl
  last-append (v ∷ w ∷ vs) cb = last-append (w ∷ vs) cb

  last_of_frame :
      (self v : LValue F) (vs : List (LValue F)) (cb : LValue F)
      → last (self ∷ v ∷ vs ++ cb ∷ []) ≡ cb
  last_of_frame self v [] cb = refl
  last_of_frame self v (w ∷ vs) cb = last-append (w ∷ vs) cb

  -- query and exec take the last argument as the callback and those between it and the statement
  -- as the arguments of the statement, when these can be read; called with a statement only, they
  -- panic.
  pub statement_of-arguments :
      (check_string : LValue F → Result String) (un : LValue F → Result (GoValue F))
      (self v cb : LValue F) (query : String) (vs : List (LValue F)) (xs : List (GoValue F))
      → check_string v ≡ ok query
      → Reads un vs xs
      → (statement_of check_string un (self ∷ v ∷ vs ++ cb ∷ [])
          ≡ ok (record { query = query; args = xs; cb = cb }))
        × (statement_of check_string un (self ∷ v ∷ []) ≡ panic)
  unfolding statement_of
  statement_of-arguments cs un self v cb query vs xs e h =
      let long : ltb (length (self ∷ v ∷ vs ++ cb ∷ [])) 3 ≡ false =
        ground (arith, length-append vs (cb ∷ [])) in
      let args = unmarshal_arguments-Reads un vs xs cb h in
      (rw (e, long, args, last_of_frame self v vs cb) refl, rw (e) refl)

  -- A transaction that `begin` gave can do nothing: query, exec, commit and rollback on it all raise
  -- an error, whatever the arguments.
  pub tx_functions_refused :
      (held : ℕ → Held) (bad_argument : String) (check_string : LValue F → Result String)
      (un : LValue F → Result (GoValue F)) (frame : List (LValue F)) (c u : ℕ) (r : Returned ℕ)
      → begin c r ≡ gives (held u)
      → (tx_statement held bad_argument check_string un (user_data u ∷ frame) ≡ raise "expected tx")
        × (tx_end held bad_argument (user_data u ∷ frame) ≡ raise "expected tx")
  unfolding tx_statement tx_end check_tx tx_of begin
  tx_functions_refused held bad cs un frame c u (gives t) eb =
      let eh : held u ≡ object_of (tx c t) = cc in (rw (eh) refl, rw (eh) refl)
  tx_functions_refused held bad cs un frame c u (fails e) eb = cc
