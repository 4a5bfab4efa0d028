-- ===== src/Marshal/Slices.antt =====
-- A slice written to a table of gopher-lua and read back (pkg/core/helpers/marshal.go).
use drlee.Prelude.{
  ℕ, suc, ◌+◌, ◌≤◌, false, List, [], ◌∷◌, ◌≡◌, refl, All, length, arith, ◌∙◌, subst,
}
use drlee.Marshal.Types.{Tree, Log, raw_set_int, Tables, Outcome, gives}
use drlee.Marshal.Copying.{is_nil, TablesLaws}
use drlee.Marshal.Writing.{marshal_slice}
use drlee.Marshal.Reading.{unmarshal_slice}

-- `x` is written as something that is read as `x`.
abbrev pub Passes :
    {F A X : Type 0} → (X → Outcome (Tree F A)) → (Tree F A → Outcome X) → X → Type 0
Passes {F} {A} m un x =
    (lv : Tree F A) × ((m x ≡ gives lv) × ((is_nil lv ≡ false) × (un lv ≡ gives x)))

module _ {F A X : Type 0} (h : Tables F A) (laws : TablesLaws h) (m : X → Outcome (Tree F A))
    (un : Tree F A → Outcome X) where
  -- From a table of length `i` on, the elements are appended; what stood there stays.
  abbrev Appends : ℕ → List X → Log F A → Type 0
  Appends i xs log =
      (log' : Log F A) × ((marshal_slice m i xs log ≡ gives log')
        × ((h.len log' ≡ i + length xs)
            × (((j : ℕ) → j ≤ i → h.raw_get_int log' j ≡ h.raw_get_int log j)
                × (unmarshal_slice un (h.raw_get_int log') i (length xs) ≡ gives xs))))

  pub slice-Passes :
      (i : ℕ) (xs : List X) (log : Log F A)
      → h.len log ≡ i
      → All (Passes m un) xs
      → Appends i xs log
  unfolding marshal_slice unmarshal_slice
  slice-Passes i [] log hl hx = (log, (refl, (omega arith, ((λ j hj. refl), refl))))
  slice-Passes i (x ∷ xs) log hl hx =
      let (lv, (em, (en, eu))) = hx.0 in
      let hl' : h.len (raw_set_int log (suc i) lv) ≡ suc i =
        subst (λ n. h.len (raw_set_int log (suc n) lv) ≡ suc n) hl (laws.len_append log lv en) in
      let (log', (e1, (e2, (e3, e4)))) =
        slice-Passes (suc i) xs (raw_set_int log (suc i) lv) hl' hx.1 in
      let got : h.raw_get_int log' (suc i) ≡ lv =
        e3 (suc i) (omega arith) ∙ laws.get_int_same log (suc i) lv in
      let kept : (j : ℕ) → j ≤ i → h.raw_get_int log' j ≡ h.raw_get_int log j =
        λ j hj. e3 j (omega arith) ∙ laws.get_int_other log j (suc i) lv (λ e. omega arith) in
      (log', (rw (em, e1), (omega arith, (kept, rw (got, eu, e4)))))
