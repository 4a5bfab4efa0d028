-- ===== src/Marshal/Termination.antt =====
-- pkg/core/helpers/marshal.go UnmarshalToMap: on which tables it ends.
use drlee.Prelude.{
  ℕ, zero, suc, ◌<◌, ◌≤◌, ◌≡◌, ◌≢◌, refl, true, false, List, [], ◌∷◌, ltb, All, All-map, arith,
  Bool-cases, inl, inr, subst,
}
use drlee.Lua.{LValue, nil, bool, number, string, function, user_data, thread, table, channel}
use drlee.Marshal.{
  GoValue, GoMap, empty_map, put, Outcome, out_of_fuel, not_supported, gives, and_then, Tables,
  array_of, map_of, unmarshal_to_map,
}

abbrev Ends : {A : Type 0} → Outcome A → Type 0
Ends out_of_fuel = true ≡ false
Ends _ = Unit

Ends-then :
    {A B : Type 0} (o : Outcome A) (k : A → Outcome B)
    → Ends o
    → ((a : A) → Ends (k a))
    → Ends (and_then o k)
Ends-then out_of_fuel k h c = cc
Ends-then (not_supported t) k h c = tt
Ends-then (gives a) k h c = c a

-- A table has a rank below `k`; nothing is asked of other values.
abbrev pub RanksBelow : {F : Type 0} → (ℕ → ℕ) → ℕ → LValue F → Type 0
RanksBelow rank k (table t) = rank t < k
RanksBelow rank k _ = Unit

module _ {F : Type 0} (g : Tables F) where
  -- What a table holds has a lower rank: no table holds itself, at any depth.
  pub record IsAcyclic (rank : ℕ → ℕ) : Type 0 where
    pub items : (t i : ℕ) → RanksBelow rank (rank t) (g.raw_get_int t i)
    pub fields : (t : ℕ) → All (λ (key, v). RanksBelow rank (rank t) v) (g.entries t)

  array_of-Ends :
      (un : LValue F → Outcome (GoValue F)) (t : ℕ)
      → ((i : ℕ) → Ends (un (g.raw_get_int t i)))
      → (i n : ℕ) → Ends (array_of g un t i n)
  unfolding array_of
  array_of-Ends un t h i zero = tt
  array_of-Ends un t h i (suc n) =
      Ends-then (un (g.raw_get_int t i)) _ (h i)
        (λ v. Ends-then (array_of g un t (suc i) n) _ (array_of-Ends un t h (suc i) n) (λ vs. tt))

  map_of-Ends :
      (un : LValue F → Outcome (GoValue F)) (es : List (LValue F × LValue F)) (m : GoMap F)
      → All (λ (key, v). Ends (un v)) es
      → Ends (map_of g un es m)
  unfolding map_of
  map_of-Ends un [] m h = tt
  map_of-Ends un ((key, v) ∷ es) m (h, hs) =
      Ends-then (un v) _ h (λ a. map_of-Ends un es (put (g.to_string key) a m) hs)

  pub Ranks-weaken :
      (rank : ℕ → ℕ) (k l : ℕ) (v : LValue F) → k ≤ l → RanksBelow rank k v → RanksBelow rank l v
  Ranks-weaken rank k l (table t) h r = omega arith
  Ranks-weaken rank k l nil h r = tt
  Ranks-weaken rank k l (bool x) h r = tt
  Ranks-weaken rank k l (number x) h r = tt
  Ranks-weaken rank k l (string x) h r = tt
  Ranks-weaken rank k l (function x) h r = tt
  Ranks-weaken rank k l (user_data x) h r = tt
  Ranks-weaken rank k l (thread x) h r = tt
  Ranks-weaken rank k l (channel x) h r = tt

  unmarshal-Ends :
      (rank : ℕ → ℕ)
      → IsAcyclic rank
      → (fuel : ℕ) (v : LValue F) → RanksBelow rank fuel v
      → Ends (unmarshal_to_map g fuel v)
  unfolding unmarshal_to_map
  unmarshal-Ends rank a fuel nil r = tt
  unmarshal-Ends rank a fuel (bool x) r = tt
  unmarshal-Ends rank a fuel (number x) r = tt
  unmarshal-Ends rank a fuel (string x) r = tt
  unmarshal-Ends rank a fuel (function x) r = tt
  unmarshal-Ends rank a fuel (user_data x) r = tt
  unmarshal-Ends rank a fuel (thread x) r = tt
  unmarshal-Ends rank a fuel (channel x) r = tt
  unmarshal-Ends rank a zero (table t) r = grind arith
  unmarshal-Ends rank a (suc fuel) (table t) r =
      let low : rank t ≤ fuel = omega arith in
      let inner = λ (v : LValue F) (b : RanksBelow rank (rank t) v).
        unmarshal-Ends rank a fuel v (Ranks-weaken rank (rank t) fuel v low b) in
      elim (Bool-cases (ltb 0 (g.len t))) [
        | inl q ↦
            rw (q, unmarshal_to_map)
              (Ends-then (array_of g (unmarshal_to_map g fuel) t 1 (g.len t)) _
                (array_of-Ends (unmarshal_to_map g fuel) t
                  (λ i. inner (g.raw_get_int t i) (a.items t i)) 1 (g.len t))
                (λ vs. tt))
        | inr q ↦
            rw (q, unmarshal_to_map)
              (Ends-then (map_of g (unmarshal_to_map g fuel) (g.entries t) empty_map) _
                (map_of-Ends (unmarshal_to_map g fuel) (g.entries t) empty_map
                  (All-map _ _ (g.entries t) (λ (key, v) b. inner v b) (a.fields t)))
                (λ m. tt))
      ]

  -- UnmarshalToMap ends on every value whose tables do not hold themselves, at any depth: with the
  -- tables ranked so that each holds lower ones only, a depth above the rank is enough.
  pub unmarshal_ends :
      (rank : ℕ → ℕ) (fuel : ℕ) (v : LValue F)
      → IsAcyclic rank
      → RanksBelow rank fuel v
      → unmarshal_to_map g fuel v ≢ out_of_fuel
  unmarshal_ends rank fuel v a r e = let bad = subst Ends e (unmarshal-Ends rank a fuel v r) in cc

  array_of_first :
      (un : LValue F → Outcome (GoValue F)) (t n : ℕ)
      → 0 < n
      → un (g.raw_get_int t 1) ≡ out_of_fuel
      → array_of g un t 1 n ≡ out_of_fuel
  unfolding array_of
  array_of_first un t zero h e = grind arith
  array_of_first un t (suc n) h e = rw e refl

  -- On a table whose first element is the table itself no depth is enough: the recursion of
  -- UnmarshalToMap never ends.
  pub unmarshal_cycle :
      (t fuel : ℕ)
      → 0 < g.len t
      → g.raw_get_int t 1 ≡ table t
      → unmarshal_to_map g fuel (table t) ≡ out_of_fuel
  unfolding unmarshal_to_map
  unmarshal_cycle t zero h e = refl
  unmarshal_cycle t (suc fuel) h e =
      let q : ltb 0 (g.len t) ≡ true = ground arith in
      let deeper : unmarshal_to_map g fuel (g.raw_get_int t 1) ≡ out_of_fuel =
        rw e (unmarshal_cycle t fuel h e) in
      rw (q, unmarshal_to_map, array_of_first (unmarshal_to_map g fuel) t (g.len t) h deeper) refl
