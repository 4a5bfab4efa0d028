-- ===== src/Json/Marks.antt =====
-- pkg/core/json/json.go: the marks of visited tables as a measure of what is left to visit.
use drlee.Prelude.{
  ℕ, zero, suc, ◌+◌, ◌≤◌, ◌<◌, String, ◌≡◌, true, false, List, [], ◌∷◌, ◌==◌, if◌then◌else◌, arith,
  All, subst, Bool-cases, inl, inr,
}
use drlee.Lua.{LValue, table}
use drlee.Json.{
  Json, Shape, array, object, bad_shape, is_in, Outcome, out_of_fuel, fails, gives, and_then,
  encode_items, encode_fields,
}

-- how many tables below `n` are not marked
abbrev pub unmarked : ℕ → List ℕ → ℕ
unmarked zero visited = 0
unmarked (suc n) visited = unmarked n visited + (if is_in n visited then 0 else 1)

-- A mark more.
pub unmarked-mark :
    (n t : ℕ) (visited : List ℕ)
    → (unmarked n (t ∷ visited) ≤ unmarked n visited)
      × (is_in t visited ≡ false → t < n → unmarked n (t ∷ visited) < unmarked n visited)
unmarked-mark zero t visited = (omega arith, λ h k. grind arith)
unmarked-mark (suc n) t visited =
    let (a, b) = unmarked-mark n t visited in
    (
      ground arith,
      λ h k. elim (Bool-cases (n == t)) [
        | inl q ↦
            let e : t ≡ n = ground arith in
            let free : is_in n visited ≡ false = subst (λ m. is_in m visited ≡ false) e h in
            rw (q, free) (omega arith)
        | inr q ↦ let less : t < n = ground arith in let c = b h less in rw q (ground arith)
      ],
    )

-- The outcome is not for want of fuel, and leaves at most `k` tables unmarked.
abbrev pub Ends : {A : Type 0} → ℕ → ℕ → Outcome A → Type 0
Ends n k out_of_fuel = true ≡ false
Ends n k (fails e) = Unit
Ends n k (gives a visited) = unmarked n visited ≤ k

pub Ends-then :
    {A B : Type 0} (n k l : ℕ) (o : Outcome A) (f : A → List ℕ → Outcome B)
    → Ends n k o
    → ((a : A) (visited : List ℕ) → unmarked n visited ≤ k → Ends n l (f a visited))
    → Ends n l (and_then o f)
Ends-then n k l out_of_fuel f h c = cc
Ends-then n k l (fails e) f h c = tt
Ends-then n k l (gives a visited) f h c = c a visited h

-- All tables that a value names are below `n`.
abbrev pub IsBelow : {F : Type 0} → ℕ → LValue F → Type 0
IsBelow n (table t) = t < n
IsBelow n _ = Unit

module _ {F : Type 0} (n k : ℕ) (enc : List ℕ → LValue F → Outcome (Json F))
    (ends : (visited : List ℕ) (v : LValue F)
      → IsBelow n v
      → unmarked n visited ≤ k
      → Ends n k (enc visited v)) where
  pub encode_items-Ends :
      (visited : List ℕ) (vs : List (LValue F))
      → All (IsBelow n) vs
      → unmarked n visited ≤ k
      → Ends n k (encode_items enc visited vs)
  unfolding encode_items
  encode_items-Ends visited [] b u = u
  encode_items-Ends visited (v ∷ vs) (b, bs) u =
      Ends-then n k k (enc visited v) _ (ends visited v b u) (λ j visited' u'.
        Ends-then n k k (encode_items enc visited' vs) _ (encode_items-Ends visited' vs bs u')
          (λ js visited'' u''. u''))

  pub encode_fields-Ends :
      (visited : List ℕ) (vs : List (String × LValue F))
      → All (λ (key, v). IsBelow n v) vs
      → unmarked n visited ≤ k
      → Ends n k (encode_fields enc visited vs)
  unfolding encode_fields
  encode_fields-Ends visited [] b u = u
  encode_fields-Ends visited ((key, v) ∷ vs) (b, bs) u =
      Ends-then n k k (enc visited v) _ (ends visited v b u) (λ j visited' u'.
        Ends-then n k k (encode_fields enc visited' vs) _ (encode_fields-Ends visited' vs bs u')
          (λ js visited'' u''. u''))

-- The values of a table's entries.
abbrev pub AreBelow : {F : Type 0} → ℕ → List (LValue F × LValue F) → Type 0
AreBelow n = All (λ (key, v). IsBelow n v)

abbrev pub ShapeBelow : {F : Type 0} → ℕ → Shape F → Type 0
ShapeBelow n (array vs) = All (IsBelow n) vs
ShapeBelow n (object vs) = All (λ (key, v). IsBelow n v) vs
ShapeBelow n (bad_shape e) = Unit
