-- ===== src/Call/Pick.antt =====
-- The weighted choice of a node.
use mathlib.Core.Logic.{∥∥₁_elim}
use mathlib.Core.Logic.Or
use mathlib.Core.List.{Perm, Permᴰ, Mem, mem-cons, mem-cons_self, not-mem-nil}
use native.Mathlib.Nat.{ℕ_set}
use drlee.Prelude.{
  ℕ, ◌+◌, ◌≤◌, String, ◌≡◌, refl, ap, ◌∙◌, eq_iff, Bool-cases, inl, inr, ◌≢◌, true, Option, some,
  [], ◌∷◌, ◌++◌, leb, arith,
}
use drlee.Prelude.Dict.{Dict, lookup, HasDistinctKeys}
use drlee.Call.{total_weight, pick}

total_weight-append : (xs ys : Dict ℕ) → total_weight (xs ++ ys) ≡ total_weight xs + total_weight ys
unfolding total_weight
total_weight-append [] ys = omega arith
total_weight-append ((n, w) ∷ xs) ys = omega (arith, total_weight-append xs ys)

abbrev name_at : String × ℕ → String
name_at p = p.0

abbrev weight_at : String × ℕ → ℕ
weight_at p = p.1

total_weight-permᴰ : (xs ys : Dict ℕ) → Permᴰ xs ys → total_weight xs ≡ total_weight ys
unfolding total_weight
total_weight-permᴰ xs ys Permᴰ.nil = refl
total_weight-permᴰ xs ys (Permᴰ.cons {l₁ = l} {l₂ = m} e p) =
    omega (arith, ap weight_at e, total_weight-permᴰ l m p)
total_weight-permᴰ xs ys (Permᴰ.swap e f) = omega (arith, ap weight_at e, ap weight_at f)
total_weight-permᴰ xs ys (Permᴰ.trans {l₂ = l} p q) =
    total_weight-permᴰ xs l p ∙ total_weight-permᴰ l ys q

pub total_weight-perm : {xs ys : Dict ℕ} → Perm xs ys → total_weight xs ≡ total_weight ys
total_weight-perm p = ∥∥₁_elim p (ℕ_set _ _) (total_weight-permᴰ _ _)

-- With a target within the total, the loop stops at a member.
pub pick_member :
    (target current : ℕ) (group : Dict ℕ)
    → group ≢ []
    → target ≤ current + total_weight group
    → (w : ℕ) × Mem (pick target current group, w) group
unfolding pick total_weight
pick_member target current [] e h = absurd (e refl)
pick_member target current ((n, w) ∷ []) e h =
    let q : leb target (current + w) ≡ true = ground arith in (w, rw q mem-cons_self)
pick_member target current ((n, w) ∷ (m, v) ∷ group) e h =
    elim (Bool-cases (leb target (current + w))) [
      | inl q ↦ (w, rw q mem-cons_self)
      | inr q ↦
          let (u, k) = pick_member target (current + w) ((m, v) ∷ group) (λ x. cc) (ground arith) in
          (u, rw q (mem-cons.1 (Or.inr k)))
    ]

pub lookup_of_mem :
    (n : String) (w : ℕ) (m : Dict ℕ) → HasDistinctKeys m → Mem (n, w) m → lookup n m ≡ some w
unfolding lookup
lookup_of_mem n w [] d h = absurd (not-mem-nil h)
lookup_of_mem n w ((k, v) ∷ m) d h =
    Or.elim (Option_set _ _) (mem-cons.0 h)
      (λ e. ground (arith, eq_iff k n, ap name_at e, ap weight_at e))
      (λ t. ground (arith, eq_iff k n, d.0, lookup_of_mem n w m d.1 t))
  where
    Option_set : IsSet (Option ℕ)
    Option_set = hlevel
