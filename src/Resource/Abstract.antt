-- ===== src/Resource/Abstract.antt =====
-- pkg/core/resource.go: the pool as a plain list. What is held is a list of nodes with their
-- resources, in the order in which they were taken; linked cells, addresses of neighbours and the
-- tail are forgotten.
use drlee.Prelude.{
  ℕ, suc, Bool, true, false, Option, none, some, List, [], ◌∷◌, ◌++◌, map, length, ltb, ◌==◌,
  if◌then◌else◌, ◌≡◌, refl, ap, arith,
}
use drlee.Resource.{Pool, guard, take_cached, remove}

-- The specification: what is waiting for the loop, what is held, the size of the buffer, and the
-- name of the next node.
pub record Spec : Type 0 where
  pub waiting : List ℕ
  pub held : List (ℕ × ℕ)
  pub size : ℕ
  pub next : ℕ

pub data Op : Type 0 where
  guards : ℕ → Op
  takes : Op
  removes : ℕ → Op

-- the list without the node `n`, which must not be the last
abbrev pub without : ℕ → List (ℕ × ℕ) → Option (List (ℕ × ℕ))
without n [] = none
without n (e ∷ []) = none
without n (e ∷ f ∷ es) =
    let rest = without n (f ∷ es) in
    if e.0 == n then some (f ∷ es) else elim rest [ none ↦ none | some es' ↦ some (e ∷ es') ]

abbrev pub spec_step : Op → Spec → Option Spec
spec_step (guards g) s =
    if ltb (length s.waiting) s.size
    then some (record s { waiting = s.waiting ++ g ∷ [] })
    else none
spec_step takes s = elim s.waiting [
  | [] ↦ none
  | g ∷ rest ↦
      some (record s { waiting = rest; held = s.held ++ (s.next, g) ∷ []; next = suc s.next })
]
spec_step (removes n) s = elim (without n s.held) [
  | none ↦ none
  | some es ↦ some (record s { held = es })
]

abbrev pub spec_run : List Op → Spec → Option Spec
spec_run [] s = some s
spec_run (op ∷ ops) s = elim (spec_step op s) [ none ↦ none | some t ↦ spec_run ops t ]

-- the operations of the pool
unfoldable pub pool_step : Op → Pool → Option Pool
unfolding guard take_cached remove
pool_step (guards g) p = guard g p
pool_step takes p = take_cached p
pool_step (removes n) p = some (remove n p)

unfoldable pub pool_run : List Op → Pool → Option Pool
unfolding pool_step
pool_run [] p = some p
pool_run (op ∷ ops) p = elim (pool_step op p) [ none ↦ none | some q ↦ pool_run ops q ]

abbrev pub nodes_of : List (ℕ × ℕ) → List ℕ
nodes_of = map (λ e. e.0)

abbrev pub resources_of : List (ℕ × ℕ) → List ℕ
resources_of = map (λ e. e.1)

-- Where `without` finds a node: it is in the list, and another behind it.
abbrev pub Cut : ℕ → List (ℕ × ℕ) → List (ℕ × ℕ) → Type 0
Cut n es es' =
    (xs : List (ℕ × ℕ)) × (g : ℕ) × (y : ℕ × ℕ) × (ys : List (ℕ × ℕ)) × ((es
        ≡ xs ++ (n, g) ∷ y ∷ ys)
      × (es' ≡ xs ++ y ∷ ys))

Cut-cons : (n : ℕ) (e : ℕ × ℕ) (es es' : List (ℕ × ℕ)) → Cut n es es' → Cut n (e ∷ es) (e ∷ es')
Cut-cons n e es es' (xs, g, y, ys, (h, h')) =
    (e ∷ xs, g, y, ys, (ap (λ l. e ∷ l) h, ap (λ l. e ∷ l) h'))

without_step :
    (n m g : ℕ) (f : ℕ × ℕ) (es es' : List (ℕ × ℕ)) (b : Bool) (o : Option (List (ℕ × ℕ)))
    → (m == n) ≡ b
    → ((es'' : List (ℕ × ℕ)) → o ≡ some es'' → Cut n (f ∷ es) es'')
    → (if b then some (f ∷ es) else elim o [ none ↦ none | some es'' ↦ some ((m, g) ∷ es'') ])
      ≡ some es'
    → Cut n ((m, g) ∷ f ∷ es) es'
without_step n m g f es es' true o eb ih h =
    let same : m ≡ n = ground arith in
    let cut : es' ≡ f ∷ es = cc in ([], g, f, es, (ap (λ k. (k, g) ∷ f ∷ es) same, cut))
without_step n m g f es es' false none eb ih h = cc
without_step n m g f es es' false (some es'') eb ih h =
    let same : (m, g) ∷ es'' ≡ es' = cc in
    rw (← same) (Cut-cons n (m, g) (f ∷ es) es'' (ih es'' refl))

pub without-Cut : (n : ℕ) (es es' : List (ℕ × ℕ)) → without n es ≡ some es' → Cut n es es'
without-Cut n [] es' h = cc
without-Cut n (e ∷ []) es' h = cc
without-Cut n ((m, g) ∷ f ∷ es) es' h =
    without_step n m g f es es' (m == n) (without n (f ∷ es)) refl (without-Cut n (f ∷ es)) h
