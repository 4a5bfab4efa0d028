-- ===== src/Resource/Closing.antt =====
-- pkg/core/resource.go and execution_context.go: what is released, and how often.
use drlee.Prelude.{
  ℕ, suc, ◌+◌, ◌≤◌, ◌≡◌, refl, ap, ◌∙◌, Bool, true, false, ◌||◌, none, some, List, [], ◌∷◌, ◌++◌,
  arith, length, ◌==◌, if◌then◌else◌, Bool-cases, inl, inr, subst, ◌+◌,
}
use drlee.Resource.{
  Resource, set_node, set_pool, Pool, Effect, release_called, after_release_called, release,
  close_one, close_each, close, effects_of,
}
use drlee.Resource.Links.{is_in}
use drlee.Resource.Chain.{IsChain, resources_at, for_each_chain}

-- how often the function `release` of a resource was called
abbrev pub count : ℕ → List Effect → ℕ
count g [] = 0
count g (release_called h ∷ es) = if g == h then suc (count g es) else count g es
count g (after_release_called h ∷ es) = count g es

count-append : (g : ℕ) (es fs : List Effect) → count g (es ++ fs) ≡ count g es + count g fs
count-append g [] fs = omega arith
count-append g (release_called h ∷ es) fs = ground (arith, count-append g es fs)
count-append g (after_release_called h ∷ es) fs = count-append g es fs

-- `release` was called once where it is marked as released, and not at all otherwise.
abbrev pub IsOnce : Pool → Type 0
IsOnce p = (g : ℕ) → count g p.effects ≡ (if (p.resources g).released then 1 else 0)

count-effects_of : (g h : ℕ) (b : Bool) → count g (effects_of h b) ≡ (if g == h then 1 else 0)
count-effects_of g h true = ground arith
count-effects_of g h false = ground arith

-- the mark after `release`, of any resource
released-release :
    (h g : ℕ) (p : Pool)
    → ((release h p).resources g).released ≡ (if h == g then true else (p.resources g).released)
unfolding release
released-release h g p = elim (Bool-cases (p.resources h).released) [
  | inl e ↦ rw e (released_at g e)
  | inr e ↦ rw e (ground arith)
]
  where
    released_at :
        (g : ℕ)
        → (p.resources h).released ≡ true
        → (p.resources g).released ≡ (if h == g then true else (p.resources g).released)
    released_at g e = elim (Bool-cases (h == g)) [
      | inl q ↦
          let same : h ≡ g = ground arith in
          rw q (subst (λ k. (p.resources k).released ≡ true) same e)
      | inr q ↦ rw q refl
    ]

count-release :
    (h g : ℕ) (p : Pool)
    → count g (release h p).effects
      ≡ count g p.effects + (if (p.resources h).released then 0 else if g == h then 1 else 0)
unfolding release
count-release h g p = elim (Bool-cases (p.resources h).released) [
  | inl e ↦ rw e (omega arith)
  | inr e ↦ rw e (
      count-append g p.effects (effects_of h (p.resources h).has_after_release)
      ∙ ap (λ k. count g p.effects + k) (count-effects_of g h (p.resources h).has_after_release))
]

release-IsOnce : (h : ℕ) (p : Pool) → IsOnce p → IsOnce (release h p)
release-IsOnce h p o g = elim (Bool-cases (h == g)) [
  | inl q ↦
      let same : h ≡ g = ground arith in
      let marks = ap (λ k. (p.resources k).released) same in
      rw (count-release h g p, released-release h g p, q, marks, o g)
        (elim (Bool-cases (p.resources g).released) [
          | inl e ↦ rw e (ground arith)
          | inr e ↦ rw e (ground arith)
        ])
  | inr q ↦ rw (count-release h g p, released-release h g p, q) (ground (arith, o g))
]

-- setPool and setNode leave the mark.
released-unlinked :
    (h g : ℕ) (resources : ℕ → Resource)
    → (set_node none h (set_pool false h resources) g).released ≡ (resources g).released
released-unlinked h g resources = elim (Bool-cases (h == g)) [
  | inl q ↦ let same : h ≡ g = ground arith in rw q (rw same (ground arith))
  | inr q ↦ rw q refl
]

released-close_one :
    (h g : ℕ) (p : Pool)
    → ((close_one h p).resources g).released ≡ (if h == g then true else (p.resources g).released)
unfolding close_one
released-close_one h g p = released-unlinked h g (release h p).resources ∙ released-release h g p

-- the marks after Close has gone through some resources
released-close_each :
    (hs : List ℕ) (g : ℕ) (p : Pool)
    → ((close_each hs p).resources g).released ≡ ((p.resources g).released || is_in g hs)
unfolding close_each
released-close_each [] g p = ground arith
released-close_each (h ∷ hs) g p =
    rw (released-close_each hs g (close_one h p), released-close_one h g p) (ground arith)

close_one-IsOnce : (h : ℕ) (p : Pool) → IsOnce p → IsOnce (close_one h p)
unfolding close_one
close_one-IsOnce h p o g =
    rw (released-unlinked h g (release h p).resources) (release-IsOnce h p o g)

close_each-IsOnce : (hs : List ℕ) (p : Pool) → IsOnce p → IsOnce (close_each hs p)
unfolding close_each
close_each-IsOnce [] p o = o
close_each-IsOnce (h ∷ hs) p o = close_each-IsOnce hs (close_one h p) (close_one-IsOnce h p o)

-- Close of a context whose pool holds the list `ns`: it ends, with fuel for those nodes; every
-- resource of the list is released and no other one; and the function `release` of each resource
-- has been called once if it is marked as released, and not at all if it is not, also where some
-- were released before.
pub close_releases_listed :
    (p : Pool) (ns : List ℕ) (fuel : ℕ)
    → IsChain p ns
    → length ns ≤ fuel
    → IsOnce p
    → (p' : Pool) × (close fuel p ≡ some p')
      × IsOnce p'
      × ((g : ℕ)
          → (p'.resources g).released
            ≡ ((p.resources g).released || is_in g (resources_at p.nodes ns)))
unfolding close
close_releases_listed p ns fuel c h o =
    let gs = resources_at p.nodes ns in
    (
      close_each gs p,
      rw (for_each_chain p ns fuel c h, close) refl,
      close_each-IsOnce gs p o,
      λ g. released-close_each gs g p,
    )
