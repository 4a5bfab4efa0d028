-- ===== src/Resource/Insertion.antt =====
-- pkg/core/resource.go: the loop of NewResourcePool, seen through ForEach.
use drlee.Prelude.{
  ℕ, ◌≤◌, ◌≡◌, refl, ap, ◌∙◌, false, none, some, List, [], ◌∷◌, ◌++◌, arith, length,
}
use drlee.Resource.{update, Pool, Cell, for_each, link, take_cached}
use drlee.Resource.Links.{is_in, set_next-resource}
use drlee.Resource.Chain.{IsChain, resources_at, for_each_chain, link-IsChain, fresh_outside}

resources_at-append :
    (nodes : ℕ → Cell) (ns : List ℕ) (n : ℕ)
    → resources_at nodes (ns ++ n ∷ []) ≡ resources_at nodes ns ++ (nodes n).resource ∷ []
resources_at-append nodes [] n = refl
resources_at-append nodes (m ∷ ns) n = rw (resources_at-append nodes ns n) refl

resources-link :
    (g : ℕ) (p : Pool) (ns : List ℕ)
    → is_in p.fresh ns ≡ false
    → resources_at (link g p).nodes ns ≡ resources_at p.nodes ns
unfolding link
resources-link g p [] h = refl
resources-link g p (n ∷ ns) h =
    let c : Cell = record { next = none; prev = p.tail; resource = g } in
    let e : update p.fresh c p.nodes n ≡ p.nodes n = ground arith in
    rw
      (
        set_next-resource (update p.fresh c p.nodes) p.tail (some p.fresh) n,
        e,
        resources-link g p ns (ground arith),
      )
      refl

-- A resource that the loop takes from the channel is visited by ForEach after all that were linked
-- before, and the list stays well linked.
pub for_each-take_cached :
    (p : Pool) (ns : List ℕ) (g : ℕ) (rest : List ℕ) (fuel : ℕ)
    → IsChain p ns
    → p.cache ≡ g ∷ rest
    → length (ns ++ p.fresh ∷ []) ≤ fuel
    → (p' : Pool) × (take_cached p ≡ some p')
      × IsChain p' (ns ++ p.fresh ∷ [])
      × (for_each fuel p' ≡ some (resources_at p.nodes ns ++ g ∷ []))
      × (p'.cache ≡ rest)
unfolding take_cached link
for_each-take_cached p ns g rest fuel c e h =
    let q = record p { cache = rest } in
    let d : IsChain q ns = record {
      linked = c.linked;
      ends = c.ends;
      distinct = c.distinct;
      below = c.below;
    } in
    let d' = link-IsChain g q ns d in
    let outside = fresh_outside p.fresh ns c.below in
    let c' : Cell = record { next = none; prev = p.tail; resource = g } in
    let new : ((link g q).nodes p.fresh).resource ≡ g =
      set_next-resource (update p.fresh c' p.nodes) p.tail (some p.fresh) p.fresh ∙ ground arith in
    (
      link g q,
      rw (e, take_cached) refl,
      d',
      for_each_chain (link g q) (ns ++ p.fresh ∷ []) fuel d' h
          ∙ ap some (
              resources_at-append (link g q).nodes ns p.fresh
              ∙ (rw (resources-link g q ns outside, new) refl)),
      refl,
    )
