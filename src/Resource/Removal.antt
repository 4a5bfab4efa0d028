-- ===== src/Resource/Removal.antt =====
-- pkg/core/resource.go: Remove, on a node inside the list and on its tail.
use drlee.Prelude.{
  ℕ, ◌≤◌, ◌≡◌, refl, sym, ap, ◌∙◌, true, false, Option, none, some, List, [], ◌∷◌, ◌++◌, arith,
  length, ◌==◌, All, subst,
}
use drlee.Resource.{Cell, Pool, set_next, set_prev, remove, tail_without, walk, for_each}
use drlee.Resource.Links.{
  last, Segment, is_in, AreDistinct, update-Segment, Segment-append, append-Segment,
  set_next-Segment, set_prev-Segment, set_next-resource, set_prev-resource,
}
use drlee.Resource.Chain.{
  IsChain, resources_at, last_of, last-last_of, is_in-append, for_each_chain,
}

last_of_in : (n : ℕ) (ns : List ℕ) → is_in (last_of n ns) (n ∷ ns) ≡ true
last_of_in n [] = ground arith
last_of_in n (k ∷ ns) = ground (arith, last_of_in k ns)

apart : (m : ℕ) (xs ys : List ℕ) → AreDistinct (xs ++ ys) → is_in m xs ≡ true → is_in m ys ≡ false
apart m [] ys d h = ground arith
apart m (x ∷ xs) ys (e, d) h = ground (arith, apart m xs ys d, is_in-append x xs ys)

middle_apart : (xs : List ℕ) (y : ℕ) (ys : List ℕ) → AreDistinct (xs ++ y ∷ ys) → is_in y xs ≡ false
middle_apart [] y ys d = refl
middle_apart (x ∷ xs) y ys (e, d) =
    ground (arith, is_in-append x xs (y ∷ ys), middle_apart xs y ys d)

drop_one-AreDistinct :
    (xs : List ℕ) (n : ℕ) (ys : List ℕ) → AreDistinct (xs ++ n ∷ ys) → AreDistinct (xs ++ ys)
drop_one-AreDistinct [] n ys (e, d) = d
drop_one-AreDistinct (x ∷ xs) n ys (e, d) = (
  ground (arith, is_in-append x xs (n ∷ ys), is_in-append x xs ys),
  drop_one-AreDistinct xs n ys d,
)

left-AreDistinct : (xs ys : List ℕ) → AreDistinct (xs ++ ys) → AreDistinct xs
left-AreDistinct [] ys d = tt
left-AreDistinct (x ∷ xs) ys (e, d) =
    (ground (arith, is_in-append x xs ys), left-AreDistinct xs ys d)

right-AreDistinct : (xs ys : List ℕ) → AreDistinct (xs ++ ys) → AreDistinct ys
right-AreDistinct [] ys d = d
right-AreDistinct (x ∷ xs) ys (e, d) = right-AreDistinct xs ys d

drop_one-All :
    (P : ℕ → Type 0) (xs : List ℕ) (n : ℕ) (ys : List ℕ) → All P (xs ++ n ∷ ys) → All P (xs ++ ys)
drop_one-All P [] n ys (h, a) = a
drop_one-All P (x ∷ xs) n ys (h, a) = (h, drop_one-All P xs n ys a)

-- Two segments are joined by a write to the last node of one and the first node of the other.
join :
    (nodes : ℕ → Cell) (before after : Option ℕ) (xs : List ℕ) (y : ℕ) (ys : List ℕ)
    → Segment nodes none xs after
    → Segment nodes before (y ∷ ys) none
    → AreDistinct (xs ++ y ∷ ys)
    → Segment
        (set_prev (some y) (last none xs) (set_next (last none xs) (some y) nodes))
        none
        (xs ++ y ∷ ys)
        none
join nodes before after [] y ys s t d = set_prev-Segment nodes before none none y ys d t
join nodes before after (x ∷ xs) y ys s t d =
    let outside = apart (last_of x xs) (x ∷ xs) (y ∷ ys) d (last_of_in x xs) in
    let linked =
      set_next-Segment nodes none after (some y) x xs (left-AreDistinct (x ∷ xs) (y ∷ ys) d) s in
    let nodes' = set_next (last (some x) xs) (some y) nodes in
    let later : Segment nodes' before (y ∷ ys) none =
      subst (λ o. Segment (set_next o (some y) nodes) before (y ∷ ys) none)
        (sym (last-last_of x xs))
        (update-Segment (last_of x xs) _ nodes before none (y ∷ ys) outside t) in
    append-Segment (set_prev (some y) (last none (x ∷ xs)) nodes') none none (x ∷ xs) (y ∷ ys)
      (update-Segment y _ nodes' none (some y) (x ∷ xs) (middle_apart (x ∷ xs) y ys d) linked)
      (set_prev-Segment nodes' before none (last none (x ∷ xs)) y ys
        (right-AreDistinct (x ∷ xs) (y ∷ ys) d) later)

last-middle :
    (before : Option ℕ) (xs : List ℕ) (y : ℕ) (ys : List ℕ)
    → last before (xs ++ y ∷ ys) ≡ some (last_of y ys)
last-middle before [] y ys = last-last_of y ys
last-middle before (x ∷ xs) y ys = last-middle (some x) xs y ys

outsider : (n t : ℕ) (ks : List ℕ) → is_in n ks ≡ false → is_in t ks ≡ true → (n == t) ≡ false
outsider n t [] h h' = ground arith
outsider n t (k ∷ ks) h h' = ground (arith, outsider n t ks)

-- A node that is not the tail is cut out.
pub remove-IsChain :
    (p : Pool) (xs : List ℕ) (n y : ℕ) (ys : List ℕ)
    → IsChain p (xs ++ n ∷ y ∷ ys)
    → IsChain (remove n p) (xs ++ y ∷ ys)
unfolding remove
remove-IsChain p xs n y ys c =
    let (s, (e, e', t)) = Segment-append p.nodes none none xs (n ∷ y ∷ ys) c.linked in
    let d = right-AreDistinct xs (n ∷ y ∷ ys) c.distinct in
    let other = outsider n (last_of y ys) (y ∷ ys) d.0 (last_of_in y ys) in
    record {
      linked =
          rw (e, e')
            (join p.nodes (some n) (some n) xs y ys s t
              (drop_one-AreDistinct xs n (y ∷ ys) c.distinct));
      ends = rw (c.ends, last-middle none xs n (y ∷ ys), last-middle none xs y ys, other) refl;
      distinct = drop_one-AreDistinct xs n (y ∷ ys) c.distinct;
      below = drop_one-All _ xs n (y ∷ ys) c.below;
    }

resources_at_same :
    (nodes nodes' : ℕ → Cell) (ns : List ℕ)
    → ((n : ℕ) → (nodes n).resource ≡ (nodes' n).resource)
    → resources_at nodes ns ≡ resources_at nodes' ns
resources_at_same nodes nodes' [] h = refl
resources_at_same nodes nodes' (n ∷ ns) h = rw (h n, resources_at_same nodes nodes' ns h) refl

pub resources-remove :
    (p : Pool) (n : ℕ) (ns : List ℕ) → resources_at (remove n p).nodes ns ≡ resources_at p.nodes ns
unfolding remove
resources-remove p n ns =
    let c = p.nodes n in
    resources_at_same (set_prev c.next c.prev (set_next c.prev c.next p.nodes)) p.nodes ns (λ m.
      set_prev-resource (set_next c.prev c.next p.nodes) c.next c.prev m
      ∙ set_next-resource p.nodes c.prev c.next m)

-- After Remove of a node with another behind it, ForEach visits all the resources but that node's,
-- in the same order.
pub for_each-remove :
    (p : Pool) (xs : List ℕ) (n y : ℕ) (ys : List ℕ) (fuel : ℕ)
    → IsChain p (xs ++ n ∷ y ∷ ys)
    → length (xs ++ y ∷ ys) ≤ fuel
    → for_each fuel (remove n p) ≡ some (resources_at p.nodes (xs ++ y ∷ ys))
for_each-remove p xs n y ys fuel c h =
    for_each_chain (remove n p) (xs ++ y ∷ ys) fuel (remove-IsChain p xs n y ys c) h
    ∙ ap some (resources-remove p n (xs ++ y ∷ ys))

-- After Remove of the last node of the list, ForEach visits nothing at all, whatever stands before
-- that node and is still held.
pub for_each-remove_tail :
    (p : Pool) (xs : List ℕ) (n : ℕ) (fuel : ℕ)
    → IsChain p (xs ++ n ∷ [])
    → for_each fuel (remove n p) ≡ some []
unfolding remove walk
for_each-remove_tail p xs n fuel c =
    let e : tail_without n p.tail ≡ none = rw (c.ends, last-middle none xs n []) (ground arith) in
    rw e refl
