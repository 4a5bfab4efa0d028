-- ===== src/Resource/Chain.antt =====
-- pkg/core/resource.go: what the pool's list holds after each operation on it.
use drlee.Prelude.{
  ℕ, zero, suc, ◌<◌, ◌≤◌, ◌-◌, subst, ◌≡◌, refl, sym, ap, ◌∙◌, true, false, Option, none, some,
  List, [], ◌∷◌, ◌++◌, map, arith, length, if◌then◌else◌, All, All-append, All-map,
}
use drlee.Resource.{Cell, Pool, update, set_next, link, rewind, forward, walk, for_each}
use drlee.Resource.Links.{
  first, last, Segment, is_in, AreDistinct, update-Segment, append-Segment, set_next-Segment,
  set_next-last,
}

-- The list of a pool, from its head to its tail.
pub record IsChain (p : Pool) (ns : List ℕ) : Type 0 where
  pub linked : Segment p.nodes none ns none
  pub ends : p.tail ≡ last none ns
  pub distinct : AreDistinct ns
  pub below : All (λ n. n < p.fresh) ns

abbrev pub resources_at : (ℕ → Cell) → List ℕ → List ℕ
resources_at nodes = map (λ n. (nodes n).resource)

abbrev pub last_of : ℕ → List ℕ → ℕ
last_of n [] = n
last_of n (k ∷ ns) = last_of k ns

pub last-last_of : (n : ℕ) (ns : List ℕ) → last (some n) ns ≡ some (last_of n ns)
last-last_of n [] = refl
last-last_of n (k ∷ ns) = last-last_of k ns

-- fuel for the nodes of a list and some more
abbrev pad : List ℕ → ℕ → ℕ
pad [] fuel = fuel
pad (n ∷ ns) fuel = suc (pad ns fuel)

pad-suc : (ns : List ℕ) (fuel : ℕ) → suc (pad ns fuel) ≡ pad ns (suc fuel)
pad-suc [] fuel = refl
pad-suc (n ∷ ns) fuel = ap suc (pad-suc ns fuel)

pad-length : (ns : List ℕ) (fuel : ℕ) → length ns ≤ fuel → pad ns (fuel - length ns) ≡ fuel
pad-length [] fuel h = omega arith
pad-length (n ∷ ns) zero h = grind arith
pad-length (n ∷ ns) (suc fuel) h =
    let e : suc fuel - suc (length ns) ≡ fuel - length ns = omega arith in
    rw e (ap suc (pad-length ns fuel (omega arith)))

rewind_to :
    (nodes : ℕ → Cell) (before after : Option ℕ) (n : ℕ) (ns : List ℕ) (fuel : ℕ)
    → Segment nodes before (n ∷ ns) after
    → rewind (pad ns fuel) nodes (last_of n ns) ≡ rewind fuel nodes n
unfolding rewind
rewind_to nodes before after n [] fuel s = refl
rewind_to nodes before after n (k ∷ ns) fuel (p, q, s) =
    ap (λ f. rewind f nodes (last_of k ns)) (pad-suc ns fuel)
    ∙ rewind_to nodes (some n) after k ns (suc fuel) s
    ∙ rw (s.0, rewind) refl

forward_all :
    (nodes : ℕ → Cell) (before : Option ℕ) (ns : List ℕ) (fuel : ℕ)
    → Segment nodes before ns none
    → forward (pad ns fuel) nodes (first ns none) ≡ some (resources_at nodes ns)
unfolding forward
forward_all nodes before [] zero s = refl
forward_all nodes before [] (suc fuel) s = refl
forward_all nodes before (n ∷ ns) fuel (p, q, s) =
    let later = forward_all nodes (some n) ns fuel s in rw (q, forward) (rw later refl)

visit :
    (nodes : ℕ → Cell) (ns : List ℕ) (fuel : ℕ)
    → Segment nodes none ns none
    → walk (pad ns fuel) nodes (last none ns) ≡ some (resources_at nodes ns)
unfolding walk rewind
visit nodes [] fuel s = refl
visit nodes (n ∷ ns) fuel s =
    let back : rewind (suc (pad ns fuel)) nodes (last_of n ns) ≡ some n =
      ap (λ f. rewind f nodes (last_of n ns)) (pad-suc ns fuel)
      ∙ rewind_to nodes none none n ns (suc fuel) s
      ∙ rw (s.0, rewind) refl in
    rw (last-last_of n ns, walk, back) (forward_all nodes none (n ∷ ns) fuel s)

-- ForEach visits the resources of the list in order, if it has fuel for each of its nodes.
pub for_each_chain :
    (p : Pool) (ns : List ℕ) (fuel : ℕ)
    → IsChain p ns
    → length ns ≤ fuel
    → for_each fuel p ≡ some (resources_at p.nodes ns)
for_each_chain p ns fuel c h =
    subst (λ f. for_each f p ≡ some (resources_at p.nodes ns)) (pad-length ns fuel h)
      (ap (walk (pad ns (fuel - length ns)) p.nodes) c.ends
        ∙ visit p.nodes ns (fuel - length ns) c.linked)

pub is_in-append :
    (m : ℕ) (ns ms : List ℕ) → is_in m (ns ++ ms) ≡ (if is_in m ns then true else is_in m ms)
is_in-append m [] ms = refl
is_in-append m (n ∷ ns) ms = ground (arith, is_in-append m ns ms)

pub fresh_outside : (f : ℕ) (ns : List ℕ) → All (λ n. n < f) ns → is_in f ns ≡ false
fresh_outside f [] b = refl
fresh_outside f (n ∷ ns) (h, b) = ground (arith, fresh_outside f ns b)

append-AreDistinct :
    (ns : List ℕ) (m : ℕ) → AreDistinct ns → is_in m ns ≡ false → AreDistinct (ns ++ m ∷ [])
append-AreDistinct [] m d h = (refl, tt)
append-AreDistinct (n ∷ ns) m (e, d) h =
    (ground (arith, is_in-append n ns (m ∷ [])), append-AreDistinct ns m d (ground arith))

last-append : (before : Option ℕ) (ns : List ℕ) (m : ℕ) → last before (ns ++ m ∷ []) ≡ some m
last-append before [] m = refl
last-append before (n ∷ ns) m = last-append (some n) ns m

-- Behind the last node of a list of nodes below `f`, the node `f`.
extend :
    (nodes : ℕ → Cell) (ns : List ℕ) (f g : ℕ)
    → Segment nodes none ns none
    → AreDistinct ns
    → is_in f ns ≡ false
    → Segment
        (set_next
          (last none ns)
          (some f)
          (update f (record { next = none; prev = last none ns; resource = g }) nodes))
        none
        (ns ++ f ∷ [])
        none
extend nodes [] f g s d h = (ground arith, ground arith, tt)
extend nodes (n ∷ ns) f g s d h =
    let c : Cell = record { next = none; prev = last none (n ∷ ns); resource = g } in
    let e = set_next-last (update f c nodes) (some f) f n ns h in
    let s' = update-Segment f c nodes none none (n ∷ ns) h s in
    append-Segment (set_next (last none (n ∷ ns)) (some f) (update f c nodes)) none none (n ∷ ns)
      (f ∷ []) (set_next-Segment (update f c nodes) none none (some f) n ns d s')
      (rw e (ground arith), rw e (ground arith), tt)

-- A new resource comes last in the pool's list.
pub link-IsChain :
    (g : ℕ) (p : Pool) (ns : List ℕ) → IsChain p ns → IsChain (link g p) (ns ++ p.fresh ∷ [])
unfolding link
link-IsChain g p ns c =
    let outside = fresh_outside p.fresh ns c.below in
    record {
      linked = rw c.ends (extend p.nodes ns p.fresh g c.linked c.distinct outside);
      ends = sym (last-append none ns p.fresh);
      distinct = append-AreDistinct ns p.fresh c.distinct outside;
      below =
          All-append _ ns (p.fresh ∷ []) (All-map _ _ ns (λ n h. omega arith) c.below)
            (omega arith, tt);
    }
