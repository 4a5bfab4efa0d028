-- ===== src/Resource/Refinement.antt =====
-- pkg/core/resource.go: the pool does what the plain list of Resource/Abstract does.
use drlee.Prelude.{
  ℕ, suc, ◌≤◌, Bool, true, false, Option, none, some, List, [], ◌∷◌, ◌++◌, length, ltb,
  if◌then◌else◌, ◌≡◌, refl, sym, ap, ◌∙◌, subst, arith,
}
use drlee.Resource.{
  Cell, Pool, Resource, for_each, insert, link, set_pool, guard, take_cached, remove, new_pool,
}
use drlee.Resource.Chain.{IsChain, resources_at, for_each_chain}
use drlee.Resource.Insertion.{for_each-take_cached}
use drlee.Resource.Removal.{remove-IsChain, resources-remove}
use drlee.Resource.Abstract.{
  Spec, Op, guards, takes, removes, without, spec_step, spec_run, pool_step, pool_run, nodes_of,
  resources_of, without-Cut,
}

pub record Refines (p : Pool) (s : Spec) : Type 0 where
  pub chain : IsChain p (nodes_of s.held)
  pub resources : resources_at p.nodes (nodes_of s.held) ≡ resources_of s.held
  pub cache : p.cache ≡ s.waiting
  pub size : p.size ≡ s.size
  pub fresh : p.fresh ≡ s.next

if-some :
    {X : Type 0} (b : Bool) (x t : X) → (if b then some x else none) ≡ some t → (b ≡ true) × (x ≡ t)
if-some true x t e = (refl, cc)
if-some false x t e = cc

guards-Refines :
    (g : ℕ) (p : Pool) (s t : Spec)
    → Refines p s
    → spec_step (guards g) s ≡ some t
    → (q : Pool) × ((guard g p ≡ some q) × Refines q t)
unfolding guard insert
guards-Refines g p s t r e =
    let (room, et) = if-some (ltb (length s.waiting) s.size) _ t e in
    let room' : ltb (length p.cache) p.size ≡ true = rw (r.cache, r.size) room in
    let q = record p { cache = p.cache ++ g ∷ []; resources = set_pool true g p.resources } in
    let rq : Refines q (record s { waiting = s.waiting ++ g ∷ [] }) = record {
      chain = record {
        linked = r.chain.linked;
        ends = r.chain.ends;
        distinct = r.chain.distinct;
        below = r.chain.below;
      };
      resources = r.resources;
      cache = ap (λ c. c ++ g ∷ []) r.cache;
      size = r.size;
      fresh = r.fresh;
    } in
    (q, (rw (room') refl, rw (← et) rq))

nodes_of-append :
    (es : List (ℕ × ℕ)) (n g : ℕ) → nodes_of (es ++ (n, g) ∷ []) ≡ nodes_of es ++ n ∷ []
nodes_of-append [] n g = refl
nodes_of-append (e ∷ es) n g = ap (λ l. e.0 ∷ l) (nodes_of-append es n g)

resources_of-append :
    (es : List (ℕ × ℕ)) (n g : ℕ) → resources_of (es ++ (n, g) ∷ []) ≡ resources_of es ++ g ∷ []
resources_of-append [] n g = refl
resources_of-append (e ∷ es) n g = ap (λ l. e.1 ∷ l) (resources_of-append es n g)

taken :
    (p : Pool) (g : ℕ) (rest : List ℕ) (q : Pool)
    → p.cache ≡ g ∷ rest
    → take_cached p ≡ some q
    → q ≡ link g (record p { cache = rest })
unfolding take_cached
taken p g rest q e h =
    let now : take_cached p ≡ some (link g (record p { cache = rest })) =
      rw (e, take_cached) refl in
    cc

takes-Refines :
    (p : Pool) (waiting : List ℕ) (held : List (ℕ × ℕ)) (size : ℕ) (t : Spec)
    → Refines p (record { waiting = waiting; held = held; size = size; next = p.fresh })
    → spec_step takes (record { waiting = waiting; held = held; size = size; next = p.fresh })
      ≡ some t
    → (q : Pool) × ((take_cached p ≡ some q) × Refines q t)
unfolding link
takes-Refines p [] held size t r e = cc
takes-Refines p (g ∷ rest) held size t r e =
    let et : record {
      waiting = rest;
      held = held ++ (p.fresh, g) ∷ [];
      size = size;
      next = suc p.fresh;
    }
        ≡ t =
      cc in
    let ns = nodes_of held in
    let fuel = length (ns ++ p.fresh ∷ []) in
    let (q, e1, c, ef, ec) = for_each-take_cached p ns g rest fuel r.chain r.cache (omega arith) in
    let eq : q ≡ link g (record p { cache = rest }) = taken p g rest q r.cache e1 in
    let full : resources_at q.nodes (ns ++ p.fresh ∷ []) ≡ resources_at p.nodes ns ++ g ∷ [] =
      let ec = for_each_chain q (ns ++ p.fresh ∷ []) fuel c (omega arith) in cc in
    let rq : Refines q (record {
      waiting = rest;
      held = held ++ (p.fresh, g) ∷ [];
      size = size;
      next = suc p.fresh;
    }) =
      record {
        chain = rw (nodes_of-append held p.fresh g) c;
        resources =
            rw
              (
                nodes_of-append held p.fresh g,
                full,
                r.resources,
                resources_of-append held p.fresh g,
              )
              refl;
        cache = ec;
        size = ap (λ q. q.size) eq ∙ r.size;
        fresh = ap (λ q. q.fresh) eq;
      } in
    (q, (e1, rw (← et) rq))

nodes_of-parts : (xs ys : List (ℕ × ℕ)) → nodes_of (xs ++ ys) ≡ nodes_of xs ++ nodes_of ys
nodes_of-parts [] ys = refl
nodes_of-parts (x ∷ xs) ys = ap (λ l. x.0 ∷ l) (nodes_of-parts xs ys)

resources_without :
    (nodes : ℕ → Cell) (xs : List (ℕ × ℕ)) (e : ℕ × ℕ) (ys : List (ℕ × ℕ))
    → resources_at nodes (nodes_of (xs ++ e ∷ ys)) ≡ resources_of (xs ++ e ∷ ys)
    → resources_at nodes (nodes_of (xs ++ ys)) ≡ resources_of (xs ++ ys)
resources_without nodes [] e ys h = cc
resources_without nodes (x ∷ xs) e ys h =
    let rest : resources_at nodes (nodes_of (xs ++ e ∷ ys)) ≡ resources_of (xs ++ e ∷ ys) = cc in
    let later = resources_without nodes xs e ys rest in cc

held-some :
    (o : Option (List (ℕ × ℕ))) (s t : Spec)
    → elim o [ none ↦ none | some es ↦ some (record s { held = es }) ] ≡ some t
    → (es : List (ℕ × ℕ)) × ((o ≡ some es) × (record s { held = es } ≡ t))
held-some none s t e = cc
held-some (some es) s t e = (es, (refl, cc))

removes-Refines :
    (n : ℕ) (p : Pool) (s t : Spec)
    → Refines p s
    → spec_step (removes n) s ≡ some t
    → Refines (remove n p) t
unfolding remove
removes-Refines n p s t r e =
    let (es, (eo, et)) = held-some (without n s.held) s t e in
    let (xs, g, y, ys, (h, h')) = without-Cut n s.held es eo in
    let c : IsChain p (nodes_of xs ++ n ∷ y.0 ∷ nodes_of ys) =
      subst (λ l. IsChain p l) (ap nodes_of h ∙ nodes_of-parts xs ((n, g) ∷ y ∷ ys)) r.chain in
    let left : nodes_of es ≡ nodes_of xs ++ y.0 ∷ nodes_of ys =
      ap nodes_of h' ∙ nodes_of-parts xs (y ∷ ys) in
    let all : resources_at p.nodes (nodes_of (xs ++ (n, g) ∷ y ∷ ys))
        ≡ resources_of (xs ++ (n, g) ∷ y ∷ ys) =
      subst (λ l. resources_at p.nodes (nodes_of l) ≡ resources_of l) h r.resources in
    let some_left : resources_at p.nodes (nodes_of es) ≡ resources_of es =
      rw (h') (resources_without p.nodes xs (n, g) (y ∷ ys) all) in
    let rq : Refines (remove n p) (record s { held = es }) = record {
      chain =
          subst (λ l. IsChain (remove n p) l) (sym left)
            (remove-IsChain p (nodes_of xs) n y.0 (nodes_of ys) c);
      resources = resources-remove p n (nodes_of es) ∙ some_left;
      cache = r.cache;
      size = r.size;
      fresh = r.fresh;
    } in
    rw (← et) rq

step-Refines :
    (op : Op) (p : Pool) (s t : Spec)
    → Refines p s
    → spec_step op s ≡ some t
    → (q : Pool) × ((pool_step op p ≡ some q) × Refines q t)
unfolding pool_step
step-Refines (guards g) p s t r e = guards-Refines g p s t r e
step-Refines takes p s t r e =
    let same : s ≡ record s { next = p.fresh } = ap (λ n. record s { next = n }) (sym r.fresh) in
    takes-Refines p s.waiting s.held s.size t (subst (λ s. Refines p s) same r)
      (subst (λ s. spec_step takes s ≡ some t) same e)
step-Refines (removes n) p s t r e = (remove n p, (refl, removes-Refines n p s t r e))

step-some :
    (o : Option Spec) (ops : List Op) (t : Spec)
    → elim o [ none ↦ none | some u ↦ spec_run ops u ] ≡ some t
    → (u : Spec) × ((o ≡ some u) × (spec_run ops u ≡ some t))
step-some none ops t e = cc
step-some (some u) ops t e = (u, (refl, e))

run-Refines :
    (ops : List Op) (p : Pool) (s t : Spec)
    → Refines p s
    → spec_run ops s ≡ some t
    → (q : Pool) × ((pool_run ops p ≡ some q) × Refines q t)
unfolding pool_run
run-Refines [] p s t r e = let same : s ≡ t = cc in (p, (refl, rw (← same) r))
run-Refines (op ∷ ops) p s t r e =
    let (u, (eu, et)) = step-some (spec_step op s) ops t e in
    let (q, (eq, rq)) = step-Refines op p s u r eu in
    let (q', (eq', rq')) = run-Refines ops q u t rq et in (q', (rw (pool_run, eq, eq') refl, rq'))

abbrev pub empty_spec : ℕ → Spec
empty_spec size = record { waiting = []; held = []; size = size; next = 0 }

new_pool-Refines :
    (size : ℕ) (resources : ℕ → Resource) → Refines (new_pool size resources) (empty_spec size)
unfolding new_pool
new_pool-Refines size resources = record {
  chain = record { linked = tt; ends = refl; distinct = tt; below = tt };
  resources = refl;
  cache = refl;
  size = refl;
  fresh = refl;
}

length-nodes_of : (es : List (ℕ × ℕ)) → length (nodes_of es) ≡ length es
length-nodes_of [] = refl
length-nodes_of (e ∷ es) = ap suc (length-nodes_of es)

-- The pool implements a list: after any operations that the specification allows on a new pool,
-- none of which removes the last node, ForEach visits the resources that the specification holds,
-- in its order.
pub pool_run-refines :
    (size : ℕ) (resources : ℕ → Resource) (ops : List Op) (t : Spec) (fuel : ℕ)
    → spec_run ops (empty_spec size) ≡ some t
    → length t.held ≤ fuel
    → (q : Pool) × ((pool_run ops (new_pool size resources) ≡ some q)
        × (for_each fuel q ≡ some (resources_of t.held)))
pool_run-refines size resources ops t fuel e h =
    let (q, (eq, r)) =
      run-Refines ops (new_pool size resources) (empty_spec size) t
        (new_pool-Refines size resources) e in
    let few : length (nodes_of t.held) ≤ fuel = rw (length-nodes_of t.held) h in
    (q, (eq, for_each_chain q (nodes_of t.held) fuel r.chain few ∙ ap some r.resources))
