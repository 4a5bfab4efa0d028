-- ===== src/Resource.antt =====
-- pkg/core/resource.go: what a script has opened and the pool that releases it when the script
-- ends. The pool is a doubly linked list on a heap; resources are addresses too. The loop that
-- inserts, `Remove` and `ForEach` exclude each other by `exclusive`, so each is one step here. The
-- functions `release` and `afterRelease` are the caller's: `effects` says which were called.
pub mod Links
pub mod Chain
pub mod Removal
pub mod Insertion
pub mod Closing
pub mod Abstract
pub mod Refinement
use drlee.Prelude.{
  ℕ, zero, suc, ◌+◌, String, Bool, true, false, Option, none, some, List, [], ◌∷◌, ◌++◌, length,
  ltb, ◌==◌, if◌then◌else◌,
}

-- resourceNode
pub record Cell : Type 0 where
  pub next : Option ℕ
  pub prev : Option ℕ
  pub resource : ℕ

-- resource
pub record Resource : Type 0 where
  pub name : String
  pub released : Bool
  pub node : Option ℕ
  pub has_pool : Bool
  pub has_after_release : Bool

pub data Effect : Type 0 where
  release_called after_release_called : ℕ → Effect

-- ResourcePool, with all resources
pub record Pool : Type 0 where
  pub cache : List ℕ
  pub size : ℕ
  pub tail : Option ℕ
  pub nodes : ℕ → Cell
  pub fresh : ℕ  -- the next node's address
  pub resources : ℕ → Resource
  pub effects : List Effect

abbrev pub update {ℓ} : {A : Type ℓ} → ℕ → A → (ℕ → A) → ℕ → A
update n a f m = if n == m then a else f m

-- p.next = next and p.prev = prev, where p is not nil
abbrev pub set_next : Option ℕ → Option ℕ → (ℕ → Cell) → ℕ → Cell
set_next none next nodes = nodes
set_next (some p) next nodes = update p (record (nodes p) { next = next }) nodes

abbrev pub set_prev : Option ℕ → Option ℕ → (ℕ → Cell) → ℕ → Cell
set_prev none prev nodes = nodes
set_prev (some p) prev nodes = update p (record (nodes p) { prev = prev }) nodes

abbrev pub set_node : Option ℕ → ℕ → (ℕ → Resource) → ℕ → Resource
set_node node g resources = update g (record (resources g) { node = node }) resources

abbrev pub set_pool : Bool → ℕ → (ℕ → Resource) → ℕ → Resource
set_pool has_pool g resources = update g (record (resources g) { has_pool = has_pool }) resources

-- NewResource
unfoldable pub new_resource : String → Bool → Resource
new_resource name has_after_release = record {
  name = name;
  released = false;
  node = none;
  has_pool = false;
  has_after_release = has_after_release;
}

-- NewResourcePool
unfoldable pub new_pool : ℕ → (ℕ → Resource) → Pool
new_pool size resources = record {
  cache = [];
  size = size;
  tail = none;
  nodes = λ _. record { next = none; prev = none; resource = 0 };
  fresh = 0;
  resources = resources;
  effects = [];
}

-- ResourcePool.Insert; `none` while the buffer is full
unfoldable pub insert : ℕ → Pool → Option Pool
insert g p =
    if ltb (length p.cache) p.size then some (record p { cache = p.cache ++ g ∷ [] }) else none

-- the node that the loop of NewResourcePool links behind the tail
unfoldable pub link : ℕ → Pool → Pool
link g p =
    let node : Cell = record { next = none; prev = p.tail; resource = g } in
    record p {
      nodes = set_next p.tail (some p.fresh) (update p.fresh node p.nodes);
      fresh = suc p.fresh;
      tail = some p.fresh;
      resources = set_pool true g (set_node (some p.fresh) g p.resources);
    }

-- one turn of the loop
unfoldable pub take_cached : Pool → Option Pool
unfolding link
take_cached p = elim p.cache [ [] ↦ none | g ∷ rest ↦ some (link g (record p { cache = rest })) ]

-- if node == p.tail { p.tail = nil }
abbrev pub tail_without : ℕ → Option ℕ → Option ℕ
tail_without n none = none
tail_without n (some t) = if n == t then none else some t

-- ResourcePool.Remove
unfoldable pub remove : ℕ → Pool → Pool
remove n p =
    let c = p.nodes n in
    record p {
      resources = set_node none c.resource p.resources;
      nodes = set_prev c.next c.prev (set_next c.prev c.next p.nodes);
      tail = tail_without n p.tail;
    }

-- Cancel
unfoldable pub cancel : ℕ → Pool → Pool
unfolding remove
cancel g p = elim (p.resources g).node [
  | none ↦ p
  | some n ↦ if (p.resources g).has_pool then remove n p else p
]

-- The two loops of ForEach: back to the head, and on from it. `none`: out of fuel.
unfoldable pub rewind : ℕ → (ℕ → Cell) → ℕ → Option ℕ
rewind zero nodes cur = none
rewind (suc fuel) nodes cur = elim (nodes cur).prev [
  | none ↦ some cur
  | some p ↦ rewind fuel nodes p
]

unfoldable pub forward : ℕ → (ℕ → Cell) → Option ℕ → Option (List ℕ)
forward fuel nodes none = some []
forward zero nodes (some cur) = none
forward (suc fuel) nodes (some cur) = elim (forward fuel nodes (nodes cur).next) [
  | none ↦ none
  | some gs ↦ some ((nodes cur).resource ∷ gs)
]

-- the resources that ForEach visits, in its order
unfoldable pub walk : ℕ → (ℕ → Cell) → Option ℕ → Option (List ℕ)
unfolding rewind forward
walk fuel nodes none = some []
walk fuel nodes (some t) = elim (rewind fuel nodes t) [
  | none ↦ none
  | some h ↦ forward fuel nodes (some h)
]

abbrev pub for_each : ℕ → Pool → Option (List ℕ)
for_each fuel p = walk fuel p.nodes p.tail

abbrev pub effects_of : ℕ → Bool → List Effect
effects_of g has_after_release =
    if has_after_release
    then release_called g ∷ after_release_called g ∷ []
    else release_called g ∷ []

-- Release
unfoldable pub release : ℕ → Pool → Pool
release g p = if (p.resources g).released then p else record p {
  resources = update g (record (p.resources g) { released = true }) p.resources;
  effects = p.effects ++ effects_of g (p.resources g).has_after_release;
}

-- what ExecutionContext.Close does with each
unfoldable pub close_one : ℕ → Pool → Pool
unfolding release
close_one g p =
    let p' = release g p in
    record p' { resources = set_node none g (set_pool false g p'.resources) }

unfoldable pub close_each : List ℕ → Pool → Pool
close_each [] p = p
close_each (g ∷ gs) p = close_each gs (close_one g p)

-- ExecutionContext.Close, as far as the resources go
unfoldable pub close : ℕ → Pool → Option Pool
unfolding walk close_each
close fuel p = elim (for_each fuel p) [ none ↦ none | some gs ↦ some (close_each gs p) ]

-- ExecutionContext.Guard
unfoldable pub guard : ℕ → Pool → Option Pool
unfolding insert
guard g p = insert g (record p { resources = set_pool true g p.resources })
