-- ===== src/Resource/Links.antt =====
-- pkg/core/resource.go: segments of the linked list on the heap of nodes, and what writes to the
-- heap do to them.
use drlee.Prelude.{
  ℕ, ◌≡◌, refl, Bool, true, false, Option, none, some, List, [], ◌∷◌, ◌++◌, arith, ◌==◌,
  if◌then◌else◌,
}
use drlee.Resource.{Cell, update, set_next, set_prev}

-- the first node of a segment, or what follows it; the last one, or what precedes it
abbrev pub first : List ℕ → Option ℕ → Option ℕ
first [] after = after
first (n ∷ _) after = some n

abbrev pub last : Option ℕ → List ℕ → Option ℕ
last before [] = before
last before (n ∷ ns) = last (some n) ns

-- the nodes between `before` and `after`, linked both ways
abbrev pub Segment : (ℕ → Cell) → Option ℕ → List ℕ → Option ℕ → Type 0
Segment nodes before [] after = Unit
Segment nodes before (n ∷ ns) after =
    ((nodes n).prev ≡ before) × ((nodes n).next ≡ first ns after) × Segment nodes (some n) ns after

abbrev pub is_in : ℕ → List ℕ → Bool
is_in m [] = false
is_in m (n ∷ ns) = if m == n then true else is_in m ns

abbrev pub AreDistinct : List ℕ → Type 0
AreDistinct [] = Unit
AreDistinct (n ∷ ns) = (is_in n ns ≡ false) × AreDistinct ns

-- A write to a node outside leaves a segment as it is.
pub update-Segment :
    (m : ℕ) (c : Cell) (nodes : ℕ → Cell) (before after : Option ℕ) (ns : List ℕ)
    → is_in m ns ≡ false
    → Segment nodes before ns after
    → Segment (update m c nodes) before ns after
update-Segment m c nodes before after [] h s = tt
update-Segment m c nodes before after (n ∷ ns) h (p, q, s) =
    (ground arith, ground arith, update-Segment m c nodes (some n) after ns (ground arith) s)

pub Segment-append :
    (nodes : ℕ → Cell) (before after : Option ℕ) (ms ns : List ℕ)
    → Segment nodes before (ms ++ ns) after
    → Segment nodes before ms (first ns after) × Segment nodes (last before ms) ns after
Segment-append nodes before after [] ns s = (tt, s)
Segment-append nodes before after (m ∷ []) ns (p, q, s) = ((p, q, tt), s)
Segment-append nodes before after (m ∷ k ∷ ms) ns (p, q, s) =
    let (a, b) = Segment-append nodes (some m) after (k ∷ ms) ns s in ((p, q, a), b)

pub append-Segment :
    (nodes : ℕ → Cell) (before after : Option ℕ) (ms ns : List ℕ)
    → Segment nodes before ms (first ns after)
    → Segment nodes (last before ms) ns after
    → Segment nodes before (ms ++ ns) after
append-Segment nodes before after [] ns a b = b
append-Segment nodes before after (m ∷ []) ns (p, q, a) b = (p, q, b)
append-Segment nodes before after (m ∷ k ∷ ms) ns (p, q, a) b =
    (p, q, append-Segment nodes (some m) after (k ∷ ms) ns a b)

-- The last node of a segment is in it, so that a write there leaves a node outside alone.
pub set_next-last :
    (nodes : ℕ → Cell) (other : Option ℕ) (m n : ℕ) (ns : List ℕ)
    → is_in m (n ∷ ns) ≡ false
    → set_next (last (some n) ns) other nodes m ≡ nodes m
set_next-last nodes other m n [] h = ground arith
set_next-last nodes other m n (k ∷ ns) h = set_next-last nodes other m k ns (ground arith)

pub set_next-resource :
    (nodes : ℕ → Cell) (m other : Option ℕ) (n : ℕ)
    → (set_next m other nodes n).resource ≡ (nodes n).resource
set_next-resource nodes none other n = refl
set_next-resource nodes (some m) other n = ground arith

pub set_prev-resource :
    (nodes : ℕ → Cell) (m other : Option ℕ) (n : ℕ)
    → (set_prev m other nodes n).resource ≡ (nodes n).resource
set_prev-resource nodes none other n = refl
set_prev-resource nodes (some m) other n = ground arith

-- What follows a segment changes with a write to its last node, what precedes it with its first.
pub set_next-Segment :
    (nodes : ℕ → Cell) (before after other : Option ℕ) (n : ℕ) (ns : List ℕ)
    → AreDistinct (n ∷ ns)
    → Segment nodes before (n ∷ ns) after
    → Segment (set_next (last (some n) ns) other nodes) before (n ∷ ns) other
set_next-Segment nodes before after other n [] d (p, q, s) = (ground arith, ground arith, tt)
set_next-Segment nodes before after other n (k ∷ ns) (h, d) (p, q, s) =
    let s' = set_next-Segment nodes (some n) after other k ns d s in
    (rw (set_next-last nodes other n k ns h) p, rw (set_next-last nodes other n k ns h) q, s')

pub set_prev-Segment :
    (nodes : ℕ → Cell) (before after other : Option ℕ) (n : ℕ) (ns : List ℕ)
    → AreDistinct (n ∷ ns)
    → Segment nodes before (n ∷ ns) after
    → Segment (set_prev (some n) other nodes) other (n ∷ ns) after
set_prev-Segment nodes before after other n ns (h, d) (p, q, s) =
    (ground arith, ground arith, update-Segment n _ nodes (some n) after ns h s)
