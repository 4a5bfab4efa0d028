-- ===== src/Tests/Core.antt =====
-- The parts of pkg/core at concrete inputs.
use drlee.Prelude.{ℕ, ◌≡◌, refl, false, some, [], ◌∷◌, arith, ◌||◌}
use drlee.Resource.{Pool, new_pool, new_resource, link, remove, for_each, walk, close}
use drlee.Resource.Chain.{IsChain, resources_at, link-IsChain}
use drlee.Resource.Removal.{for_each-remove_tail}
use drlee.Resource.Closing.{IsOnce, close_releases_listed}
use drlee.Resource.Links.{is_in}

abbrev empty_pool : Pool
empty_pool = new_pool 64 (λ g. new_resource "conn" false)

empty_pool-IsChain : IsChain empty_pool []
unfolding new_pool
empty_pool-IsChain = record { linked = tt; ends = refl; distinct = tt; below = tt }

abbrev three : Pool
three = link 7 (link 6 (link 5 empty_pool))

three-IsChain : IsChain three (0 ∷ 1 ∷ 2 ∷ [])
unfolding link new_pool
three-IsChain =
    link-IsChain 7 (link 6 (link 5 empty_pool)) (0 ∷ 1 ∷ []) (
      link-IsChain 6 (link 5 empty_pool) (0 ∷ []) (link-IsChain 5 empty_pool [] empty_pool-IsChain))

three_visited : for_each 3 three ≡ some (5 ∷ 6 ∷ 7 ∷ [])
unfolding walk link new_pool
three_visited = refl

for_each-remove_tail_example : for_each 9 (remove 2 three) ≡ some []
for_each-remove_tail_example = for_each-remove_tail three (0 ∷ 1 ∷ []) 2 9 three-IsChain

abbrev waiting : Pool
waiting = record three { cache = 8 ∷ 9 ∷ [] }

waiting-IsChain : IsChain waiting (0 ∷ 1 ∷ 2 ∷ [])
waiting-IsChain = record {
  linked = three-IsChain.linked;
  ends = three-IsChain.ends;
  distinct = three-IsChain.distinct;
  below = three-IsChain.below;
}

three-IsOnce : IsOnce three
unfolding link new_pool new_resource
three-IsOnce g = ground arith

close_releases_listed_example :
    (p' : Pool) × (close 3 three ≡ some p')
    × IsOnce p'
    × ((g : ℕ)
        → (p'.resources g).released
          ≡ ((three.resources g).released || is_in g (resources_at three.nodes (0 ∷ 1 ∷ 2 ∷ []))))
close_releases_listed_example =
    close_releases_listed three (0 ∷ 1 ∷ 2 ∷ []) 3 three-IsChain (omega arith) three-IsOnce
