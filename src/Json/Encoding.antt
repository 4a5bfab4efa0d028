-- ===== src/Json/Encoding.antt =====
-- pkg/core/json/json.go: the encoder ends on every heap, cyclic ones included.
use drlee.Prelude.{ℕ, String, List, All}
use drlee.Lua.{LValue}
use drlee.Json.{Json, Given}
use drlee.Json.Marks.{IsBelow}

module _ {F : Type 0} (n : ℕ) (g : Given F) where
  -- Going through a map by its keys only rearranges it.
  abbrev pub Rearranges : Type 0
  Rearranges =
      (vs : List (String × LValue F))
      → All (λ (key, v). IsBelow n v) vs
      → All (λ (key, v). IsBelow n v) (g.by_key vs)
