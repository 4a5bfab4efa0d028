-- ===== src/Prelude/Dict.antt =====
-- Go's `map` with string keys, as an association list. The order of the entries is one order in
-- which a `range` loop may meet them.
use Prim.Native.String.{String}
use mathlib.Core.Path.{◌≡◌, refl}
use mathlib.Core.List.{List, [], ◌∷◌}
use mathlib.Core.Option.{Option, none, some}
use native.Mathlib.Omega.{arith}
use text.Mathlib.Text.{◌==◌ as str_eq}
use text.Mathlib.TextEquality.{eq_iff}
use drlee.Prelude.Tests.{if◌then◌else◌}

abbrev pub Dict {ℓ} : Type ℓ → Type ℓ
Dict V = List (String × V)

module _ {ℓ} {V : Type ℓ} where
  -- v, ok := m[k]
  unfoldable pub lookup : String → Dict V → Option V
  lookup k [] = none
  lookup k ((j, v) ∷ m) = if str_eq j k then some v else lookup k m

  -- m[k] = v
  unfoldable pub insert : String → V → Dict V → Dict V
  insert k v [] = (k, v) ∷ []
  insert k v ((j, w) ∷ m) = if str_eq j k then (k, v) ∷ m else (j, w) ∷ insert k v m

  -- delete(m, k)
  unfoldable pub delete : String → Dict V → Dict V
  delete k [] = []
  delete k ((j, w) ∷ m) = let rest = delete k m in if str_eq j k then rest else (j, w) ∷ rest

  -- A look-up after a write and after a removal, of the same key or of another.
  pub lookup-insert :
      (key asked : String) (value : V) (entries : Dict V)
      → lookup asked (insert key value entries)
        ≡ (if str_eq key asked then some value else lookup asked entries)
  unfolding lookup insert
  lookup-insert key asked value [] = refl
  lookup-insert key asked value ((first, old) ∷ more) =
      let later = lookup-insert key asked value more in
      ground (later, arith, eq_iff first asked, eq_iff first key, eq_iff key asked)

  pub lookup-delete :
      (key asked : String) (entries : Dict V)
      → lookup asked (delete key entries)
        ≡ (if str_eq key asked then none else lookup asked entries)
  unfolding lookup delete
  lookup-delete key asked [] = ground arith
  lookup-delete key asked ((first, old) ∷ more) =
      let later = lookup-delete key asked more in
      ground (later, arith, eq_iff first asked, eq_iff first key, eq_iff key asked)

pub ruleset dict_laws = (lookup-insert, lookup-delete)

-- No key twice: what Go's maps give. `insert` and `delete` keep it.
module _ {ℓ} {V : Type ℓ} where
  abbrev pub HasDistinctKeys : Dict V → Type ℓ
  HasDistinctKeys [] = Unit
  HasDistinctKeys ((k, _) ∷ m) = (lookup k m ≡ none) × HasDistinctKeys m

  pub insert-HasDistinctKeys :
      (k : String) (v : V) (m : Dict V) → HasDistinctKeys m → HasDistinctKeys (insert k v m)
  unfolding insert lookup
  insert-HasDistinctKeys k v [] h = (refl, tt)
  insert-HasDistinctKeys k v ((j, w) ∷ m) h =
      ground
        (arith, eq_iff j k, eq_iff k j, lookup-insert k j v m, insert-HasDistinctKeys k v m h.1)
