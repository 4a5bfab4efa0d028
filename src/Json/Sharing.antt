-- ===== src/Json/Sharing.antt =====
-- pkg/core/json/json.go: a table that occurs twice.
use drlee.Prelude.{ℕ, ◌≡◌, true, false, List}
use drlee.Lua.{LValue}
use drlee.Json.{Json, is_in, Outcome, gives}

-- If it succeeds, then with a mark on the table `u`.
abbrev Marks : {A : Type 0} → ℕ → Outcome A → Type 0
Marks u (gives a visited) = is_in u visited ≡ true
Marks u _ = Unit

module _ {F : Type 0} (u : ℕ) where
  abbrev Respects : (List ℕ → LValue F → Outcome (Json F)) → Type 0
  Respects enc =
      (visited : List ℕ) (v : LValue F) → is_in u visited ≡ true → Marks u (enc visited v)

-- The outcome is not a result.
abbrev pub HasFailed : {A : Type 0} → Outcome A → Type 0
HasFailed (gives a visited) = true ≡ false
HasFailed _ = Unit
