-- ===== src/Http/Headers.antt =====
-- pkg/core/http/request.go and types.go: a client's headers, as a server's handler sees them.
use drlee.Prelude.{String, Option, none, some, List, [], ◌∷◌, ◌≢◌, if◌then◌else◌, str_eq}
use drlee.Prelude.Dict.{lookup}
use drlee.Lua.{LValue}
use drlee.Http.Messages.{Header, first_or_empty}

-- the first entry whose key names the header `name`
abbrev pub first_with :
    {F : Type 0}
    → (String → String)
    → (LValue F → String)
    → String
    → List (LValue F × LValue F)
    → Option String
first_with canonical text name [] = none
first_with canonical text name ((key, value) ∷ entries) =
    if str_eq (canonical (text key)) name
    then some (text value)
    else first_with canonical text name entries

abbrev first_value : Option (List String) → Option String → Option String
first_value none other = other
first_value (some vs) other = some (first_or_empty vs)

abbrev NoEmpty : Header → Type 0
NoEmpty h = (name : String) → lookup name h ≢ some []
