-- ===== src/Tests/Http.antt =====
-- Headers and responses of HTTP at concrete inputs.
use drlee.Prelude.{ℕ, List, String, ◌≡◌, if◌then◌else◌, str_eq, refl, none, some, [], ◌∷◌}
use drlee.Prelude.Dict.{lookup, insert}
use drlee.Prelude.Result.{ok, panic}
use drlee.Lua.{LValue, string, function, nil}
use drlee.Http.Messages.{
  Request, ResponseWriter, set_status, response_set, response_get, l_request, requested,
}

abbrev show : LValue ℕ → String
show (string s) = s
show _ = "other"

-- the one header of these tests, by two spellings
abbrev canonical : String → String
canonical s = if str_eq s "accept" then "Accept" else s

abbrev entries : List (LValue ℕ × LValue ℕ)
entries = (string "accept", string "text/html") ∷ (string "Accept", string "text/plain") ∷ []

abbrev arrived : Request
arrived = record {
  header = ("Accept", "text/html" ∷ "text/plain" ∷ []) ∷ [];
  request_uri = "/";
  url = "/";
  method = "GET";
}

abbrev fresh : ResponseWriter
fresh = record { header = []; written = none }

-- the status that is written first is the one that counts
status_once :
    set_status 404 (record fresh { written = some (200, []) })
    ≡ ok (record fresh { written = some (200, []) })
unfolding set_status
status_once = refl

status_of_two_digits : set_status 99 fresh ≡ panic
unfolding set_status
status_of_two_digits = refl

set_and_got : response_get canonical "accept" (response_set canonical "Accept" "x" fresh) ≡ "x"
unfolding response_get response_set lookup insert
set_and_got = refl

-- request("GET", "/", { headers = { accept = "text/html" } }, callback)
asked :
    l_request canonical show
      (λ t k. nil)
      (λ t. entries)
      (λ m u. none)
      (λ i a b. "bad")
      (string "GET" ∷ string "/" ∷ function 1 ∷ [])
    ≡ ok (requested (function 1) (record { method = "GET"; url = "/"; body = none; header = [] }))
unfolding l_request
asked = refl
