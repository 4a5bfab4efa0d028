-- ===== src/Tests/Broadcast.antt =====
-- A broadcast at a concrete cluster: node "b" answers with the ids x and y, node "c" is gone.
use drlee.Prelude.{ℕ, String, ◌≡◌, refl, false, none, [], ◌∷◌, str_eq, if◌then◌else◌}
use drlee.Prelude.Int.{pos}
use drlee.Prelude.Dict.{Dict}
use drlee.Message.{RpcResponse, Response}
use drlee.Registry.{Server}
use drlee.Call.{CallRequest}
use drlee.ReplyBox.{Received, value}
use drlee.Broadcast.{
  Answer, id_list, error_response, Arguments, with_error, with_value, broadcast_arguments,
}

abbrev cluster : Server String
cluster = record {
  node_name = "a";
  services = ("sum", ("b", 1) ∷ ("c", 1) ∷ []) ∷ [];
  local_services = [];
  endpoints = ("b", "conn") ∷ [];
  endpoint_rpcs = ("b", "conn") ∷ [];
  closed = [];
  broadcasts = [];
}

abbrev call : CallRequest
call = record { name = "sum"; body = "[1]"; node_name = "a"; timeout_milliseconds = pos 0 }

abbrev ids_of : String → CallRequest → Answer
ids_of conn req = id_list ("x" ∷ "y" ∷ [])

abbrev drawn : ℕ → String
drawn n = "u"

abbrev answer : String → RpcResponse
answer id =
    if str_eq id "u"
    then error_response "u" "gone" (pos 5)
    else record { id = id; result = "3"; timestamp = pos 6; node_name = ""; is_error = false }

abbrev watch : String → Received
watch id = value (answer id)

abbrev group : Dict ℕ
group = ("b", 1) ∷ ("c", 1) ∷ []

-- The empty body cannot be read.
abbrev decode : String → Arguments ℕ
decode body = if str_eq body "" then with_error "unexpected end of JSON input" else with_value 3

abbrev good_one : Response
good_one = record { body = "3"; error = none }

abbrev bad_one : Response
bad_one = record { body = ""; error = none }

empty_body_ends :
    broadcast_arguments decode (good_one ∷ bad_one ∷ []) ≡ with_error "unexpected end of JSON input"
unfolding broadcast_arguments
empty_body_ends = refl
