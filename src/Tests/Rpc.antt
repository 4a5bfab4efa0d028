-- ===== src/Tests/Rpc.antt =====
-- Calls, requests and replies at concrete inputs.
use mathlib.Core.List.Perm
use drlee.Prelude.{ℕ, ◌*◌, String, ◌≡◌, refl, true, false, none, some, [], ◌∷◌}
use drlee.Prelude.Int.{pos}
use drlee.Prelude.Dict.{lookup}
use drlee.Prelude.Result.{Result, ok, raise}
use drlee.Time.{Time, milliseconds, zero_time}
use drlee.Message.{RpcRequest, Request}
use drlee.Inbox.{Inbox, idle_worker, from_queue, from_broadcast, to_request}
use drlee.Lua.{LValue}
use drlee.Rpc.{Reply, reply, reply_to, with_body, with_error}
use drlee.Rpc.Expiry.{reply_no_timeout}
use drlee.Registry.{Server, get_remote_rpc}
use drlee.Reply.{to_response}
use drlee.Prelude.{List}
use drlee.Message.{RpcResponse}
use drlee.Reply.Workers.{Queued, lost_message, reply_message}
use native.Mathlib.Nat.{le_refl}
use drlee.Call.{route, remote, not_registered, CallRequest, timeout_of}
use drlee.Call.Routing.{Choice, route_offers}

abbrev summing : RpcRequest
summing = record {
  id = "r1";
  name = "sum";
  body = "[1]";
  timestamp = pos 100;
  timeout = pos 0;
  node_name = "b";
  is_loop_back = false;
}

abbrev taken : Request
taken = to_request "r1" zero_time summing

abbrev inbox : Inbox RpcRequest
inbox = record { queue = summing ∷ []; workers = idle_worker ∷ []; consumers = (0, 0) ∷ [] }

abbrev holding_inbox : Inbox RpcRequest
holding_inbox = record inbox {
  queue = [];
  workers = record idle_worker { holding = some (some taken) } ∷ [];
}

-- numbers are ℕ here, every value is encoded as "x"
abbrev show : LValue ℕ → String
show v = "v"

abbrev encode_x : LValue ℕ → Result String
encode_x v = ok "x"

reply_no_timeout_example :
    (r : Request) × (from_queue (pos 900) summing ≡ some r)
    × (reply show encode_x (pos 901) r LValue.nil (LValue.bool true)
        ≡ ok (reply_to r (with_body "x")))
    × (reply show encode_x (pos 901) (from_broadcast "i" summing) LValue.nil (LValue.bool true)
        ≡ raise "already timedout")
reply_no_timeout_example =
    reply_no_timeout show encode_x summing "i" "x" (pos 900) (pos 901) (LValue.bool true) refl refl
      refl refl

abbrev node_a : Server String
node_a = record {
  node_name = "a";
  services = ("sum", ("b", 2) ∷ ("c", 3) ∷ []) ∷ [];
  local_services = [];
  endpoints = ("b", "x") ∷ [];
  endpoint_rpcs = ("b", "x") ∷ [];
  closed = [];
  broadcasts = [];
}

abbrev sum_reply : Reply
sum_reply = record { id = "r1"; node_name = "b"; is_loop_back = false; response = with_error "no" }

abbrev in_2020 : Time
in_2020 = pos (63713433600 * 1000000000)

abbrev to_nobody : Reply
to_nobody = record { id = "r2"; node_name = "z"; is_loop_back = false; response = with_body "x" }

abbrev to_b : RpcResponse
to_b = to_response in_2020 sum_reply

-- a reply to a node that left, and one to a node that is there
abbrev outbox : List (Queued RpcResponse String)
outbox =
    lost_message (to_response in_2020 to_nobody) node_a
    ∷ reply_message to_b node_a in_2020 sum_reply "x"
    ∷ []

abbrev asking : Request
asking = record {
  id = "";
  node_name = "";
  is_loop_back = false;
  name = "sum";
  body = "[1]";
  expires_at = pos 5000000;
}

abbrev in_order : Choice (λ g. g) (λ g. g) (λ n. n)
in_order = record {
  order_perm = λ g. Perm.refl g;
  order'_perm = λ g. Perm.refl g;
  draw_le = λ n. le_refl n;
}

route_offers_example :
    (node : String) × (w : ℕ) × (lookup node (("b", 2) ∷ ("c", 3) ∷ []) ≡ some w)
    × (route (λ g. g) (λ g. g) (λ n. n) (pos 1) "u" asking node_a
        ≡ elim (get_remote_rpc node node_a) [
          | none ↦ not_registered
          | some conn ↦ remote conn (record {
            name = "sum";
            body = "[1]";
            node_name = "a";
            timeout_milliseconds = milliseconds (timeout_of (pos 1) asking);
          })
        ])
unfolding lookup
route_offers_example =
    route_offers (λ g. g) (λ g. g) (λ n. n) in_order (pos 1) "u" asking node_a
      (("b", 2) ∷ ("c", 3) ∷ []) refl refl (λ e. cc) (refl, (refl, tt))

abbrev asked : CallRequest
asked = record { name = "sum"; body = "[1]"; node_name = "a"; timeout_milliseconds = pos 3 }

abbrev hurried : CallRequest
hurried = record asked { timeout_milliseconds = pos 0 }
