-- ===== src/Tests/Journeys.antt =====
-- Whole calls at concrete inputs, one of a method of the caller's node and one of another node's.
use drlee.Prelude.{
  ℕ, ◌*◌, String, ◌≡◌, refl, Bool, true, false, none, some, [], ◌∷◌, get_elem?, arith,
}
use drlee.Prelude.Int.{pos}
use drlee.Prelude.Dict.{Dict, lookup}
use drlee.Prelude.Result.{Result, ok}
use drlee.Time.{Time, zero_time, milliseconds}
use drlee.Message.{RpcRequest, RpcResponse, Request}
use drlee.Registry.{Server, get_remote_rpc}
use drlee.Lua.{LValue}
use drlee.Inbox.{Inbox, idle_worker, put, read_case, send, move}
use drlee.Rpc.{Reply, reply, handle, called}
use drlee.Reply.{ReplyRequest, inserted, queued, post, do_reply, rpc_reply}
use drlee.ReplyBox.{
  ReplyBox, new_reply_box, goes, run, registers, inserts, takes, watch_case, insert_case, receive,
}
use drlee.Call.{CallRequest, total_weight, pick, local, route, finish, timeout_of, rpc_call}
use drlee.Call.Journey.{local_call_answered}
use drlee.Call.Crossing.{answer_to, remote_call_answered}

-- numbers are ℕ here, every value is encoded as "x"
abbrev show : LValue ℕ → String
show v = "v"

abbrev encode_x : LValue ℕ → Result String
encode_x v = ok "x"

abbrev decodes_all : String → Bool
decodes_all s = true

abbrev handlers : Dict ℕ
handlers = ("sum", 7) ∷ []

abbrev asking : Request
asking = record {
  id = "";
  node_name = "";
  is_loop_back = false;
  name = "sum";
  body = "[1]";
  expires_at = zero_time;
}

abbrev in_2020 : Time
in_2020 = pos (63713433600 * 1000000000)

abbrev inbox : Inbox RpcRequest
inbox = record { queue = []; workers = idle_worker ∷ []; consumers = (0, 0) ∷ [] }

-- a node that serves "sum" itself, and one that knows of it at that node
abbrev server : Server String
server = record {
  node_name = "b";
  services = [];
  local_services = ("sum", 1) ∷ [];
  endpoints = ("a", "to a") ∷ [];
  endpoint_rpcs = ("a", "to a") ∷ [];
  closed = [];
  broadcasts = [];
}

abbrev caller : Server String
caller = record {
  node_name = "a";
  services = ("sum", ("b", 1) ∷ []) ∷ [];
  local_services = [];
  endpoints = ("b", "to b") ∷ [];
  endpoint_rpcs = ("b", "to b") ∷ [];
  closed = [];
  broadcasts = [];
}

local_call_answered_example :
    (call : RpcRequest) × (full : Inbox RpcRequest) × (held : Inbox RpcRequest) × (sent : Inbox
      RpcRequest)
    × (r : Request) × (rep : Reply) × (res : RpcResponse) × (b' : ReplyBox) × (route
          (λ g. g)
          (λ g. g)
          (λ n. n)
          (pos 1)
          "u"
          asking
          server
        ≡ local call)
    × (put some call inbox ≡ ok full)
    × (move some (pos 5) 0 read_case full ≡ some held)
    × (move some (pos 5) 0 send held ≡ some sent)
    × (get_elem? sent.workers 0 ≡ some (record idle_worker { ch = some r ∷ [] }))
    × (handle decodes_all handlers (some r) ≡ called 7)
    × (reply show encode_x (pos 9) r LValue.nil (LValue.bool true) ≡ ok rep)
    × (post {Bytes = RpcResponse} some (pos 9) rep ≡ ok (inserted res))
    × (run (registers "u" ∷ inserts res ∷ takes watch_case ∷ takes insert_case ∷ []) new_reply_box
        ≡ goes b')
    × (finish (receive new_reply_box.next b') ≡ some (ok "x"))
    × (lookup "u" b'.replies ≡ none)
unfolding lookup new_reply_box
local_call_answered_example =
    local_call_answered show encode_x decodes_all some some some (λ g. g) (λ g. g) (λ n. n) (pos 1)
      (pos 5) (pos 9) "u" "x" asking server inbox 0 _ handlers 7 (LValue.bool true) new_reply_box
      refl refl refl refl refl refl refl refl refl refl refl refl

abbrev asked : CallRequest
asked = record { name = "sum"; body = "[1]"; node_name = "a"; timeout_milliseconds = pos 0 }

remote_call_answered_example :
    (full : Inbox RpcRequest) × (held : Inbox RpcRequest) × (sent : Inbox RpcRequest)
    × (r : Request) × (rep : Reply) × (wire : ReplyRequest) × (b' : ReplyBox) × (put some
          (rpc_call (pos 3) "u" asked)
          inbox
        ≡ ok full)
    × (move some (pos 5) 0 read_case full ≡ some held)
    × (move some (pos 5) 0 send held ≡ some sent)
    × (get_elem? sent.workers 0 ≡ some (record idle_worker { ch = some r ∷ [] }))
    × (handle decodes_all handlers (some r) ≡ called 7)
    × (reply show encode_x in_2020 r LValue.nil (LValue.bool true) ≡ ok rep)
    × (post some in_2020 rep ≡ ok (queued (answer_to asked in_2020 "u" "x")))
    × (do_reply some (answer_to asked in_2020 "u" "x") server ≡ ok (some ("to a", wire)))
    × (run
          (registers "u" ∷ inserts (rpc_reply wire) ∷ takes watch_case ∷ takes insert_case ∷ [])
          new_reply_box
        ≡ goes b')
    × (finish (receive new_reply_box.next b') ≡ some (ok "x"))
    × (lookup "u" b'.replies ≡ none)
unfolding lookup new_reply_box route timeout_of pick total_weight get_remote_rpc milliseconds
remote_call_answered_example =
    remote_call_answered show encode_x decodes_all some some some some (λ g. g) (λ g. g) (λ n. n)
      (pos 1) (pos 3) (pos 5) in_2020 "v" "u" "x" asking caller server "to b" "to a" asked inbox 0 _
      _ handlers 7 (LValue.bool true) new_reply_box refl refl refl refl refl refl refl refl refl
      refl refl refl (omega arith) refl refl refl
