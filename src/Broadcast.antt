-- ===== src/Broadcast.antt =====
-- pkg/server/lua_rpc.go luaRPCBroadcast and rpc_server.go RPCBroadcast, and what lCall and
-- lBroadcast of pkg/core/rpc/rpc.go hand to a script's callback. `uuid` gives the ids in the order
-- in which they are drawn, `rpc` is the remote call, `text` the message for a node that is gone.
pub mod Results
pub mod Callback
use drlee.Prelude.{
  ℕ, suc, ◌+◌, String, Bool, true, false, Option, none, some, List, [], ◌∷◌, ◌++◌, length,
  if◌then◌else◌, is_some,
}
use drlee.Prelude.Int.{ℤ}
use drlee.Prelude.Dict.{Dict, lookup}
use drlee.Prelude.Result.{Result, ok, raise, panic, fatal}
use drlee.Time.{Time, milliseconds, of_milliseconds}
use drlee.Message.{RpcRequest, RpcResponse, Request, Response}
use drlee.Registry.{Server, get_remote_rpc}
use drlee.Call.{CallRequest, timeout_of}
use drlee.ReplyBox.{Received, value, nil, empty}
use drlee.Inbox.{Inbox, broadcast}

-- What a remote RPCBroadcast gives: the ids of the answers to come, or an error.
pub data Answer : Type 0 where
  id_list : List String → Answer
  failed : String → Answer

-- the response that is put into the reply box in place of a node's answer
abbrev pub error_response : String → String → Time → RpcResponse
error_response id message now = record {
  id = id;
  result = message;
  timestamp = now;
  node_name = "";
  is_error = true;
}

-- what a loop over nodes has gathered: the ids to wait for, and what was inserted
pub record Sent : Type 0 where
  pub ids : List String
  pub inserted : List RpcResponse

module _ {Conn : Type 0} (uuid : ℕ → String) (now : Time) (text : String)
    (rpc : Conn → CallRequest → Answer) (req : CallRequest) (s : Server Conn) where
  -- what a node says, if there is a connection to it
  abbrev pub asked : String → Option Answer
  asked node = elim (get_remote_rpc node s) [ none ↦ none | some conn ↦ some (rpc conn req) ]

  -- what one node adds, when the next id is number `n`
  unfoldable pub of_answer : ℕ → Option Answer → Sent
  of_answer n none = record { ids = uuid n ∷ []; inserted = error_response (uuid n) text now ∷ [] }
  of_answer n (some (failed m)) = record {
    ids = uuid n ∷ [];
    inserted = error_response (uuid n) m now ∷ [];
  }
  of_answer n (some (id_list ids)) = record { ids = ids; inserted = [] }

  -- the loop over the group, in the order in which `range` meets the nodes
  unfoldable pub over_nodes : ℕ → Dict ℕ → Sent
  unfolding of_answer
  over_nodes n [] = record { ids = []; inserted = [] }
  over_nodes n ((node, _) ∷ group) =
      let here = of_answer n (asked node) in
      let rest = over_nodes (n + length here.inserted) group in
      record { ids = here.ids ++ rest.ids; inserted = here.inserted ++ rest.inserted }

module _ {Bytes Conn : Type 0} where
  -- the broadcast to the workers of this node
  unfoldable pub local_ids :
      (ℕ → String)
      → ℕ
      → Time
      → String
      → Request
      → Server Conn
      → Inbox Bytes
      → List String × Inbox Bytes
  unfolding timeout_of broadcast
  local_ids uuid n now id req s inbox =
      if is_some (lookup req.name s.local_services)
      then broadcast uuid n
          (record {
            id = id;
            name = req.name;
            body = req.body;
            timestamp = now;
            timeout = timeout_of now req;
            node_name = "";
            is_loop_back = true;
          })
          inbox
      else ([], inbox)

  -- luaRPCBroadcast up to its last loop: the answers to wait for, what was inserted, and the inbox.
  -- `order` arranges the group for the loop over it.
  unfoldable pub send_all :
      (ℕ → String)
      → ℕ
      → Time
      → String
      → String
      → (Conn → CallRequest → Answer)
      → (Dict ℕ → Dict ℕ)
      → Request
      → Server Conn
      → Inbox Bytes
      → Sent × Inbox Bytes
  unfolding local_ids over_nodes
  send_all uuid n now id text rpc order req s inbox =
      let (ids, inbox') = local_ids uuid n now id req s inbox in
      let call : CallRequest = record {
        name = req.name;
        body = req.body;
        node_name = s.node_name;
        timeout_milliseconds = milliseconds (timeout_of now req);
      } in
      elim (lookup req.name s.services) [
        | none ↦ (record { ids = ids; inserted = [] }, inbox')
        | some group ↦
            let sent = over_nodes uuid now text rpc call s (n + length ids) (order group) in
            (record { ids = ids ++ sent.ids; inserted = sent.inserted }, inbox')
      ]

module _ {Bytes : Type 0} where
  -- RPCBroadcast: its request has no id
  unfoldable pub rpc_broadcast :
      (ℕ → String) → ℕ → Time → CallRequest → Inbox Bytes → List String × Inbox Bytes
  unfolding broadcast
  rpc_broadcast uuid n now req inbox =
      broadcast uuid n
        (record {
          id = "";
          name = req.name;
          body = req.body;
          timestamp = now;
          timeout = of_milliseconds req.timeout_milliseconds;
          node_name = req.node_name;
          is_loop_back = false;
        })
        inbox

-- one entry of the result
abbrev pub response_of : RpcResponse → Response
response_of res =
    if res.is_error
    then record { body = ""; error = some res.result }
    else record { body = res.result; error = none }

-- The last loop, at what each watched channel gives: `none` while it waits, and a nil response is
-- dereferenced.
unfoldable pub collect : (String → Received) → List String → Option (Result (List Response))
collect watch [] = some (ok [])
collect watch (id ∷ ids) =
    let rest = collect watch ids in
    elim (watch id) [
      | empty ↦ none
      | nil ↦ some panic
      | value res ↦ elim rest [
        | some (ok list) ↦ some (ok (response_of res ∷ list))
        | other ↦ other
      ]
    ]

-- The arguments of a script's callback: an error, or nil and a value.
pub data Arguments (A : Type 0) : Type 0 where
  with_error : String → Arguments A
  with_value : A → Arguments A

-- an entry of the table that rpc.broadcast gives
pub data Entry (V : Type 0) : Type 0 where
  error_entry : String → Entry V
  body_entry : V → Entry V

abbrev pub and_entry :
    {V : Type 0} → Entry V → Arguments (List (Entry V)) → Arguments (List (Entry V))
and_entry e (with_error m) = with_error m
and_entry e (with_value es) = with_value (e ∷ es)

-- `decode` is json.Decode: an error or a value.
module _ {V : Type 0} (decode : String → Arguments V) where
  -- the callback of lCall
  unfoldable pub call_arguments : Response → Arguments V
  call_arguments res = elim res.error [ some message ↦ with_error message | none ↦ decode res.body ]

  -- the callback of lBroadcast, which the first body that cannot be read ends
  unfoldable pub broadcast_arguments : List Response → Arguments (List (Entry V))
  broadcast_arguments [] = with_value []
  broadcast_arguments (res ∷ list) =
      let rest = broadcast_arguments list in
      elim res.error [
        | some message ↦ and_entry (error_entry message) rest
        | none ↦ elim (decode res.body) [
          | with_error message ↦ with_error message
          | with_value v ↦ and_entry (body_entry v) rest
        ]
      ]
