-- ===== src/Reply.antt =====
-- The way of a reply: luaRPCEnv.Reply of pkg/server/lua_rpc_env.go, the reply worker of
-- rpc_reply.go on the node that ran the handler, and RPCReply of rpc_server.go on the node that
-- called. `Bytes` is what the outbox queue on disk holds, GOB by `encode` and `decode`.
pub mod Transport
pub mod Workers
use drlee.Prelude.{
  ℕ, ◌*◌, ◌^◌, String, Bool, true, false, Option, none, some, List, [], ◌∷◌, if◌then◌else◌, ltb,
}
use drlee.Prelude.Int.{ℤ, pos, pos_part, ◌+ℤ◌, ◌-ℤ◌}
use drlee.Prelude.Result.{Result, ok, raise, panic, fatal}
use drlee.Time.{Time, wrap64}
use drlee.Message.{RpcResponse, Response}
use drlee.Registry.{Server, get_remote_rpc}
use drlee.Rpc.{Reply}

-- proto.ReplyRequest
pub record ReplyRequest : Type 0 where
  pub id : String
  pub result : String
  pub timestamp_nano : ℤ
  pub is_error : Bool

-- 1970 on Go's clock, in nanoseconds
abbrev pub unix_epoch : Time
unix_epoch = pos (62135596800 * 1000000000)

-- t.UnixNano() wraps at 64 bits; time.Unix(0, n)
unfoldable pub unix_nano : Time → ℤ
unix_nano t = wrap64 (t -ℤ unix_epoch)

unfoldable pub from_unix_nano : ℤ → Time
from_unix_nano n = unix_epoch +ℤ n

-- the response that Reply builds
unfoldable pub to_response : Time → Reply → RpcResponse
to_response now r = elim r.response.error [
  | some message ↦ record {
    id = r.id;
    result = message;
    timestamp = now;
    node_name = r.node_name;
    is_error = true;
  }
  | none ↦ record {
    id = r.id;
    result = r.response.body;
    timestamp = now;
    node_name = r.node_name;
    is_error = false;
  }
]

-- Where Reply puts it: into this node's reply box, or at the end of the outbox queue.
pub data Posted (Bytes : Type 0) : Type 0 where
  inserted : RpcResponse → Posted Bytes
  queued : Bytes → Posted Bytes

unfoldable pub post :
    {Bytes : Type 0} → (RpcResponse → Option Bytes) → Time → Reply → Result (Posted Bytes)
unfolding to_response
post encode now r =
    let res = to_response now r in
    if r.is_loop_back
    then ok (inserted res)
    else elim (encode res) [ none ↦ fatal | some b ↦ ok (queued b) ]

-- doReply: to whom the worker sends what, `none` if the node is not known any more.
unfoldable pub do_reply :
    {Bytes Conn : Type 0}
    → (Bytes → Option RpcResponse)
    → Bytes
    → Server Conn
    → Result (Option (Conn × ReplyRequest))
do_reply decode b s = elim (decode b) [
  | none ↦ raise "gob"
  | some res ↦ elim (get_remote_rpc res.node_name s) [
    | none ↦ ok none
    | some conn ↦ ok (
        some (
          conn,
          record {
            id = res.id;
            result = res.result;
            timestamp_nano = unix_nano res.timestamp;
            is_error = res.is_error;
          },
        ))
  ]
]

-- RPCReply: what the calling node hands to its reply box
unfoldable pub rpc_reply : ReplyRequest → RpcResponse
rpc_reply req = record {
  id = req.id;
  result = req.result;
  timestamp = from_unix_nano req.timestamp_nano;
  node_name = "";
  is_error = req.is_error;
}

-- how many workers StartReplyWorkers starts
unfoldable pub worker_count : ℤ → ℕ
worker_count concurrency = let n = pos_part concurrency in if ltb n 1 then 1 else n

-- replyWorker: what it sends of the messages that it takes, each with the server as it is then. A
-- message that fails is only logged.
unfoldable pub reply_worker :
    {Bytes Conn : Type 0}
    → (Bytes → Option RpcResponse)
    → List (Bytes × Server Conn)
    → List (Conn × ReplyRequest)
unfolding do_reply
reply_worker decode [] = []
reply_worker decode ((b, s) ∷ queue) =
    let others = reply_worker decode queue in
    elim (do_reply decode b s) [ ok (some sent) ↦ sent ∷ others | _ ↦ others ]
