-- ===== src/Reply/Transport.antt =====
-- A reply is the same answer, whether it stays on its node or crosses the network.
use drlee.Prelude.{ℕ, ◌*◌, ◌^◌, ◌≤◌, ◌<◌, ◌≡◌, refl, false, Option, none, some, arith}
use drlee.Prelude.Int.{ℤ, pos, negsuc, pos_part, neg_part, ◌+ℤ◌, ◌-ℤ◌}
use drlee.Prelude.Result.{ok}
use drlee.Time.{Time, wrap64}
use drlee.Message.{RpcResponse}
use drlee.Registry.{Server, get_remote_rpc}
use drlee.Rpc.{Reply}
use drlee.Reply.{
  ReplyRequest, unix_epoch, unix_nano, from_unix_nano, to_response, queued, post, do_reply,
  rpc_reply,
}

abbrev pub IsInt64 : ℤ → Type 0
IsInt64 n = (pos_part n < 2 ^ 63) × (neg_part n ≤ 2 ^ 63)

pub wrap64_id : (n : ℤ) → IsInt64 n → wrap64 n ≡ n
unfolding wrap64
wrap64_id (pos n) h = ground arith
wrap64_id (negsuc n) h = ground arith

add_sub : (k : ℕ) (t : Time) → pos k +ℤ (t -ℤ pos k) ≡ t
add_sub k (pos n) = ground arith
add_sub k (negsuc n) = ground arith

from_unix_nano-unix_nano : (t : Time) → IsInt64 (t -ℤ unix_epoch) → from_unix_nano (unix_nano t) ≡ t
unfolding from_unix_nano unix_nano
from_unix_nano-unix_nano t h = rw (wrap64_id _ h) (add_sub (62135596800 * 1000000000) t)

node_name-to_response : (now : Time) (r : Reply) → (to_response now r).node_name ≡ r.node_name
unfolding to_response
node_name-to_response now r = ground arith

timestamp-to_response : (now : Time) (r : Reply) → (to_response now r).timestamp ≡ now
unfolding to_response
timestamp-to_response now r = ground arith

module _ {Bytes Conn : Type 0} (encode : RpcResponse → Option Bytes)
    (decode : Bytes → Option RpcResponse) where
  -- A reply to another node: the outbox message is sent over the connection to the node that asked,
  -- and that node's reply box gets the id, the result or the error, and the time that were posted.
  pub rpc_reply-do_reply :
      (now : Time) (r : Reply) (s : Server Conn) (conn : Conn) (b : Bytes)
      → encode (to_response now r) ≡ some b
      → decode b ≡ some (to_response now r)
      → r.is_loop_back ≡ false
      → get_remote_rpc r.node_name s ≡ some conn
      → IsInt64 (now -ℤ unix_epoch)
      → (req : ReplyRequest) × (post encode now r ≡ ok (queued b))
        × (do_reply decode b s ≡ ok (some (conn, req)))
        × (rpc_reply req ≡ record (to_response now r) { node_name = "" })
  rpc_reply-do_reply now r s conn b e d l k t = (
    record {
      id = (to_response now r).id;
      result = (to_response now r).result;
      timestamp_nano = unix_nano (to_response now r).timestamp;
      is_error = (to_response now r).is_error;
    },
    unfold post in rw (l, e, post) refl,
    unfold do_reply in rw (d, node_name-to_response now r, k, do_reply) refl,
    unfold rpc_reply in rw (timestamp-to_response now r, from_unix_nano-unix_nano now t) refl,
  )

  -- Without a connection to the node that asked, the reply is dropped and no error is reported.
  pub do_reply_unknown :
      (now : Time) (r : Reply) (s : Server Conn) (b : Bytes)
      → decode b ≡ some (to_response now r)
      → get_remote_rpc r.node_name s ≡ none
      → do_reply decode b s ≡ ok none
  do_reply_unknown now r s b d k =
      unfold do_reply in rw (d, node_name-to_response now r, k, do_reply) refl
