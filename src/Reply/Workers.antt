-- ===== src/Reply/Workers.antt =====
-- pkg/server/rpc_reply.go: what a worker does with the queue of replies.
use drlee.Prelude.{◌≡◌, false, Option, none, some, List, [], ◌∷◌, ◌⊎◌}
use drlee.Prelude.Int.{◌-ℤ◌}
use drlee.Prelude.Result.{ok, raise}
use drlee.Time.{Time}
use drlee.Message.{RpcResponse}
use drlee.Registry.{Server, get_remote_rpc}
use drlee.Rpc.{Reply}
use drlee.Reply.{unix_epoch, to_response, do_reply}
use drlee.Reply.Transport.{IsInt64}

-- What stands in the queue, with the server as it is when the worker takes it: the message of a
-- reply made at `now`, for the node behind `conn`, or a message that cannot be sent.
pub data Queued (Bytes Conn : Type 0) : Type 0 where
  reply_message : Bytes → Server Conn → Time → Reply → Conn → Queued Bytes Conn
  lost_message : Bytes → Server Conn → Queued Bytes Conn

module _ {Bytes Conn : Type 0} where
  abbrev pub message_of : Queued Bytes Conn → Bytes × Server Conn
  message_of (reply_message b s now r conn) = (b, s)
  message_of (lost_message b s) = (b, s)

  -- the answer that each node which asked is to get
  abbrev pub answers_of : List (Queued Bytes Conn) → List (Conn × RpcResponse)
  answers_of [] = []
  answers_of (reply_message b s now r conn ∷ queue) =
      (conn, record (to_response now r) { node_name = "" }) ∷ answers_of queue
  answers_of (lost_message b s ∷ queue) = answers_of queue

  module _ (encode : RpcResponse → Option Bytes) (decode : Bytes → Option RpcResponse) where
    -- The message is what Reply made of the reply, for a node that is connected; or it does not
    -- decode, or is for a node that is not.
    abbrev pub Fits : Queued Bytes Conn → Type 0
    Fits (reply_message b s now r conn) =
        (encode (to_response now r) ≡ some b)
        × ((decode b ≡ some (to_response now r))
            × ((r.is_loop_back ≡ false)
                × ((get_remote_rpc r.node_name s ≡ some conn) × IsInt64 (now -ℤ unix_epoch))))
    Fits (lost_message b s) = (do_reply decode b s ≡ ok none) ⊎ (do_reply decode b s ≡ raise "gob")
