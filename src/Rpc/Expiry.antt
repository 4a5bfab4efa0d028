-- ===== src/Rpc/Expiry.antt =====
-- When the handler of a request can still answer it.
use drlee.Prelude.{String, ◌≡◌, refl, true, false, some, arith}
use drlee.Prelude.Int.{pos, negsuc}
use drlee.Prelude.Result.{Result, ok, raise}
use drlee.Time.{Time, zero_time, is_zero, before, add}
use drlee.Message.{RpcRequest, Request}
use drlee.Lua.{LValue, nil}
use drlee.Inbox.{from_queue, from_broadcast, to_request}
use drlee.Rpc.{reply, reply_to, with_body}

pub add_zero : (t : Time) → add t (pos 0) ≡ t
add_zero (pos n) = ground arith
add_zero (negsuc n) = ground arith

module _ {F : Type 0} (text : LValue F → String) (encode : LValue F → Result String) where
  -- A request without a timeout, taken from the queue at any time, can be answered at any time.
  -- The same request broadcast cannot be answered once the clock has moved.
  pub reply_no_timeout :
      (req : RpcRequest) (id b : String) (taken now : Time) (val : LValue F)
      → req.timeout ≡ pos 0
      → is_zero req.timestamp ≡ false
      → before req.timestamp now ≡ true
      → encode val ≡ ok b
      → (r : Request) × (from_queue taken req ≡ some r)
        × (reply text encode now r nil val ≡ ok (reply_to r (with_body b)))
        × (reply text encode now (from_broadcast id req) nil val ≡ raise "already timedout")
  reply_no_timeout req id b taken now val t z h e = (
    to_request req.id zero_time req,
    unfold from_queue in rw (t, from_queue) refl,
    unfold reply in rw (e, reply) refl,
    unfold reply from_broadcast in rw (t, add_zero req.timestamp, z, h) refl,
  )
