-- ===== src/Inbox/Expiry.antt =====
-- Which queued requests a worker serves.
use drlee.Prelude.{◌≡◌, refl, false, none, some, if◌then◌else◌}
use drlee.Prelude.Int.{pos, is_zero_ℤ}
use drlee.Time.{Time, zero_time, before, add}
use drlee.Message.{RpcRequest}
use drlee.Inbox.{from_queue, to_request}

-- One without a timeout, whenever it is taken.
pub from_queue_no_timeout :
    (taken : Time) (req : RpcRequest)
    → req.timeout ≡ pos 0
    → from_queue taken req ≡ some (to_request req.id zero_time req)
unfolding from_queue
from_queue_no_timeout taken req t = rw (t, from_queue) refl

-- One with a timeout until its deadline, which it carries on to the handler.
pub from_queue_timeout :
    (taken : Time) (req : RpcRequest)
    → is_zero_ℤ req.timeout ≡ false
    → from_queue taken req ≡ (
        if before (add req.timestamp req.timeout) taken
        then none
        else some (to_request req.id (add req.timestamp req.timeout) req))
unfolding from_queue
from_queue_timeout taken req t = rw (t, from_queue) refl
