-- ===== src/Call/Deadline.antt =====
-- What is left of a caller's deadline on the node that serves the call.
use drlee.Prelude.{ℕ, ◌*◌, ◌/◌, ◌^◌, ◌<◌, String, ◌≡◌, ap, ◌∙◌, some, arith}
use drlee.Prelude.Int.{pos}
use drlee.Time.{Time, zero_time, milliseconds, of_milliseconds}
use drlee.Message.{Request}
use drlee.Inbox.{from_queue, to_request}
use drlee.Inbox.Expiry.{from_queue_no_timeout}
use drlee.Call.{CallRequest, timeout_of, rpc_call}

of_milliseconds-milliseconds :
    (n : ℕ) → n < 2 ^ 63 → of_milliseconds (milliseconds (pos n)) ≡ pos (n / 1000000 * 1000000)
unfolding of_milliseconds milliseconds
of_milliseconds-milliseconds n h = ground arith

module _ (sent received : Time) (id : String) (req : Request) (call : CallRequest) (left : ℕ)
    (carried : call.timeout_milliseconds ≡ milliseconds (timeout_of sent req))
    (time_left : timeout_of sent req ≡ pos left) where
  timeout-rpc_call :
      left < 2 ^ 63 → (rpc_call received id call).timeout ≡ pos (left / 1000000 * 1000000)
  unfolding rpc_call
  timeout-rpc_call h = rw (carried, time_left) (of_milliseconds-milliseconds left h)

  -- One that is nearer is lost: the other node serves the call however late it takes it.
  pub deadline_lost :
      (taken : Time)
      → left < 1000000
      → from_queue taken (rpc_call received id call)
        ≡ some (to_request id zero_time (rpc_call received id call))
  deadline_lost taken h =
      unfold rpc_call in
      from_queue_no_timeout taken (rpc_call received id call)
        (timeout-rpc_call (omega arith) ∙ ap pos (omega arith))
