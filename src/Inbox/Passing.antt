-- ===== src/Inbox/Passing.antt =====
-- pkg/server/inbox.go: what becomes of the only request in the queue, with an idle goroutine.
use drlee.Prelude.{ℕ, zero, suc, ◌≡◌, refl, ap, Option, some, List, [], ◌∷◌, get_elem?, update_at}
use drlee.Prelude.Int.{pos}
use drlee.Prelude.Result.{ok}
use drlee.Time.{Time, zero_time}
use drlee.Message.{RpcRequest, Request}
use drlee.Inbox.{
  Worker, Inbox, idle_worker, put, read_case, received, send, send_on, hold, move, to_request,
}
use drlee.Inbox.Expiry.{from_queue_no_timeout}

get_elem-update_at :
    (f : Worker → Worker) (ws : List Worker) (i : ℕ) (w : Worker)
    → get_elem? ws i ≡ some w
    → get_elem? (update_at i f ws) i ≡ some (f w)
get_elem-update_at f [] i w e = cc
get_elem-update_at f (x ∷ ws) zero w e = ap some (ap f cc)
get_elem-update_at f (x ∷ ws) (suc i) w e = get_elem-update_at f ws i w e

-- A queue with one request, and a goroutine that is idle: the request is put, taken, and sent on.
module _ {Bytes : Type 0} (encode : RpcRequest → Option Bytes) (decode : Bytes → Option RpcRequest)
    (i : ℕ) (taken : Time) (call : RpcRequest) (data' : Bytes) (inbox : Inbox Bytes) where
  pub delivered :
      encode call ≡ some data'
      → decode data' ≡ some call
      → call.timeout ≡ pos 0
      → inbox.queue ≡ []
      → get_elem? inbox.workers i ≡ some idle_worker
      → (full : Inbox Bytes) × (held : Inbox Bytes) × (sent : Inbox Bytes) × (put encode call inbox
          ≡ ok full)
        × (move decode taken i read_case full ≡ some held)
        × (move decode taken i send held ≡ some sent)
        × (get_elem? sent.workers i
            ≡ some (record idle_worker { ch = some (to_request call.id zero_time call) ∷ [] }))
  unfolding put move send_on
  delivered e d t q w = (
    record inbox { queue = data' ∷ [] },
    record inbox { queue = []; workers = held_workers },
    record inbox { queue = []; workers = sent_workers },
    rw (put, e, q),
    rw (move, w, received, d, from_queue_no_timeout taken call t) refl,
    rw (move, held_at, send_on) refl,
    get_elem-update_at _ held_workers i _ held_at,
  )
    where
      request : Request
      request = to_request call.id zero_time call

      held_workers : List Worker
      held_workers = update_at i (hold (some request)) inbox.workers

      held_at :
          get_elem? held_workers i ≡ some (record idle_worker { holding = some (some request) })
      held_at = get_elem-update_at _ inbox.workers i idle_worker w

      sent_workers : List Worker
      sent_workers = update_at i (λ _. record idle_worker { ch = some request ∷ [] }) held_workers
