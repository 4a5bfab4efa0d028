-- ===== src/Inbox.antt =====
-- pkg/server/inbox.go: the queue of requests on disk, and the workers that take from it. Each
-- `NewConsumer` starts one goroutine (`Worker`), which also takes what `Broadcast` sends to it.
-- `decode` is UnmarshalGOB of a request, `encode` is MarshalGOB; ids come from a supply of uuids.
pub mod Expiry
pub mod Workers
pub mod Passing
use drlee.Prelude.{
  ℕ, zero, suc, ◌+◌, String, Bool, true, false, not, ◌&&◌, Option, none, some, List, [], ◌∷◌, ◌++◌,
  map, length, ltb, ◌==◌, if◌then◌else◌, get_elem?, update_at,
}
use drlee.Prelude.Int.{is_zero_ℤ}
use drlee.Prelude.Result.{Result, ok, raise}
use drlee.Time.{Time, zero_time, is_zero, before, add}
use drlee.Message.{RpcRequest, Request}

abbrev pub to_request : String → Time → RpcRequest → Request
to_request id expires_at req = record {
  id = id;
  node_name = req.node_name;
  is_loop_back = req.is_loop_back;
  name = req.name;
  body = req.body;
  expires_at = expires_at;
}

-- The branch of the goroutine for a message from the disk queue: `none` where it is skipped.
unfoldable pub from_queue : Time → RpcRequest → Option Request
from_queue now req =
    if is_zero_ℤ req.timeout
    then some (to_request req.id zero_time req)
    else let expires_at = add req.timestamp req.timeout in
      if before expires_at now then none else some (to_request req.id expires_at req)

-- What Broadcast sends to each consumer, under an id of its own.
unfoldable pub from_broadcast : String → RpcRequest → Request
from_broadcast id req = to_request id (add req.timestamp req.timeout) req

-- `ch` and `consumer` are the two channels of NewConsumer, of capacity 1 and 64; `holding` is what
-- the goroutine has taken and not yet sent on. A nil request is `none`.
pub record Worker : Type 0 where
  pub holding : Option (Option Request)
  pub ch : List (Option Request)
  pub consumer : List Request
  pub closed : Bool

-- `consumers` maps a worker id to the index of its goroutine; `workers` holds those of earlier
-- scripts too, since none of them ever returns.
pub record Inbox (Bytes : Type 0) : Type 0 where
  pub queue : List Bytes
  pub workers : List Worker
  pub consumers : List (ℕ × ℕ)

-- consumers[id] = index
abbrev pub assign : ℕ → ℕ → List (ℕ × ℕ) → List (ℕ × ℕ)
assign id i [] = (id, i) ∷ []
assign id i ((j, k) ∷ m) = if j == id then (id, i) ∷ m else (j, k) ∷ assign id i m

abbrev pub idle_worker : Worker
idle_worker = record { holding = none; ch = []; consumer = []; closed = false }

abbrev pub close_worker : Worker → Worker
close_worker w = record w { closed = true }

unfoldable pub close_each : List (ℕ × ℕ) → List Worker → List Worker
close_each [] ws = ws
close_each ((id, i) ∷ rest) ws = close_each rest (update_at i close_worker ws)

-- the sends of Broadcast; the ids are taken from the front of the supply
unfoldable pub broadcast_to :
    List (ℕ × ℕ) → (ℕ → String) → ℕ → RpcRequest → List Worker → List String × List Worker
unfolding from_broadcast
broadcast_to [] uuid n req ws = ([], ws)
broadcast_to ((id, i) ∷ rest) uuid n req ws =
    let send =
      λ (w : Worker). record w { consumer = w.consumer ++ from_broadcast (uuid n) req ∷ [] } in
    let (ids, ws') = broadcast_to rest uuid (suc n) req (update_at i send ws) in (uuid n ∷ ids, ws')

module _ {Bytes : Type 0} where
  unfoldable pub new_consumer : ℕ → Inbox Bytes → Inbox Bytes
  new_consumer id inbox = record inbox {
    consumers = assign id (length inbox.workers) inbox.consumers;
    workers = inbox.workers ++ idle_worker ∷ [];
  }

  -- Put, after its MarshalGOB; a failed write is an error of the queue
  unfoldable pub put : (RpcRequest → Option Bytes) → RpcRequest → Inbox Bytes → Result (Inbox Bytes)
  put encode req inbox = elim (encode req) [
    | none ↦ raise "gob"
    | some b ↦ ok (record inbox { queue = inbox.queue ++ b ∷ [] })
  ]

  unfoldable pub reset : Inbox Bytes → Inbox Bytes
  unfolding close_each
  reset inbox = record inbox { workers = close_each inbox.consumers inbox.workers; consumers = [] }

  unfoldable pub broadcast : (ℕ → String) → ℕ → RpcRequest → Inbox Bytes → List String × Inbox Bytes
  unfolding broadcast_to
  broadcast uuid n req inbox =
      let (ids, ws) = broadcast_to inbox.consumers uuid n req inbox.workers in
      (ids, record inbox { workers = ws })

-- What a goroutine does next.
pub data Move : Type 0 where
  read_case consumer_case send : Move

-- The `read` case of the goroutine, at an idle worker; `none` where it cannot go on.
abbrev pub hold : Option Request → Worker → Worker
hold none w = w
hold (some req) w = record w { holding = some (some req) }

unfoldable pub take_consumer : Worker → Option Worker
take_consumer w = elim w.consumer [
  | req ∷ rest ↦ some (record w { consumer = rest; holding = some (some req) })
  | [] ↦ if w.closed then some (record w { holding = some none }) else none
]

unfoldable pub send_on : Worker → Option Worker
send_on w = elim w.holding [
  | none ↦ none
  | some req ↦
      if ltb (length w.ch) 1
      then some (record w { holding = none; ch = w.ch ++ req ∷ [] })
      else none
]

abbrev pub is_idle : Worker → Bool
is_idle w = elim w.holding [ none ↦ true | some _ ↦ false ]

module _ {Bytes : Type 0} (decode : Bytes → Option RpcRequest) where
  abbrev pub received : Time → Bytes → Option Request
  received now data' = elim (decode data') [ none ↦ none | some req ↦ from_queue now req ]

  -- One move of the goroutine of worker `i`. It takes from the queue what is then skipped, too.
  unfoldable pub move : Time → ℕ → Move → Inbox Bytes → Option (Inbox Bytes)
  unfolding from_queue take_consumer send_on
  move now i read_case inbox = elim (get_elem? inbox.workers i) [
    | none ↦ none
    | some w ↦ elim inbox.queue [
      | [] ↦ none
      | b ∷ rest ↦
          if is_idle w
          then some (record inbox {
            queue = rest;
            workers = update_at i (hold (received now b)) inbox.workers;
          })
          else none
    ]
  ]
  move now i consumer_case inbox = elim (get_elem? inbox.workers i) [
    | none ↦ none
    | some w ↦
        if is_idle w
        then elim (take_consumer w) [
          | none ↦ none
          | some w' ↦ some (record inbox { workers = update_at i (λ _. w') inbox.workers })
        ]
        else none
  ]
  move now i send inbox = elim (get_elem? inbox.workers i) [
    | none ↦ none
    | some w ↦ elim (send_on w) [
      | none ↦ none
      | some w' ↦ some (record inbox { workers = update_at i (λ _. w') inbox.workers })
    ]
  ]
