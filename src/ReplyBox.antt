-- ===== src/ReplyBox.antt =====
-- pkg/server/replybox.go: the rendezvous of a call with its response. One goroutine owns the map
-- `replies` and is fed by three buffered channels; `select` takes any that is ready, so an order
-- between the three is the environment's choice (`Pick`).
pub mod Delivery
pub mod Resetting
pub mod Invariant
pub mod Insertion
pub mod Turns
pub mod Blocking
pub mod Meeting
use drlee.Prelude.{
  ℕ, suc, ◌+◌, ◌<◌, String, ◌≡◌, Bool, true, false, Option, none, some, List, [], ◌∷◌, ◌++◌, length,
  ltb, ◌==◌, if◌then◌else◌,
}
use drlee.Prelude.Dict.{Dict, lookup, insert, delete}
use drlee.Message.{RpcResponse}

-- A `chan *RPCResponse` of capacity 1. `owner` is the id that it was made for; no code reads it.
pub record Chan : Type 0 where
  pub owner : String
  pub buf : List RpcResponse
  pub closed : Bool

-- replyBoxWatch; a channel is the address of its `Chan`
pub record Watch : Type 0 where
  pub id : String
  pub ch : ℕ

pub record ReplyBox : Type 0 where
  pub delete_ch : List String
  pub insert_ch : List RpcResponse
  pub watch_ch : List Watch
  pub replies : Dict Watch
  pub chans : ℕ → Chan
  pub next : ℕ

-- `waits`: the operation cannot go on yet. `blocks`: the loop itself hangs in a send, for good
-- unless someone drains that channel. `panics`: a send on a closed channel, a close of one.
pub data Outcome : Type 0 where
  goes : ReplyBox → Outcome
  waits blocks panics : Outcome

abbrev pub update {ℓ} : {A : Type ℓ} → (ℕ → A) → ℕ → A → ℕ → A
update f p v q = if p == q then v else f q

abbrev pub capacity : ℕ
capacity = 64

abbrev pub no_chan : Chan
no_chan = record { owner = ""; buf = []; closed = false }

unfoldable pub new_reply_box : ReplyBox
new_reply_box = record {
  delete_ch = [];
  insert_ch = [];
  watch_ch = [];
  replies = [];
  chans = λ _. no_chan;
  next = 0;
}

-- make(chan *RPCResponse, 1)
abbrev pub make_chan : String → ReplyBox → ReplyBox
make_chan id b = record b {
  chans = update b.chans b.next (record { owner = id; buf = []; closed = false });
  next = suc b.next;
}

-- ch <- res, by the loop
unfoldable pub send : ℕ → RpcResponse → ReplyBox → Outcome
send ch res b =
    let c = b.chans ch in
    if c.closed
    then panics
    else if ltb (length c.buf) 1
    then goes (record b { chans = update b.chans ch (record c { buf = c.buf ++ res ∷ [] }) })
    else blocks

unfoldable pub handle_delete : String → ReplyBox → Outcome
handle_delete id b = goes (record b { replies = delete id b.replies })

unfoldable pub handle_insert : RpcResponse → ReplyBox → Outcome
unfolding send
handle_insert res b = elim (lookup res.id b.replies) [
  | none ↦
      let b' = make_chan res.id b in
      send b.next res
        (record b' { replies = insert res.id (record { id = res.id; ch = b.next }) b.replies })
  | some watch ↦ send watch.ch res (record b { replies = delete res.id b.replies })
]

unfoldable pub handle_watch : Watch → ReplyBox → Outcome
handle_watch watch b = goes (record b { replies = insert watch.id watch b.replies })

pub data Pick : Type 0 where
  delete_case insert_case watch_case : Pick

-- one turn of the loop, once `select` has settled on a case
unfoldable pub turn : Pick → ReplyBox → Outcome
unfolding handle_delete handle_insert handle_watch
turn delete_case b = elim b.delete_ch [
  | [] ↦ waits
  | id ∷ rest ↦ handle_delete id (record b { delete_ch = rest })
]
turn insert_case b = elim b.insert_ch [
  | [] ↦ waits
  | res ∷ rest ↦ handle_insert res (record b { insert_ch = rest })
]
turn watch_case b = elim b.watch_ch [
  | [] ↦ waits
  | watch ∷ rest ↦ handle_watch watch (record b { watch_ch = rest })
]

-- The second half of `Watch`, when the look-up found nothing: a new channel, queued for the loop.
unfoldable pub register : String → ReplyBox → ReplyBox
register id b =
    let b' = make_chan id b in
    record b' { watch_ch = b.watch_ch ++ (record { id = id; ch = b.next }) ∷ [] }

-- `Watch`, with nothing between its two halves
unfoldable pub watch : String → ReplyBox → ℕ × ReplyBox
unfolding register
watch id b = elim (lookup id b.replies) [ some w ↦ (w.ch, b) | none ↦ (b.next, register id b) ]

-- `Delete` and `Insert` send to the loop.
unfoldable pub request_delete : String → ReplyBox → Outcome
request_delete id b =
    if ltb (length b.delete_ch) capacity
    then goes (record b { delete_ch = b.delete_ch ++ id ∷ [] })
    else waits

unfoldable pub request_insert : RpcResponse → ReplyBox → Outcome
request_insert res b =
    if ltb (length b.insert_ch) capacity
    then goes (record b { insert_ch = b.insert_ch ++ res ∷ [] })
    else waits

-- close(w.ch) for each entry, then an empty map
unfoldable pub close_all : Dict Watch → ReplyBox → Outcome
close_all [] b = goes b
close_all ((id, w) ∷ rest) b =
    let c = b.chans w.ch in
    let more =
      close_all rest (record b { chans = update b.chans w.ch (record c { closed = true }) }) in
    if c.closed then panics else more

unfoldable pub reset : ReplyBox → Outcome
unfolding close_all
reset b = elim (close_all b.replies b) [
  | goes b' ↦ goes (record b' { replies = [] })
  | waits ↦ waits
  | blocks ↦ blocks
  | panics ↦ panics
]

-- res := <-ch. A closed and drained channel gives nil at once.
pub data Received : Type 0 where
  value : RpcResponse → Received
  nil empty : Received

unfoldable pub receive : ℕ → ReplyBox → Received
receive ch b = elim (b.chans ch).buf [
  | res ∷ _ ↦ value res
  | [] ↦ if (b.chans ch).closed then nil else empty
]

unfoldable pub received : ℕ → ReplyBox → ReplyBox
received ch b =
    let c = b.chans ch in
    record b {
      chans = update b.chans ch (record c { buf = elim c.buf [ [] ↦ [] | _ ∷ rest ↦ rest ] });
    }

infixl 5 ◌>>=◌
abbrev pub ◌>>=◌ : Outcome → (ReplyBox → Outcome) → Outcome
goes b >>= f = f b
waits >>= f = waits
blocks >>= f = blocks
panics >>= f = panics

-- What the callers and the loop do, one at a time. `registers` is the second half of `Watch`, which
-- may come any time after a look-up that found nothing; the first half changes nothing.
pub data Event : Type 0 where
  registers : String → Event
  inserts : RpcResponse → Event
  deletes : String → Event
  takes : Pick → Event
  receives : ℕ → Event

unfoldable pub perform : Event → ReplyBox → Outcome
unfolding register request_delete request_insert turn received
perform (registers id) b = if ltb (length b.watch_ch) capacity then goes (register id b) else waits
perform (inserts res) b = request_insert res b
perform (deletes id) b = request_delete id b
perform (takes pick) b = turn pick b
perform (receives ch) b = goes (received ch b)

-- An event that has to wait is skipped, and may come again later.
unfoldable pub run : List Event → ReplyBox → Outcome
run [] b = goes b
run (e ∷ es) b = elim (perform e b) [
  | goes b' ↦ run es b'
  | waits ↦ run es b
  | blocks ↦ blocks
  | panics ↦ panics
]
