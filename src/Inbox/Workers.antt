-- ===== src/Inbox/Workers.antt =====
-- What the goroutines do to the requests, and what becomes of them after a reset.
use drlee.Prelude.{
  ℕ, zero, suc, ◌+◌, Bool, Option, none, some, List, [], ◌∷◌, ◌==◌, if◌then◌else◌, get_elem?,
  update_at, arith, ◌≡◌, refl, ◌∙◌,
}
use drlee.Time.{Time}
use drlee.Message.{RpcRequest, Request}
use drlee.Inbox.{Worker, Inbox, close_worker, close_each, reset, read_case, hold, received, move}

module _ (p : Request → Bool) where
  abbrev pub one : Request → ℕ
  one req = if p req then 1 else 0

  abbrev pub one? : Option Request → ℕ
  one? none = 0
  one? (some req) = one req

  -- how many requests of a list pass the test
  abbrev pub count : List Request → ℕ
  count [] = 0
  count (req ∷ rest) = one req + count rest

  abbrev pub count? : List (Option Request) → ℕ
  count? [] = 0
  count? (req ∷ rest) = one? req + count? rest

  abbrev pub in_hand : Option (Option Request) → ℕ
  in_hand none = 0
  in_hand (some req) = one? req

  abbrev pub load : Worker → ℕ
  load w = in_hand w.holding + count? w.ch + count w.consumer

  abbrev pub tally : List Worker → ℕ
  tally [] = 0
  tally (w ∷ ws) = load w + tally ws

  module _ {Bytes : Type 0} (decode : Bytes → Option RpcRequest) (now : Time) where
    -- the requests that are still in the queue and would not be skipped now
    abbrev pub queued : List Bytes → ℕ
    queued [] = 0
    queued (b ∷ rest) = one? (received decode now b) + queued rest

    abbrev pub total : Inbox Bytes → ℕ
    total inbox = queued inbox.queue + tally inbox.workers

get_elem?-update_at :
    (f : Worker → Worker) (ws : List Worker) (i j : ℕ) (w : Worker)
    → get_elem? ws j ≡ some w
    → get_elem? (update_at i f ws) j ≡ some (if i == j then f w else w)
get_elem?-update_at f [] i j w e = cc
get_elem?-update_at f (x ∷ ws) zero zero w e = let q : x ≡ w = cc in rw q refl
get_elem?-update_at f (x ∷ ws) zero (suc j) w e = ground arith
get_elem?-update_at f (x ∷ ws) (suc i) zero w e = ground arith
get_elem?-update_at f (x ∷ ws) (suc i) (suc j) w e =
    ground (arith, get_elem?-update_at f ws i j w e)

close_each-holding :
    (cs : List (ℕ × ℕ)) (ws : List Worker) (j : ℕ) (w : Worker)
    → get_elem? ws j ≡ some w
    → (w' : Worker) × (get_elem? (close_each cs ws) j ≡ some w') × (w'.holding ≡ w.holding)
unfolding close_each
close_each-holding [] ws j w e = (w, e, refl)
close_each-holding ((id, i) ∷ cs) ws j w e =
    let (w', q, k) =
      close_each-holding cs (update_at i close_worker ws) j (if i == j then close_worker w else w)
        (get_elem?-update_at close_worker ws i j w e) in
    (w', q, k ∙ ground arith)

-- A reset stops no goroutine: each one that was idle before still takes the next queued request,
-- although its worker's script has ended and its id is gone from the consumers.
pub reset_still_reads :
    {Bytes : Type 0} (decode : Bytes → Option RpcRequest) (now : Time) (inbox : Inbox Bytes) (i : ℕ)
    (w : Worker) (b : Bytes) (rest : List Bytes)
    → get_elem? inbox.workers i ≡ some w
    → w.holding ≡ none
    → inbox.queue ≡ b ∷ rest
    → (after : Inbox Bytes) × (move decode now i read_case (reset inbox) ≡ some after)
      × (after.queue ≡ rest)
      × (after.consumers ≡ [])
unfolding move reset
reset_still_reads decode now inbox i w b rest e h q =
    let (w', k, same) = close_each-holding inbox.consumers inbox.workers i w e in
    (
      record inbox {
        queue = rest;
        consumers = [];
        workers =
            update_at i (hold (received decode now b)) (close_each inbox.consumers inbox.workers);
      },
      ground (arith, k, same),
      refl,
      refl,
    )
