-- ===== src/ReplyBox/Delivery.antt =====
-- Where a response goes, by the order in which the loop meets the response and its watcher.
use mathlib.Core.Path.{fun_ext}
use drlee.Prelude.{ℕ, suc, ◌<◌, ◌≡◌, false, none, some, List, [], ◌∷◌, arith, eq_refl, eq_iff}
use drlee.Prelude.Dict.{lookup, insert, delete, lookup-insert, lookup-delete}
use drlee.Message.{RpcResponse}
use drlee.ReplyBox.{
  Watch, ReplyBox, goes, turn, insert_case, watch_case, watch, receive, value, empty, ◌>>=◌, update,
}

-- the box after an `Insert` that no watcher was there for
unfoldable pub early : ReplyBox → RpcResponse → List RpcResponse → ReplyBox
early b res rest = record b {
  insert_ch = rest;
  replies = insert res.id (record { id = res.id; ch = b.next }) b.replies;
  chans = update b.chans b.next (record { owner = res.id; buf = res ∷ []; closed = false });
  next = suc b.next;
}

update-update {ℓ} :
    {A : Type ℓ} (chans : ℕ → A) (ch : ℕ) (old new : A)
    → update (update chans ch old) ch new ≡ update chans ch new
update-update chans ch old new = fun_ext λ other. ground arith

pub turn-early :
    (b : ReplyBox) (res : RpcResponse) (rest : List RpcResponse)
    → b.insert_ch ≡ res ∷ rest
    → lookup res.id b.replies ≡ none
    → turn insert_case b ≡ goes (early b res rest)
unfolding turn early
turn-early b res rest e h = ground (
  arith,
  update-update b.chans b.next (record { owner = res.id; buf = []; closed = false })
      (record { owner = res.id; buf = res ∷ []; closed = false }),
)

-- the box after an `Insert` whose watcher is in the map
unfoldable pub answered : ReplyBox → Watch → RpcResponse → List RpcResponse → ReplyBox
answered b w res rest = record b {
  insert_ch = rest;
  replies = delete res.id b.replies;
  chans = update b.chans w.ch (record (b.chans w.ch) { buf = res ∷ [] });
}

pub turn-answered :
    (b : ReplyBox) (w : Watch) (res : RpcResponse) (rest : List RpcResponse)
    → b.insert_ch ≡ res ∷ rest
    → lookup res.id b.replies ≡ some w
    → (b.chans w.ch).closed ≡ false
    → (b.chans w.ch).buf ≡ []
    → turn insert_case b ≡ goes (answered b w res rest)
unfolding turn answered
turn-answered b w res rest e h o q = ground arith

-- The response that comes first waits in a channel of its own, which a later `Watch` returns.
pub watch-turn_insert :
    (b : ReplyBox) (res : RpcResponse) (rest : List RpcResponse)
    → b.insert_ch ≡ res ∷ rest
    → lookup res.id b.replies ≡ none
    → (b' : ReplyBox) × (turn insert_case b ≡ goes b')
      × (receive (watch res.id b').0 b' ≡ value res)
      × ((watch res.id b').1 ≡ b')
unfolding turn watch receive
watch-turn_insert b res rest e h =
    let at = lookup-insert res.id res.id (record { id = res.id; ch = b.next }) b.replies in
    (
      early b res rest,
      turn-early b res rest e h,
      unfold early in ground (arith, at, eq_refl res.id),
      unfold early in ground (arith, at, eq_refl res.id),
    )

-- A box with one watcher and its response both queued for the loop, and the channel still empty.
pub record Racing (b : ReplyBox) (w : Watch) (res : RpcResponse) : Type 0 where
  pub same_id : w.id ≡ res.id
  pub responses : List RpcResponse
  pub watches : List Watch
  pub insert_queued : b.insert_ch ≡ res ∷ responses
  pub watch_queued : b.watch_ch ≡ w ∷ watches
  pub unknown : lookup res.id b.replies ≡ none
  pub allocated : w.ch < b.next
  pub waiting : b.chans w.ch ≡ record { owner = res.id; buf = []; closed = false }

-- the box after the watcher's turn and then the response's
met : ReplyBox → Watch → RpcResponse → List RpcResponse → List Watch → ReplyBox
met b w res responses watches = record b {
  insert_ch = responses;
  watch_ch = watches;
  replies = delete res.id (insert w.id w b.replies);
  chans = update b.chans w.ch (record { owner = res.id; buf = res ∷ []; closed = false });
}

-- the box after the response's turn and then the watcher's
missed : ReplyBox → Watch → RpcResponse → List RpcResponse → List Watch → ReplyBox
unfolding early
missed b w res responses watches =
    let b' = early b res responses in
    record b' { watch_ch = watches; replies = insert w.id w b'.replies }

module _ (b : ReplyBox) (w : Watch) (res : RpcResponse) (r : Racing b w res) where
  open r use {same_id, responses, watches, insert_queued, watch_queued, unknown, allocated, waiting}

  turn-met : (turn watch_case b >>= turn insert_case) ≡ goes (met b w res responses watches)
  unfolding turn met
  turn-met = ground (
    arith,
    same_id,
    insert_queued,
    watch_queued,
    waiting,
    lookup-insert w.id res.id w b.replies,
    eq_iff w.id res.id,
  )

  turn-missed : (turn insert_case b >>= turn watch_case) ≡ goes (missed b w res responses watches)
  unfolding turn missed
  turn-missed =
      rw (turn-early b res responses insert_queued unknown)
        (unfold early in ground (arith, watch_queued))

  -- The loop's choice decides. If it takes the queued watcher first, the response reaches the
  -- watcher's channel and its entry is gone; if it takes the response first, the watcher's channel
  -- stays empty, the response sits in a channel that the map no longer holds under its id.
  pub turn_order :
      (good : ReplyBox) × (bad : ReplyBox) × ((turn watch_case b >>= turn insert_case) ≡ goes good)
      × (receive w.ch good ≡ value res)
      × (lookup res.id good.replies ≡ none)
      × ((turn insert_case b >>= turn watch_case) ≡ goes bad)
      × (receive w.ch bad ≡ empty)
      × (receive b.next bad ≡ value res)
      × (lookup res.id bad.replies ≡ some w)
  unfolding receive
  turn_order = (
    met b w res responses watches,
    missed b w res responses watches,
    turn-met,
    unfold met in ground arith,
    unfold met in
        ground (arith, lookup-delete res.id res.id (insert w.id w b.replies), eq_refl res.id),
    turn-missed,
    unfold missed in ground (arith, waiting, allocated),
    unfold missed in ground (arith, allocated),
    unfold missed in
        ground (
          arith,
          lookup-insert w.id res.id w (early b res responses).replies,
          same_id,
          eq_iff w.id res.id,
        ),
  )
