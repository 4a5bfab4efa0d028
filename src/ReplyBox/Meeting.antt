-- ===== src/ReplyBox/Meeting.antt =====
-- pkg/server/replybox.go: one response and its watcher in a box that is otherwise idle, the watcher's
-- turn first.
use drlee.Prelude.{String, ◌≡◌, refl, ◌∙◌, none, List, [], ◌∷◌, arith}
use drlee.Prelude.Dict.{lookup}
use drlee.Message.{RpcResponse}
use drlee.ReplyBox.{
  Watch, ReplyBox, goes, run, registers, inserts, takes, watch_case, insert_case, register, turn,
  receive, value, perform, request_insert, Outcome, waits, blocks, panics, ◌>>=◌, make_chan, Pick,
  Event,
}
use drlee.ReplyBox.Delivery.{Racing, turn_order}

run-turns :
    (o : Outcome) (q : Pick) (before after : ReplyBox)
    → (o >>= turn q) ≡ goes after
    → (elim o [
      | goes b' ↦ run (takes q ∷ []) b'
      | waits ↦ run (takes q ∷ []) before
      | blocks ↦ blocks
      | panics ↦ panics
    ])
      ≡ goes after
unfolding run perform
run-turns (goes b') q before after e =
    let e' : turn q b' ≡ goes after = e in rw (run, perform, e') refl
run-turns waits q before after e = cc
run-turns blocks q before after e = cc
run-turns panics q before after e = cc

-- the box with one response and its watcher queued, where nothing else is
both_queued : ReplyBox → RpcResponse → ReplyBox
both_queued b res = record (make_chan res.id b) {
  watch_ch = (record { id = res.id; ch = b.next }) ∷ [];
  insert_ch = res ∷ [];
}

run-both_queued :
    (b : ReplyBox) (res : RpcResponse) (rest : List Event)
    → b.watch_ch ≡ []
    → b.insert_ch ≡ []
    → run (registers res.id ∷ inserts res ∷ rest) b ≡ run rest (both_queued b res)
unfolding run perform request_insert register both_queued
run-both_queued b res rest ew ei = rw (ew, ei) refl

met_under_own_id :
    (b : ReplyBox) (res : RpcResponse)
    → b.watch_ch ≡ []
    → b.insert_ch ≡ []
    → lookup res.id b.replies ≡ none
    → (b' : ReplyBox) × (run
          (registers res.id ∷ inserts res ∷ takes watch_case ∷ takes insert_case ∷ [])
          b
        ≡ goes b')
      × (receive b.next b' ≡ value res)
      × (lookup res.id b'.replies ≡ none)
met_under_own_id b res ew ei h =
    let w : Watch = record { id = res.id; ch = b.next } in
    let both = both_queued b res in
    let racing : Racing both w res =
      unfold both_queued in
      record {
        same_id = refl;
        responses = [];
        watches = [];
        insert_queued = refl;
        watch_queued = refl;
        unknown = h;
        allocated = omega arith;
        waiting = ground arith;
      } in
    let (good, _, e, got, gone, _, _, _, _) = turn_order both w res racing in
    (
      good,
      run-both_queued b res (takes watch_case ∷ takes insert_case ∷ []) ew ei
          ∙ (unfold run perform in run-turns (turn watch_case both) insert_case both good e),
      got,
      gone,
    )

pub rendezvous :
    (b : ReplyBox) (id : String) (res : RpcResponse)
    → res.id ≡ id
    → b.watch_ch ≡ []
    → b.insert_ch ≡ []
    → lookup id b.replies ≡ none
    → (b' : ReplyBox) × (run
          (registers id ∷ inserts res ∷ takes watch_case ∷ takes insert_case ∷ [])
          b
        ≡ goes b')
      × (receive b.next b' ≡ value res)
      × (lookup id b'.replies ≡ none)
rendezvous b id res same ew ei fresh = rw (← same) (met_under_own_id b res ew ei (rw (same) fresh))
