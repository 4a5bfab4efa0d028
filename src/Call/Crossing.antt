-- ===== src/Call/Crossing.antt =====
-- pkg/server/lua_rpc.go, rpc_server.go, inbox.go, lua_rpc_env.go, rpc_reply.go and replybox.go
-- together with pkg/core/rpc/rpc.go: a call of a method of another node, there and back.
use drlee.Prelude.{
  ℕ, String, ◌≡◌, refl, ap, Bool, true, false, Option, none, some, [], ◌∷◌, get_elem?, arith,
  Option-cases, inl, inr,
}
use drlee.Prelude.Int.{pos, ◌-ℤ◌}
use drlee.Prelude.Dict.{Dict, lookup}
use drlee.Prelude.Result.{Result, ok}
use drlee.Time.{Time, zero_time, is_zero, milliseconds, of_milliseconds}
use drlee.Message.{RpcRequest, RpcResponse, Request}
use drlee.Registry.{Server, get_remote_rpc}
use drlee.Lua.{LValue, nil}
use drlee.Inbox.{Inbox, idle_worker, put, read_case, send, move, to_request}
use drlee.Rpc.{Reply, reply, reply_to, with_body, handle, called}
use drlee.Reply.{ReplyRequest, queued, post, to_response, do_reply, rpc_reply, unix_epoch}
use drlee.Reply.Transport.{IsInt64, rpc_reply-do_reply}
use drlee.ReplyBox.{
  ReplyBox, goes, run, registers, inserts, takes, watch_case, insert_case, receive,
}
use drlee.Call.{CallRequest, remote, route, finish, timeout_of, rpc_call, total_weight, pick}
use drlee.ReplyBox.Meeting.{rendezvous}
use drlee.Inbox.Passing.{delivered}

module _ {Conn : Type 0} (order order' : Dict ℕ → Dict ℕ) (draw : ℕ → ℕ) (now : Time) (id : String)
    (req : Request) (s : Server Conn) (conn : Conn) (asked : CallRequest) where
  -- what goes to another node
  route-remote :
      route order order' draw now id req s ≡ remote conn asked
      → record {
        name = req.name;
        body = req.body;
        node_name = s.node_name;
        timeout_milliseconds = milliseconds (timeout_of now req);
      }
        ≡ asked
  unfolding route
  route-remote e = elim (Option-cases (lookup req.name s.local_services)) [
    | inr (_, here) ↦ ground arith
    | inl away ↦ elim (Option-cases (lookup req.name s.services)) [
      | inl unknown ↦ ground arith
      | inr (group, known) ↦
          elim (Option-cases
            (get_remote_rpc (pick (draw (total_weight (order group))) 0 (order' group)) s)) [
              | inl gone ↦ ground arith
              | inr (c, there) ↦ ground arith
            ]
    ]
  ]

  timeout-asked :
      is_zero req.expires_at ≡ true
      → route order order' draw now id req s ≡ remote conn asked
      → (arrived : Time) (there : String) → (rpc_call arrived there asked).timeout ≡ pos 0
  unfolding rpc_call timeout_of milliseconds of_milliseconds
  timeout-asked z e arrived there = rw (← route-remote e, z, timeout_of)

  node_name-asked :
      route order order' draw now id req s ≡ remote conn asked → asked.node_name ≡ s.node_name
  node_name-asked e = rw (← route-remote e)

-- What the serving node makes of the reply with a value.
abbrev pub answer_to : CallRequest → Time → String → String → RpcResponse
answer_to asked later id body = record {
  id = id;
  result = body;
  timestamp = later;
  node_name = asked.node_name;
  is_error = false;
}

module _ {F Bytes Outbox Conn : Type 0} (text : LValue F → String) (json : LValue F → Result String)
    (decodes : String → Bool) (encode : RpcRequest → Option Bytes)
    (decode : Bytes → Option RpcRequest) (encode' : RpcResponse → Option Outbox)
    (decode' : Outbox → Option RpcResponse) (order order' : Dict ℕ → Dict ℕ) (draw : ℕ → ℕ) where
  -- A call without a deadline that is routed to another node, where the inbox queue is empty, a
  -- goroutine idle, the method known to the script, and the caller's node connected; at the caller
  -- the reply box has nothing queued and no entry for the call's id; the messages survive GOB, the
  -- body decodes, the value encodes and the time fits UnixNano. There it is put, taken and sent to
  -- the worker, whose handler is called; when that replies with a value, however late, the reply is
  -- queued, sent back over the connection to the caller, and if the loop of the caller's reply box
  -- takes the watcher first, the caller gets that value's encoding, and the entry is gone.
  pub remote_call_answered :
      (now arrived taken later : Time) (unused id body : String) (req : Request)
      (caller callee : Server Conn) (conn back : Conn) (asked : CallRequest) (inbox : Inbox Bytes)
      (i : ℕ) (data' : Bytes) (out : Outbox) (handlers : Dict ℕ) (handler : ℕ) (val : LValue F)
      (b : ReplyBox)
      → is_zero req.expires_at ≡ true
      → route order order' draw now unused req caller ≡ remote conn asked
      → encode (rpc_call arrived id asked) ≡ some data'
      → decode data' ≡ some (rpc_call arrived id asked)
      → inbox.queue ≡ []
      → get_elem? inbox.workers i ≡ some idle_worker
      → lookup asked.name handlers ≡ some handler
      → decodes asked.body ≡ true
      → json val ≡ ok body
      → encode' (answer_to asked later id body) ≡ some out
      → decode' out ≡ some (answer_to asked later id body)
      → get_remote_rpc caller.node_name callee ≡ some back
      → IsInt64 (later -ℤ unix_epoch)
      → b.watch_ch ≡ []
      → b.insert_ch ≡ []
      → lookup id b.replies ≡ none
      → (full : Inbox Bytes) × (held : Inbox Bytes) × (sent : Inbox Bytes) × (r : Request)
        × (rep : Reply) × (wire : ReplyRequest) × (b' : ReplyBox) × (put encode
              (rpc_call arrived id asked)
              inbox
            ≡ ok full)
        × (move decode taken i read_case full ≡ some held)
        × (move decode taken i send held ≡ some sent)
        × (get_elem? sent.workers i ≡ some (record idle_worker { ch = some r ∷ [] }))
        × (handle decodes handlers (some r) ≡ called handler)
        × (reply text json later r nil val ≡ ok rep)
        × (post encode' later rep ≡ ok (queued out))
        × (do_reply decode' out callee ≡ ok (some (back, wire)))
        × (run
              (registers id ∷ inserts (rpc_reply wire) ∷ takes watch_case ∷ takes insert_case ∷ [])
              b
            ≡ goes b')
        × (finish (receive b.next b') ≡ some (ok body))
        × (lookup id b'.replies ≡ none)
  unfolding handle reply finish rpc_call to_response
  remote_call_answered now arrived taken later unused id body req caller callee conn back asked
        inbox i data' out handlers handler val b z to_callee e d q w known fine said e' d' connected
        in_range ew ei fresh =
      let call = rpc_call arrived id asked in
      let r = to_request id zero_time call in
      let rep = reply_to r (with_body body) in
      let untimed =
        timeout-asked order order' draw now unused req caller conn asked z to_callee arrived id in
      let there : get_remote_rpc asked.node_name callee ≡ some back =
        rw (node_name-asked order order' draw now unused req caller conn asked to_callee)
          connected in
      let (full, held, sent, e1, e2, e3, e4) =
        delivered encode decode i taken call data' inbox e d untimed q w in
      let (wire, e5, e6, e7) =
        rpc_reply-do_reply encode' decode' later rep callee back out e' d' refl there in_range in
      let (b', run_b, got, gone) =
        rendezvous b id (rpc_reply wire) (ap (λ x. x.id) e7) ew ei fresh in
      (
        full,
        held,
        sent,
        r,
        rep,
        wire,
        b',
        e1,
        e2,
        e3,
        e4,
        rw (handle, known, fine),
        rw (reply, said),
        e5,
        e6,
        run_b,
        rw (got, e7),
        gone,
      )
