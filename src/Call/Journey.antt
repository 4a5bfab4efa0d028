-- ===== src/Call/Journey.antt =====
-- pkg/server/lua_rpc.go, inbox.go, lua_rpc_env.go and replybox.go together with pkg/core/rpc/rpc.go:
-- a call of a method of this node, on its way through all of them and back.
use drlee.Prelude.{
  ℕ, String, ◌≡◌, refl, Bool, true, Option, none, some, [], ◌∷◌, is_some, get_elem?,
}
use drlee.Prelude.Int.{pos}
use drlee.Prelude.Dict.{Dict, lookup}
use drlee.Prelude.Result.{Result, ok}
use drlee.Time.{Time, zero_time, is_zero}
use drlee.Message.{RpcRequest, RpcResponse, Request}
use drlee.Registry.{Server}
use drlee.Lua.{LValue, nil}
use drlee.Inbox.{Inbox, idle_worker, put, read_case, send, move, to_request}
use drlee.Rpc.{Reply, reply, reply_to, with_body, handle, called}
use drlee.Reply.{inserted, post, to_response}
use drlee.ReplyBox.{
  ReplyBox, goes, run, registers, inserts, takes, watch_case, insert_case, receive,
}
use drlee.ReplyBox.Meeting.{rendezvous}
use drlee.Inbox.Passing.{delivered}
use drlee.Call.{local, route, finish, timeout_of}

-- What luaRPCCall makes of a request that has no deadline.
abbrev pub local_request : Time → String → Request → RpcRequest
local_request now id req = record {
  id = id;
  name = req.name;
  body = req.body;
  timestamp = now;
  timeout = pos 0;
  node_name = "";
  is_loop_back = true;
}

route-local :
    {Conn : Type 0} (order order' : Dict ℕ → Dict ℕ) (draw : ℕ → ℕ) (now : Time) (id : String)
    (req : Request) (s : Server Conn)
    → is_some (lookup req.name s.local_services) ≡ true
    → is_zero req.expires_at ≡ true
    → route order order' draw now id req s ≡ local (local_request now id req)
route-local order order' draw now id req s here e =
    unfold route timeout_of in rw (here, e, route) refl

module _ {F Bytes Outbox Conn : Type 0} (text : LValue F → String) (json : LValue F → Result String)
    (decodes : String → Bool) (encode : RpcRequest → Option Bytes)
    (decode : Bytes → Option RpcRequest) (encode' : RpcResponse → Option Outbox)
    (order order' : Dict ℕ → Dict ℕ) (draw : ℕ → ℕ) where
  -- A call without a deadline of a method of this node and of its script, its inbox queue empty, a
  -- goroutine idle, and the reply box with nothing queued and no entry for the new id; the request
  -- survives GOB, its body decodes and the value encodes. The request is routed here, put, taken and
  -- sent to the worker, whose handler is called; when that replies with a value, however late, the
  -- reply goes into this node's reply box, and if the loop takes the watcher first, the caller gets
  -- that value's encoding, and the id's entry is gone.
  pub local_call_answered :
      (now taken later : Time) (id body : String) (req : Request) (s : Server Conn)
      (inbox : Inbox Bytes) (i : ℕ) (data' : Bytes) (handlers : Dict ℕ) (handler : ℕ)
      (val : LValue F) (b : ReplyBox)
      → is_some (lookup req.name s.local_services) ≡ true
      → is_zero req.expires_at ≡ true
      → encode (local_request now id req) ≡ some data'
      → decode data' ≡ some (local_request now id req)
      → inbox.queue ≡ []
      → get_elem? inbox.workers i ≡ some idle_worker
      → lookup req.name handlers ≡ some handler
      → decodes req.body ≡ true
      → json val ≡ ok body
      → b.watch_ch ≡ []
      → b.insert_ch ≡ []
      → lookup id b.replies ≡ none
      → (call : RpcRequest) × (full : Inbox Bytes) × (held : Inbox Bytes) × (sent : Inbox Bytes)
        × (r : Request) × (rep : Reply) × (res : RpcResponse) × (b' : ReplyBox) × (route order
              order' draw now id req s
            ≡ local call)
        × (put encode call inbox ≡ ok full)
        × (move decode taken i read_case full ≡ some held)
        × (move decode taken i send held ≡ some sent)
        × (get_elem? sent.workers i ≡ some (record idle_worker { ch = some r ∷ [] }))
        × (handle decodes handlers (some r) ≡ called handler)
        × (reply text json later r nil val ≡ ok rep)
        × (post encode' later rep ≡ ok (inserted res))
        × (run (registers id ∷ inserts res ∷ takes watch_case ∷ takes insert_case ∷ []) b ≡ goes b')
        × (finish (receive b.next b') ≡ some (ok body))
        × (lookup id b'.replies ≡ none)
  unfolding route put move handle reply post to_response receive finish
  local_call_answered now taken later id body req s inbox i data' handlers handler val b here
        open_end e d q w known fine said ew ei fresh =
      let call = local_request now id req in
      let r = to_request id zero_time call in
      let rep = reply_to r (with_body body) in
      let res = to_response later rep in
      let (full, held, sent, e1, e2, e3, e4) =
        delivered encode decode i taken call data' inbox e d refl q w in
      let (b', run_b, got, gone) = rendezvous b id res refl ew ei fresh in
      (
        call,
        full,
        held,
        sent,
        r,
        rep,
        res,
        b',
        route-local order order' draw now id req s here open_end,
        e1,
        e2,
        e3,
        e4,
        rw (handle, known, fine),
        rw (reply, said),
        refl,
        run_b,
        rw (got),
        gone,
      )
