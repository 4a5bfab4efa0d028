-- ===== src/Lifecycle.antt =====
-- pkg/server/lua_run.go, listeners.go and the reload of debug.go: how the workers that run a script
-- are started, stopped and started again. `Lis` is a net.Listener and `bind` is net.Listen;
-- `compile` reads, parses and compiles a script and says what went wrong. A goroutine of runLua
-- that was started and has not run yet is in `starting`.
pub mod Listening
pub mod Reloading
use drlee.Prelude.{
  ℕ, zero, suc, String, Bool, true, false, Option, none, some, List, [], ◌∷◌, ◌++◌, if◌then◌else◌,
}
use drlee.Prelude.Dict.{Dict, lookup, insert}
use drlee.Prelude.Result.{Result, ok, raise, panic, fatal}
use drlee.Time.{Time}
use drlee.Registry.{Server, withdraw}
use drlee.Inbox.{Inbox, new_consumer, reset as reset_inbox}
use drlee.ReplyBox.{ReplyBox, goes, reset as reset_replies}

abbrev pub Listeners : Type 0 → Type 0
Listeners Lis = Dict (Dict Lis)

abbrev pub or_empty : {Lis : Type 0} → Option (Dict Lis) → Dict Lis
or_empty none = []
or_empty (some group) = group

abbrev pub group_of : {Lis : Type 0} → String → Listeners Lis → Dict Lis
group_of network m = or_empty (lookup network m)

-- Listen; the inner map is made first, also where the listener cannot be opened
unfoldable pub listen :
    {Lis : Type 0}
    → (String → String → Option Lis)
    → String
    → String
    → Listeners Lis
    → Option Lis × Listeners Lis
listen bind network addr m =
    let group = group_of network m in
    elim (lookup addr group) [
      | some lis ↦ (some lis, m)
      | none ↦ elim (bind network addr) [
        | none ↦ (none, insert network group m)
        | some lis ↦ (some lis, insert network (insert addr lis group) m)
      ]
    ]

-- the listeners that Reset closes
abbrev pub in_group : {Lis : Type 0} → Dict Lis → List Lis
in_group [] = []
in_group ((_, lis) ∷ group) = lis ∷ in_group group

unfoldable pub open_listeners : {Lis : Type 0} → Listeners Lis → List Lis
open_listeners [] = []
open_listeners ((_, group) ∷ m) = in_group group ++ open_listeners m

pub record System (Conn Lis Bytes : Type 0) : Type 0 where
  pub is_reloading : Bool
  pub script : String
  pub concurrency : ℕ
  pub starting : List ℕ
  pub exits : List ℕ  -- the workers that StopLua knows
  pub told : List ℕ  -- the workers that were told to exit
  pub listeners : Listeners Lis
  pub closed : List Lis
  pub inbox : Inbox Bytes
  pub replybox : ReplyBox
  pub server : Server Conn

-- the ids from `i` on of `n` workers
unfoldable pub worker_ids : ℕ → ℕ → List ℕ
worker_ids i zero = []
worker_ids i (suc n) = i ∷ worker_ids (suc i) n

module _ {Conn Lis Bytes : Type 0} where
  -- LoadLua: the error that it returns, if any, and what it leaves. The flag is taken and given back.
  unfoldable pub load_lua :
      (String → Option String)
      → String
      → System Conn Lis Bytes
      → Option String × System Conn Lis Bytes
  unfolding worker_ids
  load_lua compile path s =
      if s.is_reloading then (some "lua is reloading", s) else elim (compile path) [
        | some e ↦ (some e, record s { script = path })
        | none ↦
            (none, record s { script = path; starting = s.starting ++ worker_ids 0 s.concurrency })
      ]

  -- the part of runLua up to the script
  unfoldable pub run_lua : ℕ → System Conn Lis Bytes → System Conn Lis Bytes
  unfolding new_consumer
  run_lua id s = record s { exits = s.exits ++ id ∷ []; inbox = new_consumer id s.inbox }

  -- every goroutine that was started gets to run
  unfoldable pub run_each : List ℕ → System Conn Lis Bytes → System Conn Lis Bytes
  unfolding run_lua
  run_each [] s = record s { starting = [] }
  run_each (id ∷ ids) s = run_each ids (run_lua id s)

  -- ListenerManager.Reset
  unfoldable pub reset_listeners : System Conn Lis Bytes → System Conn Lis Bytes
  unfolding open_listeners
  reset_listeners s = record s { closed = open_listeners s.listeners ++ s.closed; listeners = [] }

  -- StopLua, after the wait for its workers
  unfoldable pub stop_lua :
      Time → System Conn Lis Bytes → Result (Option String × System Conn Lis Bytes)
  unfolding reset_listeners
  stop_lua now s =
      if s.is_reloading then ok (some "lua is reloading", s) else elim (reset_replies s.replybox) [
        | goes b ↦
            let s' = reset_listeners s in
            ok (
              none,
              record s' {
                told = s.exits ++ s.told;
                exits = [];
                inbox = reset_inbox s.inbox;
                replybox = b;
                server = withdraw now s.server;
              },
            )
        | _ ↦ panic
      ]

  -- RPCDebug "reload"
  unfoldable pub reload :
      (String → Option String)
      → Time
      → System Conn Lis Bytes
      → Result (Option String × System Conn Lis Bytes)
  unfolding load_lua stop_lua
  reload compile now s = elim (stop_lua now s) [
    | ok (some e, s') ↦ ok (some e, s')
    | ok (none, s') ↦ ok (load_lua compile s'.script s')
    | other ↦ other
  ]
