-- ===== src/Sockets.antt =====
-- pkg/core/network/server.go and pkg/core/websocket/server.go: the servers of a script, which accept
-- connections on a goroutine of their own. `websocket` says which of the two it is. A server that is
-- started once, and a listener that Accept is called on.
pub mod Accepting
pub mod Stopping
use drlee.Prelude.{
  ℕ, zero, suc, ◌+◌, String, Bool, true, false, Option, none, some, List, [], ◌∷◌, ◌++◌, ltb,
  if◌then◌else◌,
}
use drlee.Context.{Returned, fails, gives}

-- Where the goroutine is: at the select, in Accept, or returned.
pub data Loop : Type 0 where
  not_started at_select accepting returned : Loop

-- `exit` is `none` while the channel is nil, and else the number of values in it. `handled` are the
-- connections whose handler was called, `raised` the errors of RaiseError, both in order.
pub record Server : Type 0 where
  pub exit : Option ℕ
  pub loop : Loop
  pub handled : List ℕ
  pub raised : List String

-- lCreateServer
unfoldable pub create_server : Server
create_server = record { exit = none; loop = not_started; handled = []; raised = [] }

-- The function of lServerStart, on the error of `listen`. The tcp server makes its channel here.
unfoldable pub start : Bool → Option String → Server → Returned Server
start websocket (some err) s = fails err
start websocket none s =
    gives (record s { exit = if websocket then s.exit else some 0; loop = at_select })

-- `case <-server.exit` and `default`
unfoldable pub select_exit : Server → Server
select_exit s = elim s.loop [
  | not_started ↦ s
  | at_select ↦ elim s.exit [
    | none ↦ record s { loop = accepting }
    | some n ↦ elim n [
      | zero ↦ record s { loop = accepting }
      | suc n ↦ record s { exit = some n; loop = returned }
    ]
  ]
  | accepting ↦ s
  | returned ↦ s
]

-- what Accept, and for a websocket Upgrade, gives
pub data Incoming : Type 0 where
  accepted : ℕ → Incoming
  not_accepted not_upgraded : String → Incoming

-- the rest of the loop's body; nothing happens while no Accept waits
unfoldable pub accept : Incoming → Server → Server
accept i s = elim s.loop [
  | not_started ↦ s
  | at_select ↦ s
  | accepting ↦ elim i [
    | accepted c ↦ record s { handled = s.handled ++ c ∷ []; loop = at_select }
    | not_accepted err ↦ record s { raised = s.raised ++ err ∷ []; loop = returned }
    | not_upgraded err ↦ record s { raised = s.raised ++ err ∷ []; loop = returned }
  ]
  | returned ↦ s
]

-- lServerStop: a send on a channel of one place, or on nil; `none` while it waits
unfoldable pub stop : Server → Option Server
stop s = elim s.exit [
  | none ↦ none
  | some n ↦ if ltb n 1 then some (record s { exit = some (suc n) }) else none
]

-- the goroutine on what comes in
unfoldable pub serve : List Incoming → Server → Server
unfolding select_exit accept
serve [] s = s
serve (i ∷ is) s = serve is (accept i (select_exit s))

pub data Event : Type 0 where
  selects stops : Event
  arrives : Incoming → Event

unfoldable pub run : List Event → Server → Option Server
unfolding select_exit accept stop
run [] s = some s
run (selects ∷ es) s = run es (select_exit s)
run (arrives i ∷ es) s = run es (accept i s)
run (stops ∷ es) s = elim (stop s) [ none ↦ none | some t ↦ run es t ]
