-- ===== src/Http.antt =====
-- pkg/core/http/server.go and types.go: an HTTP server of a script. ServeHTTP runs on a goroutine of
-- net/http; the handler of the script, the functions of its response writer and the release of the
-- resource run on others. They meet in the channel `ch`, which holds one value.
pub mod Ending
pub mod Messages
pub mod Headers
use drlee.Prelude.{
  ℕ, zero, suc, ◌+◌, String, Bool, true, false, Option, none, some, List, [], ◌∷◌, ◌++◌, length,
  ltb, if◌then◌else◌,
}
use drlee.Prelude.Dict.{Dict, lookup, insert}
use drlee.Prelude.Result.{Result, ok, panic}
use drlee.Context.{Returned, fails, gives}

-- What ServeHTTP shares and does: the values in `ch`, whether it has returned, how often the body
-- was closed, whether its resource is cancelled, and the text written with status 500.
pub record Serving : Type 0 where
  pub ch : List (Option String)
  pub returned : Bool
  pub body_closes : ℕ
  pub cancelled : Bool
  pub failure : Option String

-- ServeHTTP up to `<-ch`
unfoldable pub serve_http : Serving
serve_http = record {
  ch = [];
  returned = false;
  body_closes = 0;
  cancelled = false;
  failure = none;
}

-- `ch <- err`; `none` while the channel is full
unfoldable pub send : Option String → Serving → Option Serving
send err s = if ltb (length s.ch) 1 then some (record s { ch = s.ch ++ err ∷ [] }) else none

-- lResponseWriterFinish
unfoldable pub finish : Serving → Option Serving
unfolding send
finish s = send none s

-- the function given to ProtectedLua, which the handler's error is passed to
unfoldable pub on_error : String → Serving → Option Serving
unfolding send
on_error err s = send (some err) s

-- the function of the resource, which the closing context calls
unfoldable pub release : Serving → Option Serving
unfolding send
release s = send none (record s { body_closes = suc s.body_closes })

-- ServeHTTP from `<-ch` on
unfoldable pub receive : Serving → Option Serving
receive s = if s.returned then none else elim s.ch [
  | [] ↦ none
  | err ∷ rest ↦ some (record s {
    ch = rest;
    returned = true;
    body_closes = suc s.body_closes;
    cancelled = true;
    failure = err;
  })
]

pub data Event : Type 0 where
  finishes releases receives : Event
  handler_fails : String → Event

unfoldable pub step : Event → Serving → Option Serving
unfolding finish on_error release receive
step finishes s = finish s
step releases s = release s
step receives s = receive s
step (handler_fails e) s = on_error e s

-- the events in their order; `none` when one of them has to wait for ever
unfoldable pub run : List Event → Serving → Option Serving
unfolding step
run [] s = some s
run (e ∷ es) s = elim (step e s) [ none ↦ none | some t ↦ run es t ]

-- lServer, as far as start and stop use it: the http.Server and the resource once it is started
pub record Server : Type 0 where
  pub addr : String
  pub server : Option ℕ
  pub resource : Option ℕ

-- lCreateServer, for an address and a handler
unfoldable pub create_server : String → Server
create_server addr = record { addr = addr; server = none; resource = none }

-- lServerStart, on the new http.Server and its resource
unfoldable pub start : ℕ → ℕ → Server → Server
start http_server resource s = record s { server = some http_server; resource = some resource }

-- the function that lServerStart leaves to a goroutine, on the error of `listen`
unfoldable pub listen : Option String → Returned (Option ℕ)
listen (some err) = fails err
listen none = gives none

-- the goroutine of Serve, on its error: whether it raises one. `closed` is the test of the text.
unfoldable pub served : Option String → (String → Bool) → Option String
served none closed = none
served (some err) closed = if closed err then none else some err

-- lServerStop: the resource that is cancelled, and the error that is pushed
unfoldable pub stop : Option String → Server → Result (ℕ × Option String)
stop close_err s = elim s.resource [ none ↦ panic | some r ↦ ok (r, close_err) ]
