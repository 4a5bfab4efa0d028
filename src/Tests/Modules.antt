-- ===== src/Tests/Modules.antt =====
-- Statements of sql, a request, servers, frames, streams, timers and the pool of resources.
use drlee.Prelude.{
  ℕ, String, true, false, List, [], ◌∷◌, none, some, ◌≡◌, ◌≢◌, refl, length, arith, ◌≤◌, concat,
}
use drlee.Prelude.Int.{pos}
use drlee.Prelude.Result.{Result, ok, raise, panic}
use drlee.Lua.{LValue, string, number, user_data}
use drlee.Context.{fails, gives}
use drlee.Marshal.{GoValue, go_number, go_string}
use drlee.Sql.{Held, object_of, tx, begin, tx_statement, tx_end, data_source_name}
use drlee.Sql.Running.{Rows, run_query}
use drlee.Sql.Answers.{run_query_answers_once, tx_functions_refused}
use drlee.Http.{
  serve_http, receive, run, finishes, receives, handler_fails, Serving, Event, step, send, finish,
  on_error,
}
use drlee.Http.Ending.{receive-run, sent-run, sent, GoesOn}
use drlee.Sockets.{
  Server, create_server, start, accepted, not_upgraded, serve, stop, stops, arrives, selects,
  select_exit, accept,
}
use drlee.Sockets as Sockets
use drlee.Sockets.Accepting.{serve-start}
use drlee.Sockets.Stopping.{stop-websocket}
use drlee.Websocket.{Frame, op_text, op_binary, op_ping}
use drlee.Stream as Stream
use drlee.Stream.{read, read_result, eof, zeros}
use drlee.Stream.Transfer.{read-fill}
use drlee.Timers.{l_tick}
use drlee.Timers.Ticking.{l_tick-bounds}
use drlee.Resource.{for_each, new_pool, new_resource, Pool}
use drlee.Resource.Abstract.{Op, guards, takes, removes, pool_run, Spec}
use drlee.Resource.Refinement.{pool_run-refines}

-- two rows, of which the second one cannot be scanned
abbrev two_rows : Rows ℕ
two_rows = record {
  err = none;
  columns = gives ("id" ∷ []);
  scans = gives (1 ∷ []) ∷ fails "bad" ∷ [];
  broken = none;
  close_err = none;
}

run_query_answers_once_example :
    (length (run_query (gives two_rows)).calls ≡ 1) × ((run_query (gives two_rows)).closes ≡ 1)
run_query_answers_once_example = run_query_answers_once (gives two_rows)

abbrev text_of : LValue ℕ → Result String
text_of (string s) = ok s
text_of _ = raise "string expected"

abbrev as_go : LValue ℕ → Result (GoValue ℕ)
as_go (number n) = ok (go_number n)
as_go (string s) = ok (go_string s)
as_go _ = raise "not supported"

abbrev userdata : ℕ → Held
userdata u = object_of (tx 3 4)

begun : begin 3 (gives 4) ≡ gives (userdata 1)
unfolding begin
begun = refl

tx_functions_refused_example :
    (tx_statement userdata "userdata expected" text_of as_go (user_data 1 ∷ string "COMMIT" ∷ [])
      ≡ raise "expected tx")
    × (tx_end {F = ℕ} userdata "userdata expected" (user_data 1 ∷ string "COMMIT" ∷ [])
        ≡ raise "expected tx")
tx_functions_refused_example =
    tx_functions_refused userdata "userdata expected" text_of as_go (string "COMMIT" ∷ []) 3 1
      (gives 4) begun

dsn :
    data_source_name (record {
      scheme = "mysql";
      user = "user:password";
      host = "localhost:1000";
      path = "/db1";
      query = "utf=true";
    })
    ≡ "user:password@tcp(localhost:1000)/db1?utf=true"
unfolding data_source_name
dsn = refl

-- A handler that fails after it has finished, before and after ServeHTTP goes on.
abbrev finished_first : List Event
finished_first = finishes ∷ []

abbrev finished_twice : List Event
finished_twice = finishes ∷ receives ∷ handler_fails "late" ∷ []

abbrev after_finish : Serving
after_finish = record {
  ch = none ∷ [];
  returned = false;
  body_closes = 0;
  cancelled = false;
  failure = none;
}

abbrev after_late : Serving
after_late = record {
  ch = some "late" ∷ [];
  returned = true;
  body_closes = 1;
  cancelled = true;
  failure = none;
}

finish_runs : run finished_first serve_http ≡ some after_finish
unfolding run step send finish serve_http
finish_runs = refl

late_runs : run finished_twice serve_http ≡ some after_late
unfolding run step send finish on_error receive serve_http
late_runs = refl

receive-run_example : GoesOn none after_finish
receive-run_example = receive-run finished_first after_finish none [] finish_runs refl refl

sent-run_example : length (sent finished_twice) ≤ 2
sent-run_example = sent-run finished_twice after_late late_runs

-- Two connections before one that cannot be upgraded, and one after it.
abbrev websocket_started : Server
websocket_started = record { exit = none; loop = Sockets.at_select; handled = []; raised = [] }

starts : start true none create_server ≡ gives websocket_started
unfolding start create_server
starts = refl

serve-start_example :
    (serve
      (accepted 1 ∷ accepted 2 ∷ not_upgraded "bad" ∷ accepted 3 ∷ [])
      websocket_started).handled
    ≡ 1 ∷ 2 ∷ []
serve-start_example =
    serve-start true (accepted 1 ∷ accepted 2 ∷ not_upgraded "bad" ∷ accepted 3 ∷ [])
      websocket_started starts

abbrev one_handled : Server
one_handled = record { exit = none; loop = Sockets.at_select; handled = 1 ∷ []; raised = [] }

one_runs : Sockets.run (selects ∷ arrives (accepted 1) ∷ []) websocket_started ≡ some one_handled
unfolding Sockets.run select_exit accept
one_runs = refl

stop-websocket_example : stop one_handled ≡ none
stop-websocket_example =
    stop-websocket (selects ∷ arrives (accepted 1) ∷ []) websocket_started one_handled starts
      one_runs

-- A ping and a binary frame before a masked text.
abbrev ping : Frame
ping = record { op_code = op_ping; mask = none; payload = "" }

abbrev binary : Frame
binary = record { op_code = op_binary; mask = none; payload = "x" }

abbrev masked : Frame
masked = record { op_code = op_text; mask = some 5; payload = "hello" }

abbrev marked : ℕ → String → String
marked m s = concat s "!"

not_failed : (e : String) → some eof ≢ some (Stream.failed e)
not_failed e h = cc

read-fill_example :
    read (pos 5) (104 ∷ 105 ∷ []) (some eof) ≡ ok (read_result (104 ∷ 105 ∷ zeros 3) 2)
read-fill_example = read-fill 5 (104 ∷ 105 ∷ []) (some eof) (omega arith) not_failed

l_tick-bounds_example : l_tick (pos 9223372036855) ≡ panic
l_tick-bounds_example = l_tick-bounds 9223372036855 (omega arith) (omega arith)

-- Three resources are taken and the second one is cancelled.
abbrev three_left : Spec
three_left = record { waiting = []; held = (0, 7) ∷ (2, 9) ∷ []; size = 10; next = 3 }

abbrev three_ops : List Op
three_ops = guards 7 ∷ guards 8 ∷ takes ∷ takes ∷ guards 9 ∷ takes ∷ removes 1 ∷ []

pool_run-refines_example :
    (q : Pool) × ((pool_run three_ops (new_pool 10 (λ g. new_resource "file" false)) ≡ some q)
      × (for_each 2 q ≡ some (7 ∷ 9 ∷ [])))
pool_run-refines_example =
    pool_run-refines 10 (λ g. new_resource "file" false) three_ops three_left 2 refl (omega arith)
