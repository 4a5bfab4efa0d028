-- ===== src/Sockets/Stopping.antt =====
-- pkg/core/network/server.go and pkg/core/websocket/server.go: what stopping a server does.
use drlee.Prelude.{ℕ, String, true, none, some, List, [], ◌∷◌, ◌++◌, ◌≡◌, refl}
use drlee.Context.{gives}
use drlee.Sockets.{
  Server, create_server, start, not_started, at_select, accepting, returned, Incoming, accepted,
  not_accepted, not_upgraded, serve, select_exit, accept, stop, Event, selects, arrives, stops, run,
  Loop,
}
use drlee.Sockets.Accepting.{serve-returned}

-- Without a channel no step makes one.
run-nil :
    (es : List Event) (loop : Loop) (handled : List ℕ) (raised : List String) (t : Server)
    → run es (record { exit = none; loop = loop; handled = handled; raised = raised }) ≡ some t
    → t.exit ≡ none
unfolding run select_exit accept stop
run-nil [] loop h r t e =
    let et : record { exit = none; loop = loop; handled = h; raised = r } ≡ t = cc in rw (← et) refl
run-nil (selects ∷ es) not_started h r t e = run-nil es not_started h r t e
run-nil (selects ∷ es) at_select h r t e = run-nil es accepting h r t e
run-nil (selects ∷ es) accepting h r t e = run-nil es accepting h r t e
run-nil (selects ∷ es) returned h r t e = run-nil es returned h r t e
run-nil (arrives i ∷ es) not_started h r t e = run-nil es not_started h r t e
run-nil (arrives i ∷ es) at_select h r t e = run-nil es at_select h r t e
run-nil (arrives (accepted c) ∷ es) accepting h r t e = run-nil es at_select (h ++ c ∷ []) r t e
run-nil (arrives (not_accepted err) ∷ es) accepting h r t e =
    run-nil es returned h (r ++ err ∷ []) t e
run-nil (arrives (not_upgraded err) ∷ es) accepting h r t e =
    run-nil es returned h (r ++ err ∷ []) t e
run-nil (arrives i ∷ es) returned h r t e = run-nil es returned h r t e
run-nil (stops ∷ es) loop h r t e = cc

stop-nil : (s : Server) → s.exit ≡ none → stop s ≡ none
unfolding stop
stop-nil s e = rw (stop, e) refl

-- To stop a websocket server waits for ever, in every state that it can be in once it is started:
-- its channel is nil, and nothing makes it.
pub stop-websocket :
    (es : List Event) (s t : Server)
    → start true none create_server ≡ gives s
    → run es s ≡ some t
    → stop t ≡ none
unfolding start create_server
stop-websocket es s t e er =
    let es' : record { exit = none; loop = at_select; handled = []; raised = [] } ≡ s = cc in
    stop-nil t (run-nil es at_select [] [] t (rw (es') er))

-- a tcp server that has handled connections and waits in Accept
abbrev pub in_accept : List ℕ → List String → Server
in_accept handled raised = record {
  exit = some 0;
  loop = accepting;
  handled = handled;
  raised = raised;
}

serve-exit :
    (is : List Incoming) (handled : List ℕ) (raised : List String)
    → (serve is
        (record { exit = some 1; loop = at_select; handled = handled; raised = raised })).handled
      ≡ handled
unfolding serve select_exit accept
serve-exit [] h r = refl
serve-exit (i ∷ is) h r = serve-returned is (some 0) h r

-- A tcp server that is stopped while it waits in Accept still calls its handler for the connection
-- that comes in next, and for none after that.
pub stop-in_accept :
    (handled : List ℕ) (raised : List String) (c : ℕ) (is : List Incoming)
    → (t : Server) × ((stop (in_accept handled raised) ≡ some t)
        × ((serve is (accept (accepted c) t)).handled ≡ handled ++ c ∷ []))
unfolding stop accept
stop-in_accept h r c is = (_, (refl, serve-exit is (h ++ c ∷ []) r))
