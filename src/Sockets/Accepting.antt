-- ===== src/Sockets/Accepting.antt =====
-- pkg/core/network/server.go and pkg/core/websocket/server.go: which connections are handled.
use drlee.Prelude.{
  ℕ, zero, suc, String, Bool, Option, none, some, List, [], ◌∷◌, ◌++◌, ◌≡◌, refl, append_assoc,
  append-nil, sym, ◌∙◌, true, false,
}
use drlee.Context.{gives}
use drlee.Sockets.{
  Server, create_server, start, at_select, returned, Incoming, accepted, not_accepted, not_upgraded,
  serve, select_exit, accept,
}

-- the connections before the first failure
abbrev pub before_failure : List Incoming → List ℕ
before_failure [] = []
before_failure (accepted c ∷ is) = c ∷ before_failure is
before_failure (_ ∷ is) = []

pub serve-returned :
    (is : List Incoming) (exit : Option ℕ) (handled : List ℕ) (raised : List String)
    → (serve is
        (record { exit = exit; loop = returned; handled = handled; raised = raised })).handled
      ≡ handled
unfolding serve
serve-returned [] x h r = refl
serve-returned (i ∷ is) x h r = serve-returned is x h r

serve-failed :
    (is : List Incoming) (exit : Option ℕ) (handled : List ℕ) (raised : List String)
    → (serve is
        (record { exit = exit; loop = returned; handled = handled; raised = raised })).handled
      ≡ handled ++ []
serve-failed is x h r = serve-returned is x h r ∙ sym (append-nil h)

-- no value is in the channel, nil or not
abbrev IsEmpty : Option ℕ → Type 0
IsEmpty none = Unit
IsEmpty (some n) = n ≡ 0

serve-at_select :
    (is : List Incoming) (exit : Option ℕ) (handled : List ℕ) (raised : List String)
    → IsEmpty exit
    → (serve is
        (record { exit = exit; loop = at_select; handled = handled; raised = raised })).handled
      ≡ handled ++ before_failure is
unfolding serve select_exit accept
serve-at_select [] x h r e = sym (append-nil h)
serve-at_select (accepted c ∷ is) none h r e =
    rw (serve-at_select is none (h ++ c ∷ []) r e) (append_assoc h (c ∷ []) (before_failure is))
serve-at_select (accepted c ∷ is) (some zero) h r e =
    rw (serve-at_select is (some 0) (h ++ c ∷ []) r e) (append_assoc h (c ∷ []) (before_failure is))
serve-at_select (not_accepted err ∷ is) none h r e = serve-failed is none h (r ++ err ∷ [])
serve-at_select (not_accepted err ∷ is) (some zero) h r e =
    serve-failed is (some 0) h (r ++ err ∷ [])
serve-at_select (not_upgraded err ∷ is) none h r e = serve-failed is none h (r ++ err ∷ [])
serve-at_select (not_upgraded err ∷ is) (some zero) h r e =
    serve-failed is (some 0) h (r ++ err ∷ [])
serve-at_select (i ∷ is) (some (suc n)) h r e = cc

-- A started server, of tcp or of websockets, calls its handler for the connections that come in
-- before the first that cannot be accepted or upgraded, in their order, and for none after it.
pub serve-start :
    (websocket : Bool) (is : List Incoming) (s : Server)
    → start websocket none create_server ≡ gives s
    → (serve is s).handled ≡ before_failure is
unfolding start create_server
serve-start true is s e =
    let es : s ≡ record { exit = none; loop = at_select; handled = []; raised = [] } = cc in
    rw (es) (serve-at_select is none [] [] tt)
serve-start false is s e =
    let es : s ≡ record { exit = some 0; loop = at_select; handled = []; raised = [] } = cc in
    rw (es) (serve-at_select is (some 0) [] [] refl)
