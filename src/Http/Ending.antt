-- ===== src/Http/Ending.antt =====
-- pkg/core/http/server.go ServeHTTP: when it returns, and how often its channel can be sent to.
use drlee.Prelude.{
  ℕ, suc, ◌≤◌, String, Bool, true, false, Option, none, some, List, [], ◌∷◌, ◌++◌, length,
  if◌then◌else◌, ◌≡◌, refl, ap, arith, length-append, append_assoc, append-nil,
}
use drlee.Http.{
  Serving, serve_http, send, receive, Event, finishes, releases, receives, handler_fails, step, run,
  finish, on_error, release,
}

-- what the events send to `ch`
abbrev pub sent : List Event → List (Option String)
sent [] = []
sent (receives ∷ es) = sent es
sent (handler_fails e ∷ es) = some e ∷ sent es
sent (_ ∷ es) = none ∷ sent es

-- what ServeHTTP has received
abbrev got : Serving → List (Option String)
got s = if s.returned then s.failure ∷ [] else []

send-inv :
    (err : Option String) (ch : List (Option String)) (returned cancelled : Bool) (closes : ℕ)
    (failure : Option String) (t : Serving)
    → send err (record {
      ch = ch;
      returned = returned;
      body_closes = closes;
      cancelled = cancelled;
      failure = failure;
    })
      ≡ some t
    → (ch ≡ [])
      × (t ≡ record {
        ch = err ∷ [];
        returned = returned;
        body_closes = closes;
        cancelled = cancelled;
        failure = failure;
      })
unfolding send
send-inv err [] r c n f t e = (refl, cc)
send-inv err (x ∷ xs) r c n f t e = ground arith

-- Everything that was sent was received or is in the channel, in the order in which it was sent.
abbrev Accounts : List (Option String) → Serving → Type 0
Accounts all s = (got s ++ s.ch ≡ all) × ((length s.ch ≤ 1) × (s.cancelled ≡ s.returned))

sent-Accounts :
    (err : Option String) (all : List (Option String)) (returned cancelled : Bool) (closes : ℕ)
    (failure : Option String)
    → Accounts all (record {
      ch = [];
      returned = returned;
      body_closes = closes;
      cancelled = cancelled;
      failure = failure;
    })
    → Accounts (all ++ err ∷ []) (record {
      ch = err ∷ [];
      returned = returned;
      body_closes = closes;
      cancelled = cancelled;
      failure = failure;
    })
sent-Accounts err all true c n f h = (ap (λ l. l ++ err ∷ []) h.0, (omega arith, h.1.1))
sent-Accounts err all false c n f h = (ap (λ l. l ++ err ∷ []) h.0, (omega arith, h.1.1))

send-Accounts :
    (err : Option String) (all ch : List (Option String)) (returned cancelled : Bool) (closes : ℕ)
    (failure : Option String) (t : Serving)
    → Accounts all (record {
      ch = ch;
      returned = returned;
      body_closes = closes;
      cancelled = cancelled;
      failure = failure;
    })
    → send err (record {
      ch = ch;
      returned = returned;
      body_closes = closes;
      cancelled = cancelled;
      failure = failure;
    })
      ≡ some t
    → Accounts (all ++ err ∷ []) t
send-Accounts err all [] r c n f t h e =
    rw ((send-inv err [] r c n f t e).1) (sent-Accounts err all r c n f h)
send-Accounts err all (x ∷ xs) r c n f t h e = let bad = (send-inv err (x ∷ xs) r c n f t e).0 in cc

receive-Accounts :
    (all : List (Option String)) (ch : List (Option String)) (returned cancelled : Bool)
    (closes : ℕ) (failure : Option String) (t : Serving)
    → Accounts all (record {
      ch = ch;
      returned = returned;
      body_closes = closes;
      cancelled = cancelled;
      failure = failure;
    })
    → receive (record {
      ch = ch;
      returned = returned;
      body_closes = closes;
      cancelled = cancelled;
      failure = failure;
    })
      ≡ some t
    → Accounts all t
unfolding receive
receive-Accounts all [] false c n f t h e = cc
receive-Accounts all (x ∷ xs) false c n f t h e =
    let et : t
        ≡ record { ch = xs; returned = true; body_closes = suc n; cancelled = true; failure = x } =
      cc in
    rw (et) (h.0, (omega arith, refl))
receive-Accounts all ch true c n f t h e = cc

abbrev sent_by : Event → List (Option String)
sent_by e = sent (e ∷ [])

step-Accounts :
    (e : Event) (all : List (Option String)) (s t : Serving)
    → Accounts all s
    → step e s ≡ some t
    → Accounts (all ++ sent_by e) t
unfolding step finish on_error release
step-Accounts finishes all s t h e =
    send-Accounts none all s.ch s.returned s.cancelled s.body_closes s.failure t h e
step-Accounts releases all s t h e =
    send-Accounts none all s.ch s.returned s.cancelled (suc s.body_closes) s.failure t h e
step-Accounts (handler_fails err) all s t h e =
    send-Accounts (some err) all s.ch s.returned s.cancelled s.body_closes s.failure t h e
step-Accounts receives all s t h e =
    let same : all ++ [] ≡ all = append-nil all in
    rw (same) (receive-Accounts all s.ch s.returned s.cancelled s.body_closes s.failure t h e)

run-cons :
    (o : Option Serving) (es : List Event) (t : Serving)
    → elim o [ none ↦ none | some u ↦ run es u ] ≡ some t
    → (u : Serving) × ((o ≡ some u) × (run es u ≡ some t))
run-cons none es t e = cc
run-cons (some u) es t e = (u, (refl, e))

sent-cons : (ev : Event) (es : List Event) → sent (ev ∷ es) ≡ sent_by ev ++ sent es
sent-cons finishes es = refl
sent-cons releases es = refl
sent-cons receives es = refl
sent-cons (handler_fails err) es = refl

run-Accounts :
    (es : List Event) (all : List (Option String)) (s t : Serving)
    → Accounts all s
    → run es s ≡ some t
    → Accounts (all ++ sent es) t
unfolding run
run-Accounts [] all s t h e = let same : s ≡ t = cc in rw (append-nil all, ← same) h
run-Accounts (ev ∷ es) all s t h e =
    let (u, (eu, et)) = run-cons (step ev s) es t e in
    rw (sent-cons ev es, ← append_assoc all (sent_by ev) (sent es))
      (run-Accounts es (all ++ sent_by ev) u t (step-Accounts ev all s u h eu) et)

-- ServeHTTP can go on, and then it has returned what was sent first.
abbrev pub GoesOn : Option String → Serving → Type 0
GoesOn first s =
    (t : Serving) × ((receive s ≡ some t)
      × ((t.returned ≡ true) × ((t.cancelled ≡ true) × (t.failure ≡ first))))

receive-first :
    (first : Option String) (rest ch : List (Option String)) (returned cancelled : Bool)
    (closes : ℕ) (failure : Option String)
    → Accounts (first ∷ rest) (record {
      ch = ch;
      returned = returned;
      body_closes = closes;
      cancelled = cancelled;
      failure = failure;
    })
    → returned ≡ false
    → GoesOn first (record {
      ch = ch;
      returned = returned;
      body_closes = closes;
      cancelled = cancelled;
      failure = failure;
    })
unfolding receive
receive-first first rest [] false c n f h e = cc
receive-first first rest (x ∷ xs) false c n f h e =
    let same : x ≡ first = let eq = h.0 in cc in (_, (refl, (refl, (refl, same))))
receive-first first rest ch true c n f h e = cc

got-le : (returned : Bool) (f : Option String) → length (if returned then f ∷ [] else []) ≤ 1
got-le true f = omega arith
got-le false f = omega arith

-- Once something was sent, ServeHTTP can go on if it has not: it then returns with its resource
-- cancelled, and the failure that it writes is what was sent first.
pub receive-run :
    (es : List Event) (s : Serving) (first : Option String) (rest : List (Option String))
    → run es serve_http ≡ some s
    → sent es ≡ first ∷ rest
    → s.returned ≡ false
    → (t : Serving) × ((receive s ≡ some t)
        × ((t.returned ≡ true) × ((t.cancelled ≡ true) × (t.failure ≡ first))))
unfolding receive serve_http
receive-run es s first rest er ef e =
    let h : Accounts (first ∷ rest) s =
      rw (← ef) (run-Accounts es [] serve_http s (refl, (omega arith, refl)) er) in
    receive-first first rest s.ch s.returned s.cancelled s.body_closes s.failure h e

-- Nothing can be sent a third time: in every run at most two sends happen, so that a third one
-- waits for ever.
pub sent-run : (es : List Event) (s : Serving) → run es serve_http ≡ some s → length (sent es) ≤ 2
unfolding serve_http
sent-run es s e =
    let (ea, (el, ec)) = run-Accounts es [] serve_http s (refl, (omega arith, refl)) e in
    let one = got-le s.returned s.failure in rw (← ea, length-append (got s) s.ch) (omega arith)
