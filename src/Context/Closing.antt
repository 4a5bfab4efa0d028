-- ===== src/Context/Closing.antt =====
-- pkg/core/execution_context.go: Close, and the goroutines that it ends.
use drlee.Prelude.{
  ℕ, zero, suc, ◌+◌, String, ◌≡◌, refl, true, Option, none, some, List, [], ◌∷◌, length,
  if◌then◌else◌, get_elem?, update_at, arith, Option-cases, inl, inr,
}
use drlee.Context.{
  LuaCall, GoCall, go, callback, Worker, idle, ended, running, sending, Context, Returned, call_lua,
  lua_turn, lua_exit, take_go, go_exit, finish_go, send_go, call_lua_later, close, callback_call,
}
use drlee.Context.Callbacks.{Turn, runs, ends_lua, takes, ends, finishes, sends, step}

module _ {V : Type 0} where
  abbrev pub alive : Worker V → ℕ
  alive ended = 0
  alive _ = 1

  abbrev pub all_alive : List (Worker V) → ℕ
  all_alive [] = 0
  all_alive (w ∷ ws) = alive w + all_alive ws

  -- how many goroutines of the context have not ended
  abbrev pub living : Context V → ℕ
  living ec = all_alive ec.workers + (if ec.lua_running then 1 else 0)

  all_alive-update_at :
      (ws : List (Worker V)) (i : ℕ) (w w' : Worker V)
      → get_elem? ws i ≡ some w
      → all_alive (update_at i (λ _. w') ws) + alive w ≡ all_alive ws + alive w'
  all_alive-update_at [] i w w' e = cc
  all_alive-update_at (x ∷ ws) zero w w' e = let q : x ≡ w = cc in rw q (omega arith)
  all_alive-update_at (x ∷ ws) (suc i) w w' e = omega (arith, all_alive-update_at ws i w w' e)

  all_alive-length :
      (ws : List (Worker V)) → all_alive ws ≡ length ws → all_alive ws + 1 ≡ suc (length ws)
  all_alive-length ws h = omega arith

  living-lua_turn :
      (err : Option String) (ec ec' : Context V) (cs : List (LuaCall V))
      → ec.l_calls ≡ cs
      → lua_turn err ec ≡ some ec'
      → (living ec' ≡ living ec) × (ec'.exit_tokens ≡ ec.exit_tokens)
  unfolding lua_turn call_lua
  living-lua_turn err ec ec' [] q e = ground arith
  living-lua_turn err ec ec' (c ∷ rest) q e = ground arith

  -- a goroutine and a token end together
  abbrev Together : Context V → Context V → Type 0
  Together ec ec' = living ec' + ec.exit_tokens ≡ living ec + ec'.exit_tokens

  Together-lua_exit :
      (ec ec' : Context V) (n : ℕ) → ec.exit_tokens ≡ n → lua_exit ec ≡ some ec' → Together ec ec'
  unfolding lua_exit
  Together-lua_exit ec ec' zero q e = ground arith
  Together-lua_exit ec ec' (suc n) q e = ground arith

  Together-take_go :
      (i : ℕ) (ec ec' : Context V) (w : Worker V) (cs : List (GoCall V))
      → get_elem? ec.workers i ≡ some w
      → ec.g_calls ≡ cs
      → take_go i ec ≡ some ec'
      → Together ec ec'
  unfolding take_go
  Together-take_go i ec ec' idle [] h q e = ground arith
  Together-take_go i ec ec' idle (c ∷ cs) h q e =
      ground
        (arith, all_alive-update_at ec.workers i idle (if ec.closed then idle else running c) h)
  Together-take_go i ec ec' ended cs h q e = ground arith
  Together-take_go i ec ec' (running c) cs h q e = ground arith
  Together-take_go i ec ec' (sending c) cs h q e = ground arith

  Together-go_exit :
      (i : ℕ) (ec ec' : Context V) (w : Worker V) (n : ℕ)
      → get_elem? ec.workers i ≡ some w
      → ec.exit_tokens ≡ n
      → go_exit i ec ≡ some ec'
      → Together ec ec'
  unfolding go_exit
  Together-go_exit i ec ec' idle zero h q e = ground arith
  Together-go_exit i ec ec' idle (suc n) h q e =
      ground (arith, all_alive-update_at ec.workers i idle ended h)
  Together-go_exit i ec ec' ended n h q e = ground arith
  Together-go_exit i ec ec' (running c) n h q e = ground arith
  Together-go_exit i ec ec' (sending c) n h q e = ground arith

  Together-send_go :
      (i : ℕ) (ec ec' : Context V) (w : Worker V)
      → get_elem? ec.workers i ≡ some w
      → send_go i ec ≡ some ec'
      → Together ec ec'
  unfolding send_go call_lua_later
  Together-send_go i ec ec' idle h e = ground arith
  Together-send_go i ec ec' ended h e = ground arith
  Together-send_go i ec ec' (running c) h e = ground arith
  Together-send_go i ec ec' (sending c) h e =
      ground (arith, all_alive-update_at ec.workers i (sending c) idle h)

  module _ (nil : V) (l_error : String → V) where
    Together-finish_go :
        (i : ℕ) (r : Returned V) (ec ec' : Context V) (w : Worker V)
        → get_elem? ec.workers i ≡ some w
        → finish_go nil l_error i r ec ≡ some ec'
        → Together ec ec'
    unfolding finish_go
    Together-finish_go i r ec ec' idle h e = ground arith
    Together-finish_go i r ec ec' ended h e = ground arith
    Together-finish_go i r ec ec' (sending c) h e = ground arith
    Together-finish_go i r ec ec' (running (go f)) h e =
        ground (arith, all_alive-update_at ec.workers i (running (go f)) idle h)
    Together-finish_go i r ec ec' (running (callback f cb)) h e = ground (
      arith,
      all_alive-update_at ec.workers i (running (callback f cb))
          (sending (callback_call nil l_error cb r)) h,
    )

    step-Together :
        (t : Turn V) (ec ec' : Context V) → step nil l_error t ec ≡ some ec' → Together ec ec'
    unfolding step
    step-Together (runs err) ec ec' e =
        let (a, b) = living-lua_turn err ec ec' ec.l_calls refl e in omega arith
    step-Together ends_lua ec ec' e = Together-lua_exit ec ec' ec.exit_tokens refl e
    step-Together (takes i) ec ec' e = elim (Option-cases (get_elem? ec.workers i)) [
      | inl h ↦ unfold take_go in ground arith
      | inr (w, h) ↦ Together-take_go i ec ec' w ec.g_calls h refl e
    ]
    step-Together (ends i) ec ec' e = elim (Option-cases (get_elem? ec.workers i)) [
      | inl h ↦ unfold go_exit in ground arith
      | inr (w, h) ↦ Together-go_exit i ec ec' w ec.exit_tokens h refl e
    ]
    step-Together (finishes i r) ec ec' e = elim (Option-cases (get_elem? ec.workers i)) [
      | inl h ↦ unfold finish_go in ground arith
      | inr (w, h) ↦ Together-finish_go i r ec ec' w h e
    ]
    step-Together (sends i) ec ec' e = elim (Option-cases (get_elem? ec.workers i)) [
      | inl h ↦ unfold send_go in ground arith
      | inr (w, h) ↦ Together-send_go i ec ec' w h e
    ]

    -- a run of the context: turns that cannot be taken are left out
    unfoldable pub run : List (Turn V) → Context V → Context V
    unfolding step
    run [] ec = ec
    run (t ∷ ts) ec = elim (step nil l_error t ec) [ none ↦ run ts ec | some ec' ↦ run ts ec' ]

    run-balanced :
        (ts : List (Turn V)) (ec : Context V)
        → ec.exit_tokens ≡ living ec
        → (run ts ec).exit_tokens ≡ living (run ts ec)
    unfolding run
    run-balanced [] ec h = h
    run-balanced (t ∷ ts) ec h = elim (Option-cases (step nil l_error t ec)) [
      | inl e ↦ rw (e, run) (run-balanced ts ec h)
      | inr (ec', e) ↦
          let q = step-Together t ec ec' e in rw (e, run) (run-balanced ts ec' (omega arith))
    ]

    -- After Close of a context all of whose goroutines are running: however they go on, there are
    -- as many tokens left as goroutines that have not ended. So none of them waits for a token that
    -- another one took, and none is left over.
    pub tokens_left :
        (ts : List (Turn V)) (ec : Context V)
        → ec.exit_tokens ≡ 0
        → ec.lua_running ≡ true
        → all_alive ec.workers ≡ length ec.workers
        → (run ts (close ec)).exit_tokens ≡ living (run ts (close ec))
    unfolding close
    tokens_left ts ec z l a = run-balanced ts (close ec) (ground arith)
