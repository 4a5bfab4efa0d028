-- ===== src/Context/Callbacks.antt =====
-- pkg/core/execution_context.go and callback.go: what becomes of the calls, whichever goroutine
-- moves next.
use drlee.Prelude.{
  ℕ, zero, suc, ◌+◌, String, ◌≡◌, refl, Bool, false, Option, some, List, [], ◌∷◌, ◌++◌,
  if◌then◌else◌, get_elem?, update_at, arith, Option-cases, inl, inr,
}
use drlee.Context.{
  LuaCall, lua, GoCall, go, callback, Worker, idle, ended, running, sending, Context, Returned,
  fails, gives, call_lua, lua_turn, lua_exit, take_go, go_exit, callback_call, finish_go, send_go,
  call_lua_later,
}

-- What a goroutine of the context does next.
pub data Turn (V : Type 0) : Type 0 where
  runs : Option String → Turn V
  ends_lua : Turn V
  takes : ℕ → Turn V
  ends : ℕ → Turn V
  finishes : ℕ → Returned V → Turn V
  sends : ℕ → Turn V

module _ {V : Type 0} (nil : V) (l_error : String → V) where
  unfoldable pub step : Turn V → Context V → Option (Context V)
  unfolding lua_turn lua_exit take_go go_exit finish_go send_go
  step (runs err) ec = lua_turn err ec
  step ends_lua ec = lua_exit ec
  step (takes i) ec = take_go i ec
  step (ends i) ec = go_exit i ec
  step (finishes i r) ec = finish_go nil l_error i r ec
  step (sends i) ec = send_go i ec

  module _ (p : V → Bool) where
    abbrev pub of_lua : LuaCall V → ℕ
    of_lua (lua cb _) = if p cb then 1 else 0
    of_lua _ = 0

    abbrev pub of_go : GoCall V → ℕ
    of_go (callback _ cb) = if p cb then 1 else 0
    of_go (go _) = 0

    abbrev pub of_worker : Worker V → ℕ
    of_worker (running c) = of_go c
    of_worker (sending c) = of_lua c
    of_worker _ = 0

    abbrev pub in_lua : List (LuaCall V) → ℕ
    in_lua [] = 0
    in_lua (c ∷ cs) = of_lua c + in_lua cs

    abbrev pub in_go : List (GoCall V) → ℕ
    in_go [] = 0
    in_go (c ∷ cs) = of_go c + in_go cs

    abbrev pub in_workers : List (Worker V) → ℕ
    in_workers [] = 0
    in_workers (w ∷ ws) = of_worker w + in_workers ws

    -- how many calls of a callback that passes the test there are, run or still to be run
    abbrev pub total : Context V → ℕ
    total ec = in_go ec.g_calls + in_workers ec.workers + in_lua ec.l_calls + in_lua ec.ran

    in_lua-append :
        (cs : List (LuaCall V)) (c : LuaCall V) → in_lua (cs ++ c ∷ []) ≡ in_lua cs + of_lua c
    in_lua-append [] c = omega arith
    in_lua-append (d ∷ cs) c = omega (arith, in_lua-append cs c)

    in_workers-update_at :
        (ws : List (Worker V)) (i : ℕ) (w w' : Worker V)
        → get_elem? ws i ≡ some w
        → in_workers (update_at i (λ _. w') ws) + of_worker w ≡ in_workers ws + of_worker w'
    in_workers-update_at [] i w w' e = cc
    in_workers-update_at (x ∷ ws) zero w w' e = let q : x ≡ w = cc in rw q (omega arith)
    in_workers-update_at (x ∷ ws) (suc i) w w' e = omega (arith, in_workers-update_at ws i w w' e)

    of_lua-callback_call :
        (cb : V) (r : Returned V)
        → of_lua (callback_call nil l_error cb r) ≡ (if p cb then 1 else 0)
    unfolding callback_call
    of_lua-callback_call cb (fails e) = refl
    of_lua-callback_call cb (gives v) = refl

    total-lua_turn :
        (err : Option String) (ec ec' : Context V) (cs : List (LuaCall V))
        → ec.closed ≡ false
        → ec.l_calls ≡ cs
        → lua_turn err ec ≡ some ec'
        → total ec' ≡ total ec
    unfolding lua_turn call_lua
    total-lua_turn err ec ec' [] o q e = ground arith
    total-lua_turn err ec ec' (c ∷ rest) o q e = ground (arith, in_lua-append ec.ran c)

    total-take_go :
        (i : ℕ) (ec ec' : Context V) (w : Worker V) (cs : List (GoCall V))
        → ec.closed ≡ false
        → get_elem? ec.workers i ≡ some w
        → ec.g_calls ≡ cs
        → take_go i ec ≡ some ec'
        → total ec' ≡ total ec
    unfolding take_go
    total-take_go i ec ec' idle [] o h q e = ground arith
    total-take_go i ec ec' idle (c ∷ cs) o h q e =
        ground (arith, in_workers-update_at ec.workers i idle (running c) h)
    total-take_go i ec ec' ended cs o h q e = ground arith
    total-take_go i ec ec' (running c) cs o h q e = ground arith
    total-take_go i ec ec' (sending c) cs o h q e = ground arith

    total-finish_go :
        (i : ℕ) (r : Returned V) (ec ec' : Context V) (w : Worker V)
        → get_elem? ec.workers i ≡ some w
        → finish_go nil l_error i r ec ≡ some ec'
        → total ec' ≡ total ec
    unfolding finish_go
    total-finish_go i r ec ec' idle h e = ground arith
    total-finish_go i r ec ec' ended h e = ground arith
    total-finish_go i r ec ec' (sending c) h e = ground arith
    total-finish_go i r ec ec' (running (go f)) h e =
        ground (arith, in_workers-update_at ec.workers i (running (go f)) idle h)
    total-finish_go i r ec ec' (running (callback f cb)) h e = ground (
      arith,
      of_lua-callback_call cb r,
      in_workers-update_at ec.workers i (running (callback f cb))
          (sending (callback_call nil l_error cb r)) h,
    )

    total-send_go :
        (i : ℕ) (ec ec' : Context V) (w : Worker V)
        → get_elem? ec.workers i ≡ some w
        → send_go i ec ≡ some ec'
        → total ec' ≡ total ec
    unfolding send_go call_lua_later
    total-send_go i ec ec' idle h e = ground arith
    total-send_go i ec ec' ended h e = ground arith
    total-send_go i ec ec' (running c) h e = ground arith
    total-send_go i ec ec' (sending c) h e =
        ground
          (arith, in_lua-append ec.l_calls c, in_workers-update_at ec.workers i (sending c) idle h)

    total-go_exit :
        (i : ℕ) (ec ec' : Context V) (w : Worker V) (n : ℕ)
        → get_elem? ec.workers i ≡ some w
        → ec.exit_tokens ≡ n
        → go_exit i ec ≡ some ec'
        → total ec' ≡ total ec
    unfolding go_exit
    total-go_exit i ec ec' idle zero h q e = ground arith
    total-go_exit i ec ec' idle (suc n) h q e =
        ground (arith, in_workers-update_at ec.workers i idle ended h)
    total-go_exit i ec ec' ended n h q e = ground arith
    total-go_exit i ec ec' (running c) n h q e = ground arith
    total-go_exit i ec ec' (sending c) n h q e = ground arith

    total-lua_exit :
        (ec ec' : Context V) (n : ℕ)
        → ec.exit_tokens ≡ n
        → lua_exit ec ≡ some ec'
        → total ec' ≡ total ec
    unfolding lua_exit
    total-lua_exit ec ec' zero q e = ground arith
    total-lua_exit ec ec' (suc n) q e = ground arith

    -- Whatever goroutine of an open context moves, and whatever the functions give, no callback is
    -- lost, doubled or made up, by whatever test one counts: each waits in the queue of Go calls, is
    -- with one goroutine, waits in the queue of Lua calls, or was run.
    pub step_conserves :
        (t : Turn V) (ec ec' : Context V)
        → ec.closed ≡ false
        → step t ec ≡ some ec'
        → total ec' ≡ total ec
    unfolding step
    step_conserves (runs err) ec ec' o e = total-lua_turn err ec ec' ec.l_calls o refl e
    step_conserves ends_lua ec ec' o e = total-lua_exit ec ec' ec.exit_tokens refl e
    step_conserves (takes i) ec ec' o e = elim (Option-cases (get_elem? ec.workers i)) [
      | inl h ↦ unfold take_go in ground arith
      | inr (w, h) ↦ total-take_go i ec ec' w ec.g_calls o h refl e
    ]
    step_conserves (ends i) ec ec' o e = elim (Option-cases (get_elem? ec.workers i)) [
      | inl h ↦ unfold go_exit in ground arith
      | inr (w, h) ↦ total-go_exit i ec ec' w ec.exit_tokens h refl e
    ]
    step_conserves (finishes i r) ec ec' o e = elim (Option-cases (get_elem? ec.workers i)) [
      | inl h ↦ unfold finish_go in ground arith
      | inr (w, h) ↦ total-finish_go i r ec ec' w h e
    ]
    step_conserves (sends i) ec ec' o e = elim (Option-cases (get_elem? ec.workers i)) [
      | inl h ↦ unfold send_go in ground arith
      | inr (w, h) ↦ total-send_go i ec ec' w h e
    ]
