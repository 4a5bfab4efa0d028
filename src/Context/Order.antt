-- ===== src/Context/Order.antt =====
-- pkg/core/execution_context.go: the order of Lua calls, and where their errors go.
use drlee.Prelude.{
  ℕ, zero, suc, String, ◌≡◌, refl, false, Option, some, List, [], ◌∷◌, ◌++◌, get_elem?, arith,
  append_assoc, Option-cases, inl, inr,
}
use mathlib.Core.List.{append-nil}
use drlee.Context.{
  LuaCall, GoCall, go, callback, Worker, idle, ended, running, sending, Context, Returned, call_lua,
  lua_turn, lua_exit, take_go, go_exit, finish_go, send_go, call_lua_later,
}
use drlee.Context.Callbacks.{Turn, runs, ends_lua, takes, ends, finishes, sends, step}

module _ {V : Type 0} where
  -- the Lua calls in their order: those that were run and those that wait
  abbrev pub sequence : Context V → List (LuaCall V)
  sequence ec = ec.ran ++ ec.l_calls

  abbrev Extends : Context V → Context V → Type 0
  Extends ec ec' = (new : List (LuaCall V)) × (sequence ec' ≡ sequence ec ++ new)

  same : (ec ec' : Context V) → ec'.ran ≡ ec.ran → ec'.l_calls ≡ ec.l_calls → Extends ec ec'
  same ec ec' r l = ([], rw (r, l, append-nil (ec.ran ++ ec.l_calls)) refl)

  Extends-lua_turn :
      (err : Option String) (ec ec' : Context V) (cs : List (LuaCall V))
      → ec.closed ≡ false
      → ec.l_calls ≡ cs
      → lua_turn err ec ≡ some ec'
      → Extends ec ec'
  unfolding lua_turn call_lua
  Extends-lua_turn err ec ec' [] o q e = ([], ground arith)
  Extends-lua_turn err ec ec' (c ∷ rest) o q e =
      ([], ground (arith, append_assoc ec.ran (c ∷ []) rest, append-nil (ec.ran ++ ec.l_calls)))

  Extends-lua_exit :
      (ec ec' : Context V) (n : ℕ) → ec.exit_tokens ≡ n → lua_exit ec ≡ some ec' → Extends ec ec'
  unfolding lua_exit
  Extends-lua_exit ec ec' zero q e = ([], ground arith)
  Extends-lua_exit ec ec' (suc n) q e = same ec ec' (ground arith) (ground arith)

  Extends-take_go :
      (i : ℕ) (ec ec' : Context V) (w : Worker V) (cs : List (GoCall V))
      → get_elem? ec.workers i ≡ some w
      → ec.g_calls ≡ cs
      → take_go i ec ≡ some ec'
      → Extends ec ec'
  unfolding take_go
  Extends-take_go i ec ec' idle [] h q e = ([], ground arith)
  Extends-take_go i ec ec' idle (c ∷ cs) h q e = same ec ec' (ground arith) (ground arith)
  Extends-take_go i ec ec' ended cs h q e = ([], ground arith)
  Extends-take_go i ec ec' (running c) cs h q e = ([], ground arith)
  Extends-take_go i ec ec' (sending c) cs h q e = ([], ground arith)

  Extends-go_exit :
      (i : ℕ) (ec ec' : Context V) (w : Worker V) (n : ℕ)
      → get_elem? ec.workers i ≡ some w
      → ec.exit_tokens ≡ n
      → go_exit i ec ≡ some ec'
      → Extends ec ec'
  unfolding go_exit
  Extends-go_exit i ec ec' idle zero h q e = ([], ground arith)
  Extends-go_exit i ec ec' idle (suc n) h q e = same ec ec' (ground arith) (ground arith)
  Extends-go_exit i ec ec' ended n h q e = ([], ground arith)
  Extends-go_exit i ec ec' (running c) n h q e = ([], ground arith)
  Extends-go_exit i ec ec' (sending c) n h q e = ([], ground arith)

  Extends-send_go :
      (i : ℕ) (ec ec' : Context V) (w : Worker V)
      → get_elem? ec.workers i ≡ some w
      → send_go i ec ≡ some ec'
      → Extends ec ec'
  unfolding send_go call_lua_later
  Extends-send_go i ec ec' idle h e = ([], ground arith)
  Extends-send_go i ec ec' ended h e = ([], ground arith)
  Extends-send_go i ec ec' (running c) h e = ([], ground arith)
  Extends-send_go i ec ec' (sending c) h e =
      (c ∷ [], ground (arith, append_assoc ec.ran ec.l_calls (c ∷ [])))

  Extends-finish_go :
      (nil : V) (l_error : String → V) (i : ℕ) (r : Returned V) (ec ec' : Context V) (w : Worker V)
      → get_elem? ec.workers i ≡ some w
      → finish_go nil l_error i r ec ≡ some ec'
      → Extends ec ec'
  unfolding finish_go
  Extends-finish_go nil l_error i r ec ec' idle h e = ([], ground arith)
  Extends-finish_go nil l_error i r ec ec' ended h e = ([], ground arith)
  Extends-finish_go nil l_error i r ec ec' (sending c) h e = ([], ground arith)
  Extends-finish_go nil l_error i r ec ec' (running (go f)) h e =
      same ec ec' (ground arith) (ground arith)
  Extends-finish_go nil l_error i r ec ec' (running (callback f cb)) h e =
      same ec ec' (ground arith) (ground arith)

  -- Lua calls are run in the order in which they were put into their queue: whatever goroutine of
  -- an open context moves, the calls that were run followed by those that wait stay as they are,
  -- except that new calls come at the end.
  pub step_keeps_order :
      (nil : V) (l_error : String → V) (t : Turn V) (ec ec' : Context V)
      → ec.closed ≡ false
      → step nil l_error t ec ≡ some ec'
      → (new : List (LuaCall V)) × (sequence ec' ≡ sequence ec ++ new)
  unfolding step
  step_keeps_order nil l_error (runs err) ec ec' o e =
      Extends-lua_turn err ec ec' ec.l_calls o refl e
  step_keeps_order nil l_error ends_lua ec ec' o e = Extends-lua_exit ec ec' ec.exit_tokens refl e
  step_keeps_order nil l_error (takes i) ec ec' o e = elim (Option-cases (get_elem? ec.workers i)) [
    | inl h ↦ ([], unfold take_go in ground arith)
    | inr (w, h) ↦ Extends-take_go i ec ec' w ec.g_calls h refl e
  ]
  step_keeps_order nil l_error (ends i) ec ec' o e = elim (Option-cases (get_elem? ec.workers i)) [
    | inl h ↦ ([], unfold go_exit in ground arith)
    | inr (w, h) ↦ Extends-go_exit i ec ec' w ec.exit_tokens h refl e
  ]
  step_keeps_order nil l_error (finishes i r) ec ec' o e =
      elim (Option-cases (get_elem? ec.workers i)) [
        | inl h ↦ ([], unfold finish_go in ground arith)
        | inr (w, h) ↦ Extends-finish_go nil l_error i r ec ec' w h e
      ]
  step_keeps_order nil l_error (sends i) ec ec' o e = elim (Option-cases (get_elem? ec.workers i)) [
    | inl h ↦ ([], unfold send_go in ground arith)
    | inr (w, h) ↦ Extends-send_go i ec ec' w h e
  ]
