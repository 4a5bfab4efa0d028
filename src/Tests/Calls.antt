-- ===== src/Tests/Calls.antt =====
-- The execution context at concrete inputs; a Lua value is a number here.
use drlee.Prelude.{ℕ, String, ◌≡◌, refl, Bool, none, [], ◌∷◌, ◌==◌}
use drlee.Context.{
  Context, scoped, lua, callback, idle, running, start, close, gives, fails, lua_turn, finish_go,
  send_go, take_go, call_lua, callback_call, call_lua_later,
}
use drlee.Context.Callbacks.{
  step, runs, takes, finishes, sends, ends, ends_lua, total, step_conserves,
}
use drlee.Context.Closing.{run, living, tokens_left}

abbrev errors : String → ℕ
errors message = 1

abbrev is_seven : ℕ → Bool
is_seven v = v == 7

-- two goroutines for Go calls, one of them in the callback 7
abbrev open_context : Context ℕ
open_context = record (start 4 4 (idle ∷ running (callback 3 7) ∷ [])) {
  l_calls = scoped 1 ∷ [];
  g_calls = callback 2 7 ∷ [];
}

abbrev taken : Context ℕ
taken = record open_context {
  workers = running (callback 2 7) ∷ running (callback 3 7) ∷ [];
  g_calls = [];
}

step_conserves_example : total 0 errors is_seven taken ≡ total 0 errors is_seven open_context
unfolding step take_go start
step_conserves_example = step_conserves 0 errors is_seven (takes 0) open_context taken refl refl

-- The callback 7 of an open context gets its error, then the context is closed.
callback_served :
    (run 0 errors
      (finishes 1 (fails "no file") ∷ sends 1 ∷ runs none ∷ runs none ∷ [])
      open_context).ran
    ≡ scoped 1 ∷ lua 7 (1 ∷ []) ∷ []
unfolding run step finish_go send_go lua_turn call_lua callback_call call_lua_later start
callback_served = refl

tokens_left_example :
    (run 0 errors (ends_lua ∷ ends 0 ∷ finishes 1 (gives 5) ∷ []) (close open_context)).exit_tokens
    ≡ living (run 0 errors (ends_lua ∷ ends 0 ∷ finishes 1 (gives 5) ∷ []) (close open_context))
unfolding start
tokens_left_example =
    tokens_left 0 errors (ends_lua ∷ ends 0 ∷ finishes 1 (gives 5) ∷ []) open_context refl refl refl
