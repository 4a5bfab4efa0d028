-- ===== src/Context.antt =====
-- pkg/core/execution_context.go, call.go and callback.go: the two queues of calls, the goroutine
-- that runs Lua calls and the ones that run Go calls. A Lua function, a Go function of a call and
-- an error handler are numbers; `V` are the Lua values. What they do is the environment's: a turn
-- gets its result as an argument, `none` for no error. A context is never marked as closed.
pub mod Callbacks
pub mod Closing
pub mod Order
use drlee.Prelude.{
  ℕ, zero, suc, ◌+◌, String, Bool, true, false, Option, none, some, List, [], ◌∷◌, ◌++◌, length,
  ltb, ◌==◌, if◌then◌else◌, get_elem?, update_at,
}

-- LuaCall: callScoped, callLua, callLuaRecoverable
pub data LuaCall (V : Type 0) : Type 0 where
  scoped : ℕ → LuaCall V
  lua : V → List V → LuaCall V
  protected_lua : ℕ → List V → ℕ → LuaCall V

-- GoCall: callGo. A callback is the one that GoFunctionCallback builds.
pub data GoCall (V : Type 0) : Type 0 where
  go : ℕ → GoCall V
  callback : ℕ → V → GoCall V

-- The state of a goroutine that runs Go calls: idle, in a call, about to hand a Lua call to its
-- queue, or ended.
pub data Worker (V : Type 0) : Type 0 where
  idle ended : Worker V
  running : GoCall V → Worker V
  sending : LuaCall V → Worker V

-- To which handler an error went, and the call that was run.
pub data Report (V : Type 0) : Type 0 where
  on_error : String → Report V
  call_on_error : ℕ → String → Report V

-- what the function of a Go call gave
pub data Returned (V : Type 0) : Type 0 where
  fails : String → Returned V
  gives : V → Returned V

pub record Context (V : Type 0) : Type 0 where
  pub l_calls : List (LuaCall V)
  pub g_calls : List (GoCall V)
  pub lua_stack_size : ℕ
  pub go_stack_size : ℕ
  pub exit_tokens : ℕ
  pub lua_running : Bool
  pub workers : List (Worker V)
  pub closed : Bool
  pub ran : List (LuaCall V)  -- in order
  pub reports : List (Report V)  -- latest first

module _ {V : Type 0} where
  -- NewExecutionContext and Start
  unfoldable pub start : ℕ → ℕ → List (Worker V) → Context V
  start lua_size go_size workers = record {
    l_calls = [];
    g_calls = [];
    lua_stack_size = lua_size;
    go_stack_size = go_size;
    exit_tokens = 0;
    lua_running = true;
    workers = workers;
    closed = false;
    ran = [];
    reports = [];
  }

  -- ExecutionContext.Call; `none` while the queue is full
  unfoldable pub call_lua_later : LuaCall V → Context V → Option (Context V)
  call_lua_later c ec =
      if ltb (length ec.l_calls) ec.lua_stack_size
      then some (record ec { l_calls = ec.l_calls ++ c ∷ [] })
      else none

  unfoldable pub call_go_later : GoCall V → Context V → Option (Context V)
  call_go_later c ec =
      if ltb (length ec.g_calls) ec.go_stack_size
      then some (record ec { g_calls = ec.g_calls ++ c ∷ [] })
      else none

  -- GoFunctionCallback
  unfoldable pub go_function_callback : V → ℕ → Context V → Option (Context V)
  unfolding call_go_later
  go_function_callback cb fn ec = call_go_later (callback fn cb) ec

  -- RaiseError: a scoped call that does nothing but fail
  unfoldable pub raise_error : ℕ → Context V → Option (Context V)
  unfolding call_lua_later
  raise_error failing ec = call_lua_later (scoped failing) ec

  -- which handler takes the error of a Lua call
  unfoldable pub report_of : LuaCall V → String → Report V
  report_of (protected_lua _ _ handler) e = call_on_error handler e
  report_of _ e = on_error e

  abbrev pub reported : Option (Report V) → List (Report V) → List (Report V)
  reported none reports = reports
  reported (some r) reports = r ∷ reports

  -- callLua, on a call that ended with `err`
  unfoldable pub call_lua : LuaCall V → Option String → Context V → Context V
  unfolding report_of
  call_lua c err ec = if ec.closed then ec else record ec {
    ran = ec.ran ++ c ∷ [];
    reports = elim err [ none ↦ ec.reports | some e ↦ report_of c e ∷ ec.reports ];
  }

  -- the goroutine of startLua: a call or the exit
  unfoldable pub lua_turn : Option String → Context V → Option (Context V)
  unfolding call_lua
  lua_turn err ec = elim ec.l_calls [
    | [] ↦ none
    | c ∷ rest ↦
        if ec.lua_running then some (call_lua c err (record ec { l_calls = rest })) else none
  ]

  unfoldable pub lua_exit : Context V → Option (Context V)
  lua_exit ec = elim ec.exit_tokens [
    | zero ↦ none
    | suc n ↦
        if ec.lua_running then some (record ec { exit_tokens = n; lua_running = false }) else none
  ]

  abbrev pub put_worker : ℕ → Worker V → Context V → Context V
  put_worker i w ec = record ec { workers = update_at i (λ _. w) ec.workers }

  -- the goroutine of startGo takes a call
  unfoldable pub take_go : ℕ → Context V → Option (Context V)
  take_go i ec = elim (get_elem? ec.workers i) [
    | some idle ↦ elim ec.g_calls [
      | [] ↦ none
      | c ∷ rest ↦
          some (put_worker i (if ec.closed then idle else running c) (record ec { g_calls = rest }))
    ]
    | _ ↦ none
  ]

  unfoldable pub go_exit : ℕ → Context V → Option (Context V)
  go_exit i ec = elim (get_elem? ec.workers i) [
    | some idle ↦ elim ec.exit_tokens [
      | zero ↦ none
      | suc n ↦ some (put_worker i ended (record ec { exit_tokens = n }))
    ]
    | _ ↦ none
  ]

  -- callGo ends: an error of a Go call goes to the context's handler, and a callback sends what its
  -- function gave. `nil` is lua.LNil and `l_error` is utils.LError.
  unfoldable pub callback_call : V → (String → V) → V → Returned V → LuaCall V
  callback_call nil l_error cb (fails e) = lua cb (l_error e ∷ [])
  callback_call nil l_error cb (gives v) = lua cb (nil ∷ v ∷ [])

  unfoldable pub finish_go : V → (String → V) → ℕ → Returned V → Context V → Option (Context V)
  unfolding callback_call
  finish_go nil l_error i r ec = elim (get_elem? ec.workers i) [
    | some (running (go _)) ↦ some (
        put_worker i idle (record ec {
          reports = elim r [ fails e ↦ on_error e ∷ ec.reports | gives _ ↦ ec.reports ];
        }))
    | some (running (callback _ cb)) ↦
        some (put_worker i (sending (callback_call nil l_error cb r)) ec)
    | _ ↦ none
  ]

  -- the send of GoFunctionCallback, which may have to wait
  unfoldable pub send_go : ℕ → Context V → Option (Context V)
  unfolding call_lua_later
  send_go i ec = elim (get_elem? ec.workers i) [
    | some (sending c) ↦ call_lua_later c (put_worker i idle ec)
    | _ ↦ none
  ]

  -- Close: one token for each goroutine. The channel has room for one, so that the tokens are those
  -- that Close has sent or is still sending.
  unfoldable pub close : Context V → Context V
  close ec = record ec { exit_tokens = ec.exit_tokens + suc (length ec.workers) }
