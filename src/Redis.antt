-- ===== src/Redis.antt =====
-- pkg/core/redis/redis.go: a client for a script. What url.Parse, ParseInt and Redis give is given.
pub mod Arrays
use drlee.Prelude.{
  ℕ, zero, suc, String, Bool, true, false, Option, none, some, List, [], ◌∷◌, length, ltb,
  if◌then◌else◌, str_eq, concat,
}
use drlee.Prelude.Result.{Result, ok, raise, panic, ◌>>=◌}
use drlee.Lua.{LValue}
use drlee.Context.{Returned, fails, gives}
use drlee.Marshal.{GoValue}
use drlee.Marshal.Types.{GoType, Val, Tree, Go}
use drlee.Marshal.Writing.{marshal}
use drlee.Sql.{last, unmarshal_arguments}
use drlee.Sql.Running.{Any, Reply, reply_error, replied}

-- url.URL, as far as it is used: the path without its first byte, `none` where it is empty, and
-- the password where there is a user ("" where that has none)
pub record Uri : Type 0 where
  pub scheme : String
  pub host : String
  pub path : Option String
  pub password : Option String

pub record Options : Type 0 where
  pub addr : String
  pub db : ℕ
  pub password : String

-- the number of the database; `parse_int` is ParseInt to base 10 and 32 bits
unfoldable pub db_of : (String → Returned ℕ) → Option String → Result ℕ
db_of parse_int none = ok 0
db_of parse_int (some p) = elim (parse_int p) [
  | fails err ↦ raise (concat "unable to parse db \"" (concat p (concat "\": " err)))
  | gives n ↦ ok n
]

-- lRedisNew: the options of the client
unfoldable pub redis_new : (String → Returned Uri) → (String → Returned ℕ) → String → Result Options
unfolding db_of
redis_new parse parse_int uri_string = elim (parse uri_string) [
  | fails err ↦ raise (concat "unable to parse \"" (concat uri_string (concat "\": " err)))
  | gives uri ↦
      if str_eq uri.scheme "redis"
      then (db_of parse_int uri.path >>= λ db. ok (record {
        addr = uri.host;
        db = db;
        password = elim uri.password [ none ↦ "" | some pwd ↦ pwd ];
      }))
      else raise (concat "uri schema \"" (concat uri.scheme "\" is not supported"))
]

abbrev pub from_second : {F : Type 0} → List (LValue F) → List (LValue F)
from_second (_ ∷ vs) = vs
from_second [] = []

-- lCall up to `ec.Call`, on the frame with the client: the arguments of the command and the
-- callback. `make` panics on a negative length.
unfoldable pub call_of :
    {F : Type 0}
    → (LValue F → Result (GoValue F))
    → List (LValue F)
    → Result (List (GoValue F) × LValue F)
unfolding unmarshal_arguments
call_of un frame =
    if ltb (length frame) 2
    then panic
    else unmarshal_arguments un (from_second frame) >>= λ args. ok (args, last frame)

-- what lCall's callback gets for the answer of Redis
unfoldable pub call_answer :
    {F N A : Type 0} → Go F N A → Returned (Any N) → Result (Reply (Tree F A))
unfolding replied
call_answer g (fails err) = ok (reply_error err)
call_answer g (gives result) = replied (marshal g result)
