-- ===== src/Redis/Arrays.antt =====
-- pkg/core/redis/redis.go with pkg/core/helpers/marshal.go: the answers of Redis that are arrays.
use drlee.Prelude.{some, List, ◌∷◌, ◌≡◌, refl}
use drlee.Prelude.Result.{ok}
use drlee.Context.{gives}
use drlee.Marshal.Types.{slice_of, other, Opaque, Val, kind_of, Go}
use drlee.Marshal.Writing.{marshal, marshal_value, marshal_slice}
use drlee.Sql.Running.{Any, reply_error, replied}
use drlee.Redis.{call_answer}

-- an answer of type []interface{}
unfoldable pub array : (N : Type 0) → List Opaque → Any N
unfolding Val
array N items = some (slice_of (other "interface"), items)

-- A script never gets an array of Redis that is not empty: its callback gets an error.
pub call_answer-array :
    {F N A : Type 0} (g : Go F N A) (item : Opaque) (items : List Opaque)
    → call_answer g (gives (array N (item ∷ items)))
      ≡ ok (reply_error "interface unable to be casted to lua")
unfolding call_answer replied marshal marshal_value marshal_slice array kind_of
call_answer-array g item items = refl
