-- ===== src/Broadcast/Results.antt =====
-- pkg/server/lua_rpc.go luaRPCBroadcast: one result for each answer to come, in order.
use drlee.Prelude.{ℕ, String, ◌≡◌, refl, Option, none, some, List, [], ◌∷◌, ◌++◌, map, All}
use drlee.Prelude.Dict.{Dict}
use drlee.Prelude.Result.{ok}
use drlee.Time.{Time}
use drlee.Message.{RpcResponse, Response}
use drlee.Registry.{Server}
use drlee.Call.{CallRequest}
use drlee.ReplyBox.{Received, value}
use drlee.Broadcast.{Answer, id_list, failed, asked, response_of, collect}

module _ (watch : String → Received) (answer : String → RpcResponse) where
  -- Every id is answered by its channel.
  abbrev pub Answered : List String → Type 0
  Answered = All (λ id. watch id ≡ value (answer id))

  -- the results of ids that are answered
  abbrev pub results : List String → List Response
  results = map (λ id. response_of (answer id))

  pub collect_all : (ids : List String) → Answered ids → collect watch ids ≡ some (ok (results ids))
  unfolding collect
  collect_all [] h = refl
  collect_all (id ∷ ids) (h, hs) = rw (h, collect, collect_all ids hs) refl

  module _ {Conn : Type 0} (uuid : ℕ → String) (now : Time) (text : String)
      (rpc : Conn → CallRequest → Answer) (req : CallRequest) (s : Server Conn) where
    abbrev error_of : String → List Response
    error_of message = record { body = ""; error = some message } ∷ []

    -- The results that a node should give: those of its workers, or one error.
    abbrev pub expected : Option Answer → List Response
    expected none = error_of text
    expected (some (failed message)) = error_of message
    expected (some (id_list ids)) = results ids

    abbrev pub all_expected : Dict ℕ → List Response
    all_expected [] = []
    all_expected ((node, _) ∷ group) =
        expected (asked uuid now text rpc req s node) ++ all_expected group

    -- What was put into the reply box is what its channel gives.
    abbrev pub AreKept : List RpcResponse → Type 0
    AreKept = All (λ res. (watch res.id ≡ value res) × (answer res.id ≡ res))

    -- The nodes' own ids are answered.
    abbrev pub NodesAnswer : Type 0
    NodesAnswer =
        (node : String) (ids : List String)
        → asked uuid now text rpc req s node ≡ some (id_list ids)
        → Answered ids
