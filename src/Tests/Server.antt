-- ===== src/Tests/Server.antt =====
-- The tables and the reply box of a node at concrete inputs.
use drlee.Prelude.{String, ◌≡◌, refl, true, false, none, some, List, [], ◌∷◌, arith}
use drlee.Prelude.Int.{pos}
use drlee.Prelude.Dict.{lookup}
use drlee.Message.{RpcResponse, RegistryBroadcast}
use drlee.ReplyBox.{
  Watch, ReplyBox, goes, turn, insert_case, watch_case, receive, value, Event, registers, inserts,
  takes, empty, ◌>>=◌,
}
use drlee.ReplyBox.Delivery.{Racing, turn_order}
use drlee.Registry.{Node, Server, merge_remote_state, local_state}
use drlee.Registry.Services.{weight_of}
use drlee.Registry.Nodes.{joins, report, report-IsPaired, Keeps, IsPaired}
use drlee.Registry.Gossip.{merge_remote_state-local_state}

abbrev answer : RpcResponse
answer = record { id = "a"; result = "7"; timestamp = pos 0; node_name = "n"; is_error = false }

abbrev early_box : ReplyBox
early_box = record {
  delete_ch = [];
  insert_ch = answer ∷ [];
  watch_ch = [];
  replies = [];
  chans = λ _. record { owner = ""; buf = []; closed = false };
  next = 0;
}

abbrev watcher : Watch
watcher = record { id = "a"; ch = 0 }

abbrev racing_box : ReplyBox
racing_box = record early_box {
  watch_ch = watcher ∷ [];
  chans = λ _. record { owner = "a"; buf = []; closed = false };
  next = 1;
}

racing : Racing racing_box watcher answer
unfolding lookup
racing = record {
  same_id = refl;
  responses = [];
  watches = [];
  insert_queued = refl;
  watch_queued = refl;
  unknown = refl;
  allocated = omega arith;
  waiting = refl;
}

turn_order_example :
    (good : ReplyBox) × (bad : ReplyBox) × ((turn watch_case racing_box >>= turn insert_case)
      ≡ goes good)
    × (receive 0 good ≡ value answer)
    × (lookup "a" good.replies ≡ none)
    × ((turn insert_case racing_box >>= turn watch_case) ≡ goes bad)
    × (receive 0 bad ≡ empty)
    × (receive 1 bad ≡ value answer)
    × (lookup "a" bad.replies ≡ some watcher)
turn_order_example = turn_order racing_box watcher answer racing

abbrev watched_box : ReplyBox
watched_box = record racing_box { insert_ch = []; watch_ch = []; replies = ("a", watcher) ∷ [] }

abbrev story : List Event
story = registers "a" ∷ takes watch_case ∷ inserts answer ∷ takes insert_case ∷ []

-- Connections are named by their targets.
abbrev node_a : Server String
node_a = record {
  node_name = "a";
  services = [];
  local_services = ("sum", 1) ∷ ("max", 1) ∷ [];
  endpoints = [];
  endpoint_rpcs = [];
  closed = [];
  broadcasts = [];
}

abbrev node_b : Server String
node_b = record node_a {
  node_name = "b";
  services = ("sum", ("a", 5) ∷ ("c", 1) ∷ []) ∷ [];
  local_services = [];
  endpoints = ("a", "x") ∷ [];
  endpoint_rpcs = ("a", "x") ∷ [];
}

abbrev gone : RegistryBroadcast
gone = record { node_name = "a"; timestamp = pos 9; name = "sum"; weight = 0; is_deleted = true }

abbrev joining : Node
joining = record { name = "c"; addr = "10.0.0.3"; meta = 0 ∷ 1 ∷ 0 ∷ 0 ∷ [] }

report-IsPaired_example : Keeps IsPaired (report (λ host port. some host) (joins joining) node_b)
report-IsPaired_example =
    report-IsPaired (λ host port. some host) (joins joining) node_b (λ n. refl)

merge_remote_state-local_state_example :
    weight_of (merge_remote_state some (local_state (pos 3) node_a) node_b) "sum" "a" ≡ some 1
unfolding lookup
merge_remote_state-local_state_example =
    merge_remote_state-local_state (λ bs. bs) some (pos 3) node_a node_b "sum" "a" (λ bs. refl)
      (refl, (refl, tt))
