-- ===== src/Call.antt =====
-- pkg/server/lua_rpc.go and rpc_server.go: a call from a Lua worker, from the choice of a node to
-- the request that the chosen node queues. A `range` over a Go map comes in an order of its own
-- each time, so `order` and `order'` arrange the group for its two loops; `draw` is
-- rand.Float64() * total rounded up, which decides the same comparisons with whole weights.
pub mod Pick
pub mod Routing
pub mod Deadline
pub mod Journey
pub mod Crossing
use drlee.Prelude.{
  ℕ, ◌+◌, String, Bool, true, false, Option, none, some, List, [], ◌∷◌, leb, if◌then◌else◌, is_some,
}
use drlee.Prelude.Int.{ℤ, pos}
use drlee.Prelude.Dict.{Dict, lookup}
use drlee.Prelude.Result.{Result, ok, raise, panic, fatal}
use drlee.Time.{Time, Duration, is_zero, sub, milliseconds, of_milliseconds}
use drlee.Message.{RpcRequest, RpcResponse, Request}
use drlee.Registry.{Server, get_remote_rpc}
use drlee.ReplyBox.{Received, value, nil, empty}

-- totalWeight
unfoldable pub total_weight : Dict ℕ → ℕ
total_weight [] = 0
total_weight ((_, w) ∷ group) = w + total_weight group

-- The loop that adds up weights until they reach the target; "" where it ends without.
unfoldable pub pick : ℕ → ℕ → Dict ℕ → String
pick target current [] = ""
pick target current ((name, w) ∷ group) =
    let rest = pick target (current + w) group in if leb target (current + w) then name else rest

-- proto.CallRequest
pub record CallRequest : Type 0 where
  pub name : String
  pub body : String
  pub node_name : String
  pub timeout_milliseconds : ℤ

-- the timeout of a call: 0 if it has no deadline
unfoldable pub timeout_of : Time → Request → Duration
timeout_of now req = if is_zero req.expires_at then pos 0 else sub req.expires_at now

-- Where luaRPCCall sends a request.
pub data Route (Conn : Type 0) : Type 0 where
  local : RpcRequest → Route Conn
  remote : Conn → CallRequest → Route Conn
  not_registered : Route Conn

module _ {Conn : Type 0} where
  abbrev pub remote_route :
      (Dict ℕ → Dict ℕ)
      → (Dict ℕ → Dict ℕ)
      → (ℕ → ℕ)
      → Duration
      → Request
      → Dict ℕ
      → Server Conn
      → Route Conn
  remote_route order order' draw timeout req group s =
      let target = draw (total_weight (order group)) in
      elim (get_remote_rpc (pick target 0 (order' group)) s) [
        | none ↦ not_registered
        | some conn ↦ remote conn (record {
          name = req.name;
          body = req.body;
          node_name = s.node_name;
          timeout_milliseconds = milliseconds timeout;
        })
      ]

  -- luaRPCCall up to its first wait. A method of this node is called here.
  unfoldable pub route :
      (Dict ℕ → Dict ℕ)
      → (Dict ℕ → Dict ℕ)
      → (ℕ → ℕ)
      → Time
      → String
      → Request
      → Server Conn
      → Route Conn
  unfolding timeout_of
  route order order' draw now id req s =
      let timeout = timeout_of now req in
      if is_some (lookup req.name s.local_services)
      then local (record {
        id = id;
        name = req.name;
        body = req.body;
        timestamp = now;
        timeout = timeout;
        node_name = "";
        is_loop_back = true;
      })
      else elim (lookup req.name s.services) [
        | none ↦ not_registered
        | some group ↦ remote_route order order' draw timeout req group s
      ]

-- RPCCall, on the chosen node: what it puts into its inbox
unfoldable pub rpc_call : Time → String → CallRequest → RpcRequest
rpc_call now id req = record {
  id = id;
  name = req.name;
  body = req.body;
  timestamp = now;
  timeout = of_milliseconds req.timeout_milliseconds;
  node_name = req.node_name;
  is_loop_back = false;
}

-- The end of luaRPCCall and of callLuaRPCMethod, at what came out of the watched channel: a nil
-- response is dereferenced.
unfoldable pub finish : Received → Option (Result String)
finish empty = none
finish nil = some panic
finish (value res) = some (if res.is_error then raise res.result else ok res.result)
