-- ===== src/Registry.antt =====
-- pkg/server/server.go, delegate.go, event_delegate.go and the registration half of
-- lua_rpc_env.go and lua_run.go: which services run on which nodes, and the connections to them.
-- `Conn` is a `*grpc.ClientConn` and `dial` is `grpc.Dial` on a host and a port; the time of a
-- message is an argument. Each handler runs under the locks that it takes in the source.
pub mod Services
pub mod Nodes
pub mod Gossip
use drlee.Prelude.{
  ℕ, String, Bool, true, false, Option, none, some, List, [], ◌∷◌, ◌++◌, map, ◌==◌, if◌then◌else◌,
  is_some,
}
use drlee.Prelude.Int.{ℤ}
use drlee.Prelude.Dict.{Dict, lookup, insert, delete}
use drlee.Prelude.Result.{Result, ok, panic, fatal}
use drlee.Time.{Time}
use drlee.Message.{RegistryBroadcast}
use drlee.Meta.{decode_meta}

-- memberlist.Node
pub record Node : Type 0 where
  pub name : String
  pub addr : String
  pub meta : List ℕ

pub record Server (Conn : Type 0) : Type 0 where
  pub node_name : String
  pub services : Dict (Dict ℕ)
  pub local_services : Dict ℕ
  pub endpoints : Dict Conn
  pub endpoint_rpcs : Dict Conn
  pub closed : List Conn  -- those that were closed, latest first
  pub broadcasts : List RegistryBroadcast

abbrev pub services_of : String → Dict (Dict ℕ) → Dict ℕ
services_of name m = elim (lookup name m) [ none ↦ [] | some group ↦ group ]

-- delete(group, node.Name) in every group
unfoldable pub delete_node : String → Dict (Dict ℕ) → Dict (Dict ℕ)
delete_node node [] = []
delete_node node ((name, group) ∷ m) = (name, delete node group) ∷ delete_node node m

abbrev pub announcement : String → Time → Bool → String × ℕ → RegistryBroadcast
announcement node now is_deleted (name, weight) = record {
  node_name = node;
  timestamp = now;
  name = name;
  weight = if is_deleted then 0 else weight;
  is_deleted = is_deleted;
}

-- MessageType 'r'
abbrev pub type_registry_broadcast : ℕ
type_registry_broadcast = b'r'

module _ {Conn : Type 0} where
  -- The inner map is made where it is missing, and then written to.
  unfoldable pub handle_registry_broadcast : RegistryBroadcast → Server Conn → Server Conn
  handle_registry_broadcast b s =
      let group = services_of b.name s.services in
      record s {
        services =
            insert b.name
              (if b.is_deleted then delete b.node_name group else insert b.node_name b.weight group)
              s.services;
      }

  abbrev pub close_old : Option Conn → List Conn → List Conn
  close_old none closed = closed
  close_old (some conn) closed = conn ∷ closed

  -- A connection that is already there is closed and replaced.
  unfoldable pub handle_node :
      (String → ℤ → Option Conn) → Node → Server Conn → Result (Server Conn)
  handle_node dial node s = elim (decode_meta node.meta) [
    | none ↦ panic
    | some meta ↦ elim (dial node.addr meta.rpc_port) [
      | none ↦ fatal
      | some conn ↦ ok (record s {
        endpoints = insert node.name conn s.endpoints;
        endpoint_rpcs = insert node.name conn s.endpoint_rpcs;
        closed = close_old (lookup node.name s.endpoints) s.closed;
      })
    ]
  ]

  unfoldable pub get_remote_rpc : String → Server Conn → Option Conn
  get_remote_rpc name s = lookup name s.endpoint_rpcs

  unfoldable pub notify_join :
      (String → ℤ → Option Conn) → Node → Server Conn → Result (Server Conn)
  notify_join dial node s = handle_node dial node s

  unfoldable pub notify_leave : Node → Server Conn → Server Conn
  unfolding delete_node
  notify_leave node s = record s {
    endpoint_rpcs = delete node.name s.endpoint_rpcs;
    endpoints = delete node.name s.endpoints;
    services = delete_node node.name s.services;
  }

  unfoldable pub notify_update :
      (String → ℤ → Option Conn) → Node → Server Conn → Result (Server Conn)
  notify_update dial node s =
      if is_some (lookup node.name s.endpoints) then handle_node dial node s else ok s

  -- luaRPCEnv.Register
  unfoldable pub register : String → Server Conn → Server Conn
  register name s = record s { local_services = insert name 1 s.local_services }

  -- LocalState, before its JSON
  unfoldable pub local_state : Time → Server Conn → List RegistryBroadcast
  local_state now s = map (announcement s.node_name now false) s.local_services

  -- luaRPCEnv.Start queues one broadcast for each service, and so does StopLua.
  unfoldable pub start : Time → Server Conn → Server Conn
  start now s = record s {
    broadcasts = s.broadcasts ++ map (announcement s.node_name now false) s.local_services;
  }

  unfoldable pub withdraw : Time → Server Conn → Server Conn
  withdraw now s = record s {
    broadcasts = s.broadcasts ++ map (announcement s.node_name now true) s.local_services;
  }

  -- the loop of MergeRemoteState
  unfoldable pub merge : List RegistryBroadcast → Server Conn → Server Conn
  merge [] s = s
  merge (b ∷ bs) s = merge bs (handle_registry_broadcast b s)

  -- MergeRemoteState; `decode` is json.Unmarshal of a list of broadcasts
  unfoldable pub merge_remote_state :
      {Bytes : Type 0}
      → (Bytes → Option (List RegistryBroadcast))
      → Bytes
      → Server Conn
      → Server Conn
  unfolding merge
  merge_remote_state decode buf s = elim (decode buf) [ none ↦ s | some bs ↦ merge bs s ]

  -- NotifyMsg; `decode` is unmarshalMessage's json.Unmarshal of what follows the type byte
  unfoldable pub notify_msg :
      (List ℕ → Option RegistryBroadcast) → List ℕ → Server Conn → Result (Server Conn)
  notify_msg decode [] s = panic
  notify_msg decode (t ∷ rest) s =
      if t == type_registry_broadcast
      then ok (elim (decode rest) [ none ↦ s | some b ↦ handle_registry_broadcast b s ])
      else ok s
