-- ===== src/Message.antt =====
-- The messages of pkg/server/rpc_reply.go and pkg/server/messages.go, and those of
-- pkg/core/rpc/rpc.go. A `[]byte` that holds text, a JSON body or an error's message, is a `String`.
use drlee.Prelude.{ℕ, String, Bool, Option}
use drlee.Time.{Time, Duration}

pub record RpcRequest : Type 0 where
  pub id : String
  pub name : String
  pub body : String
  pub timestamp : Time
  pub timeout : Duration
  pub node_name : String
  pub is_loop_back : Bool

pub record RpcResponse : Type 0 where
  pub id : String
  pub result : String
  pub timestamp : Time
  pub node_name : String
  pub is_error : Bool

-- A weight is a `float64` in the source, and only the value 1 is ever made by it; a natural number.
pub record RegistryBroadcast : Type 0 where
  pub node_name : String
  pub timestamp : Time
  pub name : String
  pub weight : ℕ
  pub is_deleted : Bool

-- coreRPC.Request and coreRPC.Response; `error` is the message of a non-nil error.
pub record Request : Type 0 where
  pub id : String
  pub node_name : String
  pub is_loop_back : Bool
  pub name : String
  pub body : String
  pub expires_at : Time

pub record Response : Type 0 where
  pub body : String
  pub error : Option String
