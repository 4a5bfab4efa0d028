-- ===== src/Lib.antt =====
-- Dr.LEE, a distributed execution environment for Lua: the nodes of a cluster run the same Lua
-- script in several workers, learn of one another's services by gossip, and call them over gRPC.
-- The paths below are from the repository's root.
--
-- The parts and how they meet. A worker's `rpc.call` (Rpc, pkg/core/rpc/rpc.go) becomes a Request
-- that the node routes (Call, pkg/server/lua_rpc.go): to its own inbox, or over a connection to a
-- node that the registry knows (Registry, pkg/server/server.go, delegate.go, event_delegate.go,
-- lua_rpc_env.go). The serving node queues it (Inbox, pkg/server/inbox.go), a worker's goroutine
-- takes it to the handler, and the handler's answer goes back (Reply, pkg/server/lua_rpc_env.go,
-- rpc_reply.go, rpc_server.go) into the reply box of the calling node (ReplyBox,
-- pkg/server/replybox.go), which wakes the call. Call.Journey and Call.Crossing follow a whole call
-- through these parts, on its own node and to another. A broadcast asks the workers of all nodes that
-- offer a service (Broadcast, pkg/server/lua_rpc.go). Workers are started, stopped and started
-- again with the script (Lifecycle, pkg/server/lua_run.go, listeners.go, debug.go).
--
-- Each worker has an execution context (Context, pkg/core/execution_context.go, call.go,
-- callback.go): one goroutine runs its Lua calls, some run its Go calls. What a script opens is in
-- its resource pool (Resource, pkg/core/resource.go). Arguments come in by Params
-- (pkg/core/helpers/params), Go values go out as objects (Object, pkg/core/object), and messages
-- between nodes are JSON (Json and Json.Decoding, pkg/core/json/json.go). Marshal (pkg/core/helpers/marshal.go)
-- turns values of Go into values of Lua and back: with a type and struct tags (Marshal.Types,
-- Marshal.Writing, Marshal.Reading), without one (UnmarshalToMap, in Marshal), and copies values of
-- Lua (Marshal.Cloning).
--
-- The modules of a script stand on these. Sql (pkg/core/sql/sql.go) and Redis
-- (pkg/core/redis/redis.go) take their arguments by UnmarshalToMap and answer by Marshal. Stream
-- (pkg/core/stream) reads, writes and closes files, connections and bodies. Http
-- (pkg/core/http/server.go, types.go) is a request between net/http and the script's handler, and
-- Http.Messages (request.go, types.go) what the handler and the client see of it,
-- Sockets (pkg/core/network/server.go, pkg/core/websocket/server.go) the accept loops, Websocket
-- (pkg/core/websocket/conn.go, client.go) the frames. Timers is pkg/core/time/time.go and Fs
-- pkg/core/fs/fs.go, from the frame of a function to what the library is called with.
--
-- Meta: meta.go, the bytes of a node's metadata. Time: Go's Time and Duration, whole nanoseconds,
-- with the saturation of Sub, the rounding of Milliseconds and the 64-bit wrap of a product.
-- Message: the messages between the parts. Lua: the values of gopher-lua. Prelude: shared types
-- and lemmas; Prelude.Dict is Go's map with string keys, Prelude.Result how a Go function ends.
-- Tests: the theorems at concrete inputs.
--
-- Conventions. A handler is a function from the old state to the new one. A Go channel is a list
-- with its capacity, `select` is a choice of the environment, and concurrent callers are events in
-- any order. A `[]byte` that holds text is a String; a logged line is left out. Weights are whole
-- numbers, since the program makes no weight but 1. Loops over a linked list run on fuel, and the
-- theorems ask for as much as the list has nodes; the JSON encoder runs on as much as there are
-- tables and one more, and is proved to need no more. Code outside the repository (GOB, JSON, gRPC,
-- uuids, the disk queue, the Lua machine) is a parameter, with what is assumed of it as a
-- hypothesis of the theorem that uses it.
--
-- Not modelled: the command line and the records of settings, the object of a connection, which only
-- passes values on, a server that is started twice, and the generated code of proto/. Marshal's values are finite trees: a type that
-- refers to itself and a table shared by two others are left out, except for UnmarshalToMap and
-- Clone, whose tables are references.
pub mod Resource
pub mod Context
pub mod Params
pub mod Object
pub mod Json
pub mod Marshal
pub mod Http
pub mod Sql
pub mod Fs
pub mod Timers
pub mod Redis
pub mod Stream
pub mod Websocket
pub mod Sockets
pub mod Prelude
pub mod Meta
pub mod Time
pub mod Message
pub mod ReplyBox
pub mod Registry
pub mod Inbox
pub mod Lua
pub mod Rpc
pub mod Reply
pub mod Call
pub mod Broadcast
pub mod Lifecycle
pub mod Tests
