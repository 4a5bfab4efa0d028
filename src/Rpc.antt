-- ===== src/Rpc.antt =====
-- pkg/core/rpc/rpc.go: a worker's end of the calls, between the node and its Lua handlers.
-- `text` is `LValue.String`, `encode` is json.Encode and `decode` json.Decode; a Lua handler is
-- seen through the replies that it makes.
pub mod Expiry
use drlee.Prelude.{
  ℕ, String, Bool, true, false, not, ◌&&◌, Option, none, some, List, [], ◌∷◌, if◌then◌else◌,
  is_some,
}
use drlee.Prelude.Int.{ℤ, pos}
use drlee.Prelude.Dict.{Dict, lookup, insert}
use drlee.Prelude.Result.{Result, ok, raise}
use drlee.Time.{Time, Duration, zero_time, is_zero, before, add, of_milliseconds}
use drlee.Message.{Request, Response}
use drlee.Lua.{LValue, nil, is_nil}

-- the arguments of env.Reply
pub record Reply : Type 0 where
  pub id : String
  pub node_name : String
  pub is_loop_back : Bool
  pub response : Response

abbrev pub with_error : String → Response
with_error message = record { body = ""; error = some message }

abbrev pub with_body : String → Response
with_body body = record { body = body; error = none }

abbrev pub reply_to : Request → Response → Reply
reply_to req res = record {
  id = req.id;
  node_name = req.node_name;
  is_loop_back = req.is_loop_back;
  response = res;
}

module _ {F : Type 0} where
  -- The function that a handler is given, called with an error and a value. RaiseError does not
  -- return, so the Reply behind it in the source is not reached.
  unfoldable pub reply :
      (LValue F → String)
      → (LValue F → Result String)
      → Time
      → Request
      → LValue F
      → LValue F
      → Result Reply
  reply text encode now req err val =
      if not (is_zero req.expires_at) && before req.expires_at now
      then raise "already timedout"
      else if not (is_nil err)
      then ok (reply_to req (with_error (text err)))
      else elim (encode val) [ ok b ↦ ok (reply_to req (with_body b)) | other ↦ raise "encode" ]

-- What `handle` does with a request: nothing, a reply at once, or a call of the handler.
pub data Handling : Type 0 where
  ignored : Handling
  answered : Reply → Handling
  called : ℕ → Handling

abbrev pub not_found : String
not_found = "method is not found"

-- handlers[req.Name], and then json.Decode of the body in the scoped call
unfoldable pub handle : (String → Bool) → Dict ℕ → Option Request → Handling
handle decodes handlers none = ignored
handle decodes handlers (some req) = elim (lookup req.name handlers) [
  | none ↦ answered (reply_to req (with_error not_found))
  | some handler ↦
      if decodes req.body then called handler else answered (reply_to req (with_error not_found))
]

-- After the handler was called: an error that it raised is the reply.
unfoldable pub after_handler : Request → Option String → List Reply
after_handler req none = []
after_handler req (some message) = reply_to req (with_error message) ∷ []

-- lRegister
unfoldable pub register : String → ℕ → Dict ℕ → Dict ℕ
register name handler handlers = insert name handler handlers

-- auxCall's closure: the deadline of a call by its `timeout` option, a number of milliseconds
unfoldable pub make_request : Time → Option ℤ → String → String → Request
make_request now timeout name body = record {
  id = "";
  node_name = "";
  is_loop_back = false;
  name = name;
  body = body;
  expires_at = elim timeout [ none ↦ zero_time | some ms ↦ add now (of_milliseconds ms) ];
}
