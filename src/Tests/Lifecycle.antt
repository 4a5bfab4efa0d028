-- ===== src/Tests/Lifecycle.antt =====
-- A node with two workers that reloads its script.
use drlee.Prelude.{String, false, Option, none, some, [], ◌∷◌}
use drlee.ReplyBox.{new_reply_box}
use drlee.Lifecycle.{Listeners, System}

abbrev node : System String String String
node = record {
  is_reloading = false;
  script = "server.lua";
  concurrency = 2;
  starting = [];
  exits = 0 ∷ 1 ∷ [];
  told = [];
  listeners = ("tcp", (":80", "l1") ∷ []) ∷ [];
  closed = [];
  inbox = record { queue = []; workers = []; consumers = [] };
  replybox = new_reply_box;
  server = record {
    node_name = "a";
    services = [];
    local_services = ("sum", 1) ∷ [];
    endpoints = [];
    endpoint_rpcs = [];
    closed = [];
    broadcasts = [];
  };
}

abbrev compiles : String → Option String
compiles path = none

abbrev opens : String → String → Option String
opens network addr = some "l2"

abbrev held_listeners : Listeners String
held_listeners = ("tcp", (":80", "l1") ∷ []) ∷ []

abbrev more_listeners : Listeners String
more_listeners = ("tcp", (":80", "l1") ∷ (":81", "l2") ∷ []) ∷ []
