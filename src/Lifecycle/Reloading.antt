-- ===== src/Lifecycle/Reloading.antt =====
-- pkg/server/lua_run.go: what a reload leaves.
use drlee.Prelude.{List, [], ◌++◌}
use drlee.Time.{Time}
use drlee.ReplyBox.{ReplyBox, reset as reset_replies}
use drlee.Registry.{withdraw}
use drlee.Inbox.{reset as reset_inbox}
use drlee.Lifecycle.{System, reset_listeners}

module _ {Conn Lis Bytes : Type 0} where
  abbrev stopped : Time → ReplyBox → System Conn Lis Bytes → System Conn Lis Bytes
  stopped now b s = record (reset_listeners s) {
    told = s.exits ++ s.told;
    exits = [];
    inbox = reset_inbox s.inbox;
    replybox = b;
    server = withdraw now s.server;
  }
