-- ===== src/Websocket.antt =====
-- pkg/core/websocket/conn.go and client.go: the frames of a connection. What ReadFrame of
-- github.com/gobwas/ws gives is a list, frames and errors as they come; `cipher` is its Cipher.
pub mod Frames
use drlee.Prelude.{
  ℕ, zero, suc, ◌+◌, String, Bool, true, false, Option, none, some, List, [], ◌∷◌, if◌then◌else◌,
  str_eq,
}
use drlee.Prelude.Result.{Result, ok, raise}
use drlee.Context.{Returned, fails, gives}

pub data OpCode : Type 0 where
  op_text op_binary op_continuation op_close op_ping op_pong : OpCode

-- ws.Frame; the mask is there where Header.Masked is true
pub record Frame : Type 0 where
  pub op_code : OpCode
  pub mask : Option ℕ
  pub payload : String

-- ws.NewTextFrame, as far as it is used
abbrev pub new_text_frame : String → Frame
new_text_frame body = record { op_code = op_text; mask = none; payload = body }

-- ws.Cipher, where the frame is masked
unfoldable pub unmask : (ℕ → String → String) → Frame → String
unmask cipher f = elim f.mask [ none ↦ f.payload | some m ↦ cipher m f.payload ]

-- What came of lConnReadFrame: the result for the callback, `none` while it waits; the frames that
-- were written meanwhile, in order; and what is still to be read.
pub record Read : Type 0 where
  pub result : Option (Returned String)
  pub written : List Frame
  pub left : List (Returned Frame)

-- the loop of lConnReadFrame and the call of its callback
unfoldable pub read_frame : (ℕ → String → String) → List (Returned Frame) → Read
unfolding unmask
read_frame cipher [] = record { result = none; written = []; left = [] }
read_frame cipher (fails err ∷ incoming) = record {
  result = some (fails err);
  written = [];
  left = incoming;
}
read_frame cipher (gives frame ∷ incoming) =
    let more = read_frame cipher incoming in
    elim frame.op_code [
      | op_text ↦ record {
        result = some (gives (unmask cipher frame));
        written = [];
        left = incoming;
      }
      | op_binary ↦ record more {
        written = new_text_frame "binary frame is not supported" ∷ more.written;
      }
      | op_continuation ↦ more
      | op_close ↦ more
      | op_ping ↦ more
      | op_pong ↦ more
    ]

-- lConnWriteFrame: the frame that is written, whichever side of the connection writes
unfoldable pub write_frame : String → Frame
write_frame body = new_text_frame body

-- reading again and again, `n` times, while there is something to read
unfoldable pub read_frames :
    (ℕ → String → String) → ℕ → List (Returned Frame) → List (Option (Returned String))
unfolding read_frame
read_frames cipher zero incoming = []
read_frames cipher (suc n) incoming =
    let r = read_frame cipher incoming in r.result ∷ read_frames cipher n r.left

-- lDial, on the error of url.Parse or the scheme and the host: where `dial` connects to
unfoldable pub dial : Returned (String × String) → Result (String × String)
dial (fails err) = raise err
dial (gives (scheme, host)) =
    if str_eq scheme "ws" then ok ("tcp", host) else raise "only ws:// protocol is supported"

-- the function of lDial, on what dial and Upgrade give: the connection of the new object
unfoldable pub dialed : Returned ℕ → Option String → Returned ℕ
dialed (fails err) _ = fails err
dialed (gives conn) (some err) = fails err
dialed (gives conn) none = gives conn
