-- ===== src/Websocket/Frames.antt =====
-- pkg/core/websocket/conn.go: what reading a connection gives.
use drlee.Prelude.{ℕ, String, some, List, [], ◌∷◌, ◌≡◌, refl, map, length}
use drlee.Context.{gives}
use drlee.Websocket.{
  OpCode, op_binary, Frame, new_text_frame, unmask, read_frame, write_frame, read_frames,
}

abbrev pub refused : OpCode → List Frame → List Frame
refused op_binary fs = new_text_frame "binary frame is not supported" ∷ fs
refused _ fs = fs

-- one answer for each binary frame
abbrev pub refusals : List Frame → List Frame
refusals [] = []
refusals (f ∷ fs) = refused f.op_code (refusals fs)

-- Texts that one side writes are read on the other side, in their order, one by each read.
pub read_frames-write_frame :
    (cipher : ℕ → String → String) (bodies : List String)
    → read_frames cipher (length bodies) (map (λ body. gives (write_frame body)) bodies)
      ≡ map (λ body. some (gives body)) bodies
unfolding read_frames read_frame write_frame unmask
read_frames-write_frame cipher [] = refl
read_frames-write_frame cipher (body ∷ bodies) = rw (read_frames-write_frame cipher bodies) refl
