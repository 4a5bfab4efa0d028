-- ===== src/Stream.antt =====
-- pkg/core/stream/reader.go, writer.go and closer.go: the functions read, write and close of files,
-- connections and bodies. Bytes are numbers, a string of Lua is its bytes. What Read, Write and
-- Close of the Go value do is given; `int_of` is the conversion of a float64 to int.
pub mod Transfer
use drlee.Prelude.{
  ℕ, zero, suc, ◌+◌, ◌-◌, String, Bool, true, false, Option, none, some, List, [], ◌∷◌, ◌++◌,
  length,
}
use drlee.Prelude.Int.{ℤ, pos, negsuc}
use drlee.Prelude.Result.{Result, ok, raise, panic, fatal, ◌>>=◌}
use drlee.Lua.{LType, LValue}
use drlee.Params.{Param, number_param, string_param, check, get}
use drlee.Context.{Returned, fails, gives}

pub data ReadError : Type 0 where
  eof : ReadError
  failed : String → ReadError

-- What a callback of the three is called with: an error, or nil and the results.
pub data Reply : Type 0 where
  reply_error : String → Reply
  read_result : List ℕ → ℕ → Reply
  written : ℕ → Reply
  closed : Reply

-- make([]byte, size)
unfoldable pub zeros : ℕ → List ℕ
zeros zero = []
zeros (suc n) = 0 ∷ zeros n

-- the buffer after Read has put bytes at its start
unfoldable pub fill : List ℕ → List ℕ → List ℕ
fill [] buf = buf
fill (b ∷ bs) [] = []
fill (b ∷ bs) (_ ∷ buf) = b ∷ fill bs buf

-- The function of lRead for a size, on the bytes that Read gave and its error. It runs on a
-- goroutine that recovers nothing, so that a negative size, on which `make` panics, ends the process.
unfoldable pub read : ℤ → List ℕ → Option ReadError → Result Reply
unfolding zeros fill
read (negsuc _) bytes err = fatal
read (pos size) bytes (some (failed e)) = ok (reply_error e)
read (pos size) bytes err = ok (read_result (fill bytes (zeros size)) (length bytes))

-- the function of lWrite, on how many bytes Write took and its error
unfoldable pub write : Returned ℕ → Reply
write (fails e) = reply_error e
write (gives n) = written n

-- The function of lClose, on the error of Close: what the callback gets, and whether the resource
-- is cancelled.
unfoldable pub close : Option String → Reply × Bool
close (some e) = (reply_error e, true)
close none = (closed, true)

-- lRead and lWrite up to `ec.Call`: the callback, and the size or the string. `start` is startIndex.
module _ {F : Type 0} (bad : ℕ → LType → LType → String) (start : ℕ) where
  abbrev first_number : LValue F × List (Param F) → Result (LValue F × F)
  first_number (cb, number_param x ∷ _) = ok (cb, x)
  first_number _ = panic

  abbrev first_string : LValue F × List (Param F) → Result (LValue F × String)
  first_string (cb, string_param s ∷ _) = ok (cb, s)
  first_string _ = panic

  unfoldable pub l_read : F → List (LValue F) → Result (LValue F × F)
  unfolding check
  l_read zero_number frame =
      check "read(size, cb?)" bad start 1 (number_param zero_number ∷ []) frame >>= first_number

  unfoldable pub l_write : List (LValue F) → Result (LValue F × String)
  unfolding check
  l_write frame = check "write(buf, cb?)" bad start 1 (string_param "" ∷ []) frame >>= first_string
