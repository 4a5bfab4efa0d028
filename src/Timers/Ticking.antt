-- ===== src/Timers/Ticking.antt =====
-- pkg/core/time/time.go: the periods that time.tick accepts.
use drlee.Prelude.{ℕ, ◌*◌, ◌^◌, ◌≤◌, ◌<◌, ltb, if◌then◌else◌, ◌≡◌, arith}
use drlee.Prelude.Int.{pos}
use drlee.Prelude.Result.{ok, panic}
use drlee.Time.{wrap64, of_milliseconds}
use drlee.Timers.{l_tick, new_ticker}

-- time.tick makes a ticker of the period that it is given, in nanoseconds, when this fits 64 bits.
-- A period of up to twice as much wraps to one that is not positive, and time.tick panics.
pub l_tick-bounds :
    (ms : ℕ)
    → 0 < ms
    → ms * 1000000 ≤ 2 ^ 64
    → l_tick (pos ms) ≡ (if ltb (ms * 1000000) (2 ^ 63) then ok (pos (ms * 1000000)) else panic)
unfolding l_tick new_ticker of_milliseconds wrap64
l_tick-bounds ms h hm = ground arith
