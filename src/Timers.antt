-- ===== src/Timers.antt =====
-- pkg/core/time/time.go: the module `time` of a script. `F` is float64 and `int_of` its conversion
-- to int64.
pub mod Ticking
use drlee.Prelude.{String, Bool, List, [], ◌∷◌, if◌then◌else◌, ◌*◌, ◌/◌, ℕ}
use drlee.Prelude.Int.{ℤ, pos, ltb_ℤ}
use drlee.Prelude.Result.{Result, ok, raise, panic, ◌>>=◌}
use drlee.Prelude.Dict.{Dict}
use drlee.Lua.{LType, LValue}
use drlee.Params.{Param, number_param, check}
use drlee.Time.{Duration, of_milliseconds}

module _ {F : Type 0} (int_of : F → ℤ) (bad : ℕ → LType → LType → String) where
  abbrev sleep_for : LValue F × List (Param F) → Result (LValue F × Duration)
  sleep_for (cb, number_param ms ∷ _) = ok (cb, of_milliseconds (int_of ms))
  sleep_for _ = panic

  -- lTimeout: the callback, and how long the goroutine sleeps before it calls it
  unfoldable pub l_timeout : F → List (LValue F) → Result (LValue F × Duration)
  unfolding check
  l_timeout zero_number frame =
      check "time.timeout(ms, cb?)" bad 1 1 (number_param zero_number ∷ []) frame >>= sleep_for

-- time.NewTicker, which panics unless the period is positive
unfoldable pub new_ticker : Duration → Result Duration
new_ticker d = if ltb_ℤ (pos 0) d then ok d else panic

-- lTick, after CheckInt64: the period of the ticker
unfoldable pub l_tick : ℤ → Result Duration
unfolding new_ticker of_milliseconds
l_tick ms =
    if ltb_ℤ (pos 0) ms
    then new_ticker (of_milliseconds ms)
    else raise "time.tick(ms): repeat period should be larger than 0"

-- A time.Time as its methods show it, from 1970 on.
pub record GoTime : Type 0 where
  pub year : ℕ
  pub month : ℕ
  pub day : ℕ
  pub weekday : ℕ
  pub hour : ℕ
  pub minute : ℕ
  pub second : ℕ
  pub nanosecond : ℕ
  pub unix_nano : ℕ

-- New: the properties of a timestamp
unfoldable pub properties_of : GoTime → Dict ℕ
properties_of t =
    ("year", t.year)
    ∷ ("month", t.month)
    ∷ ("day", t.day)
    ∷ ("weekday", t.weekday)
    ∷ ("hour", t.hour)
    ∷ ("minute", t.minute)
    ∷ ("second", t.second)
    ∷ ("millisecond", t.nanosecond / 1000000)
    ∷ ("milliunix", t.unix_nano / 1000000)
    ∷ []

-- timestampToString and timestampFormat, by the time's Format
unfoldable pub timestamp_to_string : (String → String) → String
timestamp_to_string format = format "2006-01-02T15:04:05.000Z07:00"

unfoldable pub timestamp_format : (String → String) → Result String → Result String
timestamp_format format check_string = check_string >>= λ layout. ok (format layout)
