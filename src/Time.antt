-- ===== src/Time.antt =====
-- Go's `time.Time` and `time.Duration` as the server uses them. A `Time` counts nanoseconds from
-- Go's zero time, which is the value 0; a `Duration` is a signed 64-bit number of nanoseconds.
use drlee.Prelude.{suc, ◌-◌, ◌*◌, ◌/◌, ◌%◌, ◌^◌, Bool, ltb, leb, if◌then◌else◌}
use drlee.Prelude.Int.{ℤ, pos, negsuc, pos_part, neg_part, ◌+ℤ◌, ◌-ℤ◌, ltb_ℤ, is_zero_ℤ}

abbrev pub Time : Type 0
Time = ℤ

abbrev pub Duration : Type 0
Duration = ℤ

abbrev pub zero_time : Time
zero_time = pos 0

-- t.IsZero(), t.Before(u), t.Add(d)
abbrev pub is_zero : Time → Bool
is_zero t = is_zero_ℤ t

abbrev pub before : Time → Time → Bool
before t u = ltb_ℤ t u

abbrev pub add : Time → Duration → Time
add t d = t +ℤ d

-- t.Sub(u), and so time.Until(t) at `u` the present, stops at the ends of `int64`.
unfoldable pub sub : Time → Time → Duration
sub t u =
    let d = t -ℤ u in
    if leb (2 ^ 63) (pos_part d)
    then pos (2 ^ 63 - 1)
    else if ltb (2 ^ 63) (neg_part d)
    then negsuc (2 ^ 63 - 1)
    else d

-- d.Milliseconds() divides towards zero.
unfoldable pub milliseconds : Duration → ℤ
milliseconds (pos n) = pos (n / 1000000)
milliseconds (negsuc n) = let q = suc n / 1000000 in if ltb 0 q then negsuc (q - 1) else pos 0

-- time.Millisecond * time.Duration(ms) wraps at 64 bits.
unfoldable pub wrap64 : ℤ → ℤ
wrap64 (pos n) = let r = n % 2 ^ 64 in if ltb r (2 ^ 63) then pos r else negsuc (2 ^ 64 - 1 - r)
wrap64 (negsuc n) = let r = n % 2 ^ 64 in if ltb r (2 ^ 63) then negsuc r else pos (2 ^ 64 - 1 - r)

unfoldable pub of_milliseconds : ℤ → Duration
unfolding wrap64
of_milliseconds (pos n) = wrap64 (pos (n * 1000000))
of_milliseconds (negsuc n) = wrap64 (negsuc (suc n * 1000000 - 1))
