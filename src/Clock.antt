-- ===== src/Clock.antt =====
-- time.Now() as nanoseconds since 1970, and the clock skew of a time stamp that a packet carries.
-- A process runs after 1970, so the current time is a natural number. `time.Since` cuts durations
-- off at 292 years and `time.Unix` wraps beyond the range of a date; both lie far outside the 90
-- seconds that are compared, and the model keeps the exact difference.
use hashshashin.Base.{
  ℕ, ◌+◌, ◌-◌, ◌*◌, ◌/◌, ◌%◌, ◌^◌, ◌<◌, ◌≡◌, Bool, not, ◌||◌, ◌&&◌, arith, ltb, leb, if◌then◌else◌,
}
use hashshashin.Base.Int.{ℤ, pos, negsuc, ◌-ℤ◌, ◌*ℤ◌, ltb_ℤ}

abbrev pub second : ℕ
second = 1000000000

abbrev pub max_skew : ℕ
max_skew = 90 * second

-- uint64(time.Now().Unix()).
abbrev pub unix_u64 : ℕ → ℕ
unix_u64 now = now / second % 2 ^ 64

-- int64(w).
abbrev pub signed64 : ℕ → ℤ
signed64 w = if ltb w (2 ^ 63) then pos w else negsuc (2 ^ 64 - w - 1)

-- time.Since(time.Unix(ts, 0)).
unfoldable pub since : ℕ → ℤ → ℤ
unfolding ◌-ℤ◌ ◌*ℤ◌
since now ts = pos now -ℤ ts *ℤ pos second

-- Not (skew > 90*time.Second || skew < -90*time.Second).
unfoldable pub is_recent : ℕ → ℕ → Bool
unfolding since
is_recent now stamp =
    let skew = since now (signed64 stamp) in
    not (ltb_ℤ (pos max_skew) skew || ltb_ℤ skew (negsuc (max_skew - 1)))

pub is_recent_lem :
    (now stamp : ℕ)
    → stamp < 2 ^ 63
    → is_recent now stamp
      ≡ leb now (stamp * second + max_skew) && leb (stamp * second) (now + max_skew)
unfolding is_recent
is_recent_lem now stamp small = ground arith
