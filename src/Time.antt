-- ===== src/Time.antt =====
-- Go's `time` package as far as the program uses it. A `Time` is the number of nanoseconds since
-- the Unix epoch, a `Duration` a number of nanoseconds that fits an int64.
use event_tracking.Prelude.{
  ℕ, ◌+◌, ◌-◌, ◌*◌, ◌/◌, ◌%◌, ◌^◌, ◌<◌, ◌≡◌, refl, arith, leb, ltb, if◌then◌else◌, String,
}
use event_tracking.Prelude.Int.{
  ℤ, pos, negsuc, ◌+ℤ◌, ◌-ℤ◌, ltb_ℤ, leb_ℤ, scale, floor_div, pos_part,
}
use event_tracking.Prelude.Text.{◌+++◌, decimal}

abbrev pub Time : Type 0
Time = ℤ

abbrev pub Duration : Type 0
Duration = ℤ

abbrev pub millisecond : ℕ
millisecond = 10 ^ 6

abbrev pub second : ℕ
second = 10 ^ 9

abbrev pub hour : ℕ
hour = 3600 * second

abbrev pub day : ℕ
day = 24 * hour

-- the zero `time.Time`, 0001-01-01 00:00:00 UTC
abbrev pub zero_time : Time
zero_time = negsuc (62135596800 * second - 1)

abbrev max_duration : Duration
max_duration = pos (2 ^ 63 - 1)

abbrev min_duration : Duration
min_duration = negsuc (2 ^ 63 - 1)

saturate : ℤ → Duration
saturate d =
    if ltb_ℤ max_duration d then max_duration else if ltb_ℤ d min_duration then min_duration else d

-- t.Sub(u), which saturates
unfoldable pub time_sub : Time → Time → Duration
unfolding saturate
time_sub t u = saturate (t -ℤ u)

-- t.UnixMilli(), t.Unix(), time.UnixMilli(ms)
unfoldable pub unix_milli : Time → ℤ
unix_milli t = floor_div t millisecond

unfoldable pub unix : Time → ℤ
unix t = floor_div t second

unfoldable pub of_unix_milli : ℤ → Time
of_unix_milli ms = scale millisecond ms

-- Saturation does not change a comparison with a duration that an int64 holds.
pub lt-time_sub :
    (k : ℕ) (t u : Time) → k < 2 ^ 62 → ltb_ℤ (pos k) (time_sub t u) ≡ ltb_ℤ (pos k) (t -ℤ u)
unfolding time_sub
lt-time_sub k t u h = ground arith

pub le-time_sub :
    (k : ℕ) (t u : Time) → k < 2 ^ 62 → leb_ℤ (pos k) (time_sub t u) ≡ leb_ℤ (pos k) (t -ℤ u)
unfolding time_sub
le-time_sub k t u h = ground arith

-- Days from 1970-01-01 to a date of the Gregorian calendar in the years from 1600 on, counted from
-- 1600-03-01, which is 135080 days before; `y`, `m`, `d` as in time.Date.
days_since_1600 : ℕ → ℕ → ℕ → ℕ
days_since_1600 y m d =
    let y' = if leb m 2 then y - 1601 else y - 1600 in
    let m' = if leb m 2 then m + 9 else m - 3 in
    365 * y' + y' / 4 + y' / 400 - y' / 100 + (153 * m' + 2) / 5 + d - 1

-- time.Date(y, m, d, h, mi, s, ns, time.UTC)
unfoldable pub date : ℕ → ℕ → ℕ → ℕ → ℕ → ℕ → ℕ → Time
unfolding days_since_1600
date y m d h mi s ns =
    pos (days_since_1600 y m d * day + h * hour + mi * 60 * second + s * second + ns)
    -ℤ pos (135080 * day)

epoch_test : date 1970 1 1 0 0 0 0 ≡ pos 0
unfolding date ◌-ℤ◌
epoch_test = refl

pad2 : ℕ → String
pad2 n = if ltb n 10 then "0" +++ decimal n else decimal n

-- t.UTC().Format("2006-01-02") for the years 1600 to 9999: the inverse of the count of days.
unfoldable pub format_date : Time → String
unfolding pad2
format_date t =
    let z = pos_part (floor_div t day +ℤ pos 135080) in
    let era = z / 146097 in
    let doe = z % 146097 in
    let yoe = (doe - doe / 1460 + doe / 36524 - doe / 146096) / 365 in
    let doy = doe - (365 * yoe + yoe / 4 - yoe / 100) in
    let mp = (5 * doy + 2) / 153 in
    let d = doy - (153 * mp + 2) / 5 + 1 in
    let m = if ltb mp 10 then mp + 3 else mp - 9 in
    let y = 1600 + 400 * era + yoe + (if leb m 2 then 1 else 0) in
    decimal y +++ "-" +++ pad2 m +++ "-" +++ pad2 d

format_test : format_date (date 2026 8 2 23 59 59 0) ≡ "2026-08-02"
unfolding format_date date floor_div ◌+ℤ◌ ◌-ℤ◌ decimal
format_test = refl
