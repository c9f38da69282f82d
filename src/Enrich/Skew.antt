-- ===== src/Enrich/Skew.antt =====
-- services/ingest/internal/enrich/skew.go: clock offsets and corrected timestamps
pub mod Bounds
use event_tracking.Prelude.{ℕ, ◌*◌, ◌/◌, Bool, true, false, ◌||◌, if◌then◌else◌}
use event_tracking.Prelude.Int.{ℤ, pos, negsuc, ◌+ℤ◌, ◌-ℤ◌, ltb_ℤ, leb_ℤ, wrap64}
use event_tracking.Time.{Time, day, millisecond, time_sub, unix_milli, of_unix_milli}

abbrev pub max_future_skew : ℕ
max_future_skew = day

abbrev pub max_past_skew : ℕ
max_past_skew = 30 * day

-- time.UnixMilli(tsClientMS + offsetMS), the sum of int64 values
unfoldable pub shifted : ℤ → ℤ → Time
shifted ts_client_ms offset_ms = of_unix_milli (wrap64 (ts_client_ms +ℤ offset_ms))

unfoldable pub correct : ℤ → ℤ → Time → Time × Bool
correct ts_client_ms offset_ms received_at =
    let ts = shifted ts_client_ms offset_ms in
    if ltb_ℤ (pos max_future_skew) (time_sub ts received_at)
    then (received_at, true)
    else if ltb_ℤ (pos max_past_skew) (time_sub received_at ts)
    then (received_at, true)
    else (ts, false)

-- Duration.Milliseconds is the integer division by 10 ^ 6.
unfoldable pub candidate_offset : ℤ → Time → ℤ
candidate_offset sent_at_ms received_at =
    let offset = wrap64 (unix_milli received_at -ℤ sent_at_ms) in
    if leb_ℤ sent_at_ms (pos 0)
    then pos 0
    else if ltb_ℤ (pos (max_past_skew / millisecond)) offset
        || ltb_ℤ offset (pos 0 -ℤ pos (max_future_skew / millisecond))
    then pos 0
    else offset
