-- ===== src/Examples/Swept.antt =====
-- A session that is used again after the table of offsets was swept.
use event_tracking.Prelude.{◌≡◌, ◌*◌, refl, false, List, [], ◌∷◌, some}
use event_tracking.Prelude.Int.{pos, ◌+ℤ◌, ◌-ℤ◌, int_laws}
use event_tracking.Time.{day}
use event_tracking.Enrich.Offsets.{SessionKey, same_key}
use event_tracking.Enrich.Offsets.Postgres.{OffsetRow, Pool, upsert, get_or_set}
use event_tracking.Enrich.Offsets.Postgres.Retention.{sweep, Tended, retained}
use event_tracking.Examples.Samples.{noon}

abbrev quiet : SessionKey
quiet = record { tenant_id = "t1"; device_id = "d1"; session_id = "s0" }

abbrev active : SessionKey
active = record { tenant_id = "t1"; device_id = "d1"; session_id = "s1" }

abbrev table : Pool
table = record {
  session_offsets =
      record { key = quiet; offset_ms = pos 7; last_seen = noon -ℤ pos (25 * day) } ∷ [];
  now = noon;
  fails = false;
  unheard = false;
}

abbrev swept_rows : List OffsetRow
swept_rows = record { key = active; offset_ms = pos 500; last_seen = noon } ∷ []

abbrev later : Pool
later = record {
  session_offsets = swept_rows;
  now = noon +ℤ pos (29 * day);
  fails = false;
  unheard = false;
}

first : (get_or_set active (pos 500) table).0 ≡ some (pos 500)
unfolding get_or_set upsert same_key
first = refl

swept :
    swept_rows
    ≡ sweep (noon +ℤ pos (20 * day)) (get_or_set active (pos 500) table).1.session_offsets
unfolding get_or_set upsert sweep same_key ◌+ℤ◌ ◌-ℤ◌
swept = refl

path : Tended noon (get_or_set active (pos 500) table).1.session_offsets swept_rows
path = Tended.swept Tended.start (noon +ℤ pos (20 * day)) (omega int_laws) swept

again : (get_or_set active (pos 900) later).0 ≡ some (pos 500)
unfolding get_or_set upsert same_key
again = refl

retained_example : pos 500 ≡ pos 500
retained_example =
    retained active (pos 500) (pos 900) (pos 500) (pos 500) table later first path again
