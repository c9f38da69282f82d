-- ===== src/Quota.antt =====
-- services/ingest/internal/quota/quota.go: daily budgets and rate limits with Redis counters
pub mod Keys
pub mod Admission
pub mod Budget
pub mod Clients
use event_tracking.Prelude.{
  ℕ, ◌+◌, ◌-◌, ◌*◌, ◌/◌, ◌≤◌, String, ◌≡◌, refl, Bool, true, false, ◌&&◌, ◌||◌, Option, none, some,
  ◌==◌, leb, ltb, eqb, if◌then◌else◌,
}
use event_tracking.Prelude.Int.{ℤ, pos, negsuc, ltb_ℤ, leb_ℤ, floor_mod, ◌+ℤ◌, ◌-ℤ◌}
use event_tracking.Prelude.Text.{◌+++◌, decimal, decimal_ℤ}
use event_tracking.Time.{Time, Duration, day, hour, second, unix, format_date, time_sub}
use event_tracking.Limits.{Quota}
use event_tracking.Tenant.{Claims}

-- What becomes of a script call: an answer, an error before the script ran, or an error after it.
pub data Link : Type 0 where
  answers refused reply_lost : Link

-- The Redis commands that the scripts call, over the counters of a server. Redis is not part of the
-- repository. `link` says what becomes of the next script call.
pub record Redis : Type 1 where
  pub Server : Type 0
  pub link : Server → Link
  pub get : String → Server → Option ℕ
  pub incr_by : String → ℕ → Server → Server
  pub expire : String → ℕ → Server → Server
  pub ttl : String → Server → ℤ

-- tonumber(redis.call('GET', key) or '0')
abbrev pub count : Option ℕ → ℕ
count none = 0
count (some n) = n

pub record Decision : Type 0 where
  pub allowed : Bool
  pub retry_after : Duration
  pub reason : String

unfoldable pub rate_key : Claims → Time → String
rate_key cl now =
    "rl:{" +++ cl.tenant_id +++ "}:" +++ cl.install_id +++ ":" +++ decimal_ℤ (unix now)

unfoldable pub day_key : Claims → Time → String
day_key cl now = "q:{" +++ cl.tenant_id +++ "}:" +++ format_date now

-- now.UTC().Truncate(24 * time.Hour).Add(24 * time.Hour).Sub(now.UTC())
unfoldable pub until_next_utc_day : Time → Duration
until_next_utc_day now =
    let next = now -ℤ pos (floor_mod now (24 * hour)) +ℤ pos (24 * hour) in time_sub next now

-- `limit > 0 and used > limit`
unfoldable pub exceeds : ℤ → ℕ → Bool
exceeds limit used = ltb_ℤ (pos 0) limit && ltb_ℤ limit (pos used)

-- what Allow makes of the script's reply
unfoldable pub decision : ℕ × String → Time → Decision
decision (allowed, reason) now =
    if eqb allowed 1 then record { allowed = true; retry_after = pos 0; reason = "" } else record {
      allowed = false;
      retry_after = if reason == "daily_quota" then until_next_utc_day now else pos second;
      reason = reason;
    }

module _ (r : Redis) where
  -- the four commands at the end of allowScript
  unfoldable pub charge : String → String → ℕ → ℕ → ℕ → r.Server → r.Server
  charge rate_key day_key n rate_ttl day_ttl s =
      r.expire day_key day_ttl
        (r.incr_by day_key n (r.expire rate_key rate_ttl (r.incr_by rate_key n s)))

  -- allowScript: the reply is 1 or 0 with the reason
  unfoldable pub allow_script :
      String → String → ℕ → ℤ → ℤ → ℕ → ℕ → r.Server → (ℕ × String) × r.Server
  allow_script rate_key day_key n rps daily rate_ttl day_ttl s =
      let rate = count (r.get rate_key s) in
      let day = count (r.get day_key s) in
      if exceeds rps (rate + n)
      then ((0, "rate_limit"), s)
      else if exceeds daily (day + n)
      then ((0, "daily_quota"), s)
      else ((1, ""), charge rate_key day_key n rate_ttl day_ttl s)

  -- Allow; `none` is its error
  unfoldable pub allow : Claims → Quota → ℕ → Time → r.Server → Option Decision × r.Server
  unfolding decision
  allow cl lim n now s =
      let (reply, s') =
        allow_script (rate_key cl now) (day_key cl now) n lim.rps lim.daily_events 2
          (48 * hour / second) s in
      elim (r.link s) [
        | answers ↦ (some (decision reply now), s')
        | refused ↦ (none, s)
        | reply_lost ↦ (none, s')
      ]

  -- clientRateScript: INCR, and EXPIRE for a new counter or one with no expiry
  unfoldable pub client_rate_script : String → ℕ → r.Server → ℕ × r.Server
  client_rate_script key window s =
      let s' = r.incr_by key 1 s in
      let n = count (r.get key s') in
      if eqb n 1 || ltb_ℤ (r.ttl key s') (pos 0) then (n, r.expire key window s') else (n, s')

  -- AllowClient; `none` is its error
  unfoldable pub allow_client : String → ℕ → ℕ → r.Server → Option Bool × r.Server
  allow_client key limit window s =
      let (n, s') = client_rate_script key window s in
      elim (r.link s) [
        | answers ↦ (some (leb n limit), s')
        | refused ↦ (none, s)
        | reply_lost ↦ (none, s')
      ]

  -- What Redis documents of the commands: INCRBY counts an absent key as 0; EXPIRE, with a time to
  -- live that is not 0, sets that of a key that is there, and changes no value; neither changes the
  -- time to live of another key.
  pub record IsRedis : Type 0 where
    pub get-incr_by :
        (k j : String) (n : ℕ) (s : r.Server)
        → r.get j (r.incr_by k n s) ≡ (if k == j then some (count (r.get k s) + n) else r.get j s)
    pub get-expire :
        (k j : String) (t : ℕ) (s : r.Server) → 1 ≤ t → r.get j (r.expire k t s) ≡ r.get j s
    pub ttl-expire :
        (k : String) (t n : ℕ) (s : r.Server)
        → 1 ≤ t
        → r.get k s ≡ some n
        → r.ttl k (r.expire k t s) ≡ pos t
    pub ttl-expire_other :
        (k j : String) (t : ℕ) (s : r.Server)
        → (k == j) ≡ false
        → r.ttl j (r.expire k t s) ≡ r.ttl j s
    pub ttl-incr_by_other :
        (k j : String) (n : ℕ) (s : r.Server)
        → (k == j) ≡ false
        → r.ttl j (r.incr_by k n s) ≡ r.ttl j s
