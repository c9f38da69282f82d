-- ===== src/Quota/Clients.antt =====
-- AllowClient, the limit of the endpoints that have no install yet, and the Retry-After of a spent
-- day.
use event_tracking.Prelude.{
  ℕ, ◌+◌, ◌≤◌, String, ◌≡◌, refl, Bool, some, Bool-cases, inl, inr, ◌||◌, ◌==◌, eq_refl, arith, leb,
  eqb, if◌then◌else◌,
}
use event_tracking.Prelude.Int.{pos, negsuc, ◌+ℤ◌, ◌-ℤ◌, ◌≤ℤ◌, ◌<ℤ◌, ltb_ℤ, floor_mod}
use event_tracking.Time.{Time, day, time_sub}
use event_tracking.Quota.{
  Redis, IsRedis, count, answers, client_rate_script, allow_client, until_next_utc_day,
}

module _ (r : Redis) (l : IsRedis r) (key : String) (limit window : ℕ) (s : r.Server)
    (positive : 1 ≤ window) where
  incremented : r.Server
  incremented = r.incr_by key 1 s

  needs_expiry : Bool
  needs_expiry = eqb (count (r.get key incremented)) 1 || ltb_ℤ (r.ttl key incremented) (pos 0)

  count_incremented : count (r.get key (r.incr_by key 1 s)) ≡ count (r.get key s) + 1
  count_incremented = rw (l.get-incr_by, eq_refl)

  script_counts : (client_rate_script r key window s).0 ≡ count (r.get key s) + 1
  unfolding client_rate_script
  script_counts = ground (arith, count_incremented)

  get-script :
      (j : String)
      → r.get j (client_rate_script r key window s).1
        ≡ (if key == j then some (count (r.get key s) + 1) else r.get j s)
  unfolding client_rate_script incremented needs_expiry
  get-script j = elim (Bool-cases needs_expiry) [
    | inl t ↦ rw (t, l.get-expire key j window (r.incr_by key 1 s) positive, l.get-incr_by)
    | inr f ↦ rw (f, l.get-incr_by)
  ]

  ttl-script : pos 0 ≤ℤ r.ttl key (client_rate_script r key window s).1
  unfolding client_rate_script incremented needs_expiry
  ttl-script = elim (Bool-cases needs_expiry) [
    | inl t ↦
        rw
          (
            t,
            l.ttl-expire key window (count (r.get key s) + 1) (r.incr_by key 1 s) positive
                (rw (l.get-incr_by, eq_refl) refl),
          )
          (omega arith)
    | inr f ↦ rw f (ground arith)
  ]

  -- An answered call counts itself, says whether the count is still within the limit, leaves the
  -- other counters alone, and leaves the counter with an expiry, also one that had lost its own.
  pub allow_client_counts :
      r.link s ≡ answers
      → ((allow_client r key limit window s).0 ≡ some (leb (count (r.get key s) + 1) limit))
        × ((j : String)
            → r.get j (allow_client r key limit window s).1
              ≡ (if key == j then some (count (r.get key s) + 1) else r.get j s))
        × (pos 0 ≤ℤ r.ttl key (allow_client r key limit window s).1)
  unfolding allow_client
  allow_client_counts up = (
    rw (up, allow_client, script_counts),
    λ j. rw (up, allow_client) (get-script j),
    rw (up, allow_client) ttl-script,
  )

-- The wait that a spent daily budget is answered with is positive, at most a day, and ends at a
-- midnight of UTC.
pub until_next_utc_day_bounds :
    (now : Time)
    → (pos 0 <ℤ until_next_utc_day now)
      × (until_next_utc_day now ≤ℤ pos day)
      × (floor_mod (now +ℤ until_next_utc_day now) day ≡ 0)
unfolding until_next_utc_day time_sub floor_mod ◌+ℤ◌ ◌-ℤ◌
until_next_utc_day_bounds (pos n) = ground arith
until_next_utc_day_bounds (negsuc n) = ground arith
