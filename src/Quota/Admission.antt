-- ===== src/Quota/Admission.antt =====
-- quota.go: one call of Allow, by the room in its two budgets.
use event_tracking.Prelude.{
  ℕ, ◌+◌, ◌≤◌, ◌⊎◌, String, ◌≡◌, ◌≢◌, ◌*◌, ◌^◌, sym, ◌∙◌, eq_refl, refl, true, false, Option, none,
  some, ◌==◌, eq_iff, arith, inl, inr, Bool-cases, if◌then◌else◌,
}
use event_tracking.Prelude.Int.{ℤ, pos, ◌≤ℤ◌, ◌<ℤ◌, ◌+ℤ◌, floor_mod}
use event_tracking.Time.{Time, Duration, day}
use event_tracking.Limits.{Quota}
use event_tracking.Tenant.{Claims}
use event_tracking.Quota.Keys.{rate_key-ne-day_key}
use event_tracking.Quota.Clients.{until_next_utc_day_bounds}
use event_tracking.Quota.{
  Redis, IsRedis, count, Decision, rate_key, day_key, until_next_utc_day, exceeds, allow_script,
  allow, charge, decision, Link, answers, refused, reply_lost,
}

-- A limit that is not positive is no limit.
abbrev pub Fits : ℤ → ℕ → Type 0
Fits limit used = pos 0 <ℤ limit → pos used ≤ℤ limit

exceeds_of_Fits : (l : ℤ) (u : ℕ) → Fits l u → exceeds l u ≡ false
unfolding exceeds
exceeds_of_Fits l u h = ground arith

exceeds_of_not : (l : ℤ) (u : ℕ) → ¬ Fits l u → exceeds l u ≡ true
unfolding exceeds
exceeds_of_not l u h = ground arith

Fits-of_exceeds : (l : ℤ) (u : ℕ) → exceeds l u ≡ false → Fits l u
unfolding exceeds
Fits-of_exceeds l u h = ground arith

link_cases : (k : Link) → (k ≡ answers) ⊎ (k ≡ refused) ⊎ (k ≡ reply_lost)
link_cases answers = inl refl
link_cases refused = inr (inl refl)
link_cases reply_lost = inr (inr refl)

abbrev pub units : Option Decision → ℕ → ℕ
units none n = 0
units (some d) n = if d.allowed then n else 0

units-le : (o : Option Decision) (n : ℕ) → units o n ≤ n
units-le o n = ground arith

abbrev pub admitted : Decision
admitted = record { allowed = true; retry_after = pos 0; reason = "" }

-- The script adds `n` to the two counters of its keys, and nothing to any other.
pub get-charge :
    (r : Redis) (l : IsRedis r) (j rk dk : String) (n rt dt : ℕ) (s : r.Server)
    → 1 ≤ rt
    → 1 ≤ dt
    → count (r.get j (charge r rk dk n rt dt s))
      ≡ count (r.get j s) + (if rk == j then n else 0) + (if dk == j then n else 0)
unfolding charge
get-charge r l j rk dk n rt dt s p q =
    simp
      (
        λ (i : String) (u : r.Server). l.get-expire rk i rt u p,
        λ (i : String) (u : r.Server). l.get-expire dk i dt u q,
        l.get-incr_by,
      )
      (ground (arith, eq_iff rk j, eq_iff dk j, eq_iff rk dk))

-- The two counters have `n` more, and expire after 2 seconds and after 48 hours; no other counter
-- has changed.
abbrev pub Charged : (r : Redis) → String → String → ℕ → r.Server → r.Server → Type 0
Charged r rk dk n s t =
    ((j : String)
      → count (r.get j t)
        ≡ count (r.get j s) + (if rk == j then n else 0) + (if dk == j then n else 0))
    × (r.ttl rk t ≡ pos 2)
    × (r.ttl dk t ≡ pos (48 * 3600))

charge-Charged :
    (r : Redis) (l : IsRedis r) (rk dk : String) (n : ℕ) (s : r.Server)
    → rk ≢ dk
    → Charged r rk dk n s (charge r rk dk n 2 172800 s)
unfolding charge
charge-Charged r l rk dk n s apart = (
  λ j. get-charge r l j rk dk n 2 172800 s (omega arith) (omega arith),
  l.ttl-expire_other dk rk 172800 _ differ
      ∙ l.ttl-incr_by_other dk rk n _ differ
      ∙ l.ttl-expire rk 2 (count (r.get rk s) + n) (r.incr_by rk n s) (omega arith)
          (l.get-incr_by rk rk n s ∙ rw (eq_refl rk) refl),
  l.ttl-expire dk 172800 (count (r.get dk t) + n) (r.incr_by dk n t) (omega arith)
      (l.get-incr_by dk dk n t ∙ rw (eq_refl dk) refl),
)
  where
    t : r.Server
    t = r.expire rk 2 (r.incr_by rk n s)

    differ : (dk == rk) ≡ false
    differ = ground (arith, eq_iff dk rk, λ (e : dk ≡ rk). apart (sym e))

module _ (r : Redis) (cl : Claims) (lim : Quota) (n : ℕ) (now : Time) (s : r.Server) where
  abbrev RateFits : Type 0
  RateFits = Fits lim.rps (count (r.get (rate_key cl now) s) + n)

  abbrev DayFits : Type 0
  DayFits = Fits lim.daily_events (count (r.get (day_key cl now) s) + n)

  -- With an answer from Redis, a batch that fits both budgets is admitted and charged to the two
  -- counters; one that does not is told which budget is spent, the rate first, and when to come
  -- back, after a second or at the next midnight of UTC, and leaves every counter alone.
  pub allow_cases :
      IsRedis r
      → r.link s ≡ answers
      → (RateFits
          → DayFits
          → ((allow r cl lim n now s).0 ≡ some admitted)
            × Charged r (rate_key cl now) (day_key cl now) n s (allow r cl lim n now s).1)
        × (¬ RateFits
            → allow r cl lim n now s ≡ (
              some (record { allowed = false; retry_after = pos (10 ^ 9); reason = "rate_limit" }),
              s,
            ))
        × (RateFits
            → ¬ DayFits
            → (wait : Duration) × (allow r cl lim n now s ≡ (
              some (record { allowed = false; retry_after = wait; reason = "daily_quota" }),
              s,
            ))
              × (pos 0 <ℤ wait)
              × (wait ≤ℤ pos day)
              × (floor_mod (now +ℤ wait) day ≡ 0))
  unfolding allow allow_script decision
  allow_cases l up = (
    λ fit day.
        rw (up, exceeds_of_Fits _ _ fit, exceeds_of_Fits _ _ day, allow, allow_script)
          (refl, charge-Charged r l _ _ n s (rate_key-ne-day_key cl cl now now)),
    λ full. rw (up, exceeds_of_not _ _ full, allow, allow_script),
    λ fit full. (
      until_next_utc_day now,
      rw (up, exceeds_of_Fits _ _ fit, exceeds_of_not _ _ full, allow, allow_script),
      (until_next_utc_day_bounds now).0,
      (until_next_utc_day_bounds now).1,
      (until_next_utc_day_bounds now).2,
    ),
  )

  -- the units that the caller was told were admitted
  abbrev pub granted : ℕ
  granted = units (allow r cl lim n now s).0 n

  script_cases :
      (RateFits
        × DayFits
        × (allow_script r (rate_key cl now) (day_key cl now) n lim.rps lim.daily_events 2 172800 s
            ≡ ((1, ""), charge r (rate_key cl now) (day_key cl now) n 2 172800 s)))
      ⊎ ((reason : String) × (allow_script r
              (rate_key cl now)
              (day_key cl now)
              n
              lim.rps
              lim.daily_events
              2
              172800
              s
            ≡ ((0, reason), s)))
  unfolding allow_script
  script_cases = elim (Bool-cases (exceeds lim.rps (count (r.get (rate_key cl now) s) + n))) [
    | inl full ↦ inr ("rate_limit", rw full)
    | inr fit ↦
        elim (Bool-cases (exceeds lim.daily_events (count (r.get (day_key cl now) s) + n))) [
          | inl full ↦ inr ("daily_quota", rw (fit, full))
          | inr day ↦ inl (Fits-of_exceeds _ _ fit, Fits-of_exceeds _ _ day, rw (fit, day))
        ]
  ]

  -- Whatever becomes of the call, it charges both counters and both budgets had room, or it changes
  -- nothing and grants nothing.
  pub allow_outcome :
      (RateFits
        × DayFits
        × ((allow r cl lim n now s).1 ≡ charge r (rate_key cl now) (day_key cl now) n 2 172800 s)
        × (granted ≤ n))
      ⊎ (((allow r cl lim n now s).1 ≡ s) × (granted ≡ 0))
  unfolding allow decision
  allow_outcome = elim script_cases [
    | inl (fit, day, e) ↦ elim (link_cases (r.link s)) [
      | inl a ↦ inl (fit, day, rw (a, allow, e), units-le _ n)
      | inr (inl a) ↦ inr (rw (a, allow), rw (a, allow))
      | inr (inr a) ↦ inl (fit, day, rw (a, allow, e), units-le _ n)
    ]
    | inr (reason, e) ↦ elim (link_cases (r.link s)) [
      | inl a ↦ inr (rw (a, allow, e), rw (a, allow, e))
      | inr (inl a) ↦ inr (rw (a, allow), rw (a, allow))
      | inr (inr a) ↦ inr (rw (a, allow, e), rw (a, allow))
    ]
  ]
