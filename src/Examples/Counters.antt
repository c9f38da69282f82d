-- ===== src/Examples/Counters.antt =====
-- The quota checks on a server that is a pair of functions.
use event_tracking.Prelude.{
  ℕ, ◌+◌, ◌*◌, ◌≤◌, String, ◌≡◌, refl, arith, Option, none, some, ◌==◌, eq_refl, if◌then◌else◌,
}
use event_tracking.Prelude.Int.{ℤ, pos, negsuc}
use event_tracking.Quota.{Redis, IsRedis, answers, count, rate_key, day_key, allow}
use event_tracking.Quota.Admission.{admitted, Charged, allow_cases}
use event_tracking.Quota.Budget.{per_second, Runs, start, call, counter, share, Runs-budget}
use event_tracking.Examples.Samples.{noon, claims, small_quota}

-- the counters, and their times to live
abbrev pub Tables : Type 0
Tables = (String → Option ℕ) × (String → ℤ)

abbrev pub server : Redis
server = record {
  Server = Tables;
  link = λ s. answers;
  get = λ k s. s.0 k;
  incr_by = λ k n s. ((λ j. if k == j then some (count (s.0 k) + n) else s.0 j), s.1);
  expire = λ k t s. (s.0, λ j. if k == j then pos t else s.1 j);
  ttl = λ k s. s.1 k;
}

pub server-IsRedis : IsRedis server
server-IsRedis = record {
  get-incr_by = λ k j n s. refl;
  get-expire = λ k j t s p. refl;
  ttl-expire = λ k t n s p h. rw (eq_refl k) refl;
  ttl-expire_other = λ k j t s h. rw h refl;
  ttl-incr_by_other = λ k j n s h. refl;
}

abbrev pub empty : Tables
empty = ((λ k. none), λ k. negsuc 1)

admits :
    (n : ℕ)
    → n ≤ 3
    → ((allow server claims small_quota n noon empty).0 ≡ some admitted)
      × Charged server
          (rate_key claims noon)
          (day_key claims noon)
          n
          empty
          (allow server claims small_quota n noon empty).1
admits n h =
    (allow_cases server claims small_quota n noon empty server-IsRedis refl).0
      (λ p. omega (arith, h)) (λ p. omega (arith, h))

allow_cases_example :
    ((allow server claims small_quota 2 noon empty).0 ≡ some admitted)
    × Charged server
        (rate_key claims noon)
        (day_key claims noon)
        2
        empty
        (allow server claims small_quota 2 noon empty).1
allow_cases_example =
    (allow_cases server claims small_quota 2 noon empty server-IsRedis refl).0 (λ p. omega arith)
      (λ p. omega arith)

abbrev spent : Tables
spent = (allow server claims small_quota 3 noon empty).1

one_share : share server per_second claims noon 3 claims small_quota 3 noon empty ≡ 3
one_share = rw ((admits 3 (omega arith)).0, eq_refl) refl

one_run : Runs server per_second claims noon 3 empty 3 0 spent
one_run = call start claims small_quota 3 noon (λ e. refl) (rw one_share refl) refl

Runs-budget_example :
    (counter server per_second claims noon 3 empty + 3
      ≤ counter server per_second claims noon 3 spent + 0 * 3)
    × (counter server per_second claims noon 3 spent ≤ 3)
Runs-budget_example =
    Runs-budget server per_second claims noon 3 server-IsRedis empty spent 3 0 (omega arith)
      (omega arith) one_run
