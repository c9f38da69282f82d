-- ===== src/Quota/Budget.antt =====
-- quota.go: schedules of calls of Allow, and what they grant from one counter.
use event_tracking.Prelude.{
  ℕ, ◌+◌, ◌*◌, ◌≤◌, ◌<◌, String, ◌≡◌, sym, Bool-cases, inl, inr, ◌==◌, eq_iff, arith, if◌then◌else◌,
}
use event_tracking.Prelude.Int.{ℤ, pos}
use event_tracking.Time.{Time}
use event_tracking.Limits.{Quota}
use event_tracking.Tenant.{Claims}
use event_tracking.Quota.{Redis, IsRedis, count, rate_key, day_key, allow, charge}
use event_tracking.Quota.Keys.{rate_key-ne-day_key}
use event_tracking.Quota.Admission.{Fits, granted, allow_outcome, get-charge}

-- The two counters of a call: of an install in one second, and of a tenant in one UTC day.
pub data Bucket : Type 0 where
  per_second per_day : Bucket

abbrev pub key_of : Bucket → Claims → Time → String
key_of per_second = rate_key
key_of per_day = day_key

abbrev pub limit_of : Bucket → Quota → ℤ
limit_of per_second lim = lim.rps
limit_of per_day lim = lim.daily_events

-- A charge adds to one counter of each kind.
get-charge_bucket :
    (r : Redis) (l : IsRedis r) (b : Bucket) (c₀ cl : Claims) (t₀ now : Time) (n : ℕ) (s : r.Server)
    → count (r.get (key_of b c₀ t₀) (charge r (rate_key cl now) (day_key cl now) n 2 172800 s))
      ≡ count (r.get (key_of b c₀ t₀) s) + (if key_of b cl now == key_of b c₀ t₀ then n else 0)
get-charge_bucket r l per_second c₀ cl t₀ now n s = ground (
  arith,
  get-charge r l (rate_key c₀ t₀) (rate_key cl now) (day_key cl now) n 2 172800 s (omega arith)
      (omega arith),
  eq_iff (day_key cl now) (rate_key c₀ t₀),
  λ (e : day_key cl now ≡ rate_key c₀ t₀). rate_key-ne-day_key c₀ cl t₀ now (sym e),
)
get-charge_bucket r l per_day c₀ cl t₀ now n s = ground (
  arith,
  get-charge r l (day_key c₀ t₀) (rate_key cl now) (day_key cl now) n 2 172800 s (omega arith)
      (omega arith),
  eq_iff (rate_key cl now) (day_key c₀ t₀),
  rate_key-ne-day_key cl c₀ now t₀,
)

module _ (r : Redis) (b : Bucket) (c₀ : Claims) (t₀ : Time) (budget : ℕ) where
  abbrev pub counter : r.Server → ℕ
  counter s = count (r.get (key_of b c₀ t₀) s)

  -- the units that a call grants from this counter
  abbrev pub share : Claims → Quota → ℕ → Time → r.Server → ℕ
  share cl lim n now s = if key_of b cl now == key_of b c₀ t₀ then granted r cl lim n now s else 0

  -- `Runs s m e t`: a schedule leads from `s` to `t` and grants `m` units from the counter. It holds
  -- calls of any tenant in any order, and any other activity on the server, such as the expiry of
  -- other keys, that leaves the counter as it is. `e` is how often the counter itself is lost, as by
  -- its expiry: a call that reaches the server late may find the counter of its second expired.
  pub data Runs (s : r.Server) : ℕ → ℕ → r.Server → Type 0 where
    start : Runs s 0 0 s
    call :
        {m m' e : ℕ} {t u : r.Server}
        → Runs s m e t
        → (cl : Claims) (lim : Quota) (n : ℕ) (now : Time)
        → (key_of b cl now ≡ key_of b c₀ t₀ → limit_of b lim ≡ pos budget)
        → m' ≡ m + share cl lim n now t
        → u ≡ (allow r cl lim n now t).1
        → Runs s m' e u
    other : {m e : ℕ} {t u : r.Server} → Runs s m e t → counter u ≡ counter t → Runs s m e u
    expired : {m e : ℕ} {t u : r.Server} → Runs s m e t → counter u ≡ 0 → Runs s m (e + 1) u

  module _ (l : IsRedis r) where
    room :
        (b' : Bucket) (cl : Claims) (lim : Quota) (n : ℕ) (now : Time) (t : r.Server)
        → Fits lim.rps (count (r.get (rate_key cl now) t) + n)
        → Fits lim.daily_events (count (r.get (day_key cl now) t) + n)
        → Fits (limit_of b' lim) (count (r.get (key_of b' cl now) t) + n)
    room per_second cl lim n now t fit day = fit
    room per_day cl lim n now t fit day = day

    step :
        (cl : Claims) (lim : Quota) (n : ℕ) (now : Time) (t : r.Server)
        → 0 < budget
        → (key_of b cl now ≡ key_of b c₀ t₀ → limit_of b lim ≡ pos budget)
        → counter t ≤ budget
        → (counter t + share cl lim n now t ≤ counter (allow r cl lim n now t).1)
          × (counter (allow r cl lim n now t).1 ≤ budget)
    step cl lim n now t p same h = elim (allow_outcome r cl lim n now t) [
      | inl (fit, day, e, g) ↦
          let fits = room b cl lim n now t fit day in
          rw (e, get-charge_bucket r l b c₀ cl t₀ now n t)
            (elim (Bool-cases (key_of b cl now == key_of b c₀ t₀)) [
              | inl mine ↦
                  let k = (eq_iff (key_of b cl now) (key_of b c₀ t₀)).0 mine in
                  let bounded = rw (same k, k) at fits in rw mine (ground arith)
              | inr theirs ↦ rw theirs (ground arith)
            ])
      | inr (e, g) ↦ rw (e, g) (ground arith)
    ]

    -- From a counter within the budget, a schedule grants no more units than the budget has left, and
    -- one budget more for each time that the counter is lost; the counter never passes the budget.
    pub Runs-budget :
        (s t : r.Server) (m e : ℕ)
        → 0 < budget
        → counter s ≤ budget
        → Runs s m e t
        → (counter s + m ≤ counter t + e * budget) × (counter t ≤ budget)
    Runs-budget s t m e p h start = omega arith
    Runs-budget s t m e p h (call {m = m'} {t = t'} run cl lim n now same em et) =
        let (low, high) = Runs-budget s t' m' e p h run in
        let (low', high') = step cl lim n now t' p same high in rw (em, et) (omega arith)
    Runs-budget s t m e p h (other {t = t'} run q) =
        let (low, high) = Runs-budget s t' m e p h run in rw q (low, high)
    Runs-budget s t m e p h (expired {e = e'} {t = t'} run q) =
        let (low, high) = Runs-budget s t' m e' p h run in rw q (omega arith)
