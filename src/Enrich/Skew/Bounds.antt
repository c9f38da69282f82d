-- ===== src/Enrich/Skew/Bounds.antt =====
-- skew.go: the corrected timestamp and the offset against the documented windows.
use event_tracking.Prelude.{◌/◌, ◌≡◌, ◌≢◌, ◌*◌, ◌^◌, ap, sym, ◌∙◌, true, false, arith}
use event_tracking.Prelude.Int.{
  ℤ, pos, ◌+ℤ◌, ◌-ℤ◌, ◌≤ℤ◌, ◌<ℤ◌, IsInt64, +ℤ_parts, -ℤ_parts, scale, wrap64, wrap64_id,
}
use event_tracking.Time.{Time, of_unix_milli, lt-time_sub, millisecond, unix_milli}
use event_tracking.Enrich.Skew.{max_future_skew, max_past_skew, shifted, correct, candidate_offset}

-- `t` is at most 24 hours after and at most 30 days before `r`.
abbrev pub InWindow : Time → Time → Type 0
InWindow t r = (t -ℤ r ≤ℤ pos max_future_skew) × (r -ℤ t ≤ℤ pos max_past_skew)

module _ (c o : ℤ) (r : Time) where
  -- The stored timestamp is never outside the window around the time of receipt.
  pub correct-InWindow : InWindow (correct c o r).0 r
  unfolding correct
  correct-InWindow = ground (
    arith,
    lt-time_sub max_future_skew (shifted c o) r,
    lt-time_sub max_past_skew r (shifted c o),
    -ℤ_parts r r,
  )

  -- Inside the window the shifted device time is stored and not flagged; outside it the time of
  -- receipt is stored and flagged.
  correct-shifted :
      (InWindow (shifted c o) r → correct c o r ≡ (shifted c o, false))
      × (¬ InWindow (shifted c o) r → correct c o r ≡ (r, true))
  unfolding correct
  correct-shifted = (
    λ h. ground (
      arith,
      lt-time_sub max_future_skew (shifted c o) r,
      lt-time_sub max_past_skew r (shifted c o),
    ),
    λ h. ground (
      arith,
      lt-time_sub max_future_skew (shifted c o) r,
      lt-time_sub max_past_skew r (shifted c o),
    ),
  )

-- For a sum of device time and offset that an int64 holds: when the sum, read as milliseconds since
-- the Unix epoch, is at most 24 hours after and at most 30 days before the receipt, it is stored and
-- not flagged; otherwise the time of receipt is stored and flagged.
pub correct_cases :
    (c o : ℤ) (r t : Time)
    → IsInt64 (c +ℤ o)
    → t ≡ scale (10 ^ 6) (c +ℤ o)
    → ((t -ℤ r ≤ℤ pos (24 * 3600 * 10 ^ 9))
        → (r -ℤ t ≤ℤ pos (30 * 24 * 3600 * 10 ^ 9))
        → correct c o r ≡ (t, false))
      × (¬ ((t -ℤ r ≤ℤ pos (24 * 3600 * 10 ^ 9)) × (r -ℤ t ≤ℤ pos (30 * 24 * 3600 * 10 ^ 9)))
          → correct c o r ≡ (r, true))
unfolding shifted of_unix_milli
correct_cases c o r t fits e =
    let same : shifted c o ≡ t = rw (wrap64_id (c +ℤ o) fits) (sym e) in
    (
      λ h k. (correct-shifted c o r).0 (rw same (h, k)) ∙ ap (λ x. (x, false)) same,
      λ h. (correct-shifted c o r).1 (rw same h),
    )

-- A delivery and its repetition get the same timestamp when both arrive inside the window, and
-- different ones when both are outside it and arrive at different times.
pub correct_repeated :
    (c o : ℤ) (r r' : Time)
    → (InWindow (shifted c o) r
        → InWindow (shifted c o) r'
        → (correct c o r').0 ≡ (correct c o r).0)
      × (¬ InWindow (shifted c o) r
          → ¬ InWindow (shifted c o) r'
          → r ≢ r'
          → (correct c o r').0 ≢ (correct c o r).0)
correct_repeated c o r r' = (
  λ h h'. ap (λ x. x.0) ((correct-shifted c o r').0 h' ∙ sym ((correct-shifted c o r).0 h)),
  λ h h' apart same. apart (
      ap (λ x. x.0) (sym ((correct-shifted c o r).1 h))
      ∙ sym same
      ∙ ap (λ x. x.0) ((correct-shifted c o r').1 h')),
)

abbrev pub IsOffset : ℤ → Type 0
IsOffset o =
    (o ≤ℤ pos (max_past_skew / millisecond)) × (pos 0 ≤ℤ o +ℤ pos (max_future_skew / millisecond))

module _ (sent : ℤ) (r : Time) where
  -- An estimated offset is at most 30 days and at least -24 hours, whatever the client says.
  pub candidate_offset-IsOffset : IsOffset (candidate_offset sent r)
  unfolding candidate_offset
  candidate_offset-IsOffset = ground (
    arith,
    +ℤ_parts (wrap64 (unix_milli r -ℤ sent)) (pos (max_future_skew / millisecond)),
    +ℤ_parts (pos 0) (pos (max_future_skew / millisecond)),
    -ℤ_parts (pos 0) (pos (max_future_skew / millisecond)),
  )

  -- A plausible `sent_at` gives the exact difference between the server's and the client's clock;
  -- an absent or an implausible one gives 0.
  pub candidate_offset_cases :
      IsInt64 (unix_milli r -ℤ sent)
      → ((pos 0 <ℤ sent)
          → IsOffset (unix_milli r -ℤ sent)
          → candidate_offset sent r ≡ unix_milli r -ℤ sent)
        × (¬ ((pos 0 <ℤ sent) × IsOffset (unix_milli r -ℤ sent)) → candidate_offset sent r ≡ pos 0)
  unfolding candidate_offset
  candidate_offset_cases fits = rw (wrap64_id _ fits) (
    λ h k. ground (
      arith,
      +ℤ_parts (unix_milli r -ℤ sent) (pos (max_future_skew / millisecond)),
      -ℤ_parts (pos 0) (pos (max_future_skew / millisecond)),
    ),
    λ h. ground (
      arith,
      +ℤ_parts (unix_milli r -ℤ sent) (pos (max_future_skew / millisecond)),
      -ℤ_parts (pos 0) (pos (max_future_skew / millisecond)),
    ),
  )
