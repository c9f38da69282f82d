-- ===== src/Tenant/Keys/Fetches.antt =====
-- pkg/tenant/verify.go: the requests to the JWKS endpoint.
use event_tracking.Prelude.{
  ℕ, ◌+◌, ◌*◌, String, ◌≡◌, ◌⊎◌, true, false, List, [], ◌∷◌, Option, Bool-cases, inl, inr, arith,
}
use event_tracking.Prelude.Int.{pos, ◌≤ℤ◌, ◌-ℤ◌, ◌+ℤ◌, -ℤ_parts, int_laws}
use event_tracking.Time.{Time, time_sub}
use event_tracking.Tenant.Jose.{Jose}
use event_tracking.Tenant.Keys.{
  Cache, jwks_min_refetch, may_refetch, refetch_locked, find_key, refresh, key,
}

module _ (j : Jose) where
  -- From `c` to `c'` no request was made, or one, at least 30 seconds after the last.
  abbrev pub AtMostOne : Time → Cache j → Cache j → Type 0
  AtMostOne now c c' =
      ((c'.fetches ≡ c.fetches) × (c'.last_refetch ≡ c.last_refetch))
      ⊎ ((c'.fetches ≡ c.fetches + 1)
          × (c'.last_refetch ≡ now)
          × (pos jwks_min_refetch ≤ℤ now -ℤ c.last_refetch))

  apart_of_may :
      (now : Time) (c : Cache j)
      → may_refetch j now c ≡ true
      → pos jwks_min_refetch ≤ℤ now -ℤ c.last_refetch
  unfolding may_refetch time_sub
  apart_of_may now c h = ground arith

  not_again : (now : Time) (c : Cache j) → c.last_refetch ≡ now → may_refetch j now c ≡ false
  unfolding may_refetch time_sub
  not_again now c h = ground (arith, -ℤ_parts now now)

  module _ (fetch : ℕ → Option j.Set) (now : Time) where
    refetch_once :
        (c : Cache j)
        → ((refetch_locked j fetch now c).1.fetches ≡ c.fetches + 1)
          × ((refetch_locked j fetch now c).1.last_refetch ≡ now)
    unfolding refetch_locked
    refetch_once c = ground arith

    find_key-AtMostOne :
        (kid : String) (c : Cache j) → AtMostOne now c (find_key j fetch kid now c).1
    unfolding find_key
    find_key-AtMostOne kid c = ground (arith, refetch_once c, apart_of_may now c)

    find_key_idle :
        (kid : String) (c : Cache j) → c.last_refetch ≡ now → (find_key j fetch kid now c).1 ≡ c
    unfolding find_key
    find_key_idle kid c h = ground (arith, not_again now c h)

    refresh_cases :
        (c : Cache j)
        → (refresh j fetch now c ≡ (false, c))
          ⊎ ((may_refetch j now c ≡ true) × (refresh j fetch now c ≡ refetch_locked j fetch now c))
    unfolding refresh
    refresh_cases c = elim (Bool-cases (may_refetch j now c)) [
      | inl t ↦ inr (t, rw t)
      | inr f ↦ inl (rw f)
    ]

    -- One verification makes at most one request to the endpoint, and none within 30 seconds of the
    -- last one.
    pub key-AtMostOne : (kid : String) (c : Cache j) → AtMostOne now c (key j fetch kid now c).1
    unfolding key
    key-AtMostOne kid c = elim (refresh_cases c) [
      | inl e ↦ rw (e, key) (ground (arith, find_key-AtMostOne kid c))
      | inr (t, e) ↦
          let c' = (refetch_locked j fetch now c).1 in
          ground (
            arith,
            e,
            find_key-AtMostOne kid c,
            refetch_once c,
            apart_of_may now c t,
            find_key_idle kid c' (refetch_once c).1,
          )
    ]

  abbrev IsSpaced : Cache j → Cache j → Type 0
  IsSpaced c c' =
      pos (jwks_min_refetch * c'.fetches) +ℤ c.last_refetch
      ≤ℤ pos (jwks_min_refetch * c.fetches) +ℤ c'.last_refetch

  spaced : (now : Time) (c c' : Cache j) → AtMostOne now c c' → IsSpaced c c'
  spaced now c c' (inl (e, f)) = rw (e, f) (omega int_laws)
  spaced now c c' (inr (e, f, g)) = rw (e, f) (omega int_laws)

  -- Verifications one after the other, each with the id that its token carries.
  pub run : (ℕ → Option j.Set) → Cache j → List (String × Time) → Cache j
  run fetch c [] = c
  run fetch c ((kid, now) ∷ calls) = run fetch (key j fetch kid now c).1 calls

  -- Over any sequence of verifications, n requests to the endpoint lie in a span of at least n times
  -- 30 seconds.
  pub run_fetches :
      (fetch : ℕ → Option j.Set) (c : Cache j) (calls : List (String × Time))
      → pos (jwks_min_refetch * (run fetch c calls).fetches) +ℤ c.last_refetch
        ≤ℤ pos (jwks_min_refetch * c.fetches) +ℤ (run fetch c calls).last_refetch
  unfolding run
  run_fetches fetch c [] = omega arith
  run_fetches fetch c ((kid, now) ∷ calls) =
      let c' = (key j fetch kid now c).1 in
      omega (int_laws, spaced now c c' (key-AtMostOne fetch now kid c), run_fetches fetch c' calls)
