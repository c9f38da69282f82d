-- ===== src/Tenant/Keys.antt =====
-- pkg/tenant/verify.go: the cache of published keys (key, refetchLocked, lookup)
pub mod Shape
pub mod Fetches
pub mod FirstFetch
use event_tracking.Prelude.{
  ℕ, ◌+◌, ◌*◌, String, Bool, true, false, not, ◌&&◌, ◌||◌, Option, none, some, ◌==◌, is_some,
  if◌then◌else◌,
}
use event_tracking.Prelude.Int.{ℤ, pos, ltb_ℤ, leb_ℤ}
use event_tracking.Time.{Time, second, time_sub, zero_time}
use event_tracking.Tenant.Jose.{Jose}

abbrev pub jwks_min_refetch : ℕ
jwks_min_refetch = 30 * second

abbrev pub jwks_ttl : ℕ
jwks_ttl = 600 * second

abbrev pub jwks_stale_grace : ℕ
jwks_stale_grace = 300 * second

-- `!ok || v != want`, negated
abbrev pub is_value : Option String → String → Bool
is_value none want = false
is_value (some v) want = v == want

module _ (j : Jose) where
  -- The mutable fields of Verifier, under its mutex. `fetches` counts the requests that were made to
  -- the JWKS endpoint.
  pub record Cache : Type 0 where
    pub set : Option j.Set
    pub fetched_at : Time
    pub last_refetch : Time
    pub fetches : ℕ

  -- NewVerifier
  abbrev pub new_cache : Cache
  new_cache = record { set = none; fetched_at = zero_time; last_refetch = zero_time; fetches = 0 }

  unfoldable pub has_signing_shape : j.Key → Bool
  has_signing_shape k =
      is_value (j.key_usage k) "sig" && (j.key_type k == "OKP" && is_value (j.curve k) "Ed25519")

  unfoldable pub lookup : Option j.Set → String → Option j.Key
  lookup none kid = none
  lookup (some set) kid = elim (j.lookup_key_id set kid) [
    | none ↦ none
    | some k ↦ if has_signing_shape k then some k else none
  ]

  unfoldable pub may_refetch : Time → Cache → Bool
  may_refetch now c = leb_ℤ (pos jwks_min_refetch) (time_sub now c.last_refetch)

  -- `v.set == nil || now.Sub(v.fetchedAt) > age`
  unfoldable pub older_than : ℕ → Time → Cache → Bool
  older_than age now c = not (is_some c.set) || ltb_ℤ (pos age) (time_sub now c.fetched_at)

  -- `fetch n` is what the endpoint answers to the request with number n.
  module _ (fetch : ℕ → Option j.Set) where
    unfoldable pub refetch_locked : Time → Cache → Bool × Cache
    refetch_locked now c = elim (fetch c.fetches) [
      | none ↦ (false, record c { last_refetch = now; fetches = c.fetches + 1 })
      | some s ↦ (
        true,
        record { set = some s; fetched_at = now; last_refetch = now; fetches = c.fetches + 1 },
      )
    ]

    -- the part of `key` from the first lookup on
    unfoldable pub find_key : String → Time → Cache → Option j.Key × Cache
    find_key kid now c = elim (lookup c.set kid) [
      | some k ↦ (some k, c)
      | none ↦
          let (done, c') = refetch_locked now c in
          if may_refetch now c
          then if done then (lookup c'.set kid, c') else (none, c')
          else (none, c)
    ]

    -- the refresh of a stale set
    unfoldable pub refresh : Time → Cache → Bool × Cache
    refresh now c = if may_refetch now c then refetch_locked now c else (false, c)

    -- `key`; every error that it returns wraps ErrUnknownKID
    unfoldable pub key : String → Time → Cache → Option j.Key × Cache
    key kid now c =
        let (done, c') = refresh now c in
        if kid == ""
        then (none, c)
        else if not (older_than jwks_ttl now c)
        then find_key kid now c
        else if not done && older_than (jwks_ttl + jwks_stale_grace) now c'
        then (none, record c' { set = none })
        else find_key kid now c'
