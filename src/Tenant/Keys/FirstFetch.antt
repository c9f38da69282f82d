-- ===== src/Tenant/Keys/FirstFetch.antt =====
-- pkg/tenant/verify.go: the first key that a fresh verifier asks for.
use event_tracking.Prelude.{
  ℕ, String, ◌≡◌, ◌≢◌, refl, true, Option, some, eq_iff, arith, ◌==◌, Bool-cases, inl, inr, ◌∙◌,
}
use event_tracking.Prelude.Int.{ℤ, pos, ◌-ℤ◌, ◌+ℤ◌}
use event_tracking.Time.{zero_time, le-time_sub}
use event_tracking.Tenant.Jose.{Jose}
use event_tracking.Tenant.Keys.{
  Cache, new_cache, jwks_min_refetch, has_signing_shape, lookup, may_refetch, older_than,
  refetch_locked, refresh, find_key, key,
}
use event_tracking.Tenant.Keys.Shape.{IsSigningKey}

module _ (j : Jose) (fetch : ℕ → Option j.Set) where
  may_refetch-new_cache : (n : ℕ) → may_refetch j (pos n) (new_cache j) ≡ true
  unfolding may_refetch ◌-ℤ◌ ◌+ℤ◌
  may_refetch-new_cache n =
      le-time_sub jwks_min_refetch (pos n) zero_time (omega arith) ∙ ground arith

  has_signing_shape-IsSigningKey :
      (k : j.Key) → IsSigningKey j fetch k → has_signing_shape j k ≡ true
  unfolding has_signing_shape
  has_signing_shape-IsSigningKey k s = rw (s.for_signing, s.octet_key_pair, s.on_curve) refl

  abbrev fetched_cache : ℤ → j.Set → Cache j
  fetched_cache now set = record {
    set = some set;
    fetched_at = now;
    last_refetch = now;
    fetches = 1;
  }

  refresh-new_cache :
      (n : ℕ) (set : j.Set)
      → fetch 0 ≡ some set
      → refresh j fetch (pos n) (new_cache j) ≡ (true, fetched_cache (pos n) set)
  unfolding refresh refetch_locked
  refresh-new_cache n set fetched =
      rw (may_refetch-new_cache n, fetched, refresh, refetch_locked) refl

  lookup-IsSigningKey :
      (kid : String) (set : j.Set) (k : j.Key)
      → j.lookup_key_id set kid ≡ some k
      → IsSigningKey j fetch k
      → lookup j (some set) kid ≡ some k
  unfolding lookup
  lookup-IsSigningKey kid set k found signing =
      rw (lookup, found, has_signing_shape-IsSigningKey k signing) refl

  -- A verifier that starts after 1970 hands out the key that its first fetch brings, if that is a
  -- signing key.
  pub key-new_cache :
      (kid : String) (n : ℕ) (set : j.Set) (k : j.Key)
      → kid ≢ ""
      → fetch 0 ≡ some set
      → j.lookup_key_id set kid ≡ some k
      → IsSigningKey j fetch k
      → (key j fetch kid (pos n) (new_cache j)).0 ≡ some k
  unfolding key find_key older_than
  key-new_cache kid n set k named fetched found signing = elim (Bool-cases (kid == "")) [
    | inl t ↦ absurd (named ((eq_iff kid "").0 t))
    | inr f ↦
        rw
          (
            key,
            f,
            refresh-new_cache n set fetched,
            find_key,
            lookup-IsSigningKey kid set k found signing,
          )
          refl
  ]
