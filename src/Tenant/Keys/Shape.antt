-- ===== src/Tenant/Keys/Shape.antt =====
-- pkg/tenant/verify.go: which keys the cache hands out.
use event_tracking.Prelude.{
  ℕ, ◌+◌, String, ◌≡◌, ◌≢◌, refl, true, false, Option, none, some, Option-cases, Bool-cases, inl,
  inr, eq_iff, arith, ap, ◌==◌, ◌^◌, ◌<◌,
}
use mathlib.Core.Path.{subst}
use event_tracking.Prelude.Int.{pos, ◌≤ℤ◌, ◌-ℤ◌, -ℤ_parts}
use event_tracking.Time.{Time, lt-time_sub}
use event_tracking.Tenant.Jose.{Jose}
use event_tracking.Tenant.Keys.{
  Cache, jwks_ttl, jwks_stale_grace, is_value, lookup, refetch_locked, find_key, refresh, key,
  has_signing_shape, may_refetch, older_than,
}

pub is_value_sound : (o : Option String) (want : String) → is_value o want ≡ true → o ≡ some want
is_value_sound none want h = cc
is_value_sound (some v) want h = ap some ((eq_iff v want).0 h)

module _ (j : Jose) (fetch : ℕ → Option j.Set) where
  -- The published attributes that RFC 8037 gives an Ed25519 signing key.
  pub record IsSigningKey (k : j.Key) : Type 0 where
    pub for_signing : j.key_usage k ≡ some "sig"
    pub octet_key_pair : j.key_type k ≡ "OKP"
    pub on_curve : j.curve k ≡ some "Ed25519"

  pub record IsPublished (kid : String) (k : j.Key) (now : Time) (c : Cache j) : Type 0 where
    pub set : j.Set
    pub cached : c.set ≡ some set
    pub named : j.lookup_key_id set kid ≡ some k
    pub signing : IsSigningKey k
    pub recent : now -ℤ c.fetched_at ≤ℤ pos (jwks_ttl + jwks_stale_grace)

  shape : (k : j.Key) → has_signing_shape j k ≡ true → IsSigningKey k
  unfolding has_signing_shape
  shape k h = record {
    for_signing = is_value_sound (j.key_usage k) "sig" (ground arith);
    octet_key_pair = ground (arith, eq_iff (j.key_type k) "OKP");
    on_curve = is_value_sound (j.curve k) "Ed25519" (ground arith);
  }

  lookup_sound :
      (s : Option j.Set) (kid : String) (k : j.Key)
      → lookup j s kid ≡ some k
      → (set : j.Set) × (s ≡ some set) × (j.lookup_key_id set kid ≡ some k) × IsSigningKey k
  unfolding lookup has_signing_shape
  lookup_sound none kid k h = absurd (ground arith)
  lookup_sound (some set) kid k h = elim (Option-cases (j.lookup_key_id set kid)) [
    | inl e ↦ absurd (ground arith)
    | inr (x, e) ↦ elim (Bool-cases (has_signing_shape j x)) [
      | inl t ↦ (set, refl, ground arith, subst IsSigningKey (ground arith) (shape x t))
      | inr f ↦ absurd (ground arith)
    ]
  ]

  -- the set of `c` is at most 15 minutes old
  abbrev IsRecent : Time → Cache j → Type 0
  IsRecent now c = now -ℤ c.fetched_at ≤ℤ pos (jwks_ttl + jwks_stale_grace)

  published :
      (kid : String) (now : Time) (c : Cache j) (k : j.Key)
      → IsRecent now c
      → lookup j c.set kid ≡ some k
      → IsPublished kid k now c
  published kid now c k fresh h =
      let (set, e, named, signing) = lookup_sound c.set kid k h in
      record { set = set; cached = e; named = named; signing = signing; recent = fresh }

  find_key_sound :
      (kid : String) (now : Time) (c : Cache j) (k : j.Key)
      → IsRecent now c
      → (find_key j fetch kid now c).0 ≡ some k
      → IsPublished kid k now (find_key j fetch kid now c).1
  unfolding find_key refetch_locked
  find_key_sound kid now c k fresh h = elim (Option-cases (lookup j c.set kid)) [
    | inr (x, e) ↦ rw (e, find_key) (published kid now c k fresh (ground arith))
    | inl e ↦ elim (Bool-cases (may_refetch j now c)) [
      | inr f ↦ absurd (ground arith)
      | inl t ↦ elim (Option-cases (fetch c.fetches)) [
        | inl g ↦ absurd (ground arith)
        | inr (s, g) ↦
            rw (e, t, g, find_key, refetch_locked)
              (published kid now _ k (omega (arith, -ℤ_parts now now)) (ground arith))
      ]
    ]
  ]

  recent_of_younger :
      (age : ℕ) (now : Time) (c : Cache j)
      → age < 2 ^ 62
      → older_than j age now c ≡ false
      → now -ℤ c.fetched_at ≤ℤ pos age
  unfolding older_than
  recent_of_younger age now c small h = ground (arith, lt-time_sub age now c.fetched_at)

  IsRecent-of_refresh :
      (now : Time) (c : Cache j)
      → (refresh j fetch now c).0 ≡ true
      → IsRecent now (refresh j fetch now c).1
  unfolding refresh refetch_locked
  IsRecent-of_refresh now c h = elim (Bool-cases (may_refetch j now c)) [
    | inr f ↦ absurd (ground arith)
    | inl t ↦ elim (Option-cases (fetch c.fetches)) [
      | inl g ↦ absurd (ground arith)
      | inr (s, g) ↦ rw (t, g, refresh, refetch_locked) (omega (arith, -ℤ_parts now now))
    ]
  ]

  -- Whatever the endpoint answers, a key that is handed out carries the asked id in the cached set,
  -- has the attributes of an Ed25519 signing key, and the set was fetched at most 15 minutes ago.
  pub key-IsPublished :
      (kid : String) (now : Time) (c : Cache j) (k : j.Key)
      → (key j fetch kid now c).0 ≡ some k
      → (kid ≢ "") × IsPublished kid k now (key j fetch kid now c).1
  unfolding key
  key-IsPublished kid now c k h = elim (Bool-cases (kid == "")) [
    | inl t ↦ absurd (ground arith)
    | inr named ↦ (
      ground (arith, eq_iff kid ""),
      elim (Bool-cases (older_than j jwks_ttl now c)) [
        | inr young ↦
            rw (named, young, key)
              (find_key_sound kid now c k
                (omega (arith, recent_of_younger jwks_ttl now c (omega arith) young))
                (ground arith))
        | inl stale ↦
            let c' = (refresh j fetch now c).1 in
            elim (Bool-cases (refresh j fetch now c).0) [
              | inl done ↦
                  rw (named, stale, done, key)
                    (find_key_sound kid now c' k (IsRecent-of_refresh now c done) (ground arith))
              | inr failed ↦ elim (Bool-cases (older_than j (jwks_ttl + jwks_stale_grace) now c')) [
                | inl dead ↦ absurd (ground arith)
                | inr alive ↦
                    rw (named, stale, failed, alive, key)
                      (find_key_sound kid now c' k
                        (recent_of_younger (jwks_ttl + jwks_stale_grace) now c' (omega arith) alive)
                        (ground arith))
              ]
            ]
      ],
    )
  ]
