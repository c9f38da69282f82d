-- ===== src/Tenant/Mint/RoundTrip.antt =====
-- pkg/tenant: minted tokens before the verifier.
use mathlib.Core.List.{Memᴰ}
use event_tracking.Prelude.{
  ℕ, ◌≤◌, String, ◌≡◌, ◌≢◌, refl, ap, ◌∙◌, Option, some, Option-cases, inl, inr, arith, ok,
}
use event_tracking.Prelude.Int.{ℤ, pos, negsuc, ◌+ℤ◌, ◌≤ℤ◌, int_laws, scale, floor_div}
use event_tracking.Prelude.Text.{
  ◌+++◌, fields, equal_fold, NoSpace, trim_space_id, cut_space-bearer,
}
use event_tracking.Time.{Time, second, unix}
use event_tracking.Tenant.{Claims, token_type, scope_write_events}
use event_tracking.Tenant.Jose.{Jose, IsJose, to_seconds, on_wire}
use event_tracking.Tenant.Keys.{Cache, key}
use event_tracking.Tenant.Verify.{Config, clock_skew, strip_bearer, verify}
use event_tracking.Tenant.Verify.Acceptance.{verify_iff}
use event_tracking.Tenant.Verify.Conditions.{IsIngestToken}
use mathlib.Core.Path.{subst}
use event_tracking.Tenant.Mint.{Minter, token_of, mint}

pub strip_bearer_raw : (raw : String) → NoSpace raw → strip_bearer ("Bearer " +++ raw) ≡ raw
unfolding strip_bearer equal_fold
strip_bearer_raw raw h = rw (cut_space-bearer raw, strip_bearer) (trim_space_id raw h)

to_seconds_bounds : (t : Time) → (to_seconds t ≤ℤ t) × (t ≤ℤ to_seconds t +ℤ pos second)
unfolding unix floor_div scale ◌+ℤ◌
to_seconds_bounds (pos n) = ground arith
to_seconds_bounds (negsuc n) = ground arith

module _ (j : Jose) (l : IsJose j) (fetch : ℕ → Option j.Set) (m : Minter j) (c : Claims)
    (now later : Time) (cache : Cache j) where
  pub signed_of_mint :
      (raw : String) (expires_in : ℤ)
      → mint j m c now ≡ some (raw, expires_in)
      → j.sign (token_of j m c now) token_type m.kid m.key ≡ some raw
  unfolding mint
  signed_of_mint raw e h =
      elim (Option-cases (j.sign (token_of j m c now) token_type m.kid m.key)) [
        | inl f ↦ absurd (ground arith)
        | inr (r, f) ↦ ground arith
      ]

  abbrev config : Config
  config = record { issuer = m.issuer; audience = m.audience }

  minted_ingest :
      now ≤ℤ later
      → later ≤ℤ now +ℤ pos m.ttl
      → c.tenant_id ≢ ""
      → c.install_id ≢ ""
      → Memᴰ scope_write_events (fields c.scope)
      → c.trust_tier ≤ 1
      → IsIngestToken config later (on_wire (token_of j m c now)) c
  unfolding token_of
  minted_ingest begun alive tenant install scope tier = record {
    issued = refl;
    only_for_us = refl;
    expiry = to_seconds (now +ℤ pos m.ttl);
    expires = refl;
    alive = omega (int_laws, to_seconds_bounds (now +ℤ pos m.ttl));
    begun = λ nbf e.
        let same : to_seconds now ≡ nbf = cc in
        subst (λ t. t ≤ℤ later +ℤ pos clock_skew) same (omega (int_laws, to_seconds_bounds now));
    scoped = scope;
    scope_claim = refl;
    tenant_claim = refl;
    has_tenant = tenant;
    install_claim = refl;
    has_install = install;
    tier_claim = refl;
    two_tiers = tier;
  }

  -- A minted token, sent as a bearer credential at any time from its issue to its expiry to a
  -- verifier of the same issuer and audience that has the public half of the minter's key, is
  -- accepted with the claims that it was minted for, if those name a tenant, an install, one of the
  -- two tiers and the scope to write events.
  pub verify-mint :
      (half : j.Key) (raw : String) (expires_in : ℤ)
      → l.IsPublicOf m.key half
      → mint j m c now ≡ some (raw, expires_in)
      → (key j fetch m.kid later cache).0 ≡ some half
      → now ≤ℤ later
      → later ≤ℤ now +ℤ pos m.ttl
      → c.tenant_id ≢ ""
      → c.install_id ≢ ""
      → Memᴰ scope_write_events (fields c.scope)
      → c.trust_tier ≤ 1
      → (verify j fetch
          (record { issuer = m.issuer; audience = m.audience })
          ("Bearer " +++ raw)
          later
          cache).0
        ≡ ok c
  verify-mint half raw expires_in is_half minted published begun alive tenant install scope tier =
      let signed = signed_of_mint raw expires_in minted in
      let t = token_of j m c now in
      let bare = strip_bearer_raw raw (l.compact t token_type m.kid raw m.key signed) in
      (verify_iff j fetch config ("Bearer " +++ raw) later cache c).1 (record {
        headers = record { alg = some "EdDSA"; typ = some token_type; kid = some m.kid };
        one_signature = ap j.parse_jws bare ∙ l.headers t token_type m.kid raw m.key signed;
        eddsa = refl;
        access_token = refl;
        signing_key = half;
        published = published;
        token = on_wire t;
        signed =
            ap (λ r. j.parse_jwt r half) bare
            ∙ l.verifies t token_type m.kid raw m.key half is_half signed;
        ingest = minted_ingest begun alive tenant install scope tier;
      })
