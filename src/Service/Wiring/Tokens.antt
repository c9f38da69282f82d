-- ===== src/Service/Wiring/Tokens.antt =====
-- A token from the token endpoint before the batch endpoint of the same service.
use event_tracking.Prelude.{String, ◌≡◌, ◌≢◌, refl, ap, false, some, ok, arith}
use event_tracking.Prelude.Int.{pos, ◌+ℤ◌, ◌≤ℤ◌}
use event_tracking.Prelude.Text.{◌+++◌, starts_with, fields, NoSpace}
use mathlib.Core.List.{Memᴰ}
use event_tracking.Time.{Time}
use event_tracking.Tenant.Jose.{IsJose}
use event_tracking.Tenant.Keys.{key}
use event_tracking.Tenant.{Claims, scope_write_events, token_type}
use event_tracking.Tenant.Verify.{Config, verify}
use event_tracking.Tenant.Legacy.{legacy_prefix, verify_or_legacy}
use event_tracking.Tenant.Mint.{Minter, token_of}
use event_tracking.Tenant.Mint.RoundTrip.{verify-mint, strip_bearer_raw, signed_of_mint}
use event_tracking.ControlPlane.Tenants.Lookups.{Grants}
use event_tracking.Handler.Batch.{Request}
use event_tracking.Handler.Token.{TokenCodecs, Grant, exchange_token, token_claims}
use event_tracking.Service.Wiring.{Parts, World, token_deps, batch_deps}
use event_tracking.Service.Wiring.Exchange.{exchanged}

module _ (k : TokenCodecs) (e : Parts) (m : Minter e.jose) where
  abbrev config : Config
  config = record { issuer = m.issuer; audience = m.audience }

  scoped : Memᴰ scope_write_events (fields scope_write_events)
  unfolding fields
  scoped = Memᴰ.head refl

  module _ (l : IsJose e.jose) where
    unprefixed :
        (raw : String) (now : Time) (w : World e) (c : Claims)
        → NoSpace raw
        → starts_with raw legacy_prefix ≡ false
        → (verify e.jose e.fetch config ("Bearer " +++ raw) now w.cache).0 ≡ ok c
        → ((batch_deps e config).verify_or_legacy ("Bearer " +++ raw) now w).0 ≡ (ok c, false)
    unfolding verify_or_legacy
    unprefixed raw now w c bare plain h =
        rw (strip_bearer_raw raw bare, plain) (ap (λ x. (x, false)) h)

    -- A client that exchanges its id for a token has an id that is in force, and gets the lower
    -- tier. The batch endpoint of the same service accepts the token, from the exchange to the
    -- token's expiry, as the tenant of the id and the install of the exchange, provided that the
    -- verifier finds the public half of the minter's key, that the token does not start like a legacy
    -- key, and that the ids of the tenant and the install are not empty.
    pub token_accepted :
        (r : Request) (w w' : World e) (later : Time) (g : Grant k (token_deps e m))
        (half : (e.jose).Key)
        → (exchange_token k (token_deps e m) r w).0 ≡ ok g
        → w.clock ≤ℤ later
        → later ≤ℤ w.clock +ℤ pos m.ttl
        → g.of_tenant ≢ ""
        → g.install ≢ ""
        → starts_with g.access_token legacy_prefix ≡ false
        → l.IsPublicOf m.key half
        → (key e.jose e.fetch m.kid later w'.cache).0 ≡ some half
        → Grants (g.exchange).client_id g.of_tenant w.clients
          × (((batch_deps e config).verify_or_legacy ("Bearer " +++ g.access_token) later w').0
              ≡ (ok (token_claims g.of_tenant g.install 1), false))
    token_accepted r w w' later g half h begun alive tenant install plain is_half published =
        let (granted, tier, minted) = exchanged k e m r w g h in
        let c = token_claims g.of_tenant g.install 1 in
        let signed =
          signed_of_mint e.jose l e.fetch m c w.clock later w'.cache g.access_token g.expires_in
            minted in
        (
          granted,
          unprefixed g.access_token later w' c
              (l.compact (token_of e.jose m c w.clock) token_type m.kid g.access_token m.key signed)
              plain
              (verify-mint e.jose l e.fetch m c w.clock later w'.cache half g.access_token
                g.expires_in is_half minted published begun alive tenant install scoped
                (omega arith)),
        )
