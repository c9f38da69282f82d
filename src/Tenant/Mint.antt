-- ===== src/Tenant/Mint.antt =====
-- pkg/tenant/token.go: Minter and Mint
pub mod RoundTrip
use event_tracking.Prelude.{ℕ, ◌/◌, String, [], ◌∷◌, Option, none, some}
use event_tracking.Prelude.Int.{ℤ, pos, ◌+ℤ◌}
use event_tracking.Time.{Time, second}
use event_tracking.Tenant.{Claims, token_type}
use event_tracking.Tenant.Jose.{Jose, Token, whole, text}

pub record Minter (j : Jose) : Type 0 where
  pub kid : String
  pub key : j.PrivateKey
  pub issuer : String
  pub audience : String
  pub ttl : ℕ

module _ (j : Jose) where
  -- what the builder builds
  unfoldable pub token_of : Minter j → Claims → Time → Token
  token_of m c now = record {
    iss = some m.issuer;
    aud = m.audience ∷ [];
    iat = some now;
    nbf = some now;
    exp = some (now +ℤ pos m.ttl);
    tenant_id = some (text c.tenant_id);
    install_id = some (text c.install_id);
    scope = some (text c.scope);
    trust_tier = some (whole (pos c.trust_tier));
  }

  -- the token and its lifetime in seconds; `none` is the error
  unfoldable pub mint : Minter j → Claims → Time → Option (String × ℤ)
  mint m c now = elim (j.sign (token_of m c now) token_type m.kid m.key) [
    | none ↦ none
    | some signed ↦ some (signed, pos (m.ttl / second))
  ]
