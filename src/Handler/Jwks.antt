-- ===== src/Handler/Jwks.antt =====
-- services/ingest/internal/handler/jwks.go: GET /.well-known/jwks.json
use event_tracking.Prelude.Text.{◌+++◌}
use event_tracking.Prelude.{ℕ, String, List, [], ◌∷◌, Option, none, some}

-- A reply with the headers that the handler sets.
pub record Reply : Type 0 where
  pub status : ℕ
  pub headers : List (String × String)
  pub body : String

-- http.Error
abbrev pub plain_error : ℕ → String → Reply
plain_error code text = record {
  status = code;
  headers =
      ("Content-Type", "text/plain; charset=utf-8") ∷ ("X-Content-Type-Options", "nosniff") ∷ [];
  body = text +++ "\n";
}

-- The handler that NewJWKS returns: `set` is what PublicJWKS answers, and `encode` prints it.
abbrev pub serve_jwks : {S : Type 0} → (S → String) → Option S → Reply
serve_jwks encode none = plain_error 503 "jwks unavailable"
serve_jwks encode (some set) = record {
  status = 200;
  headers =
      ("Content-Type", "application/jwk-set+json") ∷ ("Cache-Control", "public, max-age=60") ∷ [];
  body = encode set;
}
