-- ===== src/Handler/Token.antt =====
-- services/ingest/internal/handler/token.go: POST /v1/auth/token and POST /v1/auth/challenge
pub mod Grants
use event_tracking.Prelude.{
  ℕ, String, Bool, true, false, List, Option, none, some, Result, ok, err, is_some, if◌then◌else◌,
}
use event_tracking.Prelude.Int.{ℤ}
use event_tracking.Prelude.Text.{◌+++◌}
use event_tracking.Time.{Time}
use event_tracking.Contract.{TokenRequest, TokenResponse}
use event_tracking.Tenant.{Claims, scope_write_events}
use event_tracking.Handler.Action.{
  Action, Response, failure, success, http_error, pure, gets, or_stop, attempt, guard, ◌>>=◌, ◌>>◌,
}
use event_tracking.Handler.Body.{Stream, BodyError, read_body}
use event_tracking.Handler.Batch.{Request}

abbrev pub token_rate_per_minute : ℕ
token_rate_per_minute = 30

-- seconds
abbrev pub token_rate_window : ℕ
token_rate_window = 60

-- The struct TokenDeps: each dependency is a call on the world `W`. `allow_client` is none when
-- RateLimit is nil; `attest` answers the subject of an attestation that was verified.
pub record TokenDeps (W : Type 0) : Type 0 where
  pub clock : W → Time
  pub mint_token : Claims → Time → Option (String × ℤ)
  pub attest : String → String → String → W → Option String × W
  pub issue_challenge : String → String → W → Option String × W
  pub consume_challenge : String → String → String → W → Bool × W
  pub resolve_tenant : String → W → Option String × W
  pub issue_install : String → String → String → String → ℕ → W → Option String × W
  pub allow_client : Option (String → ℕ → ℕ → W → Option Bool × W)

-- The libraries that the handlers call: compress/gzip, protojson, encoding/json, and the SHA-256
-- digest in hexadecimal.
pub record TokenCodecs : Type 0 where
  pub gunzip : Stream → Option Stream
  pub unmarshal : List ℕ → Option TokenRequest
  pub marshal : TokenResponse → Option String
  pub encode_challenge : String → String
  pub digest : String → String

-- the 429 with its Retry-After
abbrev pub too_many_exchanges : Response
too_many_exchanges = record { status = 429; retry_after = some 60; payload = failure "rate_limit" }

abbrev pub read_or_none : Result BodyError (List ℕ) → Option (List ℕ)
read_or_none (ok b) = some b
read_or_none (err e) = none

-- 0 with a subject, and 1 without
abbrev pub tier_for : Option String → ℕ
tier_for none = 1
tier_for (some subject) = 0

abbrev pub subject_or_empty : Option String → String
subject_or_empty none = ""
subject_or_empty (some subject) = subject

-- deviceKey; the separator is the NUL character
unfoldable pub device_key : (String → String) → TokenRequest → String
device_key digest req =
    digest (req.client_id +++ "\0" +++ req.platform +++ "\0" +++ req.device_hint)

abbrev pub token_claims : String → String → ℕ → Claims
token_claims tenant_id install_id tier = record {
  tenant_id = tenant_id;
  install_id = install_id;
  scope = scope_write_events;
  trust_tier = tier;
}

abbrev pub ended : Result Response Response → Response
ended (ok r) = r
ended (err r) = r

module _ (k : TokenCodecs) {W : Type 0} (d : TokenDeps W) where
  -- the decoded request and its tenant, after the rate limit of `scope`
  unfoldable pub identify : String → Request → Action W (TokenRequest × String)
  identify scope r = do
    body ←
        or_stop (read_or_none (read_body k.gunzip r.content_encoding r.body))
          (http_error 400 "unreadable body")
    req ← or_stop (k.unmarshal body) (http_error 400 "malformed request")
    tenant_id ← attempt (d.resolve_tenant req.client_id) (http_error 401 "unknown client_id")
    within ← elim d.allow_client [
      | none ↦ pure true
      | some allow ↦
          attempt (allow (scope +++ req.client_id) token_rate_per_minute token_rate_window)
            (http_error 503 "rate limit unavailable")
    ]
    guard within too_many_exchanges
    pure (req, tenant_id)

  -- the attestation is looked at only with a live challenge
  abbrev pub subject_if : Bool → Option String × W → W → Result Response (Option String) × W
  subject_if true (subject, w') w = (ok subject, w')
  subject_if false _ w = (ok none, w)

  -- The subject of the attestation, when the challenge was live and the attestation verified.
  unfoldable pub attested : TokenRequest → Action W (Option String)
  attested req w =
      let (live, w') = d.consume_challenge req.client_id req.platform req.challenge w in
      subject_if live (d.attest req.platform req.attestation req.challenge w') w'

  -- What an exchange hands out.
  pub record Grant : Type 0 where
    pub exchange : TokenRequest
    pub of_tenant : String
    pub subject : Option String
    pub install : String
    pub access_token : String
    pub expires_in : ℤ

  abbrev pub token_response : Grant → TokenResponse
  token_response g = record {
    access_token = g.access_token;
    expires_in = g.expires_in;
    trust_tier = tier_for g.subject;
  }

  -- the handler up to the token
  unfoldable pub exchange_token : Request → Action W Grant
  exchange_token r = do
    who ← identify "rl:token:" r
    subject ← attested who.0
    install ←
        attempt
          (d.issue_install who.1 (who.0).platform (subject_or_empty subject)
            (device_key k.digest who.0) (tier_for subject))
          (http_error 503 "install issuance unavailable")
    now ← gets d.clock
    minted ←
        or_stop (d.mint_token (token_claims who.1 install (tier_for subject)) now)
          (http_error 500 "mint failed")
    pure (record {
      exchange = who.0;
      of_tenant = who.1;
      subject = subject;
      install = install;
      access_token = minted.0;
      expires_in = minted.1;
    })

  abbrev pub answer_token : Grant → Action W Response
  answer_token g = do
    out ← or_stop (k.marshal (token_response g)) (http_error 500 "encode")
    pure (record { status = 200; retry_after = none; payload = success out })

  -- The handler that NewToken returns.
  unfoldable pub serve_token : Request → W → Response × W
  serve_token r w = let (a, w') = (exchange_token r >>= answer_token) w in (ended a, w')

  -- The handler that NewChallenge returns.
  unfoldable pub serve_challenge : Request → W → Response × W
  serve_challenge r w =
      let (a, w') =
        (do
          who ← identify "rl:challenge:" r
          nonce ←
              attempt (d.issue_challenge (who.0).client_id (who.0).platform)
                (http_error 503 "challenge unavailable")
          pure (record {
            status = 200;
            retry_after = none;
            payload = success (k.encode_challenge nonce);
          }))
          w in
      (ended a, w')
