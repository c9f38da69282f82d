-- ===== src/Handler/Token/Grants.antt =====
-- What an exchange has passed when a token is handed out.
use event_tracking.Prelude.{
  ℕ, String, ◌≡◌, ◌⊎◌, refl, ap, ◌∙◌, arith, Bool, true, false, List, Option, none, some, Result,
  ok, err, inl, inr, Option-cases,
}
use event_tracking.Contract.{TokenRequest}
use event_tracking.Handler.Action.{
  Action, Response, success, pure, attempt, or_stop, http_error, continue, ◌>>=◌,
}
use event_tracking.Handler.Outcomes.{
  Ends, IsRefusal, From, From-bind, From-run, From-or_stop, From-attempt, From-guard, From-mono,
  From-Ends, Ends-From,
}
use event_tracking.Handler.Body.{BodyError, read_body}
use event_tracking.Handler.Batch.{Request}
use event_tracking.Handler.Token.{
  TokenDeps, TokenCodecs, Grant, token_rate_per_minute, token_rate_window, read_or_none, tier_for,
  subject_or_empty, device_key, token_claims, identify, attested, exchange_token, token_response,
  serve_token, subject_if, answer_token, ended,
}
use event_tracking.Prelude.Text.{◌+++◌}

of_read : (x : Result BodyError (List ℕ)) (b : List ℕ) → read_or_none x ≡ some b → x ≡ ok b
of_read (ok c) b h = ground arith
of_read (err e) b h = absurd (ground arith)

module _ (k : TokenCodecs) {W : Type 0} (d : TokenDeps W) where
  -- The rate limit, where there is one, answers that the call is within it.
  abbrev pub Within : Option (String → ℕ → ℕ → W → Option Bool × W) → String → W → Type 0
  Within none key w = Unit
  Within (some allow) key w = (allow key token_rate_per_minute token_rate_window w).0 ≡ some true

  -- A subject comes from a challenge that is consumed and an attestation over it that verifies then.
  abbrev pub Attested : TokenRequest → W → Option String → Type 0
  Attested req w none = Unit
  Attested req w (some subject) =
      ((d.consume_challenge req.client_id req.platform req.challenge w).0 ≡ true)
      × ((d.attest req.platform req.attestation req.challenge
            (d.consume_challenge req.client_id req.platform req.challenge w).1).0
          ≡ some subject)

  -- What is known of a request that starts in the world `w` when its client is identified.
  pub record IsIdentified (scope : String) (r : Request) (w : W) (req : TokenRequest)
      (tenant_id : String) : Type 0 where
    pub decoded :
        (b : List ℕ) × (read_body k.gunzip r.content_encoding r.body ≡ ok b)
        × (k.unmarshal b ≡ some req)
    pub resolved : (d.resolve_tenant req.client_id w).0 ≡ some tenant_id
    pub within :
        Within d.allow_client (scope +++ req.client_id) (d.resolve_tenant req.client_id w).1

  -- the worlds after the identification, and after the attestation
  abbrev pub identified_at : Request → W → W
  identified_at r w = (identify k d "rl:token:" r w).1

  abbrev pub attested_at : Request → TokenRequest → W → W
  attested_at r req w = (attested k d req (identified_at r w)).1

  abbrev pub issue_for : Grant k d → W → Option String × W
  issue_for g w =
      d.issue_install g.of_tenant g.exchange.platform (subject_or_empty g.subject)
        (device_key k.digest g.exchange) (tier_for g.subject) w

  -- The grant of the request that starts in the world `w`, each call in the world that the calls
  -- before it left.
  pub record IsGrant (r : Request) (w : W) (g : Grant k d) : Type 0 where
    pub identified : IsIdentified "rl:token:" r w g.exchange g.of_tenant
    pub attestation : Attested g.exchange (identified_at r w) g.subject
    pub issued : (issue_for g (attested_at r g.exchange w)).0 ≡ some g.install
    pub minted :
        d.mint_token
          (token_claims g.of_tenant g.install (tier_for g.subject))
          (d.clock (issue_for g (attested_at r g.exchange w)).1)
        ≡ some (g.access_token, g.expires_in)

  limit_lem :
      (o : Option (String → ℕ → ℕ → W → Option Bool × W)) (key : String) (w : W)
      → From w
          (elim o as (λ _. Action W Bool) [
            | none ↦ pure true
            | some allow ↦
                attempt
                  (allow key token_rate_per_minute token_rate_window)
                  (http_error 503 "rate limit unavailable")
          ])
          (λ b _. b ≡ true → Within o key w)
  limit_lem none key w = From-run _ _ w (λ h. tt)
  limit_lem (some allow) key w = From-attempt _ _ _ w (omega arith, refl) λ b e h. e ∙ ap some h

  identify-IsIdentified :
      (scope : String) (r : Request) (w : W)
      → From w (identify k d scope r) (λ x _. IsIdentified scope r w x.0 x.1)
  unfolding identify
  identify-IsIdentified scope r w = From-bind _ _ _ w (
      From-or_stop _ _ _ w (omega arith, refl)
        λ body hb. From-bind _ _ _ w (
          From-or_stop _ _ _ w (omega arith, refl)
            λ req hr. From-bind _ _ _ w (
              From-attempt _ _ _ w (omega arith, refl)
                λ tenant_id ht. From-bind _ _ _ _ (
                  From-mono _ _ _ _ (limit_lem d.allow_client (scope +++ req.client_id) _)
                    λ within u hw. From-bind _ _ _ u (
                      From-guard _ _ _ u (λ _. (omega arith, (refl, omega arith)))
                        λ hg. From-run _ _ u (record {
                          decoded = (body, of_read _ body hb, hr);
                          resolved = ht;
                          within = hw hg;
                        }))))))

  attested-Attested : (req : TokenRequest) (w : W) → Ends (Attested req w) (attested k d req w).0
  unfolding attested
  attested-Attested req w =
      go (d.consume_challenge req.client_id req.platform req.challenge w).0
        (d.attest req.platform req.attestation req.challenge
          (d.consume_challenge req.client_id req.platform req.challenge w).1).0
        refl refl
    where
      go :
          (live : Bool) (o : Option String)
          → (d.consume_challenge req.client_id req.platform req.challenge w).0 ≡ live
          → (d.attest req.platform req.attestation req.challenge
              (d.consume_challenge req.client_id req.platform req.challenge w).1).0
            ≡ o
          → Ends
              (Attested req w)
              (subject_if k d live
                (
                  o,
                  (d.attest req.platform req.attestation req.challenge
                      (d.consume_challenge req.client_id req.platform req.challenge w).1).1,
                )
                (d.consume_challenge req.client_id req.platform req.challenge w).1).0
      go false o e f = tt
      go true none e f = tt
      go true (some s) e f = (e, f)

  exchange_token-IsGrant :
      (r : Request) (w : W) → From w (exchange_token k d r) (λ g _. IsGrant r w g)
  unfolding exchange_token
  exchange_token-IsGrant r w = From-bind _ _ _ w (
      From-Ends _ _ _ w (Ends-From _ _ w (identify-IsIdentified "rl:token:" r w)) λ who hi.
        From-bind _ _ _ _ (
          From-Ends _ _ _ _ (attested-Attested who.0 _) λ subject ha. From-bind _ _ _ _ (
            From-attempt _ _ _ _ (omega arith, refl)
              λ install hn. From-bind _ _ _ _ (
                From-run _ _ _ (
                  From-bind _ _ _ _ (
                    From-or_stop _ _ _ _ (omega arith, refl)
                      λ minted hm. From-run _ _ _ (record {
                        identified = hi;
                        attestation = ha;
                        issued = hn;
                        minted = hm;
                      })))))))

  -- An error response, or a grant and the text of its token.
  abbrev pub Exchanges : Request → W → Response → Type 0
  Exchanges r w res =
      IsRefusal res
      ⊎ ((g : Grant k d) × IsGrant r w g
          × (text : String) × (k.marshal (token_response k d g) ≡ some text)
          × (res ≡ record { status = 200; retry_after = none; payload = success text }))

  -- An exchange is refused with an error status, or it answers 200 with the token of a grant: each
  -- call in the world that the calls before it left, the client id was resolved, the rate limit had
  -- room, the install was issued, and the token was minted for the tenant, the install, the scope to
  -- write events, and tier 0 only if a live challenge was consumed and an attestation over it was
  -- verified, and tier 1 otherwise.
  pub serve_token_cases : (r : Request) (w : W) → Exchanges r w (serve_token k d r w).0
  unfolding serve_token ◌>>=◌
  serve_token_cases r w =
      go (exchange_token k d r w).0 (Ends-From _ _ w (exchange_token-IsGrant r w))
    where
      go :
          (x : Result Response (Grant k d))
          → Ends (IsGrant r w) x
          → Exchanges r w (ended (continue x (answer_token k d) (exchange_token k d r w).1).0)
      go (err res) h = inl h
      go (ok g) h = elim (Option-cases (k.marshal (token_response k d g))) [
        | inl e ↦ inl (rw (e, or_stop) (omega arith, refl))
        | inr (text, e) ↦ inr (g, h, text, e, ground arith)
      ]
