-- ===== src/Tenant/Verify/Acceptance.antt =====
-- pkg/tenant/verify.go: which credentials Verify accepts, and what it does to the cache of keys.
use event_tracking.Prelude.{
  ℕ, String, ◌≡◌, ◌≢◌, ◌↔◌, ◌⊎◌, refl, List, [], ◌∷◌, Option, none, some, Option-cases, inl, inr,
  arith, ok,
}
use event_tracking.Time.{Time}
use event_tracking.Tenant.{Claims, token_type}
use event_tracking.Tenant.Jose.{Jose, Headers, Token}
use event_tracking.Tenant.Keys.{Cache, key}
use event_tracking.Tenant.Keys.Fetches.{AtMostOne, key-AtMostOne}
use event_tracking.Tenant.Verify.{
  Config, strip_bearer, text_or_empty, check_headers, check_signatures, verify,
}
use event_tracking.Tenant.Verify.Conditions.{IsIngestToken, is_value_iff, check_claims_iff}

module _ (j : Jose) (fetch : ℕ → Option j.Set) (cfg : Config) (bearer : String) (now : Time)
    (cache : Cache j) (c : Claims) where
  -- The credential is a signed ingest token, and its one signature is EdDSA by the key that the
  -- cache has under the id in its header.
  pub record IsAccepted : Type 0 where
    pub headers : Headers
    pub one_signature : j.parse_jws (strip_bearer bearer) ≡ some (headers ∷ [])
    pub eddsa : headers.alg ≡ some "EdDSA"
    pub access_token : headers.typ ≡ some token_type
    pub signing_key : j.Key
    pub published : (key j fetch (text_or_empty headers.kid) now cache).0 ≡ some signing_key
    pub token : Token
    pub signed : j.parse_jwt (strip_bearer bearer) signing_key ≡ some token
    pub ingest : IsIngestToken cfg now token c

  accepted_of_headers :
      (h : Headers)
      → j.parse_jws (strip_bearer bearer) ≡ some (h ∷ [])
      → (check_headers j fetch cfg (strip_bearer bearer) h now cache).0 ≡ ok c
      → IsAccepted
  unfolding check_headers
  accepted_of_headers h one e =
      elim (Option-cases (key j fetch (text_or_empty h.kid) now cache).0) [
        | inl f ↦ absurd (ground arith)
        | inr (k, f) ↦ elim (Option-cases (j.parse_jwt (strip_bearer bearer) k)) [
          | inl g ↦ absurd (ground arith)
          | inr (t, g) ↦ record {
            headers = h;
            one_signature = one;
            eddsa = (is_value_iff h.alg "EdDSA").0 (ground arith);
            access_token = (is_value_iff h.typ token_type).0 (ground arith);
            signing_key = k;
            published = f;
            token = t;
            signed = g;
            ingest = (check_claims_iff cfg now t c).0 (ground arith);
          }
        ]
      ]

  verify_sound : (verify j fetch cfg bearer now cache).0 ≡ ok c → IsAccepted
  unfolding verify
  verify_sound e = go (j.parse_jws (strip_bearer bearer)) refl e
    where
      go :
          (o : Option (List Headers))
          → j.parse_jws (strip_bearer bearer) ≡ o
          → (check_signatures j fetch cfg (strip_bearer bearer) o now cache).0 ≡ ok c
          → IsAccepted
      go none p e = absurd (ground arith)
      go (some []) p e = absurd (ground arith)
      go (some (h ∷ [])) p e = accepted_of_headers h p e
      go (some (h ∷ h' ∷ hs)) p e = absurd (ground arith)

  verify_complete : IsAccepted → (verify j fetch cfg bearer now cache).0 ≡ ok c
  unfolding verify check_headers
  verify_complete a =
      let alg = (is_value_iff a.headers.alg "EdDSA").1 a.eddsa in
      let typ = (is_value_iff a.headers.typ token_type).1 a.access_token in
      rw (a.one_signature, verify, check_headers, alg, typ, a.published, a.signed)
        ((check_claims_iff cfg now a.token c).1 a.ingest)

  -- Verify answers with the claims `c` exactly for an accepted credential with those claims.
  pub verify_iff : ((verify j fetch cfg bearer now cache).0 ≡ ok c) ↔ IsAccepted
  verify_iff = (verify_sound, verify_complete)

module _ (j : Jose) (fetch : ℕ → Option j.Set) (cfg : Config) (bearer : String) (now : Time)
    (cache : Cache j) where
  headers-AtMostOne :
      (raw : String) (h : Headers)
      → AtMostOne j now cache (check_headers j fetch cfg raw h now cache).1
  unfolding check_headers
  headers-AtMostOne raw h = ground (arith, key-AtMostOne j fetch now (text_or_empty h.kid) cache)

  signatures-AtMostOne :
      (raw : String) (o : Option (List Headers))
      → AtMostOne j now cache (check_signatures j fetch cfg raw o now cache).1
  signatures-AtMostOne raw none = inl (refl, refl)
  signatures-AtMostOne raw (some []) = inl (refl, refl)
  signatures-AtMostOne raw (some (h ∷ [])) = headers-AtMostOne raw h
  signatures-AtMostOne raw (some (h ∷ h' ∷ hs)) = inl (refl, refl)

  early_headers :
      (raw : String) (h : Headers)
      → (h.alg ≢ some "EdDSA") ⊎ (h.typ ≢ some token_type)
      → ((check_headers j fetch cfg raw h now cache).1 ≡ cache)
        × ((c : Claims) → (check_headers j fetch cfg raw h now cache).0 ≢ ok c)
  unfolding check_headers
  early_headers raw h b = (
    ground (arith, is_value_iff h.alg "EdDSA", is_value_iff h.typ token_type),
    λ c e. ground (arith, is_value_iff h.alg "EdDSA", is_value_iff h.typ token_type),
  )

  -- Whatever the credential, its verification makes at most one request to the JWKS endpoint, and
  -- none within 30 seconds of the last one.
  pub verify-AtMostOne : AtMostOne j now cache (verify j fetch cfg bearer now cache).1
  unfolding verify
  verify-AtMostOne = signatures-AtMostOne _ _

  -- A credential that is no single EdDSA signature of an access token is rejected before any key is
  -- looked up: the cache is as it was.
  pub verify_early :
      ((h : Headers)
        → j.parse_jws (strip_bearer bearer) ≡ some (h ∷ [])
        → (h.alg ≢ some "EdDSA") ⊎ (h.typ ≢ some token_type))
      → ((verify j fetch cfg bearer now cache).1 ≡ cache)
        × ((c : Claims) → (verify j fetch cfg bearer now cache).0 ≢ ok c)
  unfolding verify
  verify_early bad = go (j.parse_jws (strip_bearer bearer)) bad
    where
      go :
          (o : Option (List Headers))
          → ((h : Headers) → o ≡ some (h ∷ []) → (h.alg ≢ some "EdDSA") ⊎ (h.typ ≢ some token_type))
          → ((check_signatures j fetch cfg (strip_bearer bearer) o now cache).1 ≡ cache)
            × ((c : Claims)
                → (check_signatures j fetch cfg (strip_bearer bearer) o now cache).0 ≢ ok c)
      go none b = (refl, λ c e. cc)
      go (some []) b = (refl, λ c e. cc)
      go (some (h ∷ [])) b = early_headers (strip_bearer bearer) h (b h refl)
      go (some (h ∷ h' ∷ hs)) b = (refl, λ c e. cc)
