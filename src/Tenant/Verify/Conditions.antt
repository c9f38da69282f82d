-- ===== src/Tenant/Verify/Conditions.antt =====
-- pkg/tenant/verify.go: the conditions on the claims of a token.
use mathlib.Core.List.{Memᴰ}
use mathlib.Core.List.Memᴰ.{head, tail}
use event_tracking.Prelude.{
  ℕ, ◌≤◌, String, ◌≡◌, ◌≢◌, ◌↔◌, refl, sym, true, false, List, [], ◌∷◌, Option, none, some,
  Bool-cases, inl, inr, ◌==◌, eq_iff, arith, ok,
}
use event_tracking.Prelude.Int.{pos, negsuc, ◌+ℤ◌, ◌≤ℤ◌}
use event_tracking.Prelude.Text.{fields}
use event_tracking.Time.{Time}
use event_tracking.Tenant.{Claims, scope_write_events}
use event_tracking.Tenant.Jose.{ClaimValue, whole, fraction, text, null, other, Token}
use event_tracking.Tenant.Keys.{is_value}
use event_tracking.Tenant.Verify.{
  Config, clock_skew, contains, has_scope, get_text, text_or_empty, tier_of, is_only, is_expired,
  is_early, check_claims,
}

-- The claims of a signed token for which Verify answers `c`.
pub record IsIngestToken (cfg : Config) (now : Time) (t : Token) (c : Claims) : Type 0 where
  pub issued : t.iss ≡ some cfg.issuer
  pub only_for_us : t.aud ≡ cfg.audience ∷ []
  pub expiry : Time
  pub expires : t.exp ≡ some expiry
  pub alive : now ≤ℤ expiry +ℤ pos clock_skew
  pub begun : (nbf : Time) → t.nbf ≡ some nbf → nbf ≤ℤ now +ℤ pos clock_skew
  pub scoped : Memᴰ scope_write_events (fields c.scope)
  pub scope_claim : text_or_empty (get_text t.scope) ≡ c.scope
  pub tenant_claim : t.tenant_id ≡ some (text c.tenant_id)
  pub has_tenant : c.tenant_id ≢ ""
  pub install_claim : t.install_id ≡ some (text c.install_id)
  pub has_install : c.install_id ≢ ""
  pub tier_claim : t.trust_tier ≡ some (whole (pos c.trust_tier))
  pub two_tiers : c.trust_tier ≤ 1

pub is_value_iff : (o : Option String) (want : String) → (is_value o want ≡ true) ↔ (o ≡ some want)
is_value_iff none want = ground arith
is_value_iff (some v) want = ground (arith, eq_iff v want)

is_only_iff : (l : List String) (want : String) → (is_only l want ≡ true) ↔ (l ≡ want ∷ [])
is_only_iff [] want = ground arith
is_only_iff (a ∷ []) want = ground (arith, eq_iff a want)
is_only_iff (a ∷ b ∷ l) want = ground arith

mem_of_contains : (l : List String) (want : String) → contains l want ≡ true → Memᴰ want l
unfolding contains
mem_of_contains [] want h = absurd (ground arith)
mem_of_contains (s ∷ ss) want h = elim (Bool-cases (s == want)) [
  | inl t ↦ head (sym ((eq_iff s want).0 t))
  | inr f ↦ tail (mem_of_contains ss want (ground arith))
]

contains_of_mem : (l : List String) (want : String) → Memᴰ want l → contains l want ≡ true
unfolding contains
contains_of_mem [] want m = elim m [ ]
contains_of_mem (s ∷ ss) want (head e) = ground (arith, eq_iff s want)
contains_of_mem (s ∷ ss) want (tail m) = ground (arith, contains_of_mem ss want m)

tier_iff :
    (o : Option ClaimValue) (n : ℕ) → (tier_of o ≡ some n) ↔ ((o ≡ some (whole (pos n))) × (n ≤ 1))
unfolding tier_of
tier_iff none n = ground arith
tier_iff (some (whole (pos z))) n = ground arith
tier_iff (some (whole (negsuc z))) n = ground arith
tier_iff (some (fraction z)) n = ground arith
tier_iff (some (text z)) n = ground arith
tier_iff (some null) n = ground arith
tier_iff (some other) n = ground arith

get_text_iff :
    (o : Option ClaimValue) (s : String)
    → s ≢ ""
    → (text_or_empty (get_text o) ≡ s) ↔ (o ≡ some (text s))
get_text_iff (some (text z)) s h = ground arith
get_text_iff none s h = (λ e. absurd (h (sym e)), λ e. cc)
get_text_iff (some (whole z)) s h = (λ e. absurd (h (sym e)), λ e. cc)
get_text_iff (some (fraction z)) s h = (λ e. absurd (h (sym e)), λ e. cc)
get_text_iff (some null) s h = (λ e. absurd (h (sym e)), λ e. cc)
get_text_iff (some other) s h = (λ e. absurd (h (sym e)), λ e. cc)

ne_of_test : (s t : String) → (s == t) ≡ false → s ≢ t
ne_of_test s t h e = ground (arith, eq_iff s t)

expiry_of :
    (now : Time) (o : Option Time)
    → is_expired o now ≡ false
    → (exp : Time) × (o ≡ some exp) × (now ≤ℤ exp +ℤ pos clock_skew)
expiry_of now none h = absurd (ground arith)
expiry_of now (some exp) h = (exp, refl, ground arith)

not_early :
    (now : Time) (o : Option Time)
    → ((nbf : Time) → o ≡ some nbf → nbf ≤ℤ now +ℤ pos clock_skew)
    → is_early o now ≡ false
not_early now none h = refl
not_early now (some nbf) h = ground (arith, h nbf refl)

module _ (cfg : Config) (now : Time) (t : Token) (c : Claims) where
  -- What the tests and the result say once every guard is passed.
  record IsPassed : Type 0 where
    issuer : is_value t.iss cfg.issuer ≡ true
    audience : is_only t.aud cfg.audience ≡ true
    alive : is_expired t.exp now ≡ false
    begun : is_early t.nbf now ≡ false
    scoped : has_scope c.scope scope_write_events ≡ true
    tenant : (c.tenant_id == "") ≡ false
    install : (c.install_id == "") ≡ false
    scope_claim : text_or_empty (get_text t.scope) ≡ c.scope
    tenant_claim : text_or_empty (get_text t.tenant_id) ≡ c.tenant_id
    install_claim : text_or_empty (get_text t.install_id) ≡ c.install_id
    tier : tier_of t.trust_tier ≡ some c.trust_tier

  passed : check_claims cfg now t ≡ ok c → IsPassed
  unfolding check_claims
  passed h = record {
    issuer = ground arith;
    audience = ground arith;
    alive = ground arith;
    begun = ground arith;
    scoped = ground arith;
    tenant = ground arith;
    install = ground arith;
    scope_claim = ground arith;
    tenant_claim = ground arith;
    install_claim = ground arith;
    tier = ground arith;
  }

  complete_of_passed : IsPassed → check_claims cfg now t ≡ ok c
  unfolding check_claims
  complete_of_passed p = ground arith

  token_of_passed : IsPassed → IsIngestToken cfg now t c
  unfolding has_scope
  token_of_passed p =
      let (exp, e, alive) = expiry_of now t.exp p.alive in
      record {
        issued = (is_value_iff t.iss cfg.issuer).0 p.issuer;
        only_for_us = (is_only_iff t.aud cfg.audience).0 p.audience;
        expiry = exp;
        expires = e;
        alive = alive;
        begun = λ nbf f. ground (arith, p.begun);
        scoped = mem_of_contains (fields c.scope) scope_write_events p.scoped;
        scope_claim = p.scope_claim;
        tenant_claim =
            (get_text_iff t.tenant_id c.tenant_id (ne_of_test _ _ p.tenant)).0 p.tenant_claim;
        has_tenant = ne_of_test _ _ p.tenant;
        install_claim =
            (get_text_iff t.install_id c.install_id (ne_of_test _ _ p.install)).0 p.install_claim;
        has_install = ne_of_test _ _ p.install;
        tier_claim = ((tier_iff t.trust_tier c.trust_tier).0 p.tier).0;
        two_tiers = ((tier_iff t.trust_tier c.trust_tier).0 p.tier).1;
      }

  passed_of_token : IsIngestToken cfg now t c → IsPassed
  unfolding has_scope
  passed_of_token i = record {
    issuer = (is_value_iff t.iss cfg.issuer).1 i.issued;
    audience = (is_only_iff t.aud cfg.audience).1 i.only_for_us;
    alive = rw i.expires (ground (arith, i.alive));
    begun = not_early now t.nbf i.begun;
    scoped = contains_of_mem (fields c.scope) scope_write_events i.scoped;
    tenant = ground (arith, eq_iff c.tenant_id "", i.has_tenant);
    install = ground (arith, eq_iff c.install_id "", i.has_install);
    scope_claim = i.scope_claim;
    tenant_claim = (get_text_iff t.tenant_id c.tenant_id i.has_tenant).1 i.tenant_claim;
    install_claim = (get_text_iff t.install_id c.install_id i.has_install).1 i.install_claim;
    tier = (tier_iff t.trust_tier c.trust_tier).1 (i.tier_claim, i.two_tiers);
  }

-- A signed token passes the checks of its claims exactly when it is an ingest token for the answer.
pub check_claims_iff :
    (cfg : Config) (now : Time) (t : Token) (c : Claims)
    → (check_claims cfg now t ≡ ok c) ↔ IsIngestToken cfg now t c
check_claims_iff cfg now t c = (
  λ h. token_of_passed cfg now t c (passed cfg now t c h),
  λ i. complete_of_passed cfg now t c (passed_of_token cfg now t c i),
)
