-- ===== src/Tenant/Legacy/Cutover.antt =====
-- Which credentials the cutover lets through, and as whom.
use event_tracking.Prelude.{
  ℕ, String, ◌≡◌, ◌↔◌, ◌⊎◌, ap, sym, true, false, Option, some, eq_iff, arith, ok, Option-cases,
  inl, inr,
}
use event_tracking.Prelude.Text.{◌+++◌, starts_with}
use event_tracking.Time.{Time}
use event_tracking.Tenant.{Claims}
use event_tracking.Tenant.Jose.{Jose}
use event_tracking.Tenant.Keys.{Cache}
use event_tracking.Tenant.Verify.{Config, strip_bearer}
use event_tracking.Tenant.Verify.Acceptance.{IsAccepted, verify_iff}
use event_tracking.Tenant.Legacy.{
  LegacyResolver, legacy_prefix, mode_dual_accept, mode_deprecating, legacy_claims, resolve_legacy,
  verify_or_legacy,
}

module _ (digest8 : String → String) (j : Jose) (fetch : ℕ → Option j.Set) (cfg : Config)
    (lr : LegacyResolver) (bearer : String) (now : Time) (cache : Cache j) (c : Claims) where
  -- The credential is a write key of a tenant that has not reached its cutoff, and the claims are
  -- those of tier 1 with a bucket of the key's own.
  abbrev pub IsLegacyKey : Type 0
  IsLegacyKey =
      (tenant_id : String) × (mode : String) × (starts_with (strip_bearer bearer) "wk_live_" ≡ true)
      × (lr (strip_bearer bearer) ≡ some (tenant_id, mode))
      × ((mode ≡ "dual_accept") ⊎ (mode ≡ "deprecating"))
      × (c.tenant_id ≡ tenant_id)
      × (c.install_id ≡ "legacy-" +++ digest8 (strip_bearer bearer))
      × (c.scope ≡ "write:events")
      × (c.trust_tier ≡ 1)

  claimed :
      (tenant_id mode : String)
      → lr (strip_bearer bearer) ≡ some (tenant_id, mode)
      → resolve_legacy digest8 lr (strip_bearer bearer) ≡ ok c
      → c ≡ legacy_claims digest8 (strip_bearer bearer) tenant_id
  unfolding resolve_legacy
  claimed tenant_id mode e h = ground arith

  resolve_sound :
      starts_with (strip_bearer bearer) legacy_prefix ≡ true
      → resolve_legacy digest8 lr (strip_bearer bearer) ≡ ok c
      → IsLegacyKey
  unfolding resolve_legacy legacy_claims
  resolve_sound p h = elim (Option-cases (lr (strip_bearer bearer))) [
    | inl e ↦ absurd (ground arith)
    | inr ((tenant_id, mode), e) ↦ (
      tenant_id,
      mode,
      p,
      e,
      ground (arith, eq_iff mode mode_dual_accept, eq_iff mode mode_deprecating),
      ap (λ x. x.tenant_id) (claimed tenant_id mode e h),
      ap (λ x. x.install_id) (claimed tenant_id mode e h),
      ap (λ x. x.scope) (claimed tenant_id mode e h),
      ap (λ x. x.trust_tier) (claimed tenant_id mode e h),
    )
  ]

  resolve_complete : IsLegacyKey → resolve_legacy digest8 lr (strip_bearer bearer) ≡ ok c
  unfolding resolve_legacy legacy_claims
  resolve_complete (tenant_id, mode, p, e, m, tenant, install, scoped, tier) =
      let same : legacy_claims digest8 (strip_bearer bearer) tenant_id ≡ c = sym (λ i. record {
        tenant_id = tenant i;
        install_id = install i;
        scope = scoped i;
        trust_tier = tier i;
      }) in
      ground (arith, same, eq_iff mode mode_dual_accept, eq_iff mode mode_deprecating)

  -- A credential is let through with the flag up exactly as a legacy key of a tenant before its
  -- cutoff, and with the flag down exactly as an accepted token that does not begin as a legacy key.
  pub verify_or_legacy_iff :
      (((verify_or_legacy digest8 j fetch cfg bearer now lr cache).0 ≡ (ok c, true)) ↔ IsLegacyKey)
      × (((verify_or_legacy digest8 j fetch cfg bearer now lr cache).0 ≡ (ok c, false)) ↔ (
          (starts_with (strip_bearer bearer) legacy_prefix ≡ false)
          × IsAccepted j fetch cfg bearer now cache c))
  unfolding verify_or_legacy
  verify_or_legacy_iff = (
    (
      λ h. resolve_sound (ground arith) (ground arith),
      λ k. ground (arith, resolve_complete k, k.2),
    ),
    (
      λ h. (ground arith, (verify_iff j fetch cfg bearer now cache c).0 (ground arith)),
      λ a. ground (arith, a.0, (verify_iff j fetch cfg bearer now cache c).1 a.1),
    ),
  )
