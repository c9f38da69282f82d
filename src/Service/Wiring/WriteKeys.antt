-- ===== src/Service/Wiring/WriteKeys.antt =====
-- Write keys before the batch endpoint of the wired service.
use event_tracking.Prelude.{
  String, ◌≡◌, ◌↔◌, ◌⊎◌, refl, sym, ap, ◌∙◌, Bool, true, false, some, Result, ok, err, arith,
}
use event_tracking.Prelude.Text.{◌+++◌, starts_with}
use event_tracking.Time.{Time}
use event_tracking.Tenant.{Claims}
use event_tracking.Tenant.Keys.{Cache}
use event_tracking.Tenant.Verify.{Config, Error, strip_bearer}
use event_tracking.Tenant.Legacy.Cutover.{verify_or_legacy_iff}
use event_tracking.ControlPlane.Tenants.{LookupError, resolve_legacy}
use event_tracking.ControlPlane.Tenants.WriteKeys.{Opens, AreUnique, resolve_legacy_iff}
use event_tracking.Service.Wiring.{
  Parts, World, answer, failing, legacy_resolver, verified, batch_deps,
}

module _ (e : Parts) (cfg : Config) where
  -- The credential is a write key whose digest a client in force has, the client's tenant has not
  -- reached its cutoff, and the claims are those of the tenant with a bucket of the key's own.
  abbrev pub IsOpenKey : String → Claims → World e → Type 0
  IsOpenKey raw c w =
      (tenant_id : String) × (mode : String) × (starts_with raw "wk_live_" ≡ true)
      × Opens (e.sha256 raw) w.clients w.tenants (tenant_id, mode)
      × ((mode ≡ "dual_accept") ⊎ (mode ≡ "deprecating"))
      × (c.tenant_id ≡ tenant_id)
      × (c.install_id ≡ "legacy-" +++ e.digest8 raw)
      × (c.scope ≡ "write:events")
      × (c.trust_tier ≡ 1)

  verified_result :
      (x : (Result Error Claims × Bool) × Cache e.jose) (w : World e) → (verified e x w).0 ≡ x.0
  verified_result ((r, true), cache) w = refl
  verified_result ((r, false), cache) w = refl

  answer-some : {A : Type 0} (r : Result LookupError A) (a : A) → answer e r ≡ some a → r ≡ ok a
  answer-some (ok x) a h = ground arith
  answer-some (err x) a h = absurd (ground arith)

  -- While Postgres answers, the batch endpoint lets a credential through as a write key exactly when
  -- it is the key of a client in force whose tenant has not reached its cutoff.
  pub write_key_accepted_iff :
      (bearer : String) (now : Time) (w : World e) (c : Claims)
      → failing e w ≡ false
      → AreUnique w.clients w.tenants
      → (((batch_deps e cfg).verify_or_legacy bearer now w).0 ≡ (ok c, true))
        ↔ IsOpenKey (strip_bearer bearer) c w
  write_key_accepted_iff bearer now w c up u =
      let raw = strip_bearer bearer in
      let same = verified_result _ w in
      let law =
        (verify_or_legacy_iff e.digest8 e.jose e.fetch cfg (legacy_resolver e w) bearer now w.cache
          c).0 in
      (
        λ h.
            let (tenant_id, mode, prefixed, found, before_cutoff, tenant, install, scoped, tier) =
              law.0 (sym same ∙ h) in
            (
              tenant_id,
              mode,
              prefixed,
              (resolve_legacy_iff e.sha256 w.clients w.tenants raw (tenant_id, mode) u).0 (
                  ap (λ b. resolve_legacy e.sha256 b w.clients w.tenants raw) (sym up)
                  ∙ answer-some _ (tenant_id, mode) found),
              before_cutoff,
              tenant,
              install,
              scoped,
              tier,
            ),
        λ (tenant_id, mode, prefixed, opens, before_cutoff, tenant, install, scoped, tier).
            same
            ∙ law.1 (
              tenant_id,
              mode,
              prefixed,
              ap (answer e) (
                  ap (λ b. resolve_legacy e.sha256 b w.clients w.tenants raw) up
                  ∙ (resolve_legacy_iff e.sha256 w.clients w.tenants raw (tenant_id, mode) u).1
                      opens),
              before_cutoff,
              tenant,
              install,
              scoped,
              tier,
            ),
      )
