-- ===== src/Tenant/Legacy.antt =====
-- pkg/tenant/legacy.go: the cutover from legacy write keys to tokens
pub mod Cutover
use event_tracking.Prelude.{
  ℕ, String, Bool, true, false, Option, none, some, ◌==◌, Result, ok, err, ◌||◌, if◌then◌else◌,
}
use event_tracking.Prelude.Text.{◌+++◌, starts_with}
use event_tracking.Time.{Time}
use event_tracking.Tenant.{Claims, scope_write_events}
use event_tracking.Tenant.Jose.{Jose}
use event_tracking.Tenant.Keys.{Cache}
use event_tracking.Tenant.Verify.{Config, Error, legacy_cutoff, unresolved, strip_bearer, verify}

abbrev pub legacy_prefix : String
legacy_prefix = "wk_live_"

abbrev pub mode_dual_accept : String
mode_dual_accept = "dual_accept"

abbrev pub mode_deprecating : String
mode_deprecating = "deprecating"

abbrev pub mode_cutoff : String
mode_cutoff = "cutoff"

-- LegacyResolver: the tenant of a write key and the tenant's mode; `none` is the error.
abbrev pub LegacyResolver : Type 0
LegacyResolver = String → Option (String × String)

-- `digest8 s` is hex.EncodeToString(sha256.Sum256(s)[:8]).
module _ (digest8 : String → String) where
  unfoldable pub legacy_claims : String → String → Claims
  legacy_claims raw tenant_id = record {
    tenant_id = tenant_id;
    install_id = "legacy-" +++ digest8 raw;
    scope = scope_write_events;
    trust_tier = 1;
  }

  unfoldable pub resolve_legacy : LegacyResolver → String → Result Error Claims
  resolve_legacy lr raw = elim (lr raw) [
    | none ↦ err unresolved
    | some (tenant_id, mode) ↦
        if mode == mode_dual_accept || mode == mode_deprecating
        then ok (legacy_claims raw tenant_id)
        else if mode == mode_cutoff
        then err legacy_cutoff
        else err legacy_cutoff
  ]

  -- The Boolean says whether the legacy path was taken.
  unfoldable pub verify_or_legacy :
      (j : Jose)
      → (ℕ → Option j.Set)
      → Config
      → String
      → Time
      → LegacyResolver
      → Cache j
      → (Result Error Claims × Bool) × Cache j
  verify_or_legacy j fetch cfg bearer now lr c =
      let raw = strip_bearer bearer in
      let (r, c') = verify j fetch cfg bearer now c in
      if starts_with raw legacy_prefix then ((resolve_legacy lr raw, true), c) else ((r, false), c')
