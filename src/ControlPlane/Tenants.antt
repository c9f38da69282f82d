-- ===== src/ControlPlane/Tenants.antt =====
-- pkg/controlplane/store.go: ResolveTenant, LimitsFor, ResolveLegacy, on the tables client_ids, tenants
-- and quotas (pkg/controlplane/sql/0001_control_plane.sql).
pub mod Lookups
pub mod WriteKeys
use event_tracking.Prelude.{
  ℕ, String, Bool, true, false, not, ◌&&◌, List, [], ◌∷◌, ◌++◌, Option, none, some, ◌==◌, Result,
  ok, err, eqb, if◌then◌else◌,
}
use event_tracking.Prelude.Int.{ℤ}
use event_tracking.Limits.{Quota, default_quota, default_rps_tier1}

pub record ClientRow : Type 0 where
  pub client_id : String
  pub tenant_id : String
  pub is_revoked : Bool
  pub legacy_key_hash : Option String

pub record TenantRow : Type 0 where
  pub tenant_id : String
  pub legacy_key_mode : String

pub record QuotaRow : Type 0 where
  pub tenant_id : String
  pub daily_events : ℤ
  pub rps_tier0 : ℤ
  pub rps_tier1 : ℤ
  pub rps_legacy : ℤ

-- ErrNotFound, or the error of a query
pub data LookupError : Type 0 where
  not_found query_failed : LookupError

-- QueryRow and Scan: the first row of the answer, or ErrNoRows; `fails` is an error of the query
abbrev pub first_row : {A : Type 0} → Bool → List A → Result LookupError A
first_row true rows = err query_failed
first_row false [] = err not_found
first_row false (a ∷ rows) = ok a

-- WHERE client_id = $1 AND revoked_at IS NULL
unfoldable pub tenants_of : String → List ClientRow → List String
tenants_of client_id [] = []
tenants_of client_id (r ∷ rows) =
    let rest = tenants_of client_id rows in
    if r.client_id == client_id && not r.is_revoked then r.tenant_id ∷ rest else rest

abbrev pub resolve_tenant : Bool → List ClientRow → String → Result LookupError String
resolve_tenant fails clients client_id = first_row fails (tenants_of client_id clients)

-- WHERE tenant_id = $1
unfoldable pub quotas_of : String → List QuotaRow → List QuotaRow
quotas_of tenant_id [] = []
quotas_of tenant_id (r ∷ rows) =
    let rest = quotas_of tenant_id rows in if r.tenant_id == tenant_id then r ∷ rest else rest

-- the quota of a tier: every tier but 1 has rps0
abbrev quota_for : ℕ → ℤ → ℤ → Quota → Quota
quota_for tier rps0 rps1 lim = record lim { rps = if eqb tier 1 then rps1 else rps0 }

abbrev limits_of : ℕ → Result LookupError QuotaRow → Result LookupError Quota
limits_of tier (err not_found) =
    ok (quota_for tier default_quota.rps default_rps_tier1 default_quota)
limits_of tier (err query_failed) = err query_failed
limits_of tier (ok r) = ok (
    quota_for tier r.rps_tier0 r.rps_tier1
      (record { daily_events = r.daily_events; rps = r.rps_tier0; legacy_rps = r.rps_legacy }))

-- LimitsFor
unfoldable pub limits_for : Bool → List QuotaRow → String → ℕ → Result LookupError Quota
limits_for fails quotas tenant_id tier =
    limits_of tier (first_row fails (quotas_of tenant_id quotas))

-- JOIN tenants t USING (tenant_id)
unfoldable pub modes_of : String → List TenantRow → List (String × String)
modes_of tenant_id [] = []
modes_of tenant_id (t ∷ tenants) =
    let rest = modes_of tenant_id tenants in
    if t.tenant_id == tenant_id then (tenant_id, t.legacy_key_mode) ∷ rest else rest

abbrev pub has_hash : String → Option String → Bool
has_hash sum none = false
has_hash sum (some h) = h == sum

-- WHERE c.legacy_key_hash = $1 AND c.revoked_at IS NULL
unfoldable pub legacy_rows : String → List ClientRow → List TenantRow → List (String × String)
legacy_rows sum [] tenants = []
legacy_rows sum (c ∷ clients) tenants =
    let rest = legacy_rows sum clients tenants in
    if has_hash sum c.legacy_key_hash && not c.is_revoked
    then modes_of c.tenant_id tenants ++ rest
    else rest

-- ResolveLegacy; `sha256` is the digest that the table holds of a key
unfoldable pub resolve_legacy :
    (String → String)
    → Bool
    → List ClientRow
    → List TenantRow
    → String
    → Result LookupError (String × String)
resolve_legacy sha256 fails clients tenants key =
    first_row fails (legacy_rows (sha256 key) clients tenants)
