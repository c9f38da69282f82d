-- ===== src/Examples/Provisioning.antt =====
-- Installs and signing keys in small tables.
use event_tracking.Prelude.{String, ◌≡◌, refl, true, false, some, List, [], ◌∷◌, none, ok, ◌↔◌}
use event_tracking.ControlPlane.Installs.{
  Database, find, issue_install, run_upsert, upsert, is_taken, same_anchor,
}
use event_tracking.ControlPlane.Installs.Stable.{Runs, start, issued, other}
use event_tracking.ControlPlane.Tenants.{ClientRow, resolve_tenant}
use event_tracking.ControlPlane.Tenants.Lookups.{Grants, resolve_tenant_iff}
use event_tracking.ControlPlane.SigningKeys.{
  KeyRow, PublishedKey, active_signing_key, public_jwks, ensure_signing_key, insert_first, has_kid,
}

abbrev fresh : Database
fresh = record { installs = []; entropy = some "00"; fails = false }

-- another draw
abbrev next : Database → Database
next db = record db { entropy = some "01" }

abbrev one : Database
one = next (issue_install "t1" "ios" "" "d1" 1 fresh).1

abbrev two : Database
two = (issue_install "t2" "ios" "" "d1" 1 one).1

first_issue : (issue_install "t1" "ios" "" "d1" 1 fresh).0 ≡ some "ins_00"
unfolding issue_install run_upsert upsert is_taken find
first_issue = refl

again_issue : (issue_install "t1" "web" "" "d1" 0 two).0 ≡ some "ins_00"
unfolding issue_install run_upsert upsert is_taken find same_anchor
again_issue = refl

between : Runs (issue_install "t1" "ios" "" "d1" 1 fresh).1 two
between = issued (other start refl) "t2" "ios" "" "d1" 1 refl

abbrev retired_row : KeyRow
retired_row = record {
  kid = "k0";
  public_key = "p0";
  private_key = "s0";
  active = false;
  is_retired = true;
}

abbrev fresh_keys : List KeyRow
fresh_keys = (ensure_signing_key false false "k1" "p1" "s1" (retired_row ∷ [])).1

key_active : active_signing_key fresh_keys ≡ some ("k1", "s1")
unfolding active_signing_key ensure_signing_key insert_first has_kid
key_active = refl

abbrev key_set : List (PublishedKey String)
key_set = record { id = "k1"; usage = "sig"; key = "p1" } ∷ []

key_published : public_jwks (λ p. some p) fresh_keys ≡ some key_set
unfolding active_signing_key ensure_signing_key insert_first has_kid public_jwks
key_published = refl

abbrev client_rows : List ClientRow
client_rows =
    record { client_id = "c0"; tenant_id = "t1"; is_revoked = true; legacy_key_hash = none }
    ∷ record { client_id = "c1"; tenant_id = "t1"; is_revoked = false; legacy_key_hash = none }
    ∷ []

resolve_tenant_iff_example :
    (resolve_tenant false client_rows "c1" ≡ ok "t1") ↔ Grants "c1" "t1" client_rows
resolve_tenant_iff_example = resolve_tenant_iff client_rows "c1" "t1" ((refl, tt), (tt, tt))
