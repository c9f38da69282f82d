-- ===== src/ControlPlane/SigningKeys.antt =====
-- pkg/controlplane/keys.go, on the table signing_keys with its primary key kid and its unique index
-- of the active keys (pkg/controlplane/sql/0001_control_plane.sql).
pub mod Bootstrap
pub mod KeySet
use event_tracking.Prelude.{
  ℕ, String, Bool, true, false, not, ◌&&◌, ◌||◌, List, [], ◌∷◌, ◌++◌, Option, none, some, ◌==◌,
  is_some, if◌then◌else◌,
}

pub record KeyRow : Type 0 where
  pub kid : String
  pub public_key : String
  pub private_key : String
  pub active : Bool
  pub is_retired : Bool

-- `active AND retired_at IS NULL`
abbrev pub is_live : KeyRow → Bool
is_live r = r.active && not r.is_retired

-- ActiveSigningKey: the id and the private key; `none` is ErrNotFound
unfoldable pub active_signing_key : List KeyRow → Option (String × String)
active_signing_key [] = none
active_signing_key (r ∷ rows) =
    if is_live r then some (r.kid, r.private_key) else active_signing_key rows

unfoldable pub has_kid : String → List KeyRow → Bool
has_kid kid [] = false
has_kid kid (r ∷ rows) = r.kid == kid || has_kid kid rows

-- A key of the published set.
pub record PublishedKey (K : Type 0) : Type 0 where
  pub id : String
  pub usage : String
  pub key : K

module _ {K : Type 0} (import_key : String → Option K) where
  abbrev pub published : KeyRow → K → PublishedKey K
  published r k = record { id = r.kid; usage = "sig"; key = k }

  abbrev pub with_key :
      Option K → KeyRow → Option (List (PublishedKey K)) → Option (List (PublishedKey K))
  with_key (some k) r (some set) = some (published r k ∷ set)
  with_key _ r _ = none

  -- PublicJWKS; jwk.Import is a parameter, `none` its error
  unfoldable pub public_jwks : List KeyRow → Option (List (PublishedKey K))
  public_jwks [] = some []
  public_jwks (r ∷ rows) =
      let rest = public_jwks rows in
      if r.is_retired then rest else with_key (import_key r.public_key) r rest

-- INSERT … WHERE NOT EXISTS … ON CONFLICT DO NOTHING
unfoldable pub insert_first : String → String → String → List KeyRow → List KeyRow
insert_first kid public_key private_key rows =
    if is_some (active_signing_key rows) || has_kid kid rows
    then rows
    else rows
      ++ record {
        kid = kid;
        public_key = public_key;
        private_key = private_key;
        active = true;
        is_retired = false;
      }
        ∷ []

-- EnsureSigningKey: the generated pair is a parameter. `false` is its error; the first two arguments
-- say whether the insert and the query after it fail.
unfoldable pub ensure_signing_key :
    Bool → Bool → String → String → String → List KeyRow → Bool × List KeyRow
ensure_signing_key insert_fails query_fails kid public_key private_key rows =
    if insert_fails
    then (false, rows)
    else if not (is_some (active_signing_key rows) || has_kid kid rows)
    then (true, insert_first kid public_key private_key rows)
    else (
      not query_fails && is_some (active_signing_key rows),
      insert_first kid public_key private_key rows,
    )
