-- ===== src/Service/Start/Accepts.antt =====
-- services/ingest/cmd/main.go: the key that the minter signs with is the key that the verifier finds
-- at the service's own address of key sets.
use mathlib.Core.List.{Memᴰ}
use mathlib.Core.Path.{subst, ap₂}
use mathlib.Core.Option
use event_tracking.Prelude.{
  ℕ, ◌≤◌, ◌≡◌, ◌≢◌, refl, sym, ap, ◌∙◌, String, List, Option, some, ok, All, All-Memᴰ,
}
use event_tracking.Prelude.Int.{ℤ, pos, ◌+ℤ◌, ◌≤ℤ◌}
use event_tracking.Prelude.Text.{◌+++◌, fields}
use event_tracking.Time.{Time}
use event_tracking.Tenant.{Claims, scope_write_events}
use event_tracking.Tenant.Jose.{Jose, IsJose}
use event_tracking.Tenant.Keys.{new_cache, key}
use event_tracking.Tenant.Keys.FirstFetch.{key-new_cache}
use event_tracking.Tenant.Mint.{mint}
use event_tracking.Tenant.Mint.RoundTrip.{verify-mint}
use event_tracking.Tenant.Verify.{verify}
use event_tracking.ControlPlane.SigningKeys.{KeyRow, PublishedKey, published, public_jwks}
use event_tracking.ControlPlane.SigningKeys.KeySet.{
  HasDistinctKids, Retains, active_signing_key-Holds, first_with, first_with-public_jwks,
}
use event_tracking.Handler.Jwks.{Reply, serve_jwks}
use event_tracking.Service.Start.{Databases, Run, Service, Libraries, start}
use event_tracking.Service.Start.Keys.{HasKeys}
use event_tracking.Service.Start.Ready.{start-IsReady}
use event_tracking.Service.Start.Stages.{All-start}

-- What stands between the table of keys and the verifier: jwk.Import of a public key, the encoding of
-- a set, what jwk.Fetch makes of a reply, and a published key as the fetched set hands it out.
pub record KeyLibrary (j : Jose) (K : Type 0) : Type 0 where
  pub import_key : String → Option K
  pub encode : List (PublishedKey K) → String
  pub fetched : Reply → Option j.Set
  pub as_key : PublishedKey K → j.Key

-- The set, once encoded, is fetched as it was, and LookupKeyID takes the first key with the id; an
-- Ed25519 key has the attributes of RFC 8037 and the use that it was given.
pub record IsReadBack (j : Jose) {K : Type 0} (x : KeyLibrary j K) (set : List (PublishedKey K))
    : Type 0 where
  pub set_read : j.Set
  pub reads : x.fetched (serve_jwks x.encode (some set)) ≡ some set_read
  pub finds :
      (kid : String)
      → j.lookup_key_id set_read kid ≡ Option.map x.as_key (first_with x.import_key kid set)
  pub usage :
      (kid : String) (k : PublishedKey K)
      → first_with x.import_key kid set ≡ some k
      → j.key_usage (x.as_key k) ≡ some k.usage
  pub octet_key_pair : (k : PublishedKey K) → j.key_type (x.as_key k) ≡ "OKP"
  pub on_curve : (k : PublishedKey K) → j.curve (x.as_key k) ≡ some "Ed25519"

module _ (j : Jose) (l : IsJose j) {S T : Type 0} (lib : Libraries j S T) {K : Type 0}
    (x : KeyLibrary j K) where
  -- The two texts are the halves of one key pair of GenerateKey.
  abbrev pub IsPair : String → String → Type 0
  IsPair public_key private_key =
      (sk : j.PrivateKey) (k : K) (kid : String)
      → lib.import_private private_key ≡ some sk
      → x.import_key public_key ≡ some k
      → l.IsPublicOf sk (x.as_key (record { id = kid; usage = "sig"; key = k }))

  module _ (fetch : ℕ → Option j.Set) where
    -- The published form of the key that the minter signs with, which a fresh verifier finds.
    found_half :
        (keys later_keys : List KeyRow) (s : Service j) (set : List (PublishedKey K)) (n : ℕ)
        → HasKeys j lib x.import_key keys s
        → All (λ r. IsPair r.public_key r.private_key) keys
        → HasDistinctKids later_keys
        → Retains keys later_keys
        → public_jwks x.import_key later_keys ≡ some set
        → IsReadBack j x set
        → fetch 0 ≡ x.fetched (serve_jwks x.encode (some set))
        → (s.minter).kid ≢ ""
        → (half : j.Key) × l.IsPublicOf (s.minter).key half
          × ((key j fetch (s.minter).kid (pos n) (new_cache j)).0 ≡ some half)
    found_half keys later_keys s set n h pairs distinct retains listed law served named =
        let (private, active, imported) = h.active in
        let (r, member, kid, same, in_force) =
          active_signing_key-Holds keys (s.minter).kid private active in
        let held =
          retains (s.minter).kid r.public_key
            (record { row = r; member = member; named = kid; half = refl; in_force = in_force }) in
        let r' = held.row in
        let (k, i, first) =
          first_with-public_jwks x.import_key later_keys r' set distinct held.member held.in_force
            listed in
        let p = published x.import_key r' k in
        let named_set : j.lookup_key_id law.set_read (s.minter).kid ≡ some (x.as_key p) =
          ap (j.lookup_key_id law.set_read) (sym held.named)
          ∙ law.finds r'.kid
          ∙ ap (Option.map x.as_key) first in
        (
          x.as_key p,
          All-Memᴰ (λ y. IsPair y.public_key y.private_key) r keys pairs member (s.minter).key k
              r'.kid (ap lib.import_private same ∙ imported) (ap x.import_key (sym held.half) ∙ i),
          key-new_cache j fetch (s.minter).kid n law.set_read (x.as_key p) named
              (served ∙ law.reads) named_set
              (record {
                for_signing = law.usage r'.kid p first;
                octet_key_pair = law.octet_key_pair p;
                on_curve = law.on_curve p;
              }),
        )

    -- A token of a service that has started is accepted by its verifier from the token's issue to its
    -- expiry, when the verifier's first fetch is answered from the table of keys as it then is: by
    -- the handler of /.well-known/jwks.json, with all keys imported. Until then keys may have been
    -- added and the active one changed, but none that was in force is gone. The table and the
    -- generator hold key pairs, and the claims name a tenant, an install, one of the two tiers and
    -- the scope to write events.
    pub started_accepts :
        (run : Run) (w : Databases S T) (s : Service j) (later_keys : List KeyRow)
        (set : List (PublishedKey K)) (c : Claims) (now : Time) (n : ℕ) (raw : String)
        (expires_in : ℤ)
        → (start j lib run w).0 ≡ ok s
        → IsPair run.fresh.0 run.fresh.1
        → All (λ r. IsPair r.public_key r.private_key) w.keys
        → HasDistinctKids later_keys
        → Retains (start j lib run w).1.keys later_keys
        → public_jwks x.import_key later_keys ≡ some set
        → IsReadBack j x set
        → fetch 0 ≡ x.fetched (serve_jwks x.encode (some set))
        → (s.minter).kid ≢ ""
        → mint j s.minter c now ≡ some (raw, expires_in)
        → now ≤ℤ pos n
        → pos n ≤ℤ now +ℤ pos (s.minter).ttl
        → c.tenant_id ≢ ""
        → c.install_id ≢ ""
        → Memᴰ scope_write_events (fields c.scope)
        → c.trust_tier ≤ 1
        → (verify j fetch s.verifier ("Bearer " +++ raw) (pos n) (new_cache j)).0 ≡ ok c
    started_accepts run w s later_keys set c now n raw expires_in h fresh pairs distinct retains
          listed law served named minted begun alive tenant install scope tier =
        let keys = (start-IsReady j lib x.import_key run w s h).has_keys in
        let (half, is_half, found) =
          found_half (start j lib run w).1.keys later_keys s set n keys
            (All-start j lib IsPair run w s h fresh pairs) distinct retains listed law served
            named in
        let expected : record { issuer = (s.minter).issuer; audience = (s.minter).audience }
            ≡ s.verifier =
          ap₂ (λ i a. record { issuer = i; audience = a }) (sym keys.expected.0)
            (sym keys.expected.1) in
        subst (λ v. (verify j fetch v ("Bearer " +++ raw) (pos n) (new_cache j)).0 ≡ ok c) expected
          (verify-mint j l fetch s.minter c now (pos n) (new_cache j) half raw expires_in is_half
            minted found begun alive tenant install scope tier)
