-- ===== src/Service/Start/Keys.antt =====
-- The signing key of a service that starts.
use event_tracking.Prelude.{
  String, ◌≡◌, refl, ap, Bool, true, false, List, Option, none, some, ok, err, arith, if◌then◌else◌,
}
use mathlib.Core.Path.{subst}
use event_tracking.Tenant.Jose.{Jose}
use event_tracking.ControlPlane.SigningKeys.{KeyRow, PublishedKey, active_signing_key, public_jwks}
use event_tracking.ControlPlane.SigningKeys.Bootstrap.{
  IsPublishedIn, active_signing_key-IsPublishedIn,
}
use event_tracking.Service.Start.{
  Databases, Run, Service, ensure_key, Libraries, with_keys, with_active, minting, listening,
  service,
}

module _ (j : Jose) {S T : Type 0} (lib : Libraries j S T) {K : Type 0}
    (import_key : String → Option K) where
  -- The minter signs with the active key of the table, whose public half is in every key set that
  -- is published from the table, and the verifier expects the minter's issuer and audience.
  pub record HasKeys (keys : List KeyRow) (s : Service j) : Type 0 where
    pub active :
        (private : String) × (active_signing_key keys ≡ some ((s.minter).kid, private))
        × (lib.import_private private ≡ some (s.minter).key)
    pub published :
        (set : List (PublishedKey K))
        → public_jwks import_key keys ≡ some set
        → IsPublishedIn import_key (s.minter).kid set
    pub expected :
        ((s.verifier).issuer ≡ (s.minter).issuer) × ((s.verifier).audience ≡ (s.minter).audience)

  service_keys :
      (keys : List KeyRow) (kid private port : String) (key : j.PrivateKey)
      → active_signing_key keys ≡ some (kid, private)
      → lib.import_private private ≡ some key
      → HasKeys keys (service j lib kid key port)
  service_keys keys kid private port key a i = record {
    active = (private, a, i);
    published = λ set e. active_signing_key-IsPublishedIn import_key keys kid private set a e;
    expected = (refl, refl);
  }

  listening_keys :
      (p : Option String) (kid private : String) (key : j.PrivateKey) (w : Databases S T)
      (s : Service j)
      → active_signing_key w.keys ≡ some (kid, private)
      → lib.import_private private ≡ some key
      → (listening j lib p kid key w).0 ≡ ok s
      → HasKeys (listening j lib p kid key w).1.keys s
  listening_keys none kid private key w s a i h = absurd (ground arith)
  listening_keys (some port) kid private key w s a i h =
      subst (λ x. HasKeys w.keys x)
        (ap (λ r. elim r as (λ _. Service j) [ ok x ↦ x | err x ↦ s ]) h)
        (service_keys w.keys kid private port key a i)

  minting_keys :
      (o : Option j.PrivateKey) (kid private : String) (w : Databases S T) (s : Service j)
      → active_signing_key w.keys ≡ some (kid, private)
      → lib.import_private private ≡ o
      → (minting j lib o kid w).0 ≡ ok s
      → HasKeys (minting j lib o kid w).1.keys s
  minting_keys none kid private w s a i h = absurd (ground arith)
  minting_keys (some key) kid private w s a i h = listening_keys _ kid private key w s a i h

  with_active_keys :
      (o : Option (String × String)) (w : Databases S T) (s : Service j)
      → active_signing_key w.keys ≡ o
      → (with_active j lib o w).0 ≡ ok s
      → HasKeys (with_active j lib o w).1.keys s
  with_active_keys none w s a h = absurd (ground arith)
  with_active_keys (some (kid, private)) w s a h =
      minting_keys (lib.import_private private) kid private w s a refl h

  after_ensure :
      (ensured fails : Bool) (w : Databases S T) (s : Service j)
      → (if ensured
          then with_active j lib (if fails then none else active_signing_key w.keys) w
          else (err ensure_key, w)).0
        ≡ ok s
      → HasKeys
          (if ensured
            then with_active j lib (if fails then none else active_signing_key w.keys) w
            else (err ensure_key, w)).1.keys
          s
  after_ensure false fails w s h = absurd (ground arith)
  after_ensure true true w s h = absurd (ground arith)
  after_ensure true false w s h = with_active_keys (active_signing_key w.keys) w s refl h

  pub with_keys_ok :
      (run : Run) (w : Databases S T) (s : Service j)
      → (with_keys j lib run w).0 ≡ ok s
      → HasKeys (with_keys j lib run w).1.keys s
  unfolding with_keys
  with_keys_ok run w s h = after_ensure _ run.query_fails _ s h
