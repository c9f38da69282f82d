-- ===== src/Examples/Published.antt =====
-- A token of a service that starts on empty databases, before the service's own verifier.
use mathlib.Core.Option
use mathlib.Core.Path.{subst}
use event_tracking.Migrations.{has_suffix, leb_text, insert, sort_strings, sql_files, is_applied}
use event_tracking.ControlPlane.Migrate as Control
use event_tracking.ClickHouse.Migrate as Events
use event_tracking.Time.{second}
use event_tracking.Prelude.{
  String, ◌≡◌, refl, sym, ℕ, ◌*◌, arith, Bool-cases, inl, inr, true, false, some, List, [], ◌∷◌, ok,
  ◌==◌, eq_iff, if◌then◌else◌,
}
use event_tracking.Prelude.Int.{pos, ◌+ℤ◌, int_laws}
use event_tracking.Prelude.Text.{◌+++◌, trim_space}
use event_tracking.Tenant.Keys.{new_cache}
use event_tracking.Tenant.Mint.{token_of, mint}
use event_tracking.Tenant.Verify.{verify}
use event_tracking.ControlPlane.SigningKeys.{
  KeyRow, PublishedKey, public_jwks, ensure_signing_key, active_signing_key, insert_first, has_kid,
}
use event_tracking.ControlPlane.SigningKeys.KeySet.{HasDistinctKids, Retains, first_with}
use event_tracking.Service.Start.{Libraries, service, start, with_keys}
use event_tracking.Service.Start.Accepts.{KeyLibrary, IsReadBack, started_accepts}
use event_tracking.Examples.Samples.{noon, claims}
use event_tracking.Examples.Signer.{
  signer, signer-IsJose, is_sample, is_text, is_whole, is_time, is_one,
}
use event_tracking.Examples.Tokens.{endpoint, named, may_write}
use event_tracking.Examples.Wired.{libraries, run, databases}

abbrev own_names : Libraries signer (List String) (List String)
own_names = record libraries {
  variables = λ name.
      if name == "TOKEN_ISSUER"
      then "issuer"
      else if name == "TOKEN_AUDIENCE"
      then "ingest"
      else if name == "SIGNING_KID"
      then "k1"
      else "";
}

abbrev library : KeyLibrary signer String
library = record {
  import_key = λ k. some k;
  encode = λ set. "{}";
  fetched = λ reply. some tt;
  as_key = λ k. tt;
}

abbrev row : KeyRow
row = record {
  kid = "k1";
  public_key = "p1";
  private_key = "s1";
  active = true;
  is_retired = false;
}

abbrev key_set : List (PublishedKey String)
key_set = record { id = "k1"; usage = "sig"; key = "p1" } ∷ []

finds_key :
    (kid : String)
    → signer.lookup_key_id tt kid
      ≡ Option.map library.as_key (first_with library.import_key kid key_set)
unfolding first_with
finds_key kid = elim (Bool-cases ("k1" == kid)) [
  | inl t ↦ ground (arith, eq_iff "k1" kid, eq_iff kid "k1")
  | inr f ↦ ground (arith, eq_iff "k1" kid, eq_iff kid "k1")
]

usage_kept :
    (kid : String) (k : PublishedKey String)
    → first_with library.import_key kid key_set ≡ some k
    → some "sig" ≡ some k.usage
unfolding first_with
usage_kept kid k h = elim (Bool-cases ("k1" == kid)) [
  | inl t ↦ ground arith
  | inr f ↦ absurd (ground arith)
]

reads_back : IsReadBack signer library key_set
reads_back = record {
  set_read = tt;
  reads = refl;
  finds = finds_key;
  usage = usage_kept;
  octet_key_pair = λ k. refl;
  on_curve = λ k. refl;
}

started : (start signer own_names run databases).0 ≡ ok (service signer own_names "k1" tt "8080")
unfolding start with_keys ensure_signing_key insert_first active_signing_key has_kid Control.migrate
    Control.apply_files Control.apply_file Events.migrate Events.apply_files Events.exec_all
    Events.statements_in Events.split_statements trim_space sort_strings insert leb_text sql_files
    has_suffix is_applied
started = refl

one_row : (start signer own_names run databases).1.keys ≡ row ∷ []
unfolding start with_keys ensure_signing_key insert_first active_signing_key has_kid Control.migrate
    Control.apply_files Control.apply_file Events.migrate Events.apply_files Events.exec_all
    Events.statements_in Events.split_statements trim_space sort_strings insert leb_text sql_files
    has_suffix is_applied
one_row = refl

distinct : HasDistinctKids (row ∷ [])
unfolding has_kid
distinct = (refl, tt)

abbrev later : ℕ
later = 1785628860 * second

minted :
    mint signer (service signer own_names "k1" tt "8080").minter claims noon
    ≡ some ("tok", pos 2700)
unfolding mint token_of is_sample is_text is_whole is_time is_one ◌+ℤ◌
minted = refl

listed : public_jwks library.import_key (row ∷ []) ≡ some key_set
unfolding public_jwks
listed = refl

started_accepts_example :
    (verify signer endpoint
      (record { issuer = "issuer"; audience = "ingest" })
      ("Bearer " +++ "tok")
      (pos later)
      (new_cache signer)).0
    ≡ ok claims
started_accepts_example =
    started_accepts signer signer-IsJose own_names library endpoint run databases
      (service signer own_names "k1" tt "8080") (row ∷ []) key_set claims noon later "tok"
      (pos 2700) started (λ sk k kid a b. tt) tt distinct
      (subst (λ keys. Retains keys (row ∷ [])) (sym one_row) (λ kid p h. h)) listed reads_back refl
      (ground (arith, eq_iff "k1" "")) minted (omega int_laws) (omega int_laws) named.0 named.1
      may_write (omega arith)
