-- ===== src/Service/Start.antt =====
-- services/ingest/cmd/main.go: main, up to the listener
pub mod Keys
pub mod Stages
pub mod Accepts
pub mod Ready
use event_tracking.Prelude.{
  String, Bool, true, false, List, [], ◌∷◌, Option, none, some, Result, ok, err, if◌then◌else◌,
}
use event_tracking.Prelude.Text.{◌+++◌}
use event_tracking.Migrations.{Directory}
use event_tracking.Tenant.Jose.{Jose}
use event_tracking.Tenant.Verify.{Config}
use event_tracking.Tenant.Mint.{Minter}
use event_tracking.ControlPlane.Migrate as Control
use event_tracking.ControlPlane.SigningKeys.{KeyRow, ensure_signing_key, active_signing_key}
use event_tracking.ClickHouse.Migrate as Events
use event_tracking.Service.{env, token_lifetime}

-- The step whose error ends the process, by what it logs.
pub data Stage : Type 0 where
  clickhouse postgres postgres_migrate clickhouse_migrate ensure_key active_key minter_key
        listen_addr :
      Stage

-- The databases as start-up finds and leaves them: `S` and `T` are the schemas; the table
-- signing_keys stands beside its schema.
pub record Databases (S T : Type 0) : Type 0 where
  pub control : Control.Database S
  pub keys : List KeyRow
  pub events : Events.Server T

-- What the libraries do in one start: whether the two pools open, what fails in the two migrations,
-- and which of the statements on the keys fail; `fresh` is the generated key pair.
pub record Run : Type 0 where
  pub clickhouse_opens : Bool
  pub postgres_opens : Bool
  pub control_faults : Control.Faults
  pub event_faults : Events.Faults
  pub insert_fails : Bool
  pub check_fails : Bool
  pub query_fails : Bool
  pub fresh : String × String

-- What is served: the minter, and the verifier with the address of its key set.
pub record Service (j : Jose) : Type 0 where
  pub minter : Minter j
  pub verifier : Config
  pub jwks_url : String

-- The libraries: the SQL of the two servers, the two embedded directories, jwk.Import of a private
-- key, net.SplitHostPort (the port), and os.Getenv.
pub record Libraries (j : Jose) (S T : Type 0) : Type 0 where
  pub exec_control : String → S → Option S
  pub exec_events : String → T → Bool × T
  pub control_files : Directory
  pub event_files : Directory
  pub import_private : String → Option j.PrivateKey
  pub port_of : String → Option String
  pub variables : String → String

module _ (j : Jose) {S T : Type 0} (lib : Libraries j S T) where
  abbrev pub configured : String → String → String
  configured name default = env lib.variables name default

  abbrev pub service : String → j.PrivateKey → String → Service j
  service kid key port =
      let issuer = configured "TOKEN_ISSUER" "https://issuer.local" in
      let audience = configured "TOKEN_AUDIENCE" "https://ingest.local" in
      record {
        minter = record {
          kid = kid;
          key = key;
          issuer = issuer;
          audience = audience;
          ttl = token_lifetime;
        };
        verifier = record { issuer = issuer; audience = audience };
        jwks_url =
            configured "JWKS_URL" ("http://127.0.0.1:" +++ port +++ "/.well-known/jwks.json");
      }

  -- net.SplitHostPort of LISTEN_ADDR
  abbrev pub listening :
      Option String
      → String
      → j.PrivateKey
      → Databases S T
      → Result Stage (Service j) × Databases S T
  listening none kid key w = (err listen_addr, w)
  listening (some port) kid key w = (ok (service kid key port), w)

  -- NewMinter
  abbrev pub minting :
      Option j.PrivateKey → String → Databases S T → Result Stage (Service j) × Databases S T
  minting none kid w = (err minter_key, w)
  minting (some key) kid w = listening (lib.port_of (configured "LISTEN_ADDR" ":8080")) kid key w

  abbrev pub with_active :
      Option (String × String) → Databases S T → Result Stage (Service j) × Databases S T
  with_active none w = (err active_key, w)
  with_active (some (kid, private)) w = minting (lib.import_private private) kid w

  -- from EnsureSigningKey on
  unfoldable pub with_keys : Run → Databases S T → Result Stage (Service j) × Databases S T
  with_keys run w =
      let (ensured, keys) =
        ensure_signing_key run.insert_fails run.check_fails (configured "SIGNING_KID" "kid-1")
          run.fresh.0 run.fresh.1 w.keys in
      let w' = record w { keys = keys } in
      if ensured
      then with_active (if run.query_fails then none else active_signing_key keys) w'
      else (err ensure_key, w')

  -- The steps before the listener, in their order.
  unfoldable pub start : Run → Databases S T → Result Stage (Service j) × Databases S T
  start run w =
      let (control_done, control) =
        Control.migrate lib.exec_control lib.control_files run.control_faults w.control in
      let (events_done, events) =
        Events.migrate lib.exec_events lib.event_files run.event_faults w.events in
      if run.clickhouse_opens
      then if run.postgres_opens
        then if control_done
          then if events_done
            then with_keys run (record w { control = control; events = events })
            else (err clickhouse_migrate, record w { control = control; events = events })
          else (err postgres_migrate, record w { control = control })
        else (err postgres, w)
      else (err clickhouse, w)
