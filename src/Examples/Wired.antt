-- ===== src/Examples/Wired.antt =====
-- A start of the service on empty databases, and one token from it.
use event_tracking.Prelude.{String, ◌≡◌, refl, true, false, none, some, List, [], ◌∷◌, ok}
use event_tracking.Prelude.Int.{pos, ◌+ℤ◌, int_laws}
use event_tracking.Prelude.Text.{◌+++◌, trim_space}
use event_tracking.Tenant.Keys.{new_cache}
use event_tracking.Tenant.Mint.{token_of, mint}
use event_tracking.ControlPlane.Installs.{
  Install, issue_install, run_upsert, upsert, is_taken, same_anchor, find,
}
use event_tracking.ControlPlane.SigningKeys.{
  active_signing_key, ensure_signing_key, insert_first, has_kid,
}
use event_tracking.ControlPlane.Tenants.{tenants_of}
use event_tracking.ControlPlane.Tenants.Lookups.{Grants}
use event_tracking.ControlPlane.Migrate as Control
use event_tracking.ControlPlane.Migrate.Clean.{no_faults}
use event_tracking.ClickHouse.Migrate as Events
use event_tracking.Migrations.{has_suffix, leb_text, insert, sort_strings, sql_files, is_applied}
use event_tracking.Attest.{consume, challenge_key}
use event_tracking.Quota.{allow_client, client_rate_script}
use event_tracking.Handler.Action.{◌>>=◌}
use event_tracking.Handler.Body.{read_body, read_all, max_bytes_reader}
use event_tracking.Handler.Token.{
  Grant, serve_token, exchange_token, identify, attested, token_claims, device_key,
}
use event_tracking.Service.Wiring.{Parts, World, token_deps, batch_deps}
use event_tracking.Service.Wiring.Tokens.{token_accepted}
use event_tracking.Service.Wiring.Requests.{Served}
use event_tracking.Service.Wiring.Devices.{exchanged_twice}
use event_tracking.Examples.Deliveries.{codecs}
use event_tracking.Service.Start.{Databases, Run, Libraries, service, start, with_keys}
use event_tracking.Service.Start.Ready.{IsReady, start-IsReady}
use event_tracking.Examples.Samples.{noon}
use event_tracking.Examples.Signer.{
  signer, signer-IsJose, is_sample, is_text, is_whole, is_time, is_one,
}
use event_tracking.Examples.Tokens.{minter, config, endpoint, soon, found, named}
use event_tracking.Examples.Counters.{server, empty}
use event_tracking.Examples.Exchanges.{cells, token_codecs, post, exchange}
use event_tracking.Examples.Deliveries.{table}
use event_tracking.Examples.Upgrades.{
  two_files, log_text, log_statement, empty_server, no_event_faults,
}
use event_tracking.Examples.Upgrades

abbrev pub parts : Parts
parts = record {
  jose = signer;
  fetch = endpoint;
  redis = server;
  cells = cells;
  driver = table;
  digest8 = λ s. "d8";
  sha256 = λ s. "h";
}

-- the install that the device already has
abbrev pub install : Install
install = record {
  install_id = "i1";
  tenant_id = "t1";
  platform = "android";
  trust_tier = 1;
  attest_subject = none;
  device_key = "d";
}

abbrev pub world : World parts
world = record {
  clock = noon;
  clients =
      record { client_id = "c1"; tenant_id = "t1"; is_revoked = false; legacy_key_hash = none }
      ∷ [];
  tenants = [];
  quotas = [];
  installs = install ∷ [];
  session_offsets = [];
  fails = λ n. false;
  unheard = λ n. false;
  statements = 0;
  entropy = some "00";
  counters = empty;
  challenges = λ k. none;
  events = [];
  cache = new_cache signer;
  warnings = [];
}

abbrev grant : Grant token_codecs (token_deps parts minter)
grant = record {
  exchange = exchange;
  of_tenant = "t1";
  subject = none;
  install = "i1";
  access_token = "tok";
  expires_in = pos 2700;
}

granted : (exchange_token token_codecs (token_deps parts minter) post world).0 ≡ ok grant
unfolding exchange_token identify attested ◌>>=◌ read_body read_all max_bytes_reader tenants_of
    issue_install run_upsert upsert is_taken same_anchor find mint token_of is_sample is_text
    is_whole is_time is_one ◌+ℤ◌ consume challenge_key allow_client client_rate_script device_key
granted = refl

abbrev after_first : World parts
after_first = record (serve_token token_codecs (token_deps parts minter) post world).1 {
  entropy = some "ff";
}

granted_again :
    (exchange_token token_codecs (token_deps parts minter) post after_first).0 ≡ ok grant
unfolding exchange_token identify attested ◌>>=◌ read_body read_all max_bytes_reader tenants_of
    issue_install run_upsert upsert is_taken same_anchor find mint token_of is_sample is_text
    is_whole is_time is_one ◌+ℤ◌ consume challenge_key allow_client client_rate_script device_key
    serve_token
granted_again = refl

exchanged_twice_example : token_claims "t1" "i1" 1 ≡ token_claims "t1" "i1" 1
exchanged_twice_example =
    exchanged_twice codecs token_codecs parts config minter post post world after_first grant grant
      granted (Served.draws Served.start (some "ff")) granted_again refl refl

token_accepted_example :
    Grants "c1" "t1" world.clients
    × (((batch_deps parts (record { issuer = "issuer"; audience = "ingest" })).verify_or_legacy
          ("Bearer " +++ "tok")
          soon
          world).0
        ≡ (ok (token_claims "t1" "i1" 1), false))
token_accepted_example =
    token_accepted token_codecs parts minter signer-IsJose post world world soon grant tt granted
      (omega int_laws) (omega int_laws) named.0 named.1 refl tt found

abbrev pub libraries : Libraries signer (List String) (List String)
libraries = record {
  exec_control = log_text;
  exec_events = log_statement;
  control_files = two_files;
  event_files = two_files;
  import_private = λ k. some tt;
  port_of = λ addr. some "8080";
  variables = λ name. "";
}

abbrev pub run : Run
run = record {
  clickhouse_opens = true;
  postgres_opens = true;
  control_faults = no_faults;
  event_faults = no_event_faults;
  insert_fails = false;
  check_fails = false;
  query_fails = false;
  fresh = ("p1", "s1");
}

abbrev pub databases : Databases (List String) (List String)
databases = record { control = Upgrades.empty; keys = []; events = empty_server }

started : (start signer libraries run databases).0 ≡ ok (service signer libraries "kid-1" tt "8080")
unfolding start with_keys ensure_signing_key insert_first active_signing_key has_kid Control.migrate
    Control.apply_files Control.apply_file Events.migrate Events.apply_files Events.exec_all
    Events.statements_in Events.split_statements trim_space sort_strings insert leb_text sql_files
    has_suffix is_applied
started = refl

start-IsReady_example :
    IsReady signer libraries
      (λ k. some k)
      databases
      (start signer libraries run databases).1
      (service signer libraries "kid-1" tt "8080")
start-IsReady_example =
    start-IsReady signer libraries (λ k. some k) run databases
      (service signer libraries "kid-1" tt "8080") started
