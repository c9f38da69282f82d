-- ===== src/Examples/Twice.antt =====
-- One batch that a client delivers twice, with a token request and a minute in between.
use event_tracking.Prelude.{◌*◌, ◌≡◌, refl, [], ◌∷◌, inl, ok, some, none, false}
use event_tracking.Prelude.Int
use event_tracking.Prelude.Int.{pos, ◌+ℤ◌}
use event_tracking.Time
use event_tracking.Time.{Time, second}
use event_tracking.ClickHouse.{Row}
use event_tracking.ClickHouse.Insert.{insert_events, append_all}
use event_tracking.Tenant.{Claims}
use event_tracking.Tenant.Keys.{new_cache}
use event_tracking.Tenant.Verify.{strip_bearer}
use event_tracking.Tenant.Legacy.{verify_or_legacy, resolve_legacy, legacy_claims}
use event_tracking.Prelude.Text.{cut_space}
use event_tracking.ControlPlane.Tenants
use event_tracking.ControlPlane.Tenants.{legacy_rows, modes_of, limits_for, quotas_of, tenants_of}
use event_tracking.Quota.{
  Redis, answers, allow_client, client_rate_script, allow, allow_script, charge, decision, exceeds,
}
use event_tracking.Enrich.Skew.{candidate_offset, correct, shifted}
use event_tracking.Enrich.Offsets.{same_key}
use event_tracking.Enrich.Offsets.Postgres.{get_or_set, upsert}
use event_tracking.Enrich.Offsets.Memory.{find}
use event_tracking.Handler.Action.{◌>>=◌}
use event_tracking.Handler.Body.{read_body, read_all, max_bytes_reader}
use event_tracking.Enrich.Row.{row}
use event_tracking.Handler.Batch.{
  Request, Plan, prepare, finish, enrich_all, offset_of, serve, validate_all,
}
use event_tracking.Handler.Batch.Redelivery.Copies.{AreCopies}
use event_tracking.Service.Wiring.{Parts, World, batch_deps, token_deps}
use event_tracking.Handler.Token.{serve_token, exchange_token, identify, attested}
use event_tracking.Service.Wiring.Requests.{start, token, tick, delivered_twice}
use event_tracking.Validate
use event_tracking.Examples.Samples.{noon, click, claims, batch}
use event_tracking.Examples.Tokens.{minter, soon, config}
use event_tracking.Examples.Exchanges.{token_codecs, post}
use event_tracking.Examples.Deliveries.{codecs, request}
use event_tracking.Examples.Exchanges.{cells}
use event_tracking.Examples.Deliveries.{table}
use event_tracking.Examples.Signer.{signer, is_sample, is_one, is_time}
use event_tracking.Attest.{consume}
use event_tracking.ControlPlane.Installs.{issue_install, run_upsert, is_taken}
use event_tracking.Tenant.Mint.{mint, token_of}
use event_tracking.Examples.Tokens.{endpoint}

abbrev later : Time
later = noon +ℤ pos (120 * second)

-- a client that still has a write key
abbrev pub post_batch : Request
post_batch = record request { authorization = "wk_live_1" }

abbrev pub no_limits : Redis
no_limits = record {
  Server = Unit {0};
  link = λ s. answers;
  get = λ k s. none;
  incr_by = λ k n s. s;
  expire = λ k t s. s;
  ttl = λ k s. pos 1;
}

abbrev pub ours : Parts
ours = record {
  jose = signer;
  fetch = endpoint;
  redis = no_limits;
  cells = cells;
  driver = table;
  digest8 = λ s. "d8";
  sha256 = λ s. "h";
}

abbrev pub before : World ours
before = record {
  clock = soon;
  clients =
      record { client_id = "c1"; tenant_id = "t1"; is_revoked = false; legacy_key_hash = some "h" }
      ∷ [];
  tenants = record { tenant_id = "t1"; legacy_key_mode = "dual_accept" } ∷ [];
  quotas = [];
  installs = [];
  session_offsets = [];
  fails = λ n. false;
  unheard = λ n. false;
  statements = 0;
  entropy = some "00";
  counters = tt;
  challenges = λ k. none;
  events = [];
  cache = new_cache signer;
  warnings = [];
}

abbrev pub holder : Claims
holder = record claims { install_id = "legacy-d8" }

-- the row of a delivery, with the offset that the first one fixed
abbrev row_at : Time → Row
row_at now = (row (λ ps. some "{}") click holder (pos 61000) now).0

abbrev plan_at : Time → Plan codecs (batch_deps ours config)
plan_at now = record {
  received_at = now;
  claims = holder;
  request = batch;
  rows = (row_at now, "e1") ∷ [];
}

abbrev between : World ours
between =
    record (serve_token token_codecs (token_deps ours minter) post
      (serve codecs (batch_deps ours config) post_batch before).1).1 { clock = later }

first : (prepare codecs (batch_deps ours config) post_batch before).0 ≡ ok (plan_at soon)
unfolding prepare ◌>>=◌ verify_or_legacy strip_bearer cut_space resolve_legacy legacy_claims
    Tenants.resolve_legacy legacy_rows modes_of limits_for quotas_of allow allow_script charge
    decision exceeds get_or_set upsert enrich_all offset_of find row candidate_offset correct
    shifted read_body read_all max_bytes_reader Int.wrap64 Int.floor_mod Int.scale Int.◌+ℤ◌
    Time.time_sub Time.of_unix_milli validate_all Validate.event Validate.check_event
    Validate.check_props Validate.check_prop Validate.min_ts_client_ms Validate.max_ts_client_ms
first = refl

second_time : (prepare codecs (batch_deps ours config) post_batch between).0 ≡ ok (plan_at later)
unfolding prepare ◌>>=◌ verify_or_legacy strip_bearer cut_space resolve_legacy legacy_claims
    Tenants.resolve_legacy legacy_rows modes_of limits_for quotas_of allow allow_script charge
    decision exceeds get_or_set upsert enrich_all offset_of find row candidate_offset correct
    shifted read_body read_all max_bytes_reader Int.wrap64 Int.floor_mod Int.scale Int.◌+ℤ◌
    Time.time_sub Time.of_unix_milli validate_all Validate.event Validate.check_event
    Validate.check_props Validate.check_prop Validate.min_ts_client_ms Validate.max_ts_client_ms
    same_key serve finish insert_events append_all serve_token exchange_token identify tenants_of
    allow_client client_rate_script attested consume issue_install run_upsert is_taken mint
    is_sample token_of is_one is_time
second_time = refl

delivered_twice_example : AreCopies click soon later (row_at soon) (row_at later)
unfolding validate_all Validate.event Validate.check_event Validate.check_props Validate.check_prop
    Validate.min_ts_client_ms Validate.max_ts_client_ms
delivered_twice_example =
    delivered_twice codecs token_codecs ours config minter post_batch post_batch before between
      (plan_at soon) (plan_at later) first (tick (token start post) later) second_time refl click
      (row_at soon) (row_at later) (inl (refl, refl)) (inl (refl, refl))
