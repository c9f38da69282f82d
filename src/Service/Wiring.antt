-- ===== src/Service/Wiring.antt =====
-- services/ingest/cmd/main.go: what main hands to the handlers, over the stores that they share.
pub mod Contracts
pub mod Exchange
pub mod Tokens
pub mod Requests
pub mod Devices
pub mod WriteKeys
use event_tracking.Prelude.{
  ℕ, ◌+◌, String, Bool, true, false, List, [], ◌∷◌, Option, none, some, Result, ok, err,
}
use event_tracking.Prelude.Int.{ℤ}
use event_tracking.Time.{Time}
use event_tracking.Limits.{Quota}
use event_tracking.Tenant.{Claims}
use event_tracking.Tenant.Jose.{Jose}
use event_tracking.Tenant.Keys.{Cache}
use event_tracking.Tenant.Verify.{Config, Error}
use event_tracking.Tenant.Legacy.{verify_or_legacy}
use event_tracking.Tenant.Mint.{Minter, mint}
use event_tracking.ClickHouse.Insert.{Driver, insert_events}
use event_tracking.ControlPlane.Tenants.{
  ClientRow, TenantRow, QuotaRow, LookupError, resolve_tenant, limits_for, resolve_legacy,
}
use event_tracking.ControlPlane.Installs.{Install, issue_install}
use event_tracking.Enrich.Offsets.Postgres.{OffsetRow, get_or_set}
use event_tracking.Quota.{Redis, allow, allow_client}
use event_tracking.Attest.{Cells, noop, issue, consume}
use event_tracking.Handler.Batch.{Deps}
use event_tracking.Handler.Token.{TokenDeps}

-- The libraries and servers that are not part of the repository. The counters and the challenges of
-- one Redis server are two views of it, since their keys differ. `fetch n` is what the JWKS endpoint
-- answers to the verifier's request with number n; `digest8` and `sha256` are digests.
pub record Parts : Type 1 where
  pub jose : Jose
  pub fetch : ℕ → Option jose.Set
  pub redis : Redis
  pub cells : Cells
  pub driver : Driver
  pub digest8 : String → String
  pub sha256 : String → String

module _ (e : Parts) where
  -- Everything that the handlers read and change. `fails n` says whether the statement with number n
  -- that is sent to Postgres fails, `unheard n` whether the reply to it is lost when it is one for an
  -- offset; `entropy` is what the random source gives next.
  pub record World : Type 0 where
    pub clock : Time
    pub clients : List ClientRow
    pub tenants : List TenantRow
    pub quotas : List QuotaRow
    pub installs : List Install
    pub session_offsets : List OffsetRow
    pub fails : ℕ → Bool
    pub unheard : ℕ → Bool
    pub statements : ℕ
    pub entropy : Option String
    pub counters : (e.redis).Server
    pub challenges : (e.cells).Server
    pub events : (e.driver).Server
    pub cache : Cache e.jose
    pub warnings : List (String × String)

  abbrev pub answer : {A : Type 0} → Result LookupError A → Option A
  answer (ok a) = some a
  answer (err x) = none

  abbrev pub failing : World → Bool
  failing w = w.fails w.statements

  -- the world after a statement
  abbrev pub sent : World → World
  sent w = record w { statements = w.statements + 1 }

  -- Resolve of legacyResolver
  abbrev pub legacy_resolver : World → String → Option (String × String)
  legacy_resolver w key = answer (resolve_legacy e.sha256 (failing w) w.clients w.tenants key)

  abbrev pub verified :
      (Result Error Claims × Bool) × Cache e.jose → World → (Result Error Claims × Bool) × World
  verified ((r, true), cache) w = ((r, true), sent (record w { cache = cache }))
  verified ((r, false), cache) w = ((r, false), record w { cache = cache })

  module _ (cfg : Config) where
    -- the Deps of NewBatch; OnClockSkew is nil, and OnLegacyUse logs
    abbrev pub batch_deps : Deps World
    batch_deps = record {
      now = λ w. w.clock;
      verify_or_legacy = λ bearer now w.
          verified
            (verify_or_legacy e.digest8 e.jose e.fetch cfg bearer now (legacy_resolver w) w.cache)
            w;
      limits_for =
          λ tenant_id tier w. (answer (limits_for (failing w) w.quotas tenant_id tier), sent w);
      allow = λ c lim n now w.
          let (d, s) = allow e.redis c lim n now w.counters in (d, record w { counters = s });
      get_or_set = λ key candidate w.
          let (o, p) = get_or_set key candidate (record {
            session_offsets = w.session_offsets;
            now = w.clock;
            fails = failing w;
            unheard = w.unheard w.statements;
          }) in
          (o, sent (record w { session_offsets = p.session_offsets }));
      insert = λ rows w.
          let (done, s) = insert_events e.driver rows w.events in (done, record w { events = s });
      on_clock_skew = λ tenant_id device_id w. w;
      on_legacy_use =
          λ tenant_id version w. record w { warnings = (tenant_id, version) ∷ w.warnings };
    }

  module _ (minter : Minter e.jose) where
    -- the TokenDeps of NewToken and NewChallenge; the attestor is Noop, which verifies nothing
    abbrev pub token_deps : TokenDeps World
    token_deps = record {
      clock = λ w. w.clock;
      mint_token = mint e.jose minter;
      attest = λ platform attestation challenge w. (noop platform attestation challenge, w);
      issue_challenge = λ client_id platform w.
          let (nonce, s) = issue e.cells client_id platform w.challenges in
          (nonce, record w { challenges = s });
      consume_challenge = λ client_id platform challenge w.
          let (live, s) = consume e.cells client_id platform challenge w.challenges in
          (live, record w { challenges = s });
      resolve_tenant =
          λ client_id w. (answer (resolve_tenant (failing w) w.clients client_id), sent w);
      issue_install = λ tenant_id platform subject device_key tier w.
          let (id, db) =
            issue_install tenant_id platform subject device_key tier
              (record { installs = w.installs; entropy = w.entropy; fails = failing w }) in
          (id, sent (record w { installs = db.installs }));
      allow_client = some λ key limit window w.
          let (within, s) = allow_client e.redis key limit window w.counters in
          (within, record w { counters = s });
    }
