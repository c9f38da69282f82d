-- ===== src/Lib.antt =====
-- Verification library of the event ingestion service: what a client is told about its events, and
-- what the storage then holds.
--
-- The program. An SDK exchanges its public client id for a short-lived token and posts batches of
-- events with it. The batch handler (services/ingest/internal/handler/batch.go) verifies the token
-- (pkg/tenant), reads the body within a cap, validates each event (services/ingest/internal/validate),
-- charges the tenant's quota (services/ingest/internal/quota), corrects the clocks of the devices
-- and builds the storage rows (services/ingest/internal/enrich), inserts them (pkg/clickhouse), and
-- only then acknowledges them. A client deletes what is acknowledged and sends the rest again.
--
-- The files.
--   Prelude   what the modules share: tests, lists, signed integers, texts, results
--   Time      Go's time package as far as it is used: instants in nanoseconds
--   Limits    pkg/limits/limits.go
--   Contract  gen/go/tracking/v1: the messages as records
--   Validate  validate.go: `event` is Event; Spec states which events are storable, Laws and Rejects
--             relate the two
--   Enrich    Skew is Correct and CandidateOffset; Offsets is the interface OffsetStore with its
--             contract, Offsets/Memory and Offsets/Postgres its implementations, Offsets/Pinned a
--             client of the contract, Offsets/Postgres/Retention the DELETE that
--             pkg/controlplane/sql/0002_session_offsets_retention.sql gives for the table; Row is
--             Row and propsJSON
--   Quota     quota.go: the two Lua scripts over a Redis server, Allow and AllowClient; Admission is
--             about one call, Budget about schedules of calls, Keys about the names of the counters
--   Tenant    Verify is Verify, Keys is the cache of published keys, Mint is Mint, Legacy is
--             VerifyOrLegacy; Jose is the interface of the signing library
--   ClickHouse  insert.go: Row and InsertEvents over a driver; Pool is pool.go; Migrate is migrate.go,
--             with Statements about the text of a file, Runs about one run and Retries about a run after a
--             failed one
--   Migrations  what the two migration runners share: the files, their order, and what a ledger
--             leaves to do
--   Handler   Action is the monad of the handlers: steps that change a world and may end the
--             request; Outcomes, Refusals, Triples and Returns have the rules for chains of steps; Body is
--             readBody; Batch is NewBatch, with `prepare` for what comes before the insert and
--             `finish` for the rest; Token is NewToken and NewChallenge, with `exchange_token` for
--             what comes before the response; Jwks is NewJWKS
--   Attest    attest.go: the one-time challenges in Redis
--   ControlPlane  pkg/controlplane: Installs is IssueInstall in store.go, Tenants its lookups,
--             SigningKeys is keys.go, as operations on the rows of their tables with the tables'
--             constraints; Migrate is migrate.go, with Runs about series of runs and Replicas about
--             processes that start together; Pool is Open
--   Service   services/ingest/cmd/main.go: Wiring is what main hands to the handlers, over one world
--             of stores, with Contracts, Exchange, Tokens, WriteKeys, Requests and Devices
--             about what they do together; Start is what comes before the listener, with Accepts
--             about the keys that it publishes; Health is the two health checks; Routes is the mux
--             and the limits of the server
--   Boundaries  tools/checkboundaries/main.go: the rules on imports; Paths says which import paths
--             lie in a service or under pkg/, Listing is listPackages and main
--   Examples  the theorems at concrete inputs
--
-- How the code is modelled. A Go string is a sequence of bytes. A character stands for one byte in
-- the texts whose length counts, such as the fields of an event, where `len` counts bytes, and for
-- one code point in the texts that are only compared, cut and trimmed: credentials, scopes and SQL. An int64 sum wraps around (wrap64), a Duration saturates as in
-- time.Time.Sub, and all instants are exact. A Go map is a list of pairs in the order of one range
-- loop. Mutexes, Lua scripts and single SQL statements make a call atomic, so that a call is one
-- step; other requests stand between the steps as an arbitrary change of the world or an arbitrary
-- sequence of calls. The loops are over lists and need no fuel, but for two: the loop over the output
-- of `go list -json` has a unit of fuel for each character and one for the end, and each call of the
-- decoder that finds an object consumes a character (IsDecoder); the printing of a decimal number has
-- fuel for 20 digits, which every number below 2 ^ 64 fits.
--
-- What is a parameter, with its documented behaviour as named laws: Redis (IsRedis), the signing
-- library (IsJose), the ClickHouse driver (IsDriver), gzip, protojson, uuid and encoding/json
-- (Codecs, TokenCodecs), jwk.Import and jwk.Fetch (KeyLibrary), the go command (Go), SHA-256, the
-- strings of Redis that hold challenges (IsCells), and the dependencies of the handlers (IsDeps;
-- TokenDeps has no laws).
--
-- What is not modelled: sockets, the enforcement of the timeouts and the shutdown of net/http in
-- services/ingest/cmd/main.go (Service/Routes has the routes and the values), the redirection of
-- paths that are not clean, the reflection part of generated code, and the commands that only tests
-- use. The sweep of old session offsets, a statement that an operator runs, is not a step of the
-- wired service. Neither are changes of the tenants that remove their rows in other tables: the
-- foreign keys of pkg/controlplane/sql/0001_control_plane.sql are left out. Of the errors of
-- PublicJWKS, those of jwk.Set and of the end of the rows are left out. The go command and encoding/json are parameters of tools/checkboundaries.
--
-- A migration run is given what fails in it, call by call; what a file or a statement does to the
-- schema is a parameter. A run is one step in ControlPlane/Migrate, since the advisory lock keeps other
-- runs out; ControlPlane/Migrate/Replicas takes the run apart and has the lock as a part of the state,
-- which the server may also drop.
-- The statements that the wired service sends to Postgres are numbered, and each may fail;
-- the reply to one for an offset may also be lost after it has had effect.
pub mod Prelude
pub mod Time
pub mod Limits
pub mod Migrations
pub mod Contract
pub mod Validate
pub mod ClickHouse
pub mod Tenant
pub mod Enrich
pub mod Quota
pub mod ControlPlane
pub mod Attest
pub mod Boundaries
pub mod Handler
pub mod Service
pub mod Examples
