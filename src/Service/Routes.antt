-- ===== src/Service/Routes.antt =====
-- services/ingest/cmd/main.go: the routes, and the limits of the server that main starts. The mux is
-- that of net/http; a path that is not clean (with `//` or a dot segment), which it redirects before
-- it looks at the routes, is left out.
pub mod Dispatch
use event_tracking.Prelude.{
  ℕ, ◌+◌, ◌*◌, String, Bool, true, false, ◌&&◌, ◌||◌, List, [], ◌∷◌, ◌++◌, Option, ◌==◌,
  if◌then◌else◌,
}
use event_tracking.Prelude.Text.{◌+++◌}
use event_tracking.Time.{second}
use event_tracking.Tenant.Verify.{Config}
use event_tracking.Tenant.Mint.{Minter}
use event_tracking.Handler.Action.{Response}
use event_tracking.Handler.Batch.{Request, Codecs, serve}
use event_tracking.Handler.Token.{TokenCodecs, serve_token, serve_challenge}
use event_tracking.Handler.Jwks.{Reply, plain_error, serve_jwks}
use event_tracking.Service.Health
use event_tracking.Service.Wiring.{Parts, World, batch_deps, token_deps}

pub data Endpoint : Type 0 where
  challenge token jwks batch healthz readyz : Endpoint

pub record Route : Type 0 where
  pub method : String
  pub path : String
  pub endpoint : Endpoint

-- the patterns, in the order of main
abbrev pub routes : List Route
routes =
    record { method = "POST"; path = "/v1/auth/challenge"; endpoint = challenge }
    ∷ record { method = "POST"; path = "/v1/auth/token"; endpoint = token }
    ∷ record { method = "GET"; path = "/.well-known/jwks.json"; endpoint = jwks }
    ∷ record { method = "POST"; path = "/v1/batch"; endpoint = batch }
    ∷ record { method = "GET"; path = "/healthz"; endpoint = healthz }
    ∷ record { method = "GET"; path = "/readyz"; endpoint = readyz }
    ∷ []

-- A pattern with GET takes HEAD too.
abbrev pub takes : String → String → Bool
takes pattern method = pattern == method || pattern == "GET" && method == "HEAD"

-- What the mux makes of a request; `refused` has the methods that the path takes.
pub data Match : Type 0 where
  found : Endpoint → Match
  refused : String → Match
  unknown : Match

-- the methods of the Allow header
abbrev pub allowed_by : String → String
allowed_by pattern = if pattern == "GET" then "GET, HEAD" else pattern

-- The search for a route; no two routes have one path.
unfoldable pub dispatch : String → String → List Route → Match
dispatch method path [] = unknown
dispatch method path (r ∷ rs) =
    let rest = dispatch method path rs in
    if r.path == path
    then if takes r.method method then found r.endpoint else refused (allowed_by r.method)
    else rest

pub record HttpRequest : Type 0 where
  pub method : String
  pub path : String
  pub request : Request

-- A response of one of the handlers, or of the smaller ones and of the mux.
pub data Answer : Type 0 where
  response : Response → Answer
  reply : Reply → Answer

-- What the request meets beyond the world: the pings of the three servers, and the set that PublicJWKS
-- gives.
pub record Surroundings (S : Type 0) : Type 0 where
  pub clickhouse_up : Bool
  pub postgres_up : Bool
  pub redis_up : Bool
  pub key_set : Option S

abbrev pub method_not_allowed : String → Reply
method_not_allowed methods =
    let plain = plain_error 405 "Method Not Allowed" in
    record plain { headers = ("Allow", methods) ∷ plain.headers }

module _ (k : Codecs) (t : TokenCodecs) (e : Parts) (cfg : Config) (m : Minter e.jose) {S : Type 0}
    (encode : S → String) where
  -- the handler of each route
  abbrev pub handle : Surroundings S → Endpoint → Request → World e → Answer × World e
  handle s challenge r w = let (x, w') = serve_challenge t (token_deps e m) r w in (response x, w')
  handle s token r w = let (x, w') = serve_token t (token_deps e m) r w in (response x, w')
  handle s batch r w = let (x, w') = serve k (batch_deps e cfg) r w in (response x, w')
  handle s jwks r w = (reply (serve_jwks encode s.key_set), w)
  handle s healthz r w = (reply Health.healthz, w)
  handle s readyz r w = (reply (Health.readyz s.clickhouse_up s.postgres_up s.redis_up), w)

  abbrev pub answer_match : Surroundings S → Match → Request → World e → Answer × World e
  answer_match s (found x) r w = handle s x r w
  answer_match s (refused methods) r w = (reply (method_not_allowed methods), w)
  answer_match s unknown r w = (reply (plain_error 404 "404 page not found"), w)

  -- The handler of the server.
  unfoldable pub serve_http : Surroundings S → HttpRequest → World e → Answer × World e
  serve_http s q w = answer_match s (dispatch q.method q.path routes) q.request w

-- http.Server, and how long main waits for requests that are under way when it shuts down.
pub record Server : Type 0 where
  pub addr : String
  pub read_header_timeout : ℕ
  pub read_timeout : ℕ
  pub idle_timeout : ℕ
  pub write_timeout : ℕ

abbrev pub server : String → Server
server addr = record {
  addr = addr;
  read_header_timeout = 5 * second;
  read_timeout = 60 * second;
  idle_timeout = 120 * second;
  write_timeout = 90 * second;
}

abbrev pub shutdown_wait : Server → ℕ
shutdown_wait srv = 2 * srv.write_timeout
