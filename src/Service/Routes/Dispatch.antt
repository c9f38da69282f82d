-- ===== src/Service/Routes/Dispatch.antt =====
-- Which requests reach which handler, and what they change.
use event_tracking.Prelude.{
  ◌+◌, ◌*◌, ◌≤◌, ◌<◌, String, ◌≡◌, ◌↔◌, ◌⊎◌, inl, inr, refl, arith, eq_iff, sym, true, Bool-cases,
  ◌==◌, List, [], ◌∷◌, All,
}
use mathlib.Core.Path.{subst}
use event_tracking.Time.{second}
use event_tracking.Tenant.Verify.{Config}
use event_tracking.Tenant.Mint.{Minter}
use event_tracking.Handler.Batch.{Codecs}
use event_tracking.Handler.Token.{TokenCodecs}
use event_tracking.Service.Wiring.{Parts, World}
use event_tracking.Service.Wiring.Requests.{Served, table, serve_token_keeps, serve_challenge_keeps}
use event_tracking.Service.Routes.{
  Endpoint, challenge, token, jwks, batch, healthz, readyz, Route, routes, takes, Match, found,
  refused, unknown, dispatch, HttpRequest, Surroundings, serve_http, answer_match, server,
  shutdown_wait,
}

-- The path and the methods of each endpoint.
abbrev pub IsFor : Endpoint → String → String → Type 0
IsFor challenge method path = (method ≡ "POST") × (path ≡ "/v1/auth/challenge")
IsFor token method path = (method ≡ "POST") × (path ≡ "/v1/auth/token")
IsFor jwks method path = ((method ≡ "GET") ⊎ (method ≡ "HEAD")) × (path ≡ "/.well-known/jwks.json")
IsFor batch method path = (method ≡ "POST") × (path ≡ "/v1/batch")
IsFor healthz method path = ((method ≡ "GET") ⊎ (method ≡ "HEAD")) × (path ≡ "/healthz")
IsFor readyz method path = ((method ≡ "GET") ⊎ (method ≡ "HEAD")) × (path ≡ "/readyz")

posts : (method : String) → takes "POST" method ≡ true → method ≡ "POST"
posts method h = ground (arith, eq_iff "POST" method)

gets : (method : String) → takes "GET" method ≡ true → (method ≡ "GET") ⊎ (method ≡ "HEAD")
gets method h = ground (arith, eq_iff "GET" method, eq_iff method "HEAD")

reached :
    (x : Endpoint) (method path : String)
    → IsFor x method path
    → dispatch method path routes ≡ found x
unfolding dispatch
reached challenge method path (a, b) = rw (a, b) refl
reached token method path (a, b) = rw (a, b) refl
reached jwks method path (inl a, b) = rw (a, b) refl
reached jwks method path (inr a, b) = rw (a, b) refl
reached batch method path (a, b) = rw (a, b) refl
reached healthz method path (inl a, b) = rw (a, b) refl
reached healthz method path (inr a, b) = rw (a, b) refl
reached readyz method path (inl a, b) = rw (a, b) refl
reached readyz method path (inr a, b) = rw (a, b) refl

-- What holds of the endpoint of each route that suits the request, holds of the one that is found.
dispatch_found :
    (P : Endpoint → Type 0) (method path : String) (x : Endpoint) (rs : List Route)
    → All (λ r. takes r.method method ≡ true → r.path ≡ path → P r.endpoint) rs
    → dispatch method path rs ≡ found x
    → P x
unfolding dispatch
dispatch_found P method path x [] hs h = absurd (ground arith)
dispatch_found P method path x (r ∷ rs) hs h = elim (Bool-cases (r.path == path)) [
  | inl t ↦ elim (Bool-cases (takes r.method method)) [
    | inl s ↦ subst P (ground arith) (hs.0 s ((eq_iff r.path path).0 t))
    | inr s ↦ absurd (ground arith)
  ]
  | inr f ↦ dispatch_found P method path x rs hs.1 (ground arith)
]

-- A request is handed to an endpoint exactly when it has the endpoint's path and a method of it.
pub dispatch_iff :
    (x : Endpoint) (method path : String)
    → (dispatch method path routes ≡ found x) ↔ IsFor x method path
dispatch_iff x method path = (
  dispatch_found (λ y. IsFor y method path) method path x routes
      (
        λ t e. (posts method t, sym e),
        (
          λ t e. (posts method t, sym e),
          (
            λ t e. (gets method t, sym e),
            (
              λ t e. (posts method t, sym e),
              (λ t e. (gets method t, sym e), (λ t e. (gets method t, sym e), tt)),
            ),
          ),
        ),
      ),
  reached x method path,
)

-- Only requests to POST /v1/batch change the stored events and the offsets of the sessions.
pub only_batch_stores :
    (k : Codecs) (t : TokenCodecs) (e : Parts) (cfg : Config) (m : Minter e.jose) {S : Type 0}
    (encode : S → String) (s : Surroundings S) (q : HttpRequest) (w : World e)
    → ((q.method ≡ "POST") × (q.path ≡ "/v1/batch"))
      ⊎ (table k t e cfg m (serve_http k t e cfg m encode s q w).1 ≡ table k t e cfg m w)
unfolding serve_http
only_batch_stores k t e cfg m encode s q w =
    go (dispatch q.method q.path routes) ((dispatch_iff batch q.method q.path).0)
  where
    go :
        (x : Match)
        → (x ≡ found batch → IsFor batch q.method q.path)
        → ((q.method ≡ "POST") × (q.path ≡ "/v1/batch"))
          ⊎ (table k t e cfg m (answer_match k t e cfg m encode s x q.request w).1
              ≡ table k t e cfg m w)
    go unknown h = inr refl
    go (refused methods) h = inr refl
    go (found batch) h = inl (h refl)
    go (found challenge) h = inr (serve_challenge_keeps k t e cfg m q.request w)
    go (found token) h = inr (serve_token_keeps k t e cfg m q.request w)
    go (found jwks) h = inr refl
    go (found healthz) h = inr refl
    go (found readyz) h = inr refl

-- Every request to the mux is a request of one of the three endpoints that change the world, or it
-- changes nothing.
pub Served-serve_http :
    (k : Codecs) (t : TokenCodecs) (e : Parts) (cfg : Config) (m : Minter e.jose) {S : Type 0}
    (encode : S → String) (s : Surroundings S) (q : HttpRequest) (w u : World e)
    → Served k t e cfg m w u
    → Served k t e cfg m w (serve_http k t e cfg m encode s q u).1
unfolding serve_http
Served-serve_http k t e cfg m encode s q w u h = go (dispatch q.method q.path routes)
  where
    go : (x : Match) → Served k t e cfg m w (answer_match k t e cfg m encode s x q.request u).1
    go unknown = h
    go (refused methods) = h
    go (found batch) = Served.batch h q.request
    go (found challenge) = Served.challenge h q.request
    go (found token) = Served.token h q.request
    go (found jwks) = h
    go (found healthz) = h
    go (found readyz) = h

-- A request that is read within the read timeout has 30 seconds for its handler before the write
-- timeout, and a shutdown waits for longer than the write timeout.
server_timeouts :
    (addr : String)
    → ((server addr).read_timeout + 30 * second ≤ (server addr).write_timeout)
      × ((server addr).write_timeout < shutdown_wait (server addr))
server_timeouts addr = (omega arith, omega arith)
