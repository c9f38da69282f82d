-- ===== src/Service/Wiring/Requests.antt =====
-- The wired service over any sequence of requests.
use event_tracking.Prelude.{String, Bool, true, false, ◌≡◌, refl, sym, ap, List, Option, none, ok}
use mathlib.Core.Path.{subst}
use event_tracking.Time.{Time}
use event_tracking.Contract.{Event, TokenRequest}
use event_tracking.Tenant.Verify.{Config}
use event_tracking.Tenant.Mint.{Minter}
use event_tracking.ClickHouse.{Row}
use event_tracking.ControlPlane.Tenants.{ClientRow, TenantRow, QuotaRow}
use event_tracking.Enrich.Offsets.Postgres.{OffsetRow, find}
use event_tracking.ControlPlane.Installs.{Install}
use event_tracking.Attest.{consume}
use event_tracking.Handler.Action.{
  Action, Keeps, Keeps-bind, Keeps-or_stop, Keeps-attempt, Keeps-guard,
}
use event_tracking.Handler.Batch.{Request, Codecs, Plan, prepare, serve, validate_all}
use event_tracking.Handler.Batch.Redelivery.{Grows}
use event_tracking.Handler.Batch.Redelivery.Copies.{IsRowOf, AreCopies, redelivered}
use event_tracking.Handler.Batch.Growth.{serve-Grows, prepared-Grows}
use event_tracking.Handler.Token.{
  TokenCodecs, identify, attested, exchange_token, serve_token, serve_challenge, subject_if,
}
use event_tracking.Service.Wiring.{Parts, World, batch_deps, token_deps}
use event_tracking.Service.Wiring.Contracts.{batch_deps-HoldsOffsets}

module _ (k : Codecs) (t : TokenCodecs) (e : Parts) (cfg : Config) (m : Minter e.jose) where
  -- what only the batch endpoint changes: the offsets of the sessions, and the events
  abbrev pub Kept : Type 0
  Kept = List OffsetRow × (e.driver).Server

  abbrev pub table : World e → Kept
  table w = (w.session_offsets, w.events)

  -- what only the batch endpoint and an exchange change
  pub record Steady : Type 0 where
    pub kept : Kept
    pub installs : List Install

  abbrev pub steady : World e → Steady
  steady w = record { kept = table w; installs = w.installs }

  table-Keeps : {A : Type 0} (n : Action (World e) A) → Keeps steady n → Keeps table n
  table-Keeps n h w = ap (λ x. x.kept) (h w)

  pub identify-Keeps :
      (scope : String) (r : Request) → Keeps steady (identify t (token_deps e m) scope r)
  unfolding identify
  identify-Keeps scope r = Keeps-bind steady _ _ (Keeps-or_stop steady _ _) λ body.
      Keeps-bind steady _ _ (Keeps-or_stop steady _ _) λ req.
        Keeps-bind steady _ _ (Keeps-attempt steady _ _ λ w. refl) λ tenant_id.
          Keeps-bind steady _ _ (Keeps-attempt steady _ _ λ w. refl)
            λ within. Keeps-bind steady _ _ (Keeps-guard steady _ _) λ _ w. refl

  pub attested-Keeps : (req : TokenRequest) → Keeps steady (attested t (token_deps e m) req)
  unfolding attested
  attested-Keeps req w =
      go (consume e.cells req.client_id req.platform req.challenge w.challenges).0
        (record w {
          challenges = (consume e.cells req.client_id req.platform req.challenge w.challenges).1;
        })
        refl
    where
      go :
          (live : Bool) (u : World e)
          → steady u ≡ steady w
          → steady (subject_if t (token_deps e m) live (none, u) u).1 ≡ steady w
      go true u h = h
      go false u h = h

  exchange_token-Keeps : (r : Request) → Keeps table (exchange_token t (token_deps e m) r)
  unfolding exchange_token
  exchange_token-Keeps r =
      Keeps-bind table _ _
        (table-Keeps (identify t (token_deps e m) "rl:token:" r) (identify-Keeps _ r))
        λ who.
          Keeps-bind table _ _
            (table-Keeps (attested t (token_deps e m) who.0) (attested-Keeps who.0))
            λ subject. Keeps-bind table _ _ (Keeps-attempt table _ _ λ w. refl) λ install.
              Keeps-bind table _ _ (λ w. refl)
                λ now. Keeps-bind table _ _ (Keeps-or_stop table _ _) λ minted w. refl

  pub serve_token_keeps :
      (r : Request) (w : World e) → table (serve_token t (token_deps e m) r w).1 ≡ table w
  unfolding serve_token
  serve_token_keeps r w =
      Keeps-bind table (exchange_token t (token_deps e m) r) _ (exchange_token-Keeps r)
        (λ g. Keeps-bind table _ _ (Keeps-or_stop table _ _) λ out w. refl) w

  pub steady-serve_challenge :
      (r : Request) (w : World e) → steady (serve_challenge t (token_deps e m) r w).1 ≡ steady w
  unfolding serve_challenge
  steady-serve_challenge r w =
      Keeps-bind steady (identify t (token_deps e m) "rl:challenge:" r) _ (identify-Keeps _ r)
        (λ who. Keeps-bind steady _ _ (Keeps-attempt steady _ _ λ w. refl) λ nonce w. refl) w

  pub serve_challenge_keeps :
      (r : Request) (w : World e) → table (serve_challenge t (token_deps e m) r w).1 ≡ table w
  serve_challenge_keeps r w = ap (λ x. x.kept) (steady-serve_challenge r w)

  -- What the service goes through: requests of all three endpoints, the time that passes, what the
  -- random source gives next, and changes of the tables that an operator makes.
  pub data Served : World e → World e → Type 1 where
    start : {w : World e} → Served w w
    batch :
        {w u : World e} → Served w u → (r : Request) → Served w (serve k (batch_deps e cfg) r u).1
    token :
        {w u : World e}
        → Served w u
        → (r : Request) → Served w (serve_token t (token_deps e m) r u).1
    challenge :
        {w u : World e}
        → Served w u
        → (r : Request) → Served w (serve_challenge t (token_deps e m) r u).1
    tick : {w u : World e} → Served w u → (now : Time) → Served w (record u { clock = now })
    draws :
        {w u : World e} → Served w u → (hex : Option String) → Served w (record u { entropy = hex })
    operator :
        {w u : World e}
        → Served w u
        → (c : List ClientRow) (ts : List TenantRow) (q : List QuotaRow)
        → Served w (record u { clients = c; tenants = ts; quotas = q })

  Served-Grows :
      {w u : World e} → Served w u → Grows (find w.session_offsets) (find u.session_offsets)
  Served-Grows start = λ j o p. p
  Served-Grows (batch {w} {u} s r) = λ j o p.
      serve-Grows k (batch_deps e cfg) (batch_deps-HoldsOffsets e cfg) r u j o
        (Served-Grows s j o p)
  Served-Grows (token {w} {u} s r) =
      subst (λ rows. Grows (find w.session_offsets) (find rows.0)) (sym (serve_token_keeps r u))
        (Served-Grows s)
  Served-Grows (challenge {w} {u} s r) =
      subst (λ rows. Grows (find w.session_offsets) (find rows.0)) (sym (serve_challenge_keeps r u))
        (Served-Grows s)
  Served-Grows (tick s now) = Served-Grows s
  Served-Grows (draws s hex) = Served-Grows s
  Served-Grows (operator s c ts q) = Served-Grows s

  -- An event that two batch requests of one tenant deliver is dated by one offset in both, whatever
  -- requests come between them, however they end and also if the second request claims another
  -- clock: the two rows have the same sort key when the time that the event claims is plausible at
  -- both receipts.
  pub delivered_twice :
      (r r' : Request) (w w' : World e) (p p' : Plan k (batch_deps e cfg))
      → (prepare k (batch_deps e cfg) r w).0 ≡ ok p
      → Served (serve k (batch_deps e cfg) r w).1 w'
      → (prepare k (batch_deps e cfg) r' w').0 ≡ ok p'
      → (p.claims).tenant_id ≡ (p'.claims).tenant_id
      → (ev : Event) (x x' : Row) → IsRowOf ev x (validate_all k p.request.events).0 p.rows
      → IsRowOf ev x' (validate_all k p'.request.events).0 p'.rows
      → AreCopies ev p.received_at p'.received_at x x'
  delivered_twice r r' w w' p p' h s h' same ev x x' m m' =
      redelivered k (batch_deps e cfg) (batch_deps-HoldsOffsets e cfg) r r' w w' p p' h h'
        (λ j o q. Served-Grows s j o (after_prepare j o q)) same ev x x' m m'
    where
      after_prepare :
          Grows
            (find ((prepare k (batch_deps e cfg) r w).1).session_offsets)
            (find ((serve k (batch_deps e cfg) r w).1).session_offsets)
      after_prepare = prepared-Grows k (batch_deps e cfg) (batch_deps-HoldsOffsets e cfg) r w
