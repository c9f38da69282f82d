-- ===== src/Service/Wiring/Exchange.antt =====
-- What an exchange of the wired service has established when it hands out a token.
use event_tracking.Prelude.{
  String, ◌≡◌, refl, sym, ap, ◌∙◌, Bool, true, false, List, Option, none, some, Result, ok, err,
  arith,
}
use mathlib.Core.Path.{subst}
use event_tracking.Time.{Time}
use event_tracking.Contract.{TokenRequest}
use event_tracking.Tenant.Mint.{Minter, mint}
use event_tracking.ControlPlane.Tenants.{ClientRow, LookupError, resolve_tenant}
use event_tracking.ControlPlane.Tenants.Lookups.{Grants, found}
use event_tracking.Handler.Action.{
  Action, Keeps, pure, attempt, gets, or_stop, http_error, ◌>>=◌, Keeps-attempt, Keeps-guard,
  Keeps-or_stop,
}
use event_tracking.Handler.Triples.{
  Holds, Leads, Leads-bind, Leads-Keeps, Leads-attempt, Leads-or_stop,
}
use event_tracking.Handler.Batch.{Request}
use event_tracking.Handler.Token.{
  TokenCodecs, Grant, identify, attested, exchange_token, token_claims, tier_for, subject_if,
}
use event_tracking.Attest.{consume}
use event_tracking.Service.Wiring.{Parts, World, answer, failing, token_deps}

module _ (k : TokenCodecs) (e : Parts) (m : Minter e.jose) where
  abbrev seen : World e → List ClientRow × Time
  seen w = (w.clients, w.clock)

  -- an error of the query is no tenant
  resolved :
      (fails : Bool) (rows : List ClientRow) (client_id tenant_id : String)
      → answer e (resolve_tenant fails rows client_id) ≡ some tenant_id
      → Grants client_id tenant_id rows
  resolved true rows client_id tenant_id h = absurd (ground arith)
  resolved false rows client_id tenant_id h =
      found client_id tenant_id rows (of_answer (resolve_tenant false rows client_id) h)
    where
      of_answer : (x : Result LookupError String) → answer e x ≡ some tenant_id → x ≡ ok tenant_id
      of_answer (ok t) g = ground arith
      of_answer (err x) g = absurd (ground arith)

  module _ (clients : List ClientRow) (now : Time) where
    abbrev At : List ClientRow × Time → Type 0
    At v = (v.0 ≡ clients) × (v.1 ≡ now)

    abbrev Known : TokenRequest → String → List ClientRow × Time → Type 0
    Known req tenant_id v = Grants req.client_id tenant_id clients × At v

    step :
        {A B : Type 0} (P : List ClientRow × Time → Type 0) (n : Action (World e) A)
        (f : A → Action (World e) B) (Q : B → World e → Type 0)
        → Keeps seen n
        → ((a : A) → Leads (λ w. P (seen w)) (f a) Q)
        → Leads (λ w. P (seen w)) (n >>= f) Q
    step P n f Q keep rest =
        Leads-bind (λ w. P (seen w)) n f (λ _ w. P (seen w)) Q (Leads-Keeps seen P n keep) rest

    tenant-Leads :
        (req : TokenRequest)
        → Leads
            (λ w. At (seen w))
            (attempt
              ((token_deps e m).resolve_tenant req.client_id)
              (http_error 401 "unknown client_id"))
            (λ t w. Known req t (seen w))
    tenant-Leads req =
        Leads-attempt (λ w. At (seen w)) ((token_deps e m).resolve_tenant req.client_id)
          (http_error 401 "unknown client_id") (λ t w. Known req t (seen w))
          λ t w h p. (
            subst (λ c. Grants req.client_id t c) p.0
                (resolved (failing e w) w.clients req.client_id t h),
            p,
          )

    identify-Leads :
        (scope : String) (r : Request)
        → Leads
            (λ w. At (seen w))
            (identify k (token_deps e m) scope r)
            (λ x w. Known x.0 x.1 (seen w))
    unfolding identify
    identify-Leads scope r = step At _ _ _ (Keeps-or_stop seen _ _) λ body.
        step At _ _ _ (Keeps-or_stop seen _ _) λ req.
          Leads-bind _ _ _ (λ t w. Known req t (seen w)) _ (tenant-Leads req)
            λ t.
              step (Known req t) _ _ _ (Keeps-attempt seen _ _ λ w. refl)
                λ within. step (Known req t) _ _ _ (Keeps-guard seen _ _) λ _ w p. p

    attested-Leads :
        (req : TokenRequest) (tenant_id : String)
        → Leads
            (λ w. Known req tenant_id (seen w))
            (attested k (token_deps e m) req)
            (λ s w. Known req tenant_id (seen w) × (s ≡ none))
    unfolding attested
    attested-Leads req tenant_id w p =
        go (consume e.cells req.client_id req.platform req.challenge w.challenges).0
      where
        go :
            (live : Bool)
            → Holds
                (λ s w. Known req tenant_id (seen w) × (s ≡ none))
                (subject_if k
                  (token_deps e m)
                  live
                  (
                    none,
                    record w {
                      challenges =
                          (consume e.cells req.client_id req.platform req.challenge w.challenges).1;
                    },
                  )
                  (record w {
                    challenges =
                        (consume e.cells req.client_id req.platform req.challenge w.challenges).1;
                  })).0
                (subject_if k
                  (token_deps e m)
                  live
                  (
                    none,
                    record w {
                      challenges =
                          (consume e.cells req.client_id req.platform req.challenge w.challenges).1;
                    },
                  )
                  (record w {
                    challenges =
                        (consume e.cells req.client_id req.platform req.challenge w.challenges).1;
                  })).1
        go true = (p, refl)
        go false = (p, refl)

    -- What an exchange of this service has established: the client is in force for the tenant, and
    -- the token was minted at the time of the request for the lower tier.
    abbrev pub IsTier1Grant : Grant k (token_deps e m) → Type 0
    IsTier1Grant g =
        Grants (g.exchange).client_id g.of_tenant clients
        × (g.subject ≡ none)
        × (mint e.jose m (token_claims g.of_tenant g.install 1) now
            ≡ some (g.access_token, g.expires_in))

    minted-Leads :
        (req : TokenRequest) (tenant_id : String) (subject : Option String) (install : String)
        → Leads
            (λ w. Known req tenant_id (seen w) × (subject ≡ none))
            (gets (token_deps e m).clock >>= λ t.
              or_stop
                (mint e.jose m (token_claims tenant_id install (tier_for subject)) t)
                (http_error 500 "mint failed")
              >>= λ minted. pure (record {
                exchange = req;
                of_tenant = tenant_id;
                subject = subject;
                install = install;
                access_token = minted.0;
                expires_in = minted.1;
              }))
            (λ g w. IsTier1Grant g)
    minted-Leads req tenant_id subject install =
        Leads-bind _ _ _ (λ t w. (Known req tenant_id (seen w) × (subject ≡ none)) × (t ≡ now)) _
          (λ w p. (p, (p.0).1.1))
          λ t.
            Leads-bind _ _ _
              (λ x w.
                Grants req.client_id tenant_id clients
                × (subject ≡ none)
                × (mint e.jose m (token_claims tenant_id install 1) now ≡ some x))
              _
              (Leads-or_stop _ (mint e.jose m (token_claims tenant_id install (tier_for subject)) t)
                _ _
                λ x w h p. (
                  p.0.0.0,
                  p.0.1,
                  ap (λ s. mint e.jose m (token_claims tenant_id install 1) s) (sym p.1)
                      ∙ ap (λ s. mint e.jose m (token_claims tenant_id install (tier_for s)) t)
                          (sym p.0.1)
                      ∙ h,
                ))
              λ minted w p. p

    exchange_token-Leads :
        (r : Request)
        → Leads (λ w. At (seen w)) (exchange_token k (token_deps e m) r) (λ g w. IsTier1Grant g)
    unfolding exchange_token
    exchange_token-Leads r =
        Leads-bind _ _ _ (λ x w. Known x.0 x.1 (seen w)) _ (identify-Leads _ r)
          λ who.
            Leads-bind _ _ _ (λ s w. Known who.0 who.1 (seen w) × (s ≡ none)) _
              (attested-Leads who.0 who.1)
              λ subject.
                step (λ v. Known who.0 who.1 v × (subject ≡ none)) _ _ _
                  (Keeps-attempt seen _ _ λ w. refl)
                  λ install. minted-Leads who.0 who.1 subject install

  pub exchanged :
      (r : Request) (w : World e) (g : Grant k (token_deps e m))
      → (exchange_token k (token_deps e m) r w).0 ≡ ok g
      → IsTier1Grant w.clients w.clock g
  exchanged r w g h =
      subst
        (λ a.
          Holds (λ g u. IsTier1Grant w.clients w.clock g) a
            (exchange_token k (token_deps e m) r w).1)
        h (exchange_token-Leads w.clients w.clock r w (refl, refl))
