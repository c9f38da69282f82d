-- ===== src/Service/Wiring/Devices.antt =====
-- The install of a device over any sequence of requests.
use mathlib.Core.Path.{subst, ap₂}
use mathlib.Core.Option.{some-injective}
use event_tracking.Prelude.{String, ◌≡◌, refl, sym, ap, ◌∙◌, Option, none, some, Result, ok, err}
use event_tracking.Tenant.Verify.{Config}
use event_tracking.Tenant.Mint.{Minter}
use event_tracking.ControlPlane.Installs.{Anchor, anchor, find, subject_or_null}
use event_tracking.ControlPlane.Installs.Stable.{Settles-held, Settles-some, issue_install-Settles}
use event_tracking.Handler.Action.{Action, Response, or_stop, continue, ◌>>=◌, Keeps}
use event_tracking.Handler.Triples.{
  Holds, Leads, Leads-bind, Leads-attempt, Leads-any, Leads-or_stop, Preserves, Preserves-bind,
  Preserves-Keeps, Preserves-attempt,
}
use event_tracking.Handler.Batch.{Request, Codecs}
use event_tracking.Handler.Batch.Contract.{serve_keeps}
use event_tracking.Handler.Token.{
  TokenCodecs, Grant, identify, attested, exchange_token, answer_token, serve_token, token_claims,
  tier_for, subject_or_empty, device_key,
}
use event_tracking.Service.Wiring.{Parts, World, batch_deps, token_deps, failing}
use event_tracking.Service.Wiring.Contracts.{batch_deps-Spares}
use event_tracking.Service.Wiring.Exchange.{exchanged}
use event_tracking.Service.Wiring.Requests.{
  Served, start, batch, token, challenge, tick, draws, operator, steady, identify-Keeps,
  attested-Keeps, steady-serve_challenge,
}

module _ (k : Codecs) (t : TokenCodecs) (e : Parts) (cfg : Config) (m : Minter e.jose) where
  -- The install stands under the anchor in the table.
  abbrev pub Under : Anchor → String → World e → Type 0
  Under a id w = find w.installs a ≡ some id

  -- where the wired service keeps the install of an exchange
  abbrev anchor_for : String → Option String → String → Anchor
  anchor_for tenant_id subject device =
      anchor tenant_id (subject_or_null (subject_or_empty subject)) device

  kept-Under :
      {A : Type 0} (a : Anchor) (id : String) (n : Action (World e) A)
      → Keeps (steady k t e cfg m) n
      → Preserves (Under a id) n
  kept-Under a id n h = Preserves-Keeps (steady k t e cfg m) (λ s. find s.installs a ≡ some id) n h

  stopped :
      {A : Type 0} (a : Anchor) (id : String) (o : Option A) (r : Response)
      → Preserves (Under a id) (or_stop o r)
  stopped a id none r w h = h
  stopped a id (some x) r w h = h

  answer_token-Under :
      (a : Anchor) (id : String) (g : Grant t (token_deps e m))
      → Preserves (Under a id) (answer_token t (token_deps e m) g)
  answer_token-Under a id g = Preserves-bind (Under a id) _ _ (stopped a id _ _) λ out w h. h

  exchange_token-Under :
      (a : Anchor) (id : String) (r : Request)
      → Preserves (Under a id) (exchange_token t (token_deps e m) r)
  unfolding exchange_token
  exchange_token-Under a id r =
      Preserves-bind (Under a id) (identify t (token_deps e m) "rl:token:" r) _
        (kept-Under a id (identify t (token_deps e m) "rl:token:" r)
          (identify-Keeps k t e cfg m _ r))
        λ who.
          Preserves-bind (Under a id) (attested t (token_deps e m) who.0) _
            (kept-Under a id (attested t (token_deps e m) who.0) (attested-Keeps k t e cfg m who.0))
            λ subject.
              Preserves-bind (Under a id) _ _
                (Preserves-attempt (Under a id) _ _ (λ w h.
                  Settles-held _ a _ id w.installs _
                    (issue_install-Settles who.1 (who.0).platform (subject_or_empty subject)
                      (device_key t.digest who.0) (tier_for subject)
                      (record { installs = w.installs; entropy = w.entropy; fails = failing e w }))
                    h))
                λ install.
                  Preserves-bind (Under a id) _ _ (λ w h. h)
                    λ now. Preserves-bind (Under a id) _ _ (stopped a id _ _) λ x w h. h

  -- The install of a grant stands in the table under the anchor of the grant.
  abbrev IsKept : Grant t (token_deps e m) → World e → Type 0
  IsKept g w = Under (anchor_for g.of_tenant g.subject (device_key t.digest g.exchange)) g.install w

  exchange_token-IsKept :
      (r : Request) → Leads (λ w. Unit {0}) (exchange_token t (token_deps e m) r) IsKept
  unfolding exchange_token
  exchange_token-IsKept r =
      Leads-bind _ _ _ (λ _ _. Unit {0}) _ (Leads-any _ (identify t (token_deps e m) "rl:token:" r))
        λ who.
          Leads-bind _ _ _ (λ _ _. Unit {0}) _ (Leads-any _ (attested t (token_deps e m) who.0))
            λ subject.
              Leads-bind _ _ _
                (λ id w. Under (anchor_for who.1 subject (device_key t.digest who.0)) id w) _
                (Leads-attempt _ _ _ _ λ id w h p.
                  (Settles-some _ _ id w.installs _
                    (issue_install-Settles who.1 (who.0).platform (subject_or_empty subject)
                      (device_key t.digest who.0) (tier_for subject)
                      (record { installs = w.installs; entropy = w.entropy; fails = failing e w }))
                    h).0)
                λ install.
                  Leads-bind _ _ _
                    (λ now w.
                      Under (anchor_for who.1 subject (device_key t.digest who.0)) install w)
                    _ (λ w p. p)
                    λ now.
                      Leads-bind _ _ _
                        (λ x w.
                          Under (anchor_for who.1 subject (device_key t.digest who.0)) install w)
                        _ (Leads-or_stop _ _ _ _ λ x w h p. p) λ x w p. p

  serve_token-Under :
      (a : Anchor) (id : String) (r : Request) (w : World e)
      → Under a id w
      → Under a id (serve_token t (token_deps e m) r w).1
  unfolding serve_token
  serve_token-Under a id r w h =
      Preserves-bind (Under a id) (exchange_token t (token_deps e m) r)
        (answer_token t (token_deps e m)) (exchange_token-Under a id r) (answer_token-Under a id) w
        h

  served_token :
      (r : Request) (w : World e) (g : Grant t (token_deps e m)) (a : Anchor) (id : String)
      → Under a id (exchange_token t (token_deps e m) r w).1
      → Under a id (serve_token t (token_deps e m) r w).1
  unfolding serve_token ◌>>=◌
  served_token r w g a id h = go (exchange_token t (token_deps e m) r w).0
    where
      go :
          (x : Result Response (Grant t (token_deps e m)))
          → Under a id
              (continue x
                (answer_token t (token_deps e m))
                (exchange_token t (token_deps e m) r w).1).1
      go (err res) = h
      go (ok b) = answer_token-Under a id b (exchange_token t (token_deps e m) r w).1 h

  -- No request takes an install from its anchor.
  Served-Under :
      (a : Anchor) (id : String) {w u : World e}
      → Served k t e cfg m w u
      → Under a id w
      → Under a id u
  Served-Under a id start h = h
  Served-Under a id (batch {w} {u} q r) h =
      serve_keeps k (batch_deps e cfg) (λ v. v.installs)
        (batch_deps-Spares e cfg (λ v. v.installs) (λ v c n. refl) (λ v s o n. refl) (λ v x. refl))
        (λ rows. find rows a ≡ some id) (λ rows v p. p) r u (Served-Under a id q h)
  Served-Under a id (token {w} {u} q r) h = serve_token-Under a id r u (Served-Under a id q h)
  Served-Under a id (challenge {w} {u} q r) h =
      subst (λ s. find s.installs a ≡ some id) (sym (steady-serve_challenge k t e cfg m r u))
        (Served-Under a id q h)
  Served-Under a id (tick q now) h = Served-Under a id q h
  Served-Under a id (draws q hex) h = Served-Under a id q h
  Served-Under a id (operator q c ts qs) h = Served-Under a id q h

  granted-Under :
      (r : Request) (w : World e) (g : Grant t (token_deps e m))
      → (exchange_token t (token_deps e m) r w).0 ≡ ok g
      → Under
          (anchor g.of_tenant none (device_key t.digest g.exchange))
          g.install
          (exchange_token t (token_deps e m) r w).1
  granted-Under r w g h =
      let after = (exchange_token t (token_deps e m) r w).1 in
      let kept : IsKept g after =
        subst (λ x. Holds IsKept x after) h (exchange_token-IsKept r w tt) in
      subst (λ s. Under (anchor_for g.of_tenant s (device_key t.digest g.exchange)) g.install after)
        (exchanged t e m r w g h).1 kept

  -- Two exchanges of one device, whatever requests come between them and however they end, get
  -- tokens with the same claims, and so the same install and the same rate limit: a device is one
  -- client id, platform and hint, for a client id of one tenant.
  pub exchanged_twice :
      (r r' : Request) (w w' : World e) (g g' : Grant t (token_deps e m))
      → (exchange_token t (token_deps e m) r w).0 ≡ ok g
      → Served k t e cfg m (serve_token t (token_deps e m) r w).1 w'
      → (exchange_token t (token_deps e m) r' w').0 ≡ ok g'
      → g'.of_tenant ≡ g.of_tenant
      → device_key t.digest g'.exchange ≡ device_key t.digest g.exchange
      → token_claims g'.of_tenant g'.install (tier_for g'.subject)
        ≡ token_claims g.of_tenant g.install (tier_for g.subject)
  exchanged_twice r r' w w' g g' h s h' tenant device =
      let a = anchor g.of_tenant none (device_key t.digest g.exchange) in
      let first = served_token r w g a g.install (granted-Under r w g h) in
      let held = exchange_token-Under a g.install r' w' (Served-Under a g.install s first) in
      let again = granted-Under r' w' g' h' in
      let same : anchor g'.of_tenant none (device_key t.digest g'.exchange) ≡ a =
        ap₂ (λ x y. anchor x none y) tenant device in
      let installs : some g'.install ≡ some g.install =
        sym again ∙ ap (find (exchange_token t (token_deps e m) r' w').1.installs) same ∙ held in
      ap₂ (λ x y. token_claims x y (tier_for g'.subject)) tenant
        (some-injective g'.install g.install installs)
      ∙ ap (λ x. token_claims g.of_tenant g.install (tier_for x))
          ((exchanged t e m r' w' g' h').1 ∙ sym (exchanged t e m r w g h).1)
