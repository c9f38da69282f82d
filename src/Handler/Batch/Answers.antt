-- ===== src/Handler/Batch/Answers.antt =====
-- The batch handler when everything that it depends on answers.
use event_tracking.Prelude.{
  ℕ, ◌≤◌, String, ◌≡◌, refl, sym, ap, ◌∙◌, Bool, true, false, List, [], ◌∷◌, Option, none, some, ok,
  arith, length, if◌then◌else◌,
}
use event_tracking.Prelude.Int.{ℤ}
use event_tracking.Time.{Time}
use event_tracking.Limits.{Quota, max_events_per_batch}
use event_tracking.Contract.{Event, BatchRequest, BatchResponse}
use event_tracking.Tenant.{Claims}
use event_tracking.Quota.{Decision}
use event_tracking.ClickHouse.{Row}
use event_tracking.Enrich.Skew.{candidate_offset}
use event_tracking.Enrich.Offsets.{SessionKey}
use event_tracking.Enrich.Offsets.Memory.{Offsets, find}
use mathlib.Core.Path.{subst}
use event_tracking.Handler.Action.{Action, http_error, attempt, pure}
use event_tracking.Handler.Returns.{
  Returns, Moves-bind, Moves-known, known-or_stop, known-guard, Moves-attempt,
}
use event_tracking.Handler.Batch.{
  Request, Deps, Codecs, Plan, body_of, effective_quota, charge_units, session_of, validate_all,
  offset_of, remember, note_skew, enrich_all, prepare, response_of, finish, sent, serve,
}

module _ (k : Codecs) {W : Type 0} (d : Deps W) (P S : W → Type 0) where
  -- What a request that starts at `now` meets: in the worlds with `P`, up to the decision of the
  -- quota, its credential is good, the limits `lim` are found, and the quota has room for its valid
  -- events; in the worlds with `S`, after the decision, the stores of the offsets and of the events
  -- work. The quota need not have room again.
  pub record IsUp (r : Request) (req : BatchRequest) (c : Claims) (legacy : Bool) (lim : Quota)
      (now : Time) : Type 0 where
    pub verified :
        (w : W)
        → P w
        → ((d.verify_or_legacy r.authorization now w).0 ≡ (ok c, legacy))
          × P (d.verify_or_legacy r.authorization now w).1
    pub noted : (version : String) (w : W) → P w → P (d.on_legacy_use c.tenant_id version w)
    pub limited :
        (w : W)
        → P w
        → ((d.limits_for c.tenant_id c.trust_tier w).0 ≡ some lim)
          × P (d.limits_for c.tenant_id c.trust_tier w).1
    pub admitted :
        (w : W)
        → P w
        → ((dec : Decision) × ((d.allow c
                (effective_quota legacy lim)
                (charge_units (length (validate_all k req.events).0))
                now
                w).0
              ≡ some dec)
            × (dec.allowed ≡ true))
          × S
              (d.allow c
                (effective_quota legacy lim)
                (charge_units (length (validate_all k req.events).0))
                now
                w).1
    pub pinned :
        (key : SessionKey) (candidate : ℤ) (w : W)
        → S w
        → ((o : ℤ) × ((d.get_or_set key candidate w).0 ≡ some o) × Unit {0})
          × S (d.get_or_set key candidate w).1
    pub skewed : (device_id : String) (w : W) → S w → S (d.on_clock_skew c.tenant_id device_id w)
    pub stored :
        (rows : List Row) (w : W) → S w → ((d.insert rows w).0 ≡ true) × S (d.insert rows w).1

  module _ (r : Request) (req : BatchRequest) (c : Claims) (legacy : Bool) (lim : Quota)
      (now : Time) (up : IsUp r req c legacy lim now) where
    offset_of-Returns :
        (key : SessionKey) (candidate : ℤ) (m : Offsets)
        → Returns S (offset_of k d key candidate m) (λ _. Unit {0})
    unfolding offset_of
    offset_of-Returns key candidate m = go (find m key)
      where
        go :
            (s : Option ℤ)
            → Returns S
                (elim s as (λ _. Action W ℤ) [
                  | none ↦
                      attempt
                        (d.get_or_set key candidate)
                        (http_error 503 "offset store unavailable")
                  | some o ↦ pure o
                ])
                (λ _. Unit {0})
        go none =
            Moves-attempt S S (d.get_or_set key candidate)
              (http_error 503 "offset store unavailable") (λ _. Unit {0}) (up.pinned key candidate)
        go (some o) = λ w p. ((o, refl, tt), p)

    note_skew_up : (clamped : Bool) (e : Event) (w : W) → S w → S (note_skew k d clamped c e w)
    note_skew_up true e w p = up.skewed e.device_id w p
    note_skew_up false e w p = p

    note_legacy_up :
        (version : String) (b : Bool) (w : W)
        → P w
        → P (if b then d.on_legacy_use c.tenant_id version w else w)
    note_legacy_up version true w p = up.noted version w p
    note_legacy_up version false w p = p

    enrich_all-Returns :
        (sent_at : ℤ) (now : Time) (m : Offsets) (es : List Event)
        → Returns S (enrich_all k d c sent_at now m es) (λ _. Unit {0})
    unfolding enrich_all
    enrich_all-Returns sent_at now m [] = λ w p. (([], refl, tt), p)
    enrich_all-Returns sent_at now m (e ∷ es) =
        Moves-bind S S S _ _ (λ _. Unit {0}) _
          (offset_of-Returns (session_of c e) (candidate_offset sent_at now) m)
          λ offset _.
            Moves-bind S S S _ _ (λ _. Unit {0}) _ (λ w p. ((tt, refl, tt), note_skew_up _ e w p))
              λ _ _.
                Moves-bind S S S _ _ (λ _. Unit {0}) _
                  (enrich_all-Returns sent_at now (remember k d (session_of c e) offset m) es)
                  λ rows _ w p. ((_, refl, tt), p)

    prepare-Returns :
        (b : List ℕ)
        → body_of k r ≡ ok b
        → k.unmarshal b ≡ some req
        → length req.events ≤ max_events_per_batch
        → (w : W) → P w
        → d.now w ≡ now
        → ((p : Plan k d) × ((prepare k d r w).0 ≡ ok p) × Unit {0}) × S (prepare k d r w).1
    unfolding prepare
    prepare-Returns b read decoded few w p at =
        Moves-known Starts P S _ _ now (λ _. Unit {0}) (λ u q. (ap (λ t. ok t) q.1, q.0))
          (Moves-known P P S _ _ (ok c, legacy) _
            (λ w p. (ap (λ x. ok x) (up.verified w p).0, (up.verified w p).1))
            (Moves-known P P S _ _ (c, legacy) _ (λ w p. (refl, p))
              (Moves-known P P S _ _ b _ (λ w p. (read, p))
                (Moves-known P P S _ _ req _ (known-or_stop P (k.unmarshal b) _ req decoded) (
                  Moves-known P P S _ _ tt _ (known-guard P _ _ (ground arith)) (
                    Moves-known P P S _ _ tt _ (λ w p. (refl, note_legacy_up _ legacy w p))
                      (Moves-known P P S _ _ lim _ limits (
                        Moves-bind P S S _ _ (λ dec. dec.allowed ≡ true) _
                          (Moves-attempt P S _ _ (λ dec. dec.allowed ≡ true) up.admitted)
                          λ dec allowed. Moves-known S S S _ _ tt _ (known-guard S _ _ allowed) (
                            Moves-bind S S S _ _ (λ _. Unit {0}) _
                              (enrich_all-Returns req.sent_at now [] (validate_all k req.events).0)
                              λ rows _ w p. ((_, refl, tt), p))))))))))
          w (p, at)
      where
        Starts : W → Type 0
        Starts u = P u × (d.now u ≡ now)

        limits :
            (u : W)
            → P u
            → ((attempt
                  (d.limits_for c.tenant_id c.trust_tier)
                  (http_error 503 "limits unavailable")
                  u).0
                ≡ ok lim)
              × P
                  (attempt
                    (d.limits_for c.tenant_id c.trust_tier)
                    (http_error 503 "limits unavailable")
                    u).1
        limits u q =
            known-or_stop (λ v. P v) (d.limits_for c.tenant_id c.trust_tier u).0 _ lim
              (up.limited u q).0 (d.limits_for c.tenant_id c.trust_tier u).1 (up.limited u q).1

    finish-Returns :
        (plan : Plan k d)
        → ((x : BatchResponse) → (text : String) × (k.marshal x ≡ some text))
        → Returns S (finish k d plan) (λ res. res.status ≡ 200)
    unfolding finish
    finish-Returns plan printed =
        Moves-known S S S _ _ true _
          (λ w p. (ap (λ x. ok x) (up.stored _ w p).0, (up.stored _ w p).1))
          (Moves-known S S S _ _ tt _ (λ w p. (refl, p))
            (Moves-known S S S _ _ (printed (response_of k d plan)).0 _
              (known-or_stop S (k.marshal (response_of k d plan)) _ _
                (printed (response_of k d plan)).1)
              λ w p. ((_, refl, refl), p)))

    -- A request whose body can be read and decoded, with at most 500 events, is answered with status
    -- 200 when, from its start on, its credential is good, its limits are found, the quota has room
    -- for its valid events, the stores work after that, and the response can be printed.
    pub serve_answers :
        (b : List ℕ) (w : W)
        → P w
        → d.now w ≡ now
        → body_of k r ≡ ok b
        → k.unmarshal b ≡ some req
        → length req.events ≤ max_events_per_batch
        → ((x : BatchResponse) → (text : String) × (k.marshal x ≡ some text))
        → (serve k d r w).0.status ≡ 200
    unfolding serve
    serve_answers b w p at read decoded few printed =
        let whole =
          Moves-bind (λ u. u ≡ w) S S (prepare k d r) (finish k d) (λ _. Unit {0})
            (λ res. res.status ≡ 200)
            (λ u e.
              subst
                (λ v.
                  ((q : Plan k d) × ((prepare k d r v).0 ≡ ok q) × Unit {0})
                  × S (prepare k d r v).1)
                (sym e) (prepare-Returns b read decoded few w p at))
            (λ plan _. finish-Returns plan printed) in
        let ((res, e, good), _) = whole w refl in ap (λ x. (sent k d x).status) e ∙ good
