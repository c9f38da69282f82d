-- ===== src/Handler/Batch/Acks.antt =====
-- What the server has stored when it answers a batch.
use event_tracking.Prelude.{
  String, ◌≡◌, ◌⊎◌, refl, arith, false, List, ◌++◌, none, some, Result, ok, err, map, Bool-cases,
  Option-cases, inl, inr, [], ◌∷◌, ap,
}
use event_tracking.Handler.Action.{Response, success, http_error, continue, ◌>>=◌}
use event_tracking.Handler.Outcomes.{Ends, IsRefusal}
use event_tracking.Handler.Batch.{
  Request, Deps, Codecs, Plan, prepare, response_of, finish, sent, serve,
}
use event_tracking.Handler.Refusals.{Stops}
use event_tracking.Handler.Batch.Refused.{Refused, prepare-Refused}
use event_tracking.Handler.Batch.Contract.{IsDeps, prepare-Keeps}
use event_tracking.Handler.Batch.Plans.{IsPlan, IsEnriched, prepare-IsPlan}
use event_tracking.Handler.Batch.Partition.{ids-Divides, validate_all-Divides}
use mathlib.Core.List.{Permᴰ}
use event_tracking.Tenant.{Claims}
use event_tracking.Time.{Time}
use event_tracking.Contract.{Event}
use event_tracking.ClickHouse.{Row}

module _ (k : Codecs) {W : Type 0} (d : Deps W) (l : IsDeps d) where
  -- Everything of the plan is stored, after what was stored before the request `w`.
  abbrev pub IsStored : W → Plan k d → W → Type 0
  IsStored w p w' = l.stored w' ≡ l.stored w ++ map (λ x. x.0) p.rows

  -- A failed insert, after which storage is as the insert left it, or the whole batch stored, and then the acknowledgement or the 500 of the encoder.
  abbrev Finishes : W → Plan k d → Response × W → Type 0
  Finishes w p (res, w') =
      ((res ≡ http_error 503 "storage unavailable")
        × ((u : W) × (l.stored u ≡ l.stored w)
            × (d.insert (map (λ x. x.0) p.rows) u ≡ (false, w'))))
      ⊎ (IsStored w p w'
          × ((res ≡ http_error 500 "encode")
              ⊎ ((text : String) × (k.marshal (response_of k d p) ≡ some text)
                  × (res ≡ record { status = 200; retry_after = none; payload = success text }))))

  abbrev pub Answers : W → Request → Response × W → Type 0
  Answers w r (res, w') =
      (IsRefusal res × Refused k d r w res × (l.stored w' ≡ l.stored w))
      ⊎ ((p : Plan k d) × IsPlan k d r w p × Finishes w p (res, w'))

  finish-Finishes :
      (p : Plan k d) (w0 w : W)
      → l.stored w ≡ l.stored w0
      → Finishes w0 p (sent k d (finish k d p w).0, (finish k d p w).1)
  unfolding finish ◌>>=◌
  finish-Finishes p w0 w e = elim (Bool-cases (d.insert (map (λ x. x.0) p.rows) w).0) [
    | inl t ↦ elim (Option-cases (k.marshal (response_of k d p))) [
      | inl n ↦ inr (ground (arith, l.inserted (map (λ x. x.0) p.rows) w t), inl (ground arith))
      | inr (text, m) ↦
          inr (ground (arith, l.inserted (map (λ x. x.0) p.rows) w t), inr (text, m, ground arith))
    ]
    | inr f ↦ inl (ground arith, (w, e, ground arith))
  ]

  -- The handler ends in one of four ways: it refuses the request, for one of nine causes, with the
  -- response to that cause and storage as it was; or the batch has passed `prepare`, and the insert
  -- fails, with 503 and whatever it left in storage; or all rows are stored,
  -- after what was stored before, and the response is 500 for want of a text, or 200 with the text.
  pub serve_cases : (r : Request) (w : W) → Answers w r (serve k d r w)
  unfolding serve ◌>>=◌
  serve_cases r w =
      go (prepare k d r w).0 (prepare-IsPlan k d r w) (prepare-Refused k d r w)
        (prepare-Keeps k d l.stored l.spares r w)
    where
      go :
          (x : Result Response (Plan k d))
          → Ends (IsPlan k d r w) x
          → Stops (Refused k d r w) x
          → l.stored (prepare k d r w).1 ≡ l.stored w
          → Answers w r (
            sent k d (continue x (finish k d) (prepare k d r w).1).0,
            (continue x (finish k d) (prepare k d r w).1).1,
          )
      go (ok p) h c e = inr (p, h, finish-Finishes p w (prepare k d r w).1 e)
      go (err res) h c e = inl (h, c, e)

  -- A batch was stored as planned, and the response to it is the text of the plan's response.
  abbrev pub Acknowledges : W → Request → Response × W → Type 0
  Acknowledges w r (res, w') =
      (p : Plan k d) × IsPlan k d r w p
      × IsStored w p w'
      × (text : String) × (k.marshal (response_of k d p) ≡ some text)
      × (res.payload ≡ success text)

  -- With status 200 the batch has passed `prepare`, every row of it is stored, after what was stored
  -- before the request, and the response is the text of its ids and rejects.
  pub serve-acknowledged :
      (r : Request) (w : W) → (serve k d r w).0.status ≡ 200 → Acknowledges w r (serve k d r w)
  serve-acknowledged r w h = elim (serve_cases r w) [
    | inl (x, c, e) ↦ absurd (ground (arith, x))
    | inr (p, ip, inl e) ↦ absurd (ground arith)
    | inr (p, ip, inr (s, inl e)) ↦ absurd (ground arith)
    | inr (p, ip, inr (s, inr (text, m, e))) ↦ (p, ip, s, text, m, ap (λ x. x.payload) e)
  ]

module _ (k : Codecs) {W : Type 0} (d : Deps W) where
  -- the ids of a plan's rows are those of the valid events
  IsEnriched-ids :
      (c : Claims) (now : Time) (es : List Event) (rows : List (Row × String))
      → IsEnriched k c now es rows
      → map (λ x. x.1) rows ≡ map (λ e. e.event_id) es
  IsEnriched-ids c now [] [] h = refl
  IsEnriched-ids c now [] (x ∷ xs) h = absurd h
  IsEnriched-ids c now (e ∷ es) [] h = absurd h
  IsEnriched-ids c now (e ∷ es) (x ∷ xs) h = ground (arith, h.2, IsEnriched-ids c now es xs h.3)

  -- The ids in the response, accepted and rejected, are those of the request's events.
  pub answered_once :
      (r : Request) (w : W) (p : Plan k d)
      → IsPlan k d r w p
      → Permᴰ
          ((response_of k d p).accepted ++ map (λ x. x.event_id) (response_of k d p).rejected)
          (map (λ e. e.event_id) p.request.events)
  answered_once r w p h =
      let e = IsEnriched-ids p.claims p.received_at _ p.rows h.enriched in
      rw e (ids-Divides (validate_all-Divides k p.request.events))
