-- ===== src/Handler/Batch/Plans.antt =====
-- What a batch has passed when its rows are about to be stored.
use event_tracking.Prelude.{
  ℕ, String, Bool, true, ◌≤◌, ◌≡◌, refl, arith, List, [], ◌∷◌, some, Result, ok, err, length,
  if◌then◌else◌,
}
use event_tracking.Prelude.Int.{ℤ}
use event_tracking.Time.{Time}
use event_tracking.Limits.{Quota, max_events_per_batch}
use event_tracking.Contract.{Event, BatchRequest}
use event_tracking.Tenant.{Claims}
use event_tracking.Quota.{Decision}
use event_tracking.ClickHouse.{Row}
use event_tracking.Enrich.Row.{row}
use event_tracking.Enrich.Offsets.{SessionKey}
use event_tracking.Enrich.Offsets.Memory.{Offsets, find}
use event_tracking.Handler.Action.{Response, pure, attempt}
use event_tracking.Handler.Outcomes.{
  Ends, Meets, IsRefusal, Meets-bind, Meets-attempt, Meets-mono, Meets-elim, Ends-From, From,
  From-run, From-bind, From-or_stop, From-attempt, From-guard, From-lift, From-Meets,
}
use event_tracking.Handler.Body.{BodyError, too_large, unreadable, read_body}
use event_tracking.Handler.Batch.{
  Request, Deps, Codecs, Plan, identity, first_sdk_version, charge_units, effective_quota, too_many,
  session_of, validate_all, reply_to_body, body_of, offset_of, remember, enrich_all, prepare,
}

module _ (k : Codecs) where
  -- Row by row and in order: the row of the event under some offset of its session, and its id.
  abbrev pub IsEnriched : Claims → Time → List Event → List (Row × String) → Type 0
  IsEnriched c now [] [] = Unit
  IsEnriched c now [] (x ∷ xs) = ⊥
  IsEnriched c now (e ∷ es) [] = ⊥
  IsEnriched c now (e ∷ es) (x ∷ xs) =
      (o : ℤ) × (x.0 ≡ (row k.marshal_props e c o now).0)
      × (x.1 ≡ e.event_id)
      × IsEnriched c now es xs

  module _ {W : Type 0} (d : Deps W) where
    -- the world after the credential was verified and the use of a write key was noted
    abbrev pub noted : Request → Bool → Claims → BatchRequest → W → W
    noted r legacy claims req w =
        let u = (d.verify_or_legacy r.authorization (d.now w) w).1 in
        if legacy then d.on_legacy_use claims.tenant_id (first_sdk_version req.events) u else u

    -- The request that starts in the world `w` has come to the insert: its credential was verified at
    -- the time of its start, the body was read within its cap and decoded, it has at most 500 events,
    -- the limits of the tenant were found after that, the quota let the valid events through under
    -- them, and the rows are those of the valid events.
    pub record IsPlan (r : Request) (w : W) (p : Plan k d) : Type 0 where
      pub legacy : Bool
      pub started : p.received_at ≡ d.now w
      pub verified :
          identity (d.verify_or_legacy r.authorization (d.now w) w).0 ≡ some (p.claims, legacy)
      pub decoded : (b : List ℕ) × (body_of k r ≡ ok b) × (k.unmarshal b ≡ some p.request)
      pub few : length p.request.events ≤ max_events_per_batch
      pub charged :
          (lim : Quota) × (dec : Decision) × ((d.limits_for p.claims.tenant_id p.claims.trust_tier
              (noted r legacy p.claims p.request w)).0
            ≡ some lim)
          × ((d.allow p.claims
                (effective_quota legacy lim)
                (charge_units (length (validate_all k p.request.events).0))
                p.received_at
                (d.limits_for p.claims.tenant_id p.claims.trust_tier
                  (noted r legacy p.claims p.request w)).1).0
              ≡ some dec)
          × (dec.allowed ≡ true)
      pub enriched : IsEnriched p.claims p.received_at (validate_all k p.request.events).0 p.rows

    offset_of_meets :
        (key : SessionKey) (c : ℤ) (m : Offsets) → Meets (offset_of k d key c m) (λ _. Unit {0})
    unfolding offset_of
    offset_of_meets key c m =
        Meets-elim (find m key) _ pure _
          (Meets-mono (attempt (d.get_or_set key c) _) _ _ (λ _ _. tt)
            (Meets-attempt _ _ (omega arith, refl)))
          λ _ _. tt

    enrich_all-IsEnriched :
        (c : Claims) (sent_at : ℤ) (now : Time) (m : Offsets) (es : List Event)
        → Meets (enrich_all k d c sent_at now m es) (IsEnriched c now es)
    unfolding enrich_all
    enrich_all-IsEnriched c sent_at now m [] = λ w. tt
    enrich_all-IsEnriched c sent_at now m (e ∷ es) =
        Meets-bind _ _ (λ o. Unit {0}) _ (offset_of_meets (session_of c e) _ m)
          λ offset _.
            Meets-bind _ _ (λ _. Unit {0}) _ (λ w. tt)
              λ _ _.
                Meets-bind _ _ (IsEnriched c now es) _
                  (enrich_all-IsEnriched c sent_at now (remember k d (session_of c e) offset m) es)
                  λ rest h w. (offset, refl, refl, h)

  body_of-Ends : (r : Request) → Ends (λ _. Unit {0}) (body_of k r)
  body_of-Ends r = go (read_body k.gunzip r.content_encoding r.body)
    where
      go :
          (x : Result BodyError (List ℕ))
          → Ends
              (λ _. Unit {0})
              (elim x as (λ _. Result Response (List ℕ)) [
                | ok b ↦ ok b
                | err e ↦ err (reply_to_body k e)
              ])
      go (ok b) = tt
      go (err too_large) = (omega arith, refl)
      go (err unreadable) = (omega arith, refl)

  too_many-IsRefusal : (dec : Decision) → IsRefusal (too_many dec)
  too_many-IsRefusal dec = (omega arith, (refl, omega arith))

  module _ {W : Type 0} (d : Deps W) where
    prepared : (r : Request) (w : W) → From w (prepare k d r) (λ p _. IsPlan d r w p)
    unfolding prepare
    prepared r w = From-bind _ _ _ w (
        From-run _ _ w (
          From-bind _ _ _ w (
            From-run _ _ w (
              From-bind _ _ _ _ (
                From-or_stop _ _ _ _ (omega arith, refl)
                  λ who hw. From-bind _ _ _ _ (
                    From-lift _ _ _ (body_of-Ends r) λ body hb. From-bind _ _ _ _ (
                      From-or_stop _ _ _ _ (omega arith, refl)
                        λ req hr. From-bind _ _ _ _ (
                          From-guard _ _ _ _ (λ _. (omega arith, refl))
                            λ hn. From-bind _ _ _ _ (
                              From-run _ _ _ (
                                From-bind _ _ _ _ (
                                  From-attempt _ _ _ _ (omega arith, refl)
                                    λ lim hl. From-bind _ _ _ _ (
                                      From-attempt _ _ _ _ (omega arith, refl)
                                        λ dec hd. From-bind _ _ _ _ (
                                          From-guard _ _ _ _ (λ _. too_many-IsRefusal dec)
                                            λ hp. From-bind _ _ _ _ (
                                              From-Meets _ _ _ _
                                                (enrich_all-IsEnriched d who.0 req.sent_at (d.now w)
                                                  [] _)
                                                λ rows u hs. From-run _ _ _ (record {
                                                  legacy = who.1;
                                                  started = refl;
                                                  verified = hw;
                                                  decoded = (body, hb, hr);
                                                  few = ground arith;
                                                  charged = (lim, dec, hl, hd, hp);
                                                  enriched = hs;
                                                })))))))))))))))

    pub prepare-IsPlan : (r : Request) (w : W) → Ends (IsPlan d r w) (prepare k d r w).0
    prepare-IsPlan r w = Ends-From (prepare k d r) (IsPlan d r w) w (prepared r w)
