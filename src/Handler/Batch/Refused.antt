-- ===== src/Handler/Batch/Refused.antt =====
-- batch.go: why a batch is refused before its insert, and with which response.
use event_tracking.Prelude.{
  ℕ, ◌+◌, ◌/◌, ◌^◌, ◌<◌, String, Bool, false, ◌≡◌, refl, arith, List, [], ◌∷◌, Option, none, some,
  Result, ok, err, length,
}
use event_tracking.Prelude.Int.{ℤ, pos_part}
use event_tracking.Time.{Time}
use event_tracking.Limits.{Quota}
use event_tracking.Contract.{Event, BatchRequest}
use event_tracking.Tenant.{Claims}
use event_tracking.Tenant.Verify.{Error}
use event_tracking.Quota.{Decision}
use event_tracking.Enrich.Offsets.{SessionKey}
use event_tracking.Enrich.Offsets.Memory.{Offsets, find}
use mathlib.Core.Path.{subst}
use event_tracking.Handler.Action.{Action, Response, failure, http_error, attempt, pure}
use event_tracking.Handler.Refusals.{
  Stops, Stops-bind, Stops-or_stop, Stops-lift, Stops-guard, Stops-known, some-of_or_stop,
}
use event_tracking.Handler.Body.{BodyError, too_large, unreadable, read_body}
use event_tracking.Handler.Batch.{
  Request, Deps, Codecs, identity, session_of, body_of, offset_of, remember, enrich_all, prepare,
}

module _ (k : Codecs) {W : Type 0} (d : Deps W) where
  -- Why a request that starts in the world `w` is refused, and the response to it. A dependency
  -- fails in the world in which the request calls it.
  pub data Refused (r : Request) (w : W) : Response → Type 0 where
    unverified :
        (e : Error) (legacy : Bool)
        → (d.verify_or_legacy r.authorization (d.now w) w).0 ≡ (err e, legacy)
        → Refused r w
            (record { status = 401; retry_after = none; payload = failure "invalid token" })
    over_cap :
        read_body k.gunzip r.content_encoding r.body ≡ err too_large
        → Refused r w
            (record { status = 413; retry_after = none; payload = failure "batch too large" })
    broken_body :
        read_body k.gunzip r.content_encoding r.body ≡ err unreadable
        → Refused r w
            (record { status = 400; retry_after = none; payload = failure "unreadable body" })
    malformed :
        (b : List ℕ)
        → body_of k r ≡ ok b
        → k.unmarshal b ≡ none
        → Refused r w (record {
          status = 400;
          retry_after = none;
          payload = failure "malformed batch envelope";
        })
    crowded :
        (b : List ℕ) (req : BatchRequest)
        → body_of k r ≡ ok b
        → k.unmarshal b ≡ some req
        → 500 < length req.events
        → Refused r w
            (record { status = 413; retry_after = none; payload = failure "too many events" })
    no_limits :
        (tenant_id : String) (tier : ℕ) (u : W)
        → (d.limits_for tenant_id tier u).0 ≡ none
        → Refused r w
            (record { status = 503; retry_after = none; payload = failure "limits unavailable" })
    no_quota :
        (c : Claims) (lim : Quota) (n : ℕ) (u : W)
        → (d.allow c lim n (d.now w) u).0 ≡ none
        → Refused r w
            (record { status = 503; retry_after = none; payload = failure "quota unavailable" })
    denied :
        (c : Claims) (lim : Quota) (n : ℕ) (u : W) (dec : Decision)
        → (d.allow c lim n (d.now w) u).0 ≡ some dec
        → dec.allowed ≡ false
        → Refused r w (record {
          status = 429;
          retry_after = some (pos_part dec.retry_after / 10 ^ 9 + 1);
          payload = failure dec.reason;
        })
    no_offset :
        (key : SessionKey) (candidate : ℤ) (u : W)
        → (d.get_or_set key candidate u).0 ≡ none
        → Refused r w (record {
          status = 503;
          retry_after = none;
          payload = failure "offset store unavailable";
        })

  module _ (r : Request) (w : W) where
    R : Response → Type 0
    R = Refused r w

    unidentified :
        (i : Result Error Claims × Bool)
        → (d.verify_or_legacy r.authorization (d.now w) w).0 ≡ i
        → identity i ≡ none
        → R (http_error 401 "invalid token")
    unfolding R
    unidentified (ok c, legacy) e h = absurd (ground arith)
    unidentified (err x, legacy) e h = unverified x legacy e

    reply : {a b : Response} → ◌≡◌ {A = Result Response (List ℕ)} (err a) (err b) → a ≡ b
    reply h = ground arith

    unread :
        (x : Result BodyError (List ℕ)) (res : Response)
        → read_body k.gunzip r.content_encoding r.body ≡ x
        → body_of k r ≡ err res
        → R res
    unfolding R
    unread (ok b) res e h = absurd (ground arith)
    unread (err too_large) res e h = subst (Refused r w) (reply (rw (e, body_of) at h)) (over_cap e)
    unread (err unreadable) res e h =
        subst (Refused r w) (reply (rw (e, body_of) at h)) (broken_body e)

    offset_of-Stops :
        (key : SessionKey) (c : ℤ) (m : Offsets) (u : W) → Stops R (offset_of k d key c m u).0
    unfolding offset_of R
    offset_of-Stops key c m u = go (find m key)
      where
        go :
            (s : Option ℤ)
            → Stops
                (Refused r w)
                ((elim s as (λ _. Action W ℤ) [
                  | none ↦ attempt (d.get_or_set key c) (http_error 503 "offset store unavailable")
                  | some o ↦ pure o
                ])
                  u).0
        go none =
            Stops-or_stop (Refused r w) (d.get_or_set key c u).0 _ (d.get_or_set key c u).1
              (no_offset key c u)
        go (some o) = tt

    enrich_all-Stops :
        (c : Claims) (sent_at : ℤ) (now : Time) (m : Offsets) (es : List Event) (u : W)
        → Stops R (enrich_all k d c sent_at now m es u).0
    unfolding enrich_all
    enrich_all-Stops c sent_at now m [] u = tt
    enrich_all-Stops c sent_at now m (e ∷ es) u =
        Stops-bind R _ _ _ (offset_of-Stops (session_of c e) _ m u) λ offset _.
          Stops-bind R _ _ _ tt λ _ _.
            Stops-bind R _ _ _
              (enrich_all-Stops c sent_at now (remember k d (session_of c e) offset m) es _)
              λ rest _. tt

    -- An early return of `prepare` has one of the causes, with its response.
    pub prepare-Refused : Stops (Refused r w) (prepare k d r w).0
    unfolding prepare R
    prepare-Refused = Stops-known R _ _ _ (d.now w) refl (
        Stops-known R _ _ _ (d.verify_or_legacy r.authorization (d.now w) w).0 refl (
          Stops-bind R _ _ _ (Stops-or_stop R _ _ _ (unidentified _ refl)) λ who _.
            Stops-bind R _ _ _ (Stops-lift R _ λ res h. unread _ res refl h) λ body hb.
              Stops-bind R _ _ _ (Stops-or_stop R _ _ _ (malformed body hb)) λ req hr.
                Stops-bind R _ _ _
                  (Stops-guard R _ _ _ λ h.
                    crowded body req hb (some-of_or_stop R (k.unmarshal body) _ _ req hr)
                      (ground arith))
                  λ _ _. Stops-bind R _ _ _ tt λ _ _.
                    Stops-bind R _ _ _
                      (Stops-or_stop R _ _ _ (no_limits (who.0).tenant_id (who.0).trust_tier _))
                      λ lim _.
                        Stops-bind R _ _ _ (Stops-or_stop R _ _ _ (no_quota who.0 _ _ _)) λ dec hd.
                          Stops-bind R _ _ _
                            (Stops-guard R _ _ _
                              (denied who.0 _ _ _ dec (some-of_or_stop R _ _ _ dec hd)))
                            λ _ _. Stops-bind R _ _ _ (enrich_all-Stops _ _ _ _ _ _) λ rows _. tt))
