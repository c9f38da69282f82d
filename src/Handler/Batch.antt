-- ===== src/Handler/Batch.antt =====
-- services/ingest/internal/handler/batch.go: POST /v1/batch
pub mod Contract
pub mod Partition
pub mod Plans
pub mod Refused
pub mod Acks
pub mod Redelivery
pub mod Growth
pub mod Answers
use event_tracking.Prelude.{
  ℕ, ◌+◌, ◌/◌, String, Bool, true, false, not, ◌&&◌, List, [], ◌∷◌, Option, none, some, ◌==◌,
  Result, ok, err, ltb, eqb, map, length, if◌then◌else◌,
}
use event_tracking.Prelude.Int.{ℤ, pos_part}
use event_tracking.Time.{Time, second, unix_milli}
use event_tracking.Limits.{Quota, max_events_per_batch}
use event_tracking.Contract.{Kind, Event, BatchRequest, BatchResponse, Reject, get_sdk_version}
use event_tracking.Tenant.{Claims}
use event_tracking.Tenant.Verify.{Error}
use event_tracking.Quota.{Decision}
use event_tracking.ClickHouse.{Row}
use event_tracking.Validate
use event_tracking.Validate.{Uuid}
use event_tracking.Enrich.Skew.{candidate_offset}
use event_tracking.Enrich.Offsets.{SessionKey}
use event_tracking.Enrich.Offsets.Memory.{Offsets, find}
use event_tracking.Enrich.Row.{row}
use event_tracking.Handler.Action.{
  Action, Response, failure, success, lift, http_error, pure, stop, gets, or_stop, attempt, guard,
  notify, ◌>>=◌, ◌>>◌,
}
use event_tracking.Handler.Body.{Stream, BodyError, too_large, unreadable, read_body}

-- What the handler reads of an HTTP request.
pub record Request : Type 0 where
  pub authorization : String
  pub content_encoding : String
  pub body : Stream

-- The struct Deps: each dependency is a call on the world `W`. A callback that is nil changes
-- nothing.
pub record Deps (W : Type 0) : Type 0 where
  pub now : W → Time
  pub verify_or_legacy : String → Time → W → (Result Error Claims × Bool) × W
  pub limits_for : String → ℕ → W → Option Quota × W
  pub allow : Claims → Quota → ℕ → Time → W → Option Decision × W
  pub get_or_set : SessionKey → ℤ → W → Option ℤ × W
  pub insert : List Row → W → Bool × W
  pub on_clock_skew : String → String → W → W
  pub on_legacy_use : String → String → W → W

-- The libraries that the handler calls: compress/gzip, protojson, google/uuid, encoding/json.
-- `none` is an error.
pub record Codecs : Type 1 where
  pub gunzip : Stream → Option Stream
  pub unmarshal : List ℕ → Option BatchRequest
  pub marshal : BatchResponse → Option String
  pub uuid : Uuid
  pub marshal_props : List (String × Kind) → Option String

-- what Verifier.VerifyOrLegacy yields, or the 401
abbrev pub identity : Result Error Claims × Bool → Option (Claims × Bool)
identity (ok claims, legacy) = some (claims, legacy)
identity (err e, legacy) = none

abbrev pub first_sdk_version : List Event → String
first_sdk_version [] = ""
first_sdk_version (e ∷ es) = get_sdk_version e.context

-- len(valid), and 1 for a batch with no valid event
abbrev pub charge_units : ℕ → ℕ
charge_units n = if eqb n 0 then 1 else n

abbrev pub effective_quota : Bool → Quota → Quota
effective_quota legacy lim = if legacy then record lim { rps = lim.legacy_rps } else lim

-- the 429, with int(RetryAfter.Seconds()) + 1 for a wait that is not negative, as every wait of Allow
abbrev pub too_many : Decision → Response
too_many dec = record {
  status = 429;
  retry_after = some (pos_part dec.retry_after / second + 1);
  payload = failure dec.reason;
}

abbrev pub session_of : Claims → Event → SessionKey
session_of claims e = record {
  tenant_id = claims.tenant_id;
  device_id = e.device_id;
  session_id = e.session_id;
}

-- one event of the loop: valid, or rejected
abbrev pub place : Event → Option Reject → List Event × List Reject → List Event × List Reject
place e none (valid, rejected) = (e ∷ valid, rejected)
place e (some r) (valid, rejected) = (valid, r ∷ rejected)

module _ (k : Codecs) where
  -- The loop over the events: those that are valid, and the rejects of the others.
  unfoldable pub validate_all : List Event → List Event × List Reject
  validate_all [] = ([], [])
  validate_all (e ∷ es) = place e (Validate.event k.uuid e) (validate_all es)

  abbrev pub reply_to_body : BodyError → Response
  reply_to_body too_large = http_error 413 "batch too large"
  reply_to_body unreadable = http_error 400 "unreadable body"

  abbrev pub body_of : Request → Result Response (List ℕ)
  body_of r = elim (read_body k.gunzip r.content_encoding r.body) [
    | ok b ↦ ok b
    | err e ↦ err (reply_to_body e)
  ]

  module _ {W : Type 0} (d : Deps W) where
    -- The offset of a session: from the batch's own map, or from the store.
    unfoldable pub offset_of : SessionKey → ℤ → Offsets → Action W ℤ
    offset_of key candidate offsets = elim (find offsets key) [
      | some o ↦ pure o
      | none ↦ attempt (d.get_or_set key candidate) (http_error 503 "offset store unavailable")
    ]

    -- `offsets[key] = offset` for a key that was absent
    abbrev pub remember : SessionKey → ℤ → Offsets → Offsets
    remember key o offsets = elim (find offsets key) [
      | some _ ↦ offsets
      | none ↦ (key, o) ∷ offsets
    ]

    abbrev pub note_skew : Bool → Claims → Event → W → W
    note_skew clamped claims e w =
        if clamped then d.on_clock_skew claims.tenant_id e.device_id w else w

    -- The loop that builds the rows; the ids of `accepted` stand in the rows.
    unfoldable pub enrich_all :
        Claims → ℤ → Time → Offsets → List Event → Action W (List (Row × String))
    enrich_all claims sent_at received_at offsets [] = pure []
    enrich_all claims sent_at received_at offsets (e ∷ es) = do
      let key = session_of claims e
      offset ← offset_of key (candidate_offset sent_at received_at) offsets
      let built = row k.marshal_props e claims offset received_at
      notify (note_skew built.1 claims e)
      rest ← enrich_all claims sent_at received_at (remember key offset offsets) es
      pure ((built.0, e.event_id) ∷ rest)

    -- What the handler knows when it is about to insert.
    pub record Plan : Type 0 where
      pub received_at : Time
      pub claims : Claims
      pub request : BatchRequest
      pub rows : List (Row × String)

    -- the handler up to the insert
    unfoldable pub prepare : Request → Action W Plan
    prepare r = do
      received_at ← gets d.now
      auth ← (λ w. let (i, w') = d.verify_or_legacy r.authorization received_at w in (ok i, w'))
      who ← or_stop (identity auth) (http_error 401 "invalid token")
      body ← lift (body_of r)
      req ← or_stop (k.unmarshal body) (http_error 400 "malformed batch envelope")
      guard (not (ltb max_events_per_batch (length req.events))) (http_error 413 "too many events")
      notify (λ w.
          if who.1 then d.on_legacy_use (who.0).tenant_id (first_sdk_version req.events) w else w)
      let valid = (validate_all req.events).0
      lim ←
          attempt (d.limits_for (who.0).tenant_id (who.0).trust_tier)
            (http_error 503 "limits unavailable")
      dec ←
          attempt
            (d.allow who.0 (effective_quota who.1 lim) (charge_units (length valid)) received_at)
            (http_error 503 "quota unavailable")
      guard dec.allowed (too_many dec)
      rows ← enrich_all who.0 req.sent_at received_at [] valid
      pure (record { received_at = received_at; claims = who.0; request = req; rows = rows })

    abbrev pub response_of : Plan → BatchResponse
    response_of p = record {
      received_at = unix_milli p.received_at;
      accepted = map (λ x. x.1) p.rows;
      rejected = (validate_all p.request.events).1;
    }

    -- the insert and the response
    unfoldable pub finish : Plan → Action W Response
    finish p = do
      done ← (λ w. let (i, w') = d.insert (map (λ x. x.0) p.rows) w in (ok i, w'))
      guard done (http_error 503 "storage unavailable")
      out ← or_stop (k.marshal (response_of p)) (http_error 500 "encode")
      pure (record { status = 200; retry_after = none; payload = success out })

    abbrev pub sent : Result Response Response → Response
    sent (ok r) = r
    sent (err r) = r

    -- The handler that NewBatch returns.
    unfoldable pub serve : Request → W → Response × W
    serve r w = let (a, w') = (prepare r >>= finish) w in (sent a, w')
