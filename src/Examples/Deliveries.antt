-- ===== src/Examples/Deliveries.antt =====
-- One batch through the handler, with dependencies that always answer, and the insert path.
use mathlib.Core.List.{Permᴰ}
use event_tracking.Prelude.{
  ℕ, length, ◌↔◌, ◌≤◌, ◌≡◌, refl, arith, true, false, some, List, [], ◌∷◌, ◌++◌, map, ok,
}
use event_tracking.Prelude.Int.{pos}
use event_tracking.Limits.{default_quota}
use event_tracking.ClickHouse.{Row}
use event_tracking.ClickHouse.Insert.{Driver, IsDriver}
use event_tracking.Handler.Action.{◌>>=◌}
use event_tracking.Validate
use event_tracking.Enrich.Offsets.Memory.{find}
use event_tracking.Handler.Body.{eof, read_body, max_bytes_reader, read_all}
use event_tracking.Handler.Body.Caps.{IsRead, read_body_iff, read_body_plain}
use event_tracking.Handler.Batch.{
  Request, Deps, Codecs, Plan, body_of, charge_units, prepare, finish, enrich_all, offset_of, serve,
  response_of, validate_all,
}
use event_tracking.Handler.Batch.Contract.{IsDeps}
use event_tracking.Handler.Batch.Partition.{Divides, validate_all-Divides}
use event_tracking.Handler.Batch.Answers.{IsUp, serve_answers}
use event_tracking.Handler.Batch.Acks.{
  Answers, Acknowledges, serve_cases, serve-acknowledged, answered_once,
}
use event_tracking.Quota.{allow}
use event_tracking.Quota.Admission.{admitted, allow_cases}
use event_tracking.Examples.Counters.{Tables, server, server-IsRedis, empty}
use event_tracking.Examples.Samples.{noon, texts, click, bare, claims, batch}

abbrev pub table : Driver
table = record {
  Server = List Row;
  Batch = List Row;
  prepare_batch = λ s. some [];
  append = λ b r. some (b ++ r ∷ []);
  send = λ b s. (true, s ++ b);
}

abbrev pub table-IsDriver : IsDriver table
table-IsDriver = record {
  rows_of = λ b. b;
  stored = λ s. s;
  prepared_empty = λ s b h. ground arith;
  appended = λ b b' r h. ground arith;
  sent = λ b s h. refl;
}

abbrev pub codecs : Codecs
codecs = record {
  gunzip = λ s. some s;
  unmarshal = λ b. some batch;
  marshal = λ r. some "done";
  uuid = texts;
  marshal_props = λ ps. some "{}";
}

-- the world is what is stored
abbrev deps : Deps (List Row)
deps = record {
  now = λ w. noon;
  verify_or_legacy = λ bearer now w. ((ok claims, false), w);
  limits_for = λ tenant_id tier w. (some default_quota, w);
  allow = λ c lim n now w. (some (record { allowed = true; retry_after = pos 0; reason = "" }), w);
  get_or_set = λ key candidate w. (some candidate, w);
  insert = λ rows w. (true, w ++ rows);
  on_clock_skew = λ tenant_id device_id w. w;
  on_legacy_use = λ tenant_id version w. w;
}

abbrev deps-IsDeps : IsDeps deps
deps-IsDeps = record {
  stored = λ w. w;
  inserted = λ rows w h. refl;
  spares = record {
    verify_keeps = λ bearer now w. refl;
    limits_keeps = λ tenant_id tier w. refl;
    allow_keeps = λ c lim n now w. refl;
    offsets_keep = λ key candidate w. refl;
    skew_keeps = λ tenant_id device_id w. refl;
    legacy_keeps = λ tenant_id version w. refl;
  };
}

abbrev pub request : Request
request = record {
  authorization = "Bearer x";
  content_encoding = "";
  body = record { content = 123 ∷ 125 ∷ []; ending = eof };
}

small_body : read_body (λ s. some s) "" request.body ≡ ok (123 ∷ 125 ∷ [])
small_body = rw (read_body_plain (λ s. some s) "" request.body refl refl) refl

read_body_iff_example :
    (read_body (λ s. some s) "" request.body ≡ ok (123 ∷ 125 ∷ []))
    ↔ IsRead (λ s. some s) "" request.body (123 ∷ 125 ∷ [])
read_body_iff_example = read_body_iff (λ s. some s) "" request.body (123 ∷ 125 ∷ [])

validate_all-Divides_example :
    Divides texts
      (click ∷ bare ∷ [])
      (validate_all codecs (click ∷ bare ∷ [])).0
      (validate_all codecs (click ∷ bare ∷ [])).1
validate_all-Divides_example = validate_all-Divides codecs (click ∷ bare ∷ [])

serve_cases_example : Answers codecs deps deps-IsDeps [] request (serve codecs deps request [])
serve_cases_example = serve_cases codecs deps deps-IsDeps request []

acknowledged : (serve codecs deps request []).0.status ≡ 200
unfolding serve ◌>>=◌ prepare finish enrich_all offset_of find validate_all read_body read_all
    max_bytes_reader Validate.event Validate.check_event Validate.check_props Validate.check_prop
    Validate.min_ts_client_ms Validate.max_ts_client_ms
acknowledged = refl

serve-acknowledged_example :
    Acknowledges codecs deps deps-IsDeps [] request (serve codecs deps request [])
serve-acknowledged_example = serve-acknowledged codecs deps deps-IsDeps request [] acknowledged

abbrev acked : Plan codecs deps
acked = serve-acknowledged_example.0

answered_once_example :
    Permᴰ
      ((response_of codecs deps acked).accepted
        ++ map (λ x. x.event_id) (response_of codecs deps acked).rejected)
      (map (λ e. e.event_id) acked.request.events)
answered_once_example = answered_once codecs deps request [] acked serve-acknowledged_example.1

-- the same dependencies with the counters of Redis
abbrev metered : Deps (List Row × Tables)
metered = record {
  now = λ w. noon;
  verify_or_legacy = λ bearer now w. ((ok claims, false), w);
  limits_for = λ tenant_id tier w. (some default_quota, w);
  allow = λ c lim n now w. let (o, t) = allow server c lim n now w.1 in (o, (w.0, t));
  get_or_set = λ key candidate w. (some candidate, w);
  insert = λ rows w. (true, (w.0 ++ rows, w.1));
  on_clock_skew = λ tenant_id device_id w. w;
  on_legacy_use = λ tenant_id version w. w;
}

one_unit : (n : ℕ) → n ≤ 4 → (allow server claims default_quota n noon empty).0 ≡ some admitted
one_unit n h =
    ((allow_cases server claims default_quota n noon empty server-IsRedis refl).0
      (λ p. omega (arith, h)) (λ p. omega (arith, h))).0

few_units : charge_units (length (validate_all codecs batch.events).0) ≤ 4
unfolding validate_all Validate.event Validate.check_event Validate.check_props Validate.check_prop
    Validate.min_ts_client_ms Validate.max_ts_client_ms
few_units = omega arith

metered-IsUp :
    IsUp codecs metered
      (λ w. w.1 ≡ empty)
      (λ w. Unit {0})
      request
      batch
      claims
      false
      default_quota
      noon
metered-IsUp = record {
  verified = λ w p. (refl, p);
  noted = λ version w p. p;
  limited = λ w p. (refl, p);
  admitted = λ w p. ((admitted, rw p (one_unit _ few_units), refl), tt);
  pinned = λ key candidate w p. ((candidate, refl, tt), tt);
  skewed = λ device_id w p. tt;
  stored = λ rows w p. (refl, tt);
}

serve_answers_example : (serve codecs metered request ([], empty)).0.status ≡ 200
serve_answers_example =
    serve_answers codecs metered (λ w. w.1 ≡ empty) (λ w. Unit {0}) request batch claims false
      default_quota noon metered-IsUp (123 ∷ 125 ∷ []) ([], empty) refl refl body_read refl
      (ground arith) (λ x. ("done", refl))
  where
    body_read : body_of codecs request ≡ ok (123 ∷ 125 ∷ [])
    body_read = rw (small_body, body_of) refl
