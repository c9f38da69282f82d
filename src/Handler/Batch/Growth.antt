-- ===== src/Handler/Batch/Growth.antt =====
-- The offsets that the store holds after a request, however the request ends.
use event_tracking.Prelude.{sym, List, [], ◌∷◌, Option, none, some, Result, ok, err}
use event_tracking.Prelude.Int.{ℤ}
use event_tracking.Time.{Time}
use event_tracking.Contract.{Event}
use event_tracking.Tenant.{Claims}
use event_tracking.Enrich.Skew.{candidate_offset}
use event_tracking.Enrich.Offsets.{SessionKey}
use event_tracking.Enrich.Offsets.Memory.{Offsets, find}
use event_tracking.Enrich.Offsets.Pinned.{Settles-held}
use event_tracking.Handler.Action.{
  Action, Response, attempt, or_stop, pure, continue, http_error, ◌>>=◌, Keeps, Keeps-or_stop,
  Keeps-attempt, Keeps-guard,
}
use event_tracking.Handler.Batch.{
  Request, Deps, Codecs, Plan, session_of, offset_of, remember, enrich_all, prepare, finish, serve,
}
use event_tracking.Handler.Batch.Redelivery.{HoldsOffsets, Grows, note_skew_view, note_legacy_view}
use mathlib.Core.Path.{subst}

module _ (k : Codecs) {W : Type 0} (d : Deps W) (l : HoldsOffsets d) where
  -- The step loses no offset, whether it returns or ends the request.
  abbrev Climbs : {A : Type 0} → Action W A → Type 0
  Climbs m = (w : W) → Grows (l.view w) (l.view (m w).1)

  kept : {A : Type 0} (m : Action W A) → Keeps l.view m → Climbs m
  kept m h w = subst (λ v. Grows (l.view w) v) (sym (h w)) (λ j o p. p)

  Climbs-bind :
      {A B : Type 0} (m : Action W A) (f : A → Action W B)
      → Climbs m
      → ((a : A) → Climbs (f a))
      → Climbs (m >>= f)
  unfolding ◌>>=◌
  Climbs-bind {A} {B} m f hm hf w = go (m w).0
    where
      go : (x : Result Response A) → Grows (l.view w) (l.view (continue x f (m w).1).1)
      go (ok a) = λ j o p. hf a (m w).1 j o (hm w j o p)
      go (err r) = hm w

  offset_of-Climbs : (key : SessionKey) (c : ℤ) (m : Offsets) → Climbs (offset_of k d key c m)
  unfolding offset_of
  offset_of-Climbs key c m = go (find m key)
    where
      asked :
          (w : W) (a : Option ℤ)
          → Grows (l.view w) (l.view (d.get_or_set key c w).1)
          → Grows (l.view w) (
              l.view
                (or_stop a (http_error 503 "offset store unavailable") (d.get_or_set key c w).1).1)
      asked w none h = h
      asked w (some o) h = h

      go :
          (s : Option ℤ)
          → Climbs (elim s as (λ _. Action W ℤ) [
            | none ↦ attempt (d.get_or_set key c) (http_error 503 "offset store unavailable")
            | some o ↦ pure o
          ])
      go none = λ w. asked w (d.get_or_set key c w).0 (λ j o p.
          Settles-held (d.get_or_set key c w).0 key j c o (l.view w) _ (l.settles key c w) p)
      go (some o) = λ w j o p. p

  past :
      {A B : Type 0} (m : Action W A) (f : A → Action W B)
      → Keeps l.view m
      → ((a : A) → Climbs (f a))
      → Climbs (m >>= f)
  past m f h hf = Climbs-bind m f (kept m h) hf

  enrich_all-Climbs :
      (c : Claims) (sent_at : ℤ) (now : Time) (m : Offsets) (es : List Event)
      → Climbs (enrich_all k d c sent_at now m es)
  unfolding enrich_all
  enrich_all-Climbs c sent_at now m [] = λ w j o p. p
  enrich_all-Climbs c sent_at now m (e ∷ es) =
      Climbs-bind _ _ (offset_of-Climbs (session_of c e) (candidate_offset sent_at now) m) λ offset.
        past _ _ (note_skew_view k d l _ c e) λ _.
          Climbs-bind _ _
            (enrich_all-Climbs c sent_at now (remember k d (session_of c e) offset m) es)
            λ rows w j o p. p

  prepare-Climbs : (r : Request) → Climbs (prepare k d r)
  unfolding prepare
  prepare-Climbs r =
      Climbs-bind _ _ (λ w j o p. p)
        λ received_at. past _ _ (l.verify_view r.authorization received_at) λ auth.
          past _ _ (Keeps-or_stop l.view _ _) λ who.
            Climbs-bind _ _ (λ w j o p. p)
              λ body. past _ _ (Keeps-or_stop l.view _ _) λ req.
                past _ _ (Keeps-guard l.view _ _) λ _.
                  past _ _ (note_legacy_view k d l who.1 _ _) λ _.
                    past _ _ (Keeps-attempt l.view _ _ (l.limits_view _ _)) λ lim.
                      past _ _ (Keeps-attempt l.view _ _ (l.allow_view who.0 _ _ received_at))
                        λ dec. past _ _ (Keeps-guard l.view _ _) λ _.
                          Climbs-bind _ _ (enrich_all-Climbs who.0 req.sent_at received_at [] _)
                            λ rows w j o p. p

  finish-Climbs : (p : Plan k d) → Climbs (finish k d p)
  unfolding finish
  finish-Climbs p = past _ _ (l.insert_view _) λ done.
      past _ _ (Keeps-guard l.view _ _) λ _. past _ _ (Keeps-or_stop l.view _ _) λ out w j o p. p

  -- A request loses none of the offsets that the store holds, with whatever response it ends.
  pub serve-Grows : (r : Request) (w : W) → Grows (l.view w) (l.view (serve k d r w).1)
  unfolding serve
  serve-Grows r w = Climbs-bind (prepare k d r) (finish k d) (prepare-Climbs r) finish-Climbs w

  -- the part of a request after `prepare`
  pub prepared-Grows :
      (r : Request) (w : W) → Grows (l.view (prepare k d r w).1) (l.view (serve k d r w).1)
  unfolding serve ◌>>=◌
  prepared-Grows r w = go (prepare k d r w).0
    where
      go :
          (x : Result Response (Plan k d))
          → Grows
              (l.view (prepare k d r w).1)
              (l.view (continue x (finish k d) (prepare k d r w).1).1)
      go (ok p) = finish-Climbs p (prepare k d r w).1
      go (err res) = λ j o q. q
