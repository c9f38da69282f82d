-- ===== src/Handler/Batch/Partition.antt =====
-- How the batch handler divides the events of a batch.
use event_tracking.Prelude.{
  ◌+◌, ◌≡◌, refl, arith, List, [], ◌∷◌, ◌++◌, Option, none, some, map, length,
}
use mathlib.Core.List.Permᴰ
use mathlib.Core.List.{Permᴰ}
use event_tracking.Contract.{Event, Reject}
use event_tracking.Validate
use event_tracking.Validate.{Uuid}
use event_tracking.Validate.Spec.{IsStorable, Blames}
use event_tracking.Validate.Laws.{event_iff}
use event_tracking.Validate.Rejects.{event-Blames}
use event_tracking.Handler.Batch.{Codecs, place, validate_all}

module _ (u : Uuid) where
  -- The two lists keep the order of the batch; each event goes to one of them, and a reject carries
  -- the id of its event and names a fault of it.
  pub data Divides : List Event → List Event → List Reject → Type 0 where
    done : Divides [] [] []
    keep :
        {e : Event} {es valid : List Event} {rejected : List Reject}
        → IsStorable u e
        → Divides es valid rejected
        → Divides (e ∷ es) (e ∷ valid) rejected
    drop :
        {e : Event} {r : Reject} {es valid : List Event} {rejected : List Reject}
        → r.event_id ≡ e.event_id
        → Blames u e r.code
        → Divides es valid rejected
        → Divides (e ∷ es) valid (r ∷ rejected)

  Divides-length :
      {es valid : List Event} {rejected : List Reject}
      → Divides es valid rejected
      → length es ≡ length valid + length rejected
  Divides-length done = refl
  Divides-length (keep s d) = ground (arith, Divides-length d)
  Divides-length (drop i b d) = ground (arith, Divides-length d)

module _ (k : Codecs) where
  -- The loop over the events sends each one, in order, to the valid ones, if it is storable, or to the
  -- rejects, with its id and the code of a fault that it has.
  pub validate_all-Divides :
      (es : List Event) → Divides k.uuid es (validate_all k es).0 (validate_all k es).1
  unfolding validate_all
  validate_all-Divides [] = done
  validate_all-Divides (e ∷ es) = go (Validate.event k.uuid e) refl (validate_all-Divides es)
    where
      go :
          (o : Option Reject)
          → Validate.event k.uuid e ≡ o
          → Divides k.uuid es (validate_all k es).0 (validate_all k es).1
          → Divides k.uuid
              (e ∷ es)
              (place e o (validate_all k es)).0
              (place e o (validate_all k es)).1
      go none h d = keep ((event_iff k.uuid e).0 h) d
      go (some r) h d = let b = event-Blames k.uuid e r h in drop b.0 b.1 d

module _ {u : Uuid} where
  pub ids-Divides :
      {es valid : List Event} {rejected : List Reject}
      → Divides u es valid rejected
      → Permᴰ
          (map (λ e. e.event_id) valid ++ map (λ r. r.event_id) rejected)
          (map (λ e. e.event_id) es)
  ids-Divides done = Permᴰ.nil
  ids-Divides (keep s d) = Permᴰ.cons refl (ids-Divides d)
  ids-Divides (drop i b d) = Permᴰ.trans (Permᴰ.middle _ _ _) (Permᴰ.cons i (ids-Divides d))
