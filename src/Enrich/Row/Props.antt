-- ===== src/Enrich/Row/Props.antt =====
-- What a storage row keeps of the properties of an accepted event.
use event_tracking.Prelude.{
  String, ◌≡◌, refl, List, [], ◌∷◌, Option, none, some, map, arith, All, inl, inr, Option-cases,
}
use event_tracking.Contract.{Kind, Value, Event}
use event_tracking.Validate.{Uuid, event}
use event_tracking.Validate.Spec.{IsGoodProp}
use event_tracking.Validate.Laws.{event_iff}
use event_tracking.Enrich.Row.{flatten}

abbrev pub as_set : String × Kind → String × Option Kind
as_set (k, x) = (k, some x)

abbrev pub as_sent : String × Value → String × Option Kind
as_sent (k, v) = (k, v.kind)

flatten-All :
    (ps : List (String × Value)) → All IsGoodProp ps → map as_set (flatten ps) ≡ map as_sent ps
unfolding flatten
flatten-All [] h = refl
flatten-All ((k, v) ∷ ps) (good, h) = elim (Option-cases v.kind) [
  | inl e ↦ absurd (ground arith)
  | inr (x, e) ↦ ground (arith, flatten-All ps h)
]

-- Of an event that the validator accepts no property is lost or changed on the way to storage.
pub flatten-event :
    (u : Uuid) (e : Event) → event u e ≡ none → map as_set (flatten e.props) ≡ map as_sent e.props
flatten-event u e h = flatten-All e.props ((event_iff u e).0 h).good_props
