-- ===== src/Validate/Laws.antt =====
-- validate.go against `IsStorable`, and the order in which Go ranges over the properties.
use event_tracking.Prelude.{
  String, ◌≡◌, refl, ◌↔◌, inl, inr, false, List, [], ◌∷◌, Option, none, some, Option-cases, arith,
  eq_iff, All, length,
}
use mathlib.Core.Path.{subst, ◌∙◌}
use mathlib.Core.List.{Permᴰ}
use event_tracking.Contract.{
  nan, inf, finite, Kind, string_value, number_value, bool_value, Value, Event,
}
use event_tracking.Validate.{
  Uuid, is_not_canonical, check_kind, check_prop, check_props, check_event, event,
}
use event_tracking.Validate.Spec.{IsScalar, IsGoodProp, IsCanonical, IsStorable}

check_kind_iff : (k : String) (o : Option Kind) → (check_kind k o ≡ none) ↔ IsScalar o
unfolding check_kind
check_kind_iff k none = ground arith
check_kind_iff k (some (string_value s)) = ground arith
check_kind_iff k (some (bool_value b)) = ground arith
check_kind_iff k (some (number_value nan)) = ground arith
check_kind_iff k (some (number_value (inf b))) = ground arith
check_kind_iff k (some (number_value (finite m x))) = ground arith

pub check_kind-none : (k : String) (o : Option Kind) → IsScalar o → check_kind k o ≡ none
check_kind-none k o s = (check_kind_iff k o).1 s

check_prop_iff : (p : String × Value) → (check_prop p ≡ none) ↔ IsGoodProp p
unfolding check_prop
check_prop_iff (k, v) = ground (arith, check_kind_iff k v.kind)

check_props_iff : (ps : List (String × Value)) → (check_props ps ≡ none) ↔ All IsGoodProp ps
unfolding check_props
check_props_iff [] = (λ h. tt, λ h. refl)
check_props_iff (p ∷ ps) = ground (arith, check_prop_iff p, check_props_iff ps)

module _ (u : Uuid) where
  IsCanonical-of_parse : (s : String) → is_not_canonical u (u.parse s) s ≡ false → IsCanonical u s
  IsCanonical-of_parse s h = elim (Option-cases (u.parse s)) [
    | inl e ↦ absurd (ground (arith, rw e at h))
    | inr (id, e) ↦ (id, e, ground (arith, rw e at h, eq_iff (u.to_string id) s))
  ]

  pub parse_of_canonical : (s : String) → IsCanonical u s → is_not_canonical u (u.parse s) s ≡ false
  parse_of_canonical s (id, e, same) = rw e (ground (arith, eq_iff (u.to_string id) s))

  -- The guards before the loop over the properties, passed.
  module _ (e : Event) where
    check_event_sound : check_event u e ≡ none → IsStorable u e
    unfolding check_event
    check_event_sound h = record {
      has_id = ground (arith, eq_iff e.event_id "");
      canonical = IsCanonical-of_parse e.event_id (ground arith);
      has_name = ground (arith, eq_iff e.name "");
      name_fits = ground arith;
      has_device = ground (arith, eq_iff e.device_id "");
      not_early = ground arith;
      not_late = ground arith;
      few_props = ground arith;
      good_props = (check_props_iff e.props).0 (ground arith);
    }

    check_event_complete : IsStorable u e → check_event u e ≡ none
    unfolding check_event
    check_event_complete s = ground (
      arith,
      eq_iff e.event_id "",
      eq_iff e.name "",
      eq_iff e.device_id "",
      parse_of_canonical e.event_id s.canonical,
      (check_props_iff e.props).1 s.good_props,
    )

-- `Event` answers nil exactly for the events that the specification calls storable.
pub event_iff : (u : Uuid) (e : Event) → (event u e ≡ none) ↔ IsStorable u e
unfolding event
event_iff u e =
    (λ h. check_event_sound u e (ground arith), λ s. ground (arith, check_event_complete u e s))

All-Permᴰ {ℓ κ} : {A : Type ℓ} (P : A → Type κ) {xs ys : List A} → Permᴰ xs ys → All P xs → All P ys
All-Permᴰ P Permᴰ.nil h = h
All-Permᴰ P (Permᴰ.cons e p) (a, h) = (subst P e a, All-Permᴰ P p h)
All-Permᴰ P (Permᴰ.swap e f) (a, (b, h)) = (subst P f b, (subst P e a, h))
All-Permᴰ P (Permᴰ.trans p q) h = All-Permᴰ P q (All-Permᴰ P p h)

length-Permᴰ {ℓ} : {A : Type ℓ} {xs ys : List A} → Permᴰ xs ys → length xs ≡ length ys
length-Permᴰ Permᴰ.nil = refl
length-Permᴰ (Permᴰ.cons e p) = omega (arith, length-Permᴰ p)
length-Permᴰ (Permᴰ.swap e f) = refl
length-Permᴰ (Permᴰ.trans p q) = length-Permᴰ p ∙ length-Permᴰ q

-- Whether an event is accepted does not depend on the order in which the map is ranged over.
event-Permᴰ :
    (u : Uuid) (e : Event) (ps : List (String × Value))
    → Permᴰ e.props ps
    → event u e ≡ none
    → event u (record e { props = ps }) ≡ none
event-Permᴰ u e ps p h =
    let s = (event_iff u e).0 h in
    (event_iff u (record e { props = ps })).1 (record {
      has_id = s.has_id;
      canonical = s.canonical;
      has_name = s.has_name;
      name_fits = s.name_fits;
      has_device = s.has_device;
      not_early = s.not_early;
      not_late = s.not_late;
      few_props = rw (← length-Permᴰ p) s.few_props;
      good_props = All-Permᴰ IsGoodProp p s.good_props;
    })
