-- ===== src/Validate/Rejects.antt =====
-- validate.go: what a rejection says of the event.
use Prim.Native.String.{len}
use mathlib.Core.List.{Memᴰ}
use mathlib.Core.List.Memᴰ.{head, tail}
use event_tracking.Prelude.{
  String, ◌<◌, ◌≡◌, refl, ◌⊎◌, inl, inr, true, List, [], ◌∷◌, Option, none, some, arith, eq_iff,
  length, Option-cases,
}
use event_tracking.Contract.{Kind, Value, Event, Reject}
use event_tracking.Validate.{
  Uuid, Problem, is_not_canonical, check_kind, check_prop, check_props, check_event, event,
  max_prop_key_len, max_name_len, min_ts_client_ms, max_ts_client_ms, code_missing_event_id,
  code_bad_event_id, code_missing_name, code_name_too_long, code_missing_device_id,
  code_bad_ts_client, code_too_many_props, code_prop_key_too_long, code_invalid_property_type,
}
use event_tracking.Limits.{max_props_per_event}
use event_tracking.Prelude.Int.{◌<ℤ◌}
use mathlib.Core.Path.{subst}
use event_tracking.Validate.Spec.{
  IsScalar, Blames, missing_event_id, bad_event_id, missing_name, name_too_long, missing_device_id,
  bad_ts_client, too_many_props, prop_key_too_long, invalid_property_type,
}
use event_tracking.Validate.Laws.{check_kind-none, parse_of_canonical}

abbrev PropFault : String → Value → String → Type 0
PropFault k v c =
    ((c ≡ code_prop_key_too_long) × (max_prop_key_len < len k))
    ⊎ ((c ≡ code_invalid_property_type) × (¬ IsScalar v.kind))

check_kind_code :
    (k : String) (o : Option Kind) (c m : String)
    → check_kind k o ≡ some (c, m)
    → c ≡ code_invalid_property_type
unfolding check_kind
check_kind_code k o c m h = ground arith

check_prop_fault :
    (k : String) (v : Value) (c m : String) → check_prop (k, v) ≡ some (c, m) → PropFault k v c
unfolding check_prop
check_prop_fault k v c m h = ground (arith, check_kind_code k v.kind c m, check_kind-none k v.kind)

check_props_fault :
    (ps : List (String × Value)) (c m : String)
    → check_props ps ≡ some (c, m)
    → (k : String) × (v : Value) × Memᴰ (k, v) ps × PropFault k v c
unfolding check_props
check_props_fault [] c m h = absurd (ground arith)
check_props_fault ((k, v) ∷ ps) c m h = elim (Option-cases (check_prop (k, v))) [
  | inl e ↦ let (k', v', m', f) = check_props_fault ps c m (ground arith) in (k', v', tail m', f)
  | inr (p, e) ↦ (k, v, head refl, check_prop_fault k v c m (ground arith))
]

module _ (u : Uuid) (e : Event) (c m : String) where
  Blames-prop : ((k : String) × (v : Value) × Memᴰ (k, v) e.props × PropFault k v c) → Blames u e c
  Blames-prop (k, v, m, inl (same, long)) = prop_key_too_long k v same m long
  Blames-prop (k, v, m, inr (same, bad)) = invalid_property_type k v same m bad

  -- One early return was taken, or the loop found the problem.
  check_event_cases :
      check_event u e ≡ some (c, m)
      → ((c ≡ code_missing_event_id) × (e.event_id ≡ ""))
        ⊎ ((c ≡ code_bad_event_id) × (is_not_canonical u (u.parse e.event_id) e.event_id ≡ true))
        ⊎ ((c ≡ code_missing_name) × (e.name ≡ ""))
        ⊎ ((c ≡ code_name_too_long) × (max_name_len < len e.name))
        ⊎ ((c ≡ code_missing_device_id) × (e.device_id ≡ ""))
        ⊎ ((c ≡ code_bad_ts_client)
            × ((e.ts_client <ℤ min_ts_client_ms) ⊎ (max_ts_client_ms <ℤ e.ts_client)))
        ⊎ ((c ≡ code_too_many_props) × (max_props_per_event < length e.props))
        ⊎ (check_props e.props ≡ some (c, m))
  unfolding check_event
  check_event_cases h =
      ground (arith, eq_iff e.event_id "", eq_iff e.name "", eq_iff e.device_id "")

  check_event-Blames : check_event u e ≡ some (c, m) → Blames u e c
  check_event-Blames h = elim (check_event_cases h) [
    | inl (s, t) ↦ missing_event_id s t
    | inr (inl (s, t)) ↦ bad_event_id s (λ k. ground (arith, parse_of_canonical u e.event_id k))
    | inr (inr (inl (s, t))) ↦ missing_name s t
    | inr (inr (inr (inl (s, t)))) ↦ name_too_long s t
    | inr (inr (inr (inr (inl (s, t))))) ↦ missing_device_id s t
    | inr (inr (inr (inr (inr (inl (s, t)))))) ↦ bad_ts_client s t
    | inr (inr (inr (inr (inr (inr (inl (s, t))))))) ↦ too_many_props s t
    | inr (inr (inr (inr (inr (inr (inr t)))))) ↦ Blames-prop (check_props_fault e.props c m t)
  ]

module _ (u : Uuid) (e : Event) where
  Blames-of_problem :
      (o : Option Problem) (r : Reject)
      → check_event u e ≡ o
      → elim o [
        | none ↦ none
        | some (c, m) ↦ some (record { event_id = e.event_id; code = c; message = m })
      ]
        ≡ some r
      → (r.event_id ≡ e.event_id) × Blames u e r.code
  Blames-of_problem none r p h = absurd (ground arith)
  Blames-of_problem (some (c, m)) r p h =
      (ground arith, subst (Blames u e) (ground arith) (check_event-Blames u e c m p))

  -- A rejection carries the id of its event, and its code names a fault that the event has.
  pub event-Blames :
      (r : Reject) → event u e ≡ some r → (r.event_id ≡ e.event_id) × Blames u e r.code
  unfolding event
  event-Blames r h = Blames-of_problem (check_event u e) r refl h
