-- ===== src/Handler/Batch/Redelivery/Copies.antt =====
-- The two rows of an event that is delivered twice.
use event_tracking.Prelude.{
  String, ◌≡◌, ◌⊎◌, sym, ap, ◌∙◌, List, [], ◌∷◌, Option, none, some, ok, inl, inr,
}
use event_tracking.Prelude.Int.{ℤ}
use event_tracking.Time.{Time}
use event_tracking.Contract.{Event}
use event_tracking.Tenant.{Claims}
use event_tracking.ClickHouse.{Row}
use event_tracking.Enrich.Row.{row}
use event_tracking.Enrich.Skew.{correct, shifted}
use event_tracking.Enrich.Skew.Bounds.{InWindow, correct_repeated}
use event_tracking.Enrich.Offsets.{SessionKey}
use event_tracking.Handler.Triples.{Holds}
use mathlib.Core.Path.{subst}
use event_tracking.Handler.Batch.{Request, Deps, Codecs, Plan, session_of, validate_all, prepare}
use event_tracking.Handler.Batch.Redelivery.{HoldsOffsets, Grows, IsPinned, prepare-Leads}

-- ORDER BY of the events table, by which its replacing merges recognise a copy
abbrev pub sort_key : Row → String × String × Time × String
sort_key x = (x.tenant_id, x.name, x.ts, x.event_id)

-- `x` is the row built for `e`.
abbrev pub IsRowOf : Event → Row → List Event → List (Row × String) → Type 0
IsRowOf e x [] rows = ⊥
IsRowOf e x (f ∷ es) [] = ⊥
IsRowOf e x (f ∷ es) (y ∷ ys) = ((f ≡ e) × (y.0 ≡ x)) ⊎ IsRowOf e x es ys

-- One offset dates both rows of an event that was received at `r` and at `r'`; they have one sort
-- key when the shifted device time is plausible at both times.
abbrev pub AreCopies : Event → Time → Time → Row → Row → Type 0
AreCopies e r r' x x' =
    (o : ℤ) × (x.ts ≡ (correct e.ts_client o r).0)
    × (x'.ts ≡ (correct e.ts_client o r').0)
    × (InWindow (shifted e.ts_client o) r
        → InWindow (shifted e.ts_client o) r'
        → sort_key x' ≡ sort_key x)

module _ (k : Codecs) where
  pinned_row :
      (c : Claims) (now : Time) (v : SessionKey → Option ℤ) (es : List Event)
      (rows : List (Row × String)) (e : Event) (x : Row)
      → IsPinned k c now v es rows
      → IsRowOf e x es rows
      → (o : ℤ) × (v (session_of c e) ≡ some o) × (x ≡ (row k.marshal_props e c o now).0)
  pinned_row c now v [] rows e x h m = absurd m
  pinned_row c now v (f ∷ es) [] e x h m = absurd m
  pinned_row c now v (f ∷ es) (y ∷ ys) e x (h, hs) (inl (p, q)) = (
    h.0,
    ap (λ g. v (session_of c g)) (sym p) ∙ h.1,
    sym q ∙ h.2 ∙ ap (λ g. (row k.marshal_props g c h.0 now).0) p,
  )
  pinned_row c now v (f ∷ es) (y ∷ ys) e x (h, hs) (inr m) = pinned_row c now v es ys e x hs m

  one_offset :
      (v : SessionKey → Option ℤ) (c c' : Claims) (e : Event) (o o' : ℤ)
      → c.tenant_id ≡ c'.tenant_id
      → v (session_of c e) ≡ some o
      → v (session_of c' e) ≡ some o'
      → o' ≡ o
  one_offset v c c' e o o' t h h' =
      ap (λ s. elim s as (λ _. ℤ) [ none ↦ o | some x ↦ x ])
        (sym h'
          ∙ ap
              (λ i.
                v (record { tenant_id = i; device_id = e.device_id; session_id = e.session_id }))
              (sym t)
          ∙ h)

  copies :
      (v : SessionKey → Option ℤ) (c c' : Claims) (r r' : Time) (e : Event) (x x' : Row)
      → c.tenant_id ≡ c'.tenant_id
      → (o : ℤ) × (v (session_of c e) ≡ some o) × (x ≡ (row k.marshal_props e c o r).0)
      → (o : ℤ) × (v (session_of c' e) ≡ some o) × (x' ≡ (row k.marshal_props e c' o r').0)
      → AreCopies e r r' x x'
  unfolding row
  copies v c c' r r' e x x' t (o, s, h) (o', s', h') =
      let same = one_offset v c c' e o o' t s s' in
      let g = h' ∙ ap (λ s. (row k.marshal_props e c' s r').0) same in
      (
        o,
        ap (λ y. y.ts) h,
        ap (λ y. y.ts) g,
        λ i i'.
            ap sort_key g
            ∙ ap (λ t. (t, e.name, (correct e.ts_client o r').0, e.event_id)) (sym t)
            ∙ ap (λ t. (c.tenant_id, e.name, t, e.event_id))
                ((correct_repeated e.ts_client o r r').0 i i')
            ∙ sym (ap sort_key h),
      )

  module _ {W : Type 0} (d : Deps W) (l : HoldsOffsets d) where
    prepared :
        (r : Request) (w : W) (p : Plan k d)
        → (prepare k d r w).0 ≡ ok p
        → Grows (l.view w) (l.view (prepare k d r w).1)
          × IsPinned k p.claims p.received_at
              (l.view (prepare k d r w).1)
              (validate_all k p.request.events).0
              p.rows
    prepared r w p e =
        subst
          (λ a.
            Holds
              (λ p u.
                Grows (l.view w) (l.view u)
                × IsPinned k p.claims p.received_at (l.view u) (validate_all k p.request.events).0
                    p.rows)
              a (prepare k d r w).1)
          e (prepare-Leads k d l (l.view w) r w (λ j x q. q))

    -- An event that two requests of one tenant deliver is dated by one offset in both, also if the
    -- second claims another clock, when the store forgets nothing between them: its two rows have
    -- the same sort key when the time it claims is plausible at both receipts.
    pub redelivered :
        (r r' : Request) (w w' : W) (p p' : Plan k d)
        → (prepare k d r w).0 ≡ ok p
        → (prepare k d r' w').0 ≡ ok p'
        → Grows (l.view (prepare k d r w).1) (l.view w')
        → (p.claims).tenant_id ≡ (p'.claims).tenant_id
        → (e : Event) (x x' : Row) → IsRowOf e x (validate_all k p.request.events).0 p.rows
        → IsRowOf e x' (validate_all k p'.request.events).0 p'.rows
        → AreCopies e p.received_at p'.received_at x x'
    redelivered r r' w w' p p' h h' g t e x x' m m' =
        let (g1, pins) = prepared r w p h in
        let (g2, pins') = prepared r' w' p' h' in
        let (o, v, i) =
          pinned_row p.claims p.received_at (l.view (prepare k d r w).1) _ p.rows e x pins m in
        copies (l.view (prepare k d r' w').1) p.claims p'.claims p.received_at p'.received_at e x x'
          t (o, g2 (session_of p.claims e) o (g (session_of p.claims e) o v), i)
          (pinned_row p'.claims p'.received_at (l.view (prepare k d r' w').1) _ p'.rows e x' pins'
            m')
