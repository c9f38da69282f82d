-- ===== src/Handler/Batch/Redelivery.antt =====
-- The timestamps of an event that is delivered more than once.
pub mod Copies
use event_tracking.Prelude.{
  String, Bool, true, false, ◌≡◌, ◌⊎◌, refl, sym, ap, ◌∙◌, arith, List, [], ◌∷◌, Option, none, some,
  ok, Bool-cases, inl, inr, if◌then◌else◌,
}
use event_tracking.Prelude.Int.{ℤ}
use event_tracking.Time.{Time}
use event_tracking.Limits.{Quota}
use event_tracking.Contract.{Event}
use event_tracking.Tenant.{Claims}
use event_tracking.ClickHouse.{Row}
use event_tracking.Enrich.Row.{row}
use event_tracking.Enrich.Skew.{candidate_offset, correct, shifted}
use event_tracking.Enrich.Skew.Bounds.{InWindow, correct_repeated}
use event_tracking.Enrich.Offsets.{SessionKey, same_key, same_key_iff, Settles}
use event_tracking.Enrich.Offsets.Memory.{Offsets, find}
use event_tracking.Enrich.Offsets.Pinned.{Settles-some, Settles-held}
use event_tracking.Handler.Action.{
  Action, pure, notify, attempt, http_error, or_stop, ◌>>=◌, Keeps, Keeps-or_stop, Keeps-attempt,
  Keeps-guard,
}
use event_tracking.Handler.Triples.{Holds, Leads, Leads-bind, Leads-Keeps}
use mathlib.Core.Path.{subst}
use event_tracking.Handler.Batch.{
  Request, Deps, Codecs, Plan, session_of, validate_all, offset_of, remember, note_skew, enrich_all,
  prepare,
}

-- The offsets that the store holds in a world: the calls for offsets keep the contract of
-- OffsetStore, and the other calls change none.
pub record HoldsOffsets {W : Type 0} (d : Deps W) : Type 0 where
  pub view : W → SessionKey → Option ℤ
  pub settles :
      (key : SessionKey) (c : ℤ) (w : W)
      → Settles (d.get_or_set key c w).0 key c (view w) (view (d.get_or_set key c w).1)
  pub verify_view :
      (bearer : String) (now : Time) (w : W) → view (d.verify_or_legacy bearer now w).1 ≡ view w
  pub limits_view :
      (tenant_id : String) (tier : _) (w : W) → view (d.limits_for tenant_id tier w).1 ≡ view w
  pub allow_view :
      (c : Claims) (lim : Quota) (n : _) (now : Time) (w : W)
      → view (d.allow c lim n now w).1 ≡ view w
  pub insert_view : (rows : List Row) (w : W) → view (d.insert rows w).1 ≡ view w
  pub skew_view : (t device : String) (w : W) → view (d.on_clock_skew t device w) ≡ view w
  pub legacy_view : (t version : String) (w : W) → view (d.on_legacy_use t version w) ≡ view w

-- What is held stays held.
abbrev pub Grows : (SessionKey → Option ℤ) → (SessionKey → Option ℤ) → Type 0
Grows v v' = (key : SessionKey) (o : ℤ) → v key ≡ some o → v' key ≡ some o

module _ (k : Codecs) where
  -- Row by row and in order: the row of the event under the offset that the store holds for its
  -- session.
  abbrev pub IsPinned :
      Claims → Time → (SessionKey → Option ℤ) → List Event → List (Row × String) → Type 0
  IsPinned c now v [] [] = Unit
  IsPinned c now v [] (x ∷ xs) = ⊥
  IsPinned c now v (e ∷ es) [] = ⊥
  IsPinned c now v (e ∷ es) (x ∷ xs) =
      ((o : ℤ) × (v (session_of c e) ≡ some o) × (x.0 ≡ (row k.marshal_props e c o now).0))
      × IsPinned c now v es xs

  IsPinned-Grows :
      (c : Claims) (now : Time) (v v' : SessionKey → Option ℤ) (es : List Event)
      (rows : List (Row × String))
      → Grows v v'
      → IsPinned c now v es rows
      → IsPinned c now v' es rows
  IsPinned-Grows c now v v' [] [] g h = tt
  IsPinned-Grows c now v v' [] (x ∷ xs) g h = h
  IsPinned-Grows c now v v' (e ∷ es) [] g h = h
  IsPinned-Grows c now v v' (e ∷ es) (x ∷ xs) g ((o, p, q), h) =
      ((o, g (session_of c e) o p, q), IsPinned-Grows c now v v' es xs g h)

  remembered :
      (m : Offsets) (key : SessionKey) (o : ℤ) (v : SessionKey → Option ℤ)
      → v key ≡ some o
      → Grows (find m) v
      → Grows (find ((key, o) ∷ m)) v
  unfolding find
  remembered m key o v now g j x p = elim (Bool-cases (same_key key j)) [
    | inl t ↦ ground (arith, ap v ((same_key_iff key j).0 t))
    | inr f ↦ g j x (ground arith)
  ]

  nothing : (v : SessionKey → Option ℤ) → Grows (find []) v
  unfolding find
  nothing v j x p = absurd (ground arith)

  module _ {W : Type 0} (d : Deps W) (l : HoldsOffsets d) where
    -- The batch's own map holds offsets of the store, which has forgotten none of `v`.
    abbrev Memo : (SessionKey → Option ℤ) → Offsets → W → Type 0
    Memo v m w = Grows v (l.view w) × Grows (find m) (l.view w)

    offset_of-Leads :
        (v : SessionKey → Option ℤ) (key : SessionKey) (c : ℤ) (m : Offsets)
        → Leads
            (Memo v m)
            (offset_of k d key c m)
            (λ o w. Memo v (remember k d key o m) w × (l.view w key ≡ some o))
    unfolding offset_of
    offset_of-Leads v key c m w h = go (find m key) refl
      where
        stored :
            (a : Option ℤ) (w' : W)
            → Settles a key c (l.view w) (l.view w')
            → Holds
                (λ o w. Memo v ((key, o) ∷ m) w × (l.view w key ≡ some o))
                (or_stop a (http_error 503 "offset store unavailable") w').0
                (or_stop a (http_error 503 "offset store unavailable") w').1
        stored none w' s = tt
        stored (some o) w' s =
            let now = (Settles-some (some o) key c o (l.view w) (l.view w') s refl).1 in
            (
              (
                λ j x p. Settles-held (some o) key j c x (l.view w) (l.view w') s (h.0 j x p),
                λ j x p.
                    remembered m key o (l.view w') now
                      (λ j x p.
                        Settles-held (some o) key j c x (l.view w) (l.view w') s (h.1 j x p))
                      j x p,
              ),
              now,
            )

        go :
            (s : Option ℤ)
            → find m key ≡ s
            → Holds
                (λ o w.
                  Memo v (elim s as (λ _. Offsets) [ none ↦ (key, o) ∷ m | some x ↦ m ]) w
                  × (l.view w key ≡ some o))
                ((elim s as (λ _. Action W ℤ) [
                  | none ↦ attempt (d.get_or_set key c) (http_error 503 "offset store unavailable")
                  | some o ↦ pure o
                ])
                  w).0
                ((elim s as (λ _. Action W ℤ) [
                  | none ↦ attempt (d.get_or_set key c) (http_error 503 "offset store unavailable")
                  | some o ↦ pure o
                ])
                  w).1
        go none e = stored (d.get_or_set key c w).0 (d.get_or_set key c w).1 (l.settles key c w)
        go (some o) e = (h, h.1 key o e)

    pub note_legacy_view :
        (legacy : Bool) (t version : String) (w : W)
        → l.view (if legacy then d.on_legacy_use t version w else w) ≡ l.view w
    note_legacy_view true t version w = l.legacy_view t version w
    note_legacy_view false t version w = refl

    -- a step that keeps the view, before the rest
    step :
        {A B : Type 0} (v : SessionKey → Option ℤ) (m : Action W A) (f : A → Action W B)
        (Q : B → W → Type 0)
        → Keeps l.view m
        → ((a : A) → Leads (λ w. Grows v (l.view w)) (f a) Q)
        → Leads (λ w. Grows v (l.view w)) (m >>= f) Q
    step v m f Q keep rest =
        Leads-bind (λ w. Grows v (l.view w)) m f (λ _ w. Grows v (l.view w)) Q
          (Leads-Keeps l.view (Grows v) m keep) rest

    pub note_skew_view :
        (clamped : Bool) (c : Claims) (e : Event) (w : W)
        → l.view (note_skew k d clamped c e w) ≡ l.view w
    note_skew_view true c e w = l.skew_view c.tenant_id e.device_id w
    note_skew_view false c e w = refl

    enrich_all-Leads :
        (c : Claims) (sent_at : ℤ) (now : Time) (v : SessionKey → Option ℤ) (m : Offsets)
        (es : List Event)
        → Leads
            (Memo v m)
            (enrich_all k d c sent_at now m es)
            (λ rows w. Grows v (l.view w) × IsPinned c now (l.view w) es rows)
    unfolding enrich_all
    enrich_all-Leads c sent_at now v m [] = λ w h. (h.0, tt)
    enrich_all-Leads c sent_at now v m (e ∷ es) =
        Leads-bind _ _ _ _ _ (offset_of-Leads v (session_of c e) (candidate_offset sent_at now) m)
          λ offset w h.
            let m' = remember k d (session_of c e) offset m in
            Leads-bind (Memo (l.view w) m') _ _ (λ _. Memo (l.view w) m') _
              (Leads-Keeps l.view (λ u. Grows (l.view w) u × Grows (find m') u)
                (notify (note_skew k d (row k.marshal_props e c offset now).1 c e))
                (note_skew_view _ c e))
              (λ _.
                Leads-bind _ _ _ _ _ (enrich_all-Leads c sent_at now (l.view w) m' es) λ rows u p. (
                  λ j x q. p.0 j x (h.0.0 j x q),
                  ((offset, p.0 (session_of c e) offset h.1, refl), p.1),
                ))
              w (λ j x q. q, h.0.1)

    pub prepare-Leads :
        (v : SessionKey → Option ℤ) (r : Request)
        → Leads
            (λ w. Grows v (l.view w))
            (prepare k d r)
            (λ p w.
              Grows v (l.view w)
              × IsPinned p.claims p.received_at
                  (l.view w)
                  (validate_all k p.request.events).0
                  p.rows)
    unfolding prepare
    prepare-Leads v r =
        step v _ _ _ (λ w. refl)
          λ received_at. step v _ _ _ (l.verify_view r.authorization received_at) λ auth.
            step v _ _ _ (Keeps-or_stop l.view _ _) λ who.
              step v _ _ _ (λ w. refl)
                λ body. step v _ _ _ (Keeps-or_stop l.view _ _) λ req.
                  step v _ _ _ (Keeps-guard l.view _ _) λ _.
                    step v _ _ _ (note_legacy_view who.1 _ _) λ _.
                      step v _ _ _ (Keeps-attempt l.view _ _ (l.limits_view _ _)) λ lim.
                        step v _ _ _ (Keeps-attempt l.view _ _ (l.allow_view who.0 _ _ received_at))
                          λ dec. step v _ _ _ (Keeps-guard l.view _ _) λ _.
                            Leads-bind _ _ _ _ _
                              (λ w g.
                                enrich_all-Leads who.0 req.sent_at received_at v [] _ w
                                  (g, nothing (l.view w)))
                              λ rows w h. h
