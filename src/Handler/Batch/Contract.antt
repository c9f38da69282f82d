-- ===== src/Handler/Batch/Contract.antt =====
-- What the batch handler relies on in its dependencies, by what they do to the rows in storage.
use mathlib.Core.Path.{subst}
use event_tracking.Prelude.{
  ℕ, String, ◌≡◌, refl, List, ◌∷◌, if◌then◌else◌, arith, ◌++◌, true, Bool, false, Option-cases,
  Bool-cases, map, Result, ok, err, sym, inl, inr, [],
}
use event_tracking.Prelude.Int.{ℤ}
use event_tracking.Time.{Time}
use event_tracking.Limits.{Quota}
use event_tracking.Tenant.{Claims}
use event_tracking.ClickHouse.{Row}
use event_tracking.Contract.{Event}
use event_tracking.Enrich.Offsets.{SessionKey}
use event_tracking.Enrich.Offsets.Memory.{Offsets, find}
use event_tracking.Handler.Action.{
  Response, continue, ◌>>=◌, http_error, Keeps, Keeps-bind, Keeps-or_stop, Keeps-attempt,
  Keeps-guard,
}
use event_tracking.Handler.Batch.{
  Request, Deps, Codecs, Plan, finish, serve, response_of, offset_of, note_skew, enrich_all,
  prepare, remember, session_of,
}

-- No dependency but the insert changes what is seen of the world.
pub record Spares {W O : Type 0} (d : Deps W) (see : W → O) : Type 0 where
  pub verify_keeps :
      (bearer : String) (now : Time) (w : W) → see (d.verify_or_legacy bearer now w).1 ≡ see w
  pub limits_keeps :
      (tenant_id : String) (tier : ℕ) (w : W) → see (d.limits_for tenant_id tier w).1 ≡ see w
  pub allow_keeps :
      (c : Claims) (lim : Quota) (n : ℕ) (now : Time) (w : W)
      → see (d.allow c lim n now w).1 ≡ see w
  pub offsets_keep :
      (key : SessionKey) (candidate : ℤ) (w : W) → see (d.get_or_set key candidate w).1 ≡ see w
  pub skew_keeps :
      (tenant_id device_id : String) (w : W) → see (d.on_clock_skew tenant_id device_id w) ≡ see w
  pub legacy_keeps :
      (tenant_id version : String) (w : W) → see (d.on_legacy_use tenant_id version w) ≡ see w

-- A successful insert has stored the rows at the end, and no other dependency stores or removes one.
pub record IsDeps {W : Type 0} (d : Deps W) : Type 0 where
  pub stored : W → List Row
  pub inserted :
      (rows : List Row) (w : W)
      → (d.insert rows w).0 ≡ true
      → stored (d.insert rows w).1 ≡ stored w ++ rows
  pub spares : Spares d stored

module _ (k : Codecs) {W O : Type 0} (d : Deps W) (see : W → O) (l : Spares d see) where
  offset_of-Keeps : (key : SessionKey) (c : ℤ) (m : Offsets) → Keeps see (offset_of k d key c m)
  unfolding offset_of
  offset_of-Keeps key c m w = elim (Option-cases (find m key)) [
    | inl e ↦ ground (
      arith,
      Keeps-attempt see (d.get_or_set key c) (http_error 503 "offset store unavailable")
          (l.offsets_keep key c) w,
    )
    | inr (o, e) ↦ ground arith
  ]

  note_skew_keeps :
      (clamped : Bool) (c : Claims) (e : Event) (w : W) → see (note_skew k d clamped c e w) ≡ see w
  note_skew_keeps true c e w = l.skew_keeps c.tenant_id e.device_id w
  note_skew_keeps false c e w = refl

  note_legacy_keeps :
      (legacy : Bool) (tenant_id version : String) (w : W)
      → see (if legacy then d.on_legacy_use tenant_id version w else w) ≡ see w
  note_legacy_keeps true tenant_id version w = l.legacy_keeps tenant_id version w
  note_legacy_keeps false tenant_id version w = refl

  enrich_all-Keeps :
      (c : Claims) (sent_at : ℤ) (now : Time) (m : Offsets) (es : List Event)
      → Keeps see (enrich_all k d c sent_at now m es)
  unfolding enrich_all
  enrich_all-Keeps c sent_at now m [] = λ w. refl
  enrich_all-Keeps c sent_at now m (e ∷ es) = Keeps-bind see _ _ (offset_of-Keeps _ _ m) λ offset.
      Keeps-bind see _ _ (note_skew_keeps _ c e) λ _.
        Keeps-bind see _ _
          (enrich_all-Keeps c sent_at now (remember k d (session_of c e) offset m) es)
          λ rest w. refl

  -- Nothing of it is changed before the insert, however far the handler gets.
  pub prepare-Keeps : (r : Request) → Keeps see (prepare k d r)
  unfolding prepare
  prepare-Keeps r =
      Keeps-bind see _ _ (λ w. refl)
        λ received_at. Keeps-bind see _ _ (l.verify_keeps r.authorization received_at) λ auth.
          Keeps-bind see _ _ (Keeps-or_stop see _ _) λ who.
            Keeps-bind see _ _ (λ w. refl)
              λ body. Keeps-bind see _ _ (Keeps-or_stop see _ _) λ req.
                Keeps-bind see _ _ (Keeps-guard see _ _) λ _.
                  Keeps-bind see _ _ (note_legacy_keeps who.1 _ _) λ _.
                    Keeps-bind see _ _ (Keeps-attempt see _ _ (l.limits_keeps _ _)) λ lim.
                      Keeps-bind see _ _
                        (Keeps-attempt see _ _ (l.allow_keeps who.0 _ _ received_at))
                        λ dec.
                          Keeps-bind see _ _ (Keeps-guard see _ _)
                            λ _. Keeps-bind see _ _ (enrich_all-Keeps _ _ _ _ _) λ rows w. refl

  -- What follows the insert changes nothing.
  pub finish_world :
      (p : Plan k d) (w : W) → (finish k d p w).1 ≡ (d.insert (map (λ x. x.0) p.rows) w).1
  unfolding finish ◌>>=◌
  finish_world p w = elim (Bool-cases (d.insert (map (λ x. x.0) p.rows) w).0) [
    | inl t ↦ elim (Option-cases (k.marshal (response_of k d p))) [
      | inl n ↦ ground arith
      | inr (text, m) ↦ ground arith
    ]
    | inr f ↦ ground arith
  ]

  -- What holds of it before a request, and stays through an insert, holds after the request.
  pub serve_keeps :
      (P : O → Type 0)
      → ((rows : List Row) (w : W) → P (see w) → P (see (d.insert rows w).1))
      → (r : Request) (w : W) → P (see w)
      → P (see (serve k d r w).1)
  unfolding serve ◌>>=◌
  serve_keeps P inserts r w h = go (prepare k d r w).0 (subst P (sym (prepare-Keeps r w)) h)
    where
      go :
          (a : Result Response (Plan k d))
          → P (see (prepare k d r w).1)
          → P (see (continue a (finish k d) (prepare k d r w).1).1)
      go (err res) s = s
      go (ok p) s =
          subst (λ u. P (see u)) (sym (finish_world p (prepare k d r w).1))
            (inserts (map (λ y. y.0) p.rows) (prepare k d r w).1 s)
