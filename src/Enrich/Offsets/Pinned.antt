-- ===== src/Enrich/Offsets/Pinned.antt =====
-- A client of the contract of OffsetStore: the offsets of a session over a run of calls.
use event_tracking.Prelude.{
  ◌≡◌, List, [], ◌∷◌, Option, none, some, arith, Bool-cases, inl, inr, ap, ◌∙◌,
}
use event_tracking.Prelude.Int.{ℤ}
use event_tracking.Enrich.Offsets.{
  SessionKey, same_key, same_key_iff, OffsetStore, first_contact, Settles, IsOffsetStore,
}

-- A value answers, and the key is held from then on.
pub Settles-some :
    (a : Option ℤ) (k : SessionKey) (c v : ℤ) (before later : SessionKey → Option ℤ)
    → Settles a k c before later
    → a ≡ some v
    → (v ≡ first_contact (before k) c) × (later k ≡ some v)
Settles-some none k c v before later h e = absurd (ground arith)
Settles-some (some w) k c v before later h e = ground (arith, h.1 k, same_key_iff k k)

-- What is held stays held, whatever key the call is for.
pub Settles-held :
    (a : Option ℤ) (j k : SessionKey) (c v : ℤ) (before later : SessionKey → Option ℤ)
    → Settles a j c before later
    → before k ≡ some v
    → later k ≡ some v
Settles-held none j k c v before later (inl h) e = h k ∙ e
Settles-held none j k c v before later (inr h) e = elim (Bool-cases (same_key j k)) [
  | inl t ↦ ground (arith, h k, ap before ((same_key_iff j k).0 t))
  | inr f ↦ ground (arith, h k)
]
Settles-held (some w) j k c v before later h e = elim (Bool-cases (same_key j k)) [
  | inl t ↦ ground (arith, h.1 k, ap before ((same_key_iff j k).0 t))
  | inr f ↦ ground (arith, h.1 k)
]

module _ (o : OffsetStore) where
  -- Calls of other requests, in the order in which the store serves them.
  unfoldable pub after : o.Store → List (SessionKey × ℤ) → o.Store
  after s [] = s
  after s ((k, c) ∷ calls) = after (o.get_or_set k c s).1 calls

  module _ (l : IsOffsetStore o) where
    held_after :
        (k : SessionKey) (v : ℤ) (s : o.Store) (calls : List (SessionKey × ℤ))
        → l.view s k ≡ some v
        → l.view (after s calls) k ≡ some v
    unfolding after
    held_after k v s [] e = e
    held_after k v s ((j, c) ∷ calls) e =
        held_after k v (o.get_or_set j c s).1 calls
          (Settles-held _ j k c v (l.view s) _ (l.settles j c s) e)

    -- Two deliveries of one session that both get an offset get the same one, whatever candidates
    -- they bring and whatever calls, failed ones included, the store serves in between.
    pub get_or_set_pinned :
        (k : SessionKey) (c c' v v' : ℤ) (s : o.Store) (calls : List (SessionKey × ℤ))
        → (o.get_or_set k c s).0 ≡ some v
        → (o.get_or_set k c' (after (o.get_or_set k c s).1 calls)).0 ≡ some v'
        → v' ≡ v
    get_or_set_pinned k c c' v v' s calls e e' =
        let first = Settles-some _ k c v (l.view s) _ (l.settles k c s) e in
        let t = after (o.get_or_set k c s).1 calls in
        let again = Settles-some _ k c' v' (l.view t) _ (l.settles k c' t) e' in
        let held = held_after k v (o.get_or_set k c s).1 calls first.1 in
        again.0 ∙ ap (λ x. first_contact x c') held
