-- ===== src/ControlPlane/SigningKeys/Bootstrap.antt =====
-- pkg/controlplane/keys.go: the active key after EnsureSigningKey, and the published set.
use mathlib.Core.List.{Memᴰ}
use event_tracking.Prelude.{
  ℕ, ◌≤◌, ◌+◌, String, ◌≡◌, ◌⊎◌, refl, arith, Bool, true, false, List, [], ◌∷◌, ◌++◌, Option, none,
  some, is_some, Bool-cases, Option-cases, inl, inr, if◌then◌else◌,
}
use event_tracking.ControlPlane.SigningKeys.{
  KeyRow, is_live, active_signing_key, PublishedKey, published, with_key, public_jwks, insert_first,
  ensure_signing_key,
}

-- the number of active keys
unfoldable pub live : List KeyRow → ℕ
live [] = 0
live (r ∷ rows) = (if is_live r then 1 else 0) + live rows

live-append : (r : KeyRow) (rows : List KeyRow) → live (rows ++ r ∷ []) ≡ live rows + live (r ∷ [])
unfolding live
live-append r [] = ground arith
live-append r (x ∷ rows) = ground (arith, live-append r rows)

live-none : (rows : List KeyRow) → active_signing_key rows ≡ none → live rows ≡ 0
unfolding live active_signing_key
live-none [] h = refl
live-none (r ∷ rows) h = ground (arith, live-none rows)

active-append :
    (r : KeyRow) (rows : List KeyRow)
    → active_signing_key rows ≡ none
    → is_live r ≡ true
    → active_signing_key (rows ++ r ∷ []) ≡ some (r.kid, r.private_key)
unfolding active_signing_key
active-append r [] h a = ground arith
active-append r (x ∷ rows) h a = ground (arith, active-append r rows)

module _ (fails query_fails : Bool) (kid public_key private_key : String) (rows : List KeyRow) where
  abbrev fresh_row : KeyRow
  fresh_row = record {
    kid = kid;
    public_key = public_key;
    private_key = private_key;
    active = true;
    is_retired = false;
  }

  live_fresh : live (fresh_row ∷ []) ≡ 1
  unfolding live
  live_fresh = refl

  pub ensure_signing_key_cases :
      ((ensure_signing_key fails query_fails kid public_key private_key rows).0 ≡ true
        → is_some (
            active_signing_key
              (ensure_signing_key fails query_fails kid public_key private_key rows).1)
          ≡ true)
      × (((ensure_signing_key fails query_fails kid public_key private_key rows).1 ≡ rows)
          ⊎ (((ensure_signing_key fails query_fails kid public_key private_key rows).1
                ≡ rows ++ fresh_row ∷ [])
              × (live rows ≡ 0)))
      × (live rows ≤ 1
          → live (ensure_signing_key fails query_fails kid public_key private_key rows).1 ≤ 1)
  unfolding ensure_signing_key insert_first
  ensure_signing_key_cases = elim (Option-cases (active_signing_key rows)) [
    | inl e ↦ (
      λ h. ground (arith, active-append fresh_row rows e refl),
      ground (arith, live-none rows e),
      λ h. ground (arith, live-none rows e, live-append fresh_row rows, live_fresh),
    )
    | inr (x, e) ↦ (λ h. ground arith, inl (ground arith), λ h. ground arith)
  ]

module _ {K : Type 0} (import_key : String → Option K) where
  -- what AddKey leaves of the set of the other rows
  pub with_key_cases :
      (o : Option K) (r : KeyRow) (rest : Option (List (PublishedKey K)))
      (set : List (PublishedKey K))
      → with_key import_key o r rest ≡ some set
      → (k : K) × (xs : List (PublishedKey K)) × (rest ≡ some xs)
        × (set ≡ published import_key r k ∷ xs)
        × (o ≡ some k)
  with_key_cases none r rest set h = absurd (ground arith)
  with_key_cases (some k) r none set h = absurd (ground arith)
  with_key_cases (some k) r (some xs) set h = (k, xs, refl, ground arith, refl)

  abbrev pub IsPublishedIn : String → List (PublishedKey K) → Type 0
  IsPublishedIn kid set = (k : PublishedKey K) × Memᴰ k set × (k.id ≡ kid) × (k.usage ≡ "sig")

  -- The key that the minter signs with is one of the published keys, marked for signing.
  pub active_signing_key-IsPublishedIn :
      (rows : List KeyRow) (kid private_key : String) (set : List (PublishedKey K))
      → active_signing_key rows ≡ some (kid, private_key)
      → public_jwks import_key rows ≡ some set
      → IsPublishedIn kid set
  unfolding active_signing_key public_jwks
  active_signing_key-IsPublishedIn [] kid p set h g = absurd (ground arith)
  active_signing_key-IsPublishedIn (r ∷ rows) kid p set h g = elim (Bool-cases r.is_retired) [
    | inl t ↦ active_signing_key-IsPublishedIn rows kid p set (ground arith) (ground arith)
    | inr f ↦
        let (k, xs, e, q, i) =
          with_key_cases (import_key r.public_key) r (public_jwks import_key rows) set
            (ground arith) in
        elim (Bool-cases r.active) [
          | inl a ↦ (published import_key r k, rw q (Memᴰ.head refl), ground arith, refl)
          | inr a ↦
              let (x, m, named, u) =
                active_signing_key-IsPublishedIn rows kid p xs (ground arith) e in
              (x, rw q (Memᴰ.tail m), named, u)
        ]
  ]
