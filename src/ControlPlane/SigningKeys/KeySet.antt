-- ===== src/ControlPlane/SigningKeys/KeySet.antt =====
-- pkg/controlplane/keys.go: what the published set holds under the id of a key of the table.
use mathlib.Core.List.{Memᴰ}
use mathlib.Core.Path.{subst}
use event_tracking.Prelude.{
  String, ◌≡◌, refl, sym, ap, ◌∙◌, arith, true, false, List, [], ◌∷◌, Option, none, some, ◌==◌,
  eq_iff, eq_refl, Bool-cases, inl, inr, if◌then◌else◌,
}
use event_tracking.ControlPlane.SigningKeys.{
  KeyRow, is_live, active_signing_key, has_kid, PublishedKey, published, public_jwks,
}
use event_tracking.ControlPlane.SigningKeys.Bootstrap.{with_key_cases}

-- The primary key of signing_keys.
abbrev pub HasDistinctKids : List KeyRow → Type 0
HasDistinctKids [] = Unit
HasDistinctKids (r ∷ rows) = (has_kid r.kid rows ≡ false) × HasDistinctKids rows

-- A key of the table that is not retired, with its two halves.
pub record Holds (rows : List KeyRow) (kid public_key : String) : Type 0 where
  pub row : KeyRow
  pub member : Memᴰ row rows
  pub named : row.kid ≡ kid
  pub half : row.public_key ≡ public_key
  pub in_force : row.is_retired ≡ false

-- The later table still has each key that was in force, under its id: keys are added, and the active
-- one changes, but none is retired or replaced.
abbrev pub Retains : List KeyRow → List KeyRow → Type 0
Retains rows later =
    (kid public_key : String) → Holds rows kid public_key → Holds later kid public_key

has_kid-Memᴰ : (r : KeyRow) (rows : List KeyRow) → Memᴰ r rows → has_kid r.kid rows ≡ true
unfolding has_kid
has_kid-Memᴰ r [] m = elim m [ ]
has_kid-Memᴰ r (x ∷ rows) (Memᴰ.head e) = rw (← e) (ground (arith, eq_refl r.kid))
has_kid-Memᴰ r (x ∷ rows) (Memᴰ.tail m) = ground (arith, has_kid-Memᴰ r rows m)

-- The active key is a row of the table that is in force.
pub active_signing_key-Holds :
    (rows : List KeyRow) (kid private_key : String)
    → active_signing_key rows ≡ some (kid, private_key)
    → (r : KeyRow) × Memᴰ r rows
      × (r.kid ≡ kid)
      × (r.private_key ≡ private_key)
      × (r.is_retired ≡ false)
unfolding active_signing_key
active_signing_key-Holds [] kid p h = absurd (ground arith)
active_signing_key-Holds (r ∷ rows) kid p h = elim (Bool-cases (is_live r)) [
  | inl t ↦ (r, Memᴰ.head refl, ground arith, ground arith, ground arith)
  | inr f ↦
      let (x, m, a, b, c) = active_signing_key-Holds rows kid p (ground arith) in
      (x, Memᴰ.tail m, a, b, c)
]

module _ {K : Type 0} (import_key : String → Option K) where
  -- LookupKeyID of a set: the first key with the id
  unfoldable pub first_with : String → List (PublishedKey K) → Option (PublishedKey K)
  first_with kid [] = none
  first_with kid (k ∷ set) = if k.id == kid then some k else first_with kid set

  -- The set has the public half of the row under the row's id.
  abbrev pub IsFound : List (PublishedKey K) → KeyRow → Type 0
  IsFound set r =
      (k : K) × (import_key r.public_key ≡ some k)
      × (first_with r.kid set ≡ some (published import_key r k))

  IsFound-first :
      (r : KeyRow) (rows : List KeyRow) (set : List (PublishedKey K))
      → r.is_retired ≡ false
      → public_jwks import_key (r ∷ rows) ≡ some set
      → IsFound set r
  unfolding public_jwks first_with
  IsFound-first r rows set f h =
      let (k, xs, same, q, i) =
        with_key_cases import_key (import_key r.public_key) r (public_jwks import_key rows) set
          (ground arith) in
      (k, i, rw q (ground (arith, eq_refl r.kid)))

  -- A key that is in force is found in the published set under its id.
  pub first_with-public_jwks :
      (rows : List KeyRow) (r : KeyRow) (set : List (PublishedKey K))
      → HasDistinctKids rows
      → Memᴰ r rows
      → r.is_retired ≡ false
      → public_jwks import_key rows ≡ some set
      → IsFound set r
  unfolding public_jwks first_with
  first_with-public_jwks [] r set d m f h = elim m [ ]
  first_with-public_jwks (x ∷ rows) r set d (Memᴰ.head e) f h =
      subst (IsFound set) (sym e) (IsFound-first x rows set (ap (λ y. y.is_retired) (sym e) ∙ f) h)
  first_with-public_jwks (x ∷ rows) r set d (Memᴰ.tail m) f h = elim (Bool-cases x.is_retired) [
    | inl t ↦ first_with-public_jwks rows r set d.1 m f (ground arith)
    | inr g ↦
        let (k, xs, same, q, i) =
          with_key_cases import_key (import_key x.public_key) x (public_jwks import_key rows) set
            (ground arith) in
        let (k', i', found) = first_with-public_jwks rows r xs d.1 m f same in
        (k', i', rw q (ground (arith, eq_iff x.kid r.kid, has_kid-Memᴰ r rows m, d.0)))
  ]
