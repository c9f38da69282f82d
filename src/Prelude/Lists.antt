-- ===== src/Prelude/Lists.antt =====
-- Lists measured by native numbers, and predicates on all members.
use Prim.Native.Nat.{ℕ, suc, ◌+◌}
use mathlib.Core.Path.{◌≡◌, sym, subst}
use mathlib.Core.Logic.{◌⊎◌, inl, inr}
use mathlib.Core.List.{List, [], ◌∷◌, ◌++◌, Memᴰ}
use native.Mathlib.Omega.{arith}

module _ {ℓ} {A : Type ℓ} where
  abbrev pub length : List A → ℕ
  length [] = 0
  length (x ∷ xs) = suc (length xs)

  pub length-append : (xs ys : List A) → length (xs ++ ys) ≡ length xs + length ys
  length-append [] ys = omega arith
  length-append (x ∷ xs) ys = omega (arith, length-append xs ys)

abbrev pub All {ℓ κ} : {A : Type ℓ} → (A → Type κ) → List A → Type κ
All P [] = Unit
All P (x ∷ xs) = P x × All P xs

pub All-append {ℓ κ} :
    {A : Type ℓ} (P : A → Type κ) (xs ys : List A) → All P xs → All P ys → All P (xs ++ ys)
All-append P [] ys hx hy = hy
All-append P (x ∷ xs) ys hx hy = (hx.0, All-append P xs ys hx.1 hy)

pub Memᴰ-append_cases :
    {A : Type 0} (x : A) (xs ys : List A) → Memᴰ x (xs ++ ys) → Memᴰ x xs ⊎ Memᴰ x ys
Memᴰ-append_cases x [] ys m = inr m
Memᴰ-append_cases x (z ∷ xs) ys (Memᴰ.head e) = inl (Memᴰ.head e)
Memᴰ-append_cases x (z ∷ xs) ys (Memᴰ.tail m) = elim (Memᴰ-append_cases x xs ys m) [
  | inl a ↦ inl (Memᴰ.tail a)
  | inr b ↦ inr b
]

pub Memᴰ-append_of :
    {A : Type 0} (x : A) (xs ys : List A) → Memᴰ x xs ⊎ Memᴰ x ys → Memᴰ x (xs ++ ys)
Memᴰ-append_of x [] ys (inl m) = elim m [ ]
Memᴰ-append_of x [] ys (inr m) = m
Memᴰ-append_of x (z ∷ xs) ys (inl (Memᴰ.head e)) = Memᴰ.head e
Memᴰ-append_of x (z ∷ xs) ys (inl (Memᴰ.tail m)) = Memᴰ.tail (Memᴰ-append_of x xs ys (inl m))
Memᴰ-append_of x (z ∷ xs) ys (inr m) = Memᴰ.tail (Memᴰ-append_of x xs ys (inr m))

pub All-Memᴰ : {A : Type 0} (P : A → Type 0) (x : A) (xs : List A) → All P xs → Memᴰ x xs → P x
All-Memᴰ P x [] h m = elim m [ ]
All-Memᴰ P x (y ∷ xs) h (Memᴰ.head e) = subst P (sym e) h.0
All-Memᴰ P x (y ∷ xs) h (Memᴰ.tail m) = All-Memᴰ P x xs h.1 m
