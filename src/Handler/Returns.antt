-- ===== src/Handler/Returns.antt =====
-- Rules for steps that return a value, as long as what holds of the world lets them.
use event_tracking.Prelude.{◌≡◌, refl, Bool, true, Option, some, ok, sym}
use event_tracking.Handler.Action.{Action, Response, or_stop, guard, continue, ◌>>=◌}
use mathlib.Core.Path.{subst}

module _ {W : Type 0} where
  -- From a world with `P`, the step returns a value with `Q`, in a world with `S`.
  abbrev pub Moves : (P S : W → Type 0) → {A : Type 0} → Action W A → (A → Type 0) → Type 0
  Moves P S {A} m Q = (w : W) → P w → ((a : A) × ((m w).0 ≡ ok a) × Q a) × S (m w).1

  pub Moves-bind :
      (P S T : W → Type 0) {A B : Type 0} (m : Action W A) (f : A → Action W B) (R : A → Type 0)
      (Q : B → Type 0)
      → Moves P S m R
      → ((a : A) → R a → Moves S T (f a) Q)
      → Moves P T (m >>= f) Q
  unfolding ◌>>=◌
  Moves-bind P S T {A} {B} m f R Q hm hf w p =
      let ((a, e, r), q) = hm w p in
      subst (λ x. ((b : B) × ((continue x f (m w).1).0 ≡ ok b) × Q b) × T (continue x f (m w).1).1)
        (sym e) (hf a r (m w).1 q)

  -- a step that returns a known value
  pub Moves-known :
      (P S T : W → Type 0) {A B : Type 0} (m : Action W A) (f : A → Action W B) (a : A)
      (Q : B → Type 0)
      → ((w : W) → P w → ((m w).0 ≡ ok a) × S (m w).1)
      → Moves S T (f a) Q
      → Moves P T (m >>= f) Q
  unfolding ◌>>=◌
  Moves-known P S T {A} {B} m f a Q hm hf w p =
      let (e, q) = hm w p in
      subst (λ x. ((b : B) × ((continue x f (m w).1).0 ≡ ok b) × Q b) × T (continue x f (m w).1).1)
        (sym e) (hf (m w).1 q)

  -- a call that answers
  pub Moves-attempt :
      (P S : W → Type 0) {A : Type 0} (call : W → Option A × W) (r : Response) (Q : A → Type 0)
      → ((w : W) → P w → ((a : A) × ((call w).0 ≡ some a) × Q a) × S (call w).1)
      → Moves P S (λ w. or_stop (call w).0 r (call w).1) Q
  Moves-attempt P S {A} call r Q h w p =
      let ((a, e, q), p') = h w p in
      subst
        (λ x. ((b : A) × ((or_stop x r (call w).1).0 ≡ ok b) × Q b) × S (or_stop x r (call w).1).1)
        (sym e) ((a, refl, q), p')

module _ {W : Type 0} (P : W → Type 0) where
  -- The step keeps `P`.
  abbrev pub Returns : {A : Type 0} → Action W A → (A → Type 0) → Type 0
  Returns m Q = Moves P P m Q

  pub known-or_stop :
      {A : Type 0} (o : Option A) (r : Response) (a : A)
      → o ≡ some a
      → (w : W) → P w
      → ((or_stop o r w).0 ≡ ok a) × P (or_stop o r w).1
  known-or_stop {A} o r a e w p =
      subst (λ x. ((or_stop x r w).0 ≡ ok a) × P (or_stop x r w).1) (sym e) (refl, p)

  pub known-guard :
      (b : Bool) (r : Response)
      → b ≡ true
      → (w : W) → P w
      → ((guard b r w).0 ≡ ok tt) × P (guard b r w).1
  known-guard b r e w p =
      subst (λ x. ((guard x r w).0 ≡ ok tt) × P (guard x r w).1) (sym e) (refl, p)
