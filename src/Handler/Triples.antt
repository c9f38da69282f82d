-- ===== src/Handler/Triples.antt =====
-- Rules that follow the world through a handler's steps, as far as they go without an early return.
use event_tracking.Prelude.{◌≡◌, refl, sym, Option, none, some, Result, ok, err}
use event_tracking.Handler.Action.{Action, Response, Keeps, or_stop, attempt, continue, ◌>>=◌}
use mathlib.Core.Path.{subst}

module _ {W : Type 0} where
  -- A value of which `Q` holds in the world it is returned in, or an early return.
  abbrev pub Holds : {A : Type 0} → (A → W → Type 0) → Result Response A → W → Type 0
  Holds Q (ok a) w = Q a w
  Holds Q (err r) w = Unit

  -- From a world with `P`, a value that `m` returns has `Q`.
  abbrev pub Leads : {A : Type 0} → (W → Type 0) → Action W A → (A → W → Type 0) → Type 0
  Leads P m Q = (w : W) → P w → Holds Q (m w).0 (m w).1

  pub Leads-bind :
      {A B : Type 0} (P : W → Type 0) (m : Action W A) (f : A → Action W B) (R : A → W → Type 0)
      (Q : B → W → Type 0)
      → Leads P m R
      → ((a : A) → Leads (R a) (f a) Q)
      → Leads P (m >>= f) Q
  unfolding ◌>>=◌
  Leads-bind P m f R Q hm hf w p = go (m w).0 (hm w p)
    where
      go :
          (x : Result Response _)
          → Holds R x (m w).1
          → Holds Q (continue x f (m w).1).0 (continue x f (m w).1).1
      go (ok a) h = hf a (m w).1 h
      go (err r) h = tt

  -- A step that keeps an observation keeps what holds of it.
  pub Leads-Keeps :
      {A O : Type 0} (see : W → O) (P : O → Type 0) (m : Action W A)
      → Keeps see m
      → Leads (λ w. P (see w)) m (λ a w. P (see w))
  Leads-Keeps {A} see P m keep w p = go (m w).0 (subst P (sym (keep w)) p)
    where
      go : (x : Result Response A) → P (see (m w).1) → Holds (λ a w. P (see w)) x (m w).1
      go (ok a) h = h
      go (err r) h = tt

  pub Leads-or_stop :
      {A : Type 0} (P : W → Type 0) (o : Option A) (r : Response) (Q : A → W → Type 0)
      → ((a : A) (w : W) → o ≡ some a → P w → Q a w)
      → Leads P (or_stop o r) Q
  Leads-or_stop P none r Q h w p = tt
  Leads-or_stop P (some a) r Q h w p = h a w refl p

  pub Leads-attempt :
      {A : Type 0} (P : W → Type 0) (call : W → Option A × W) (r : Response) (Q : A → W → Type 0)
      → ((a : A) (w : W) → (call w).0 ≡ some a → P w → Q a (call w).1)
      → Leads P (attempt call r) Q
  Leads-attempt {A} P call r Q h w p = go (call w).0 refl
    where
      go :
          (o : Option A)
          → (call w).0 ≡ o
          → Holds Q (or_stop o r (call w).1).0 (or_stop o r (call w).1).1
      go none e = tt
      go (some a) e = h a w e p

  pub Leads-any : {A : Type 0} (P : W → Type 0) (m : Action W A) → Leads P m (λ _ _. Unit {0})
  Leads-any {A} P m w p = go (m w).0
    where
      go : (x : Result Response A) → Holds (λ _ _. Unit {0}) x (m w).1
      go (ok a) = tt
      go (err r) = tt

  -- What holds of the world before `m` holds after it, however `m` ends.
  abbrev pub Preserves : {A : Type 0} → (W → Type 0) → Action W A → Type 0
  Preserves P m = (w : W) → P w → P (m w).1

  pub Preserves-bind :
      {A B : Type 0} (P : W → Type 0) (m : Action W A) (f : A → Action W B)
      → Preserves P m
      → ((a : A) → Preserves P (f a))
      → Preserves P (m >>= f)
  unfolding ◌>>=◌
  Preserves-bind {A} P m f hm hf w p = go (m w).0
    where
      go : (x : Result Response A) → P (continue x f (m w).1).1
      go (ok a) = hf a (m w).1 (hm w p)
      go (err r) = hm w p

  pub Preserves-Keeps :
      {A O : Type 0} (see : W → O) (P : O → Type 0) (m : Action W A)
      → Keeps see m
      → Preserves (λ w. P (see w)) m
  Preserves-Keeps see P m keep w p = subst P (sym (keep w)) p

  pub Preserves-attempt :
      {A : Type 0} (P : W → Type 0) (call : W → Option A × W) (r : Response)
      → ((w : W) → P w → P (call w).1)
      → Preserves P (attempt call r)
  Preserves-attempt {A} P call r h w p = go (call w).0
    where
      go : (o : Option A) → P (or_stop o r (call w).1).1
      go none = h w p
      go (some a) = h w p
