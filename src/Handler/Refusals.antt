-- ===== src/Handler/Refusals.antt =====
-- How a handler's steps end a request: rules that follow a chain of steps to its early returns.
use event_tracking.Prelude.{
  ◌≡◌, refl, sym, arith, Bool, true, false, Option, none, some, Result, ok, err,
}
use mathlib.Core.Path.{subst}
use event_tracking.Handler.Action.{Action, Response, or_stop, guard, continue, ◌>>=◌}

module _ (R : Response → Type 0) where
  -- A step that ends the request does so with a response that has `R`.
  abbrev pub Stops : {A : Type 0} → Result Response A → Type 0
  Stops (ok a) = Unit
  Stops (err r) = R r

  module _ {W A : Type 0} where
    pub Stops-bind :
        {B : Type 0} (m : Action W A) (f : A → Action W B) (w : W)
        → Stops (m w).0
        → ((a : A) → (m w).0 ≡ ok a → Stops (f a (m w).1).0)
        → Stops ((m >>= f) w).0
    unfolding ◌>>=◌
    Stops-bind {B} m f w first rest = go (m w).0 first rest
      where
        go :
            (x : Result Response A)
            → Stops x
            → ((a : A) → x ≡ ok a → Stops (f a (m w).1).0)
            → Stops (continue x f (m w).1).0
        go (ok a) s h = h a refl
        go (err r) s h = s

    pub Stops-or_stop :
        (o : Option A) (r : Response) (w : W) → (o ≡ none → R r) → Stops (or_stop o r w).0
    Stops-or_stop none r w h = h refl
    Stops-or_stop (some a) r w h = tt

    -- a step that returns a known value
    pub Stops-known :
        {B : Type 0} (m : Action W A) (f : A → Action W B) (w : W) (a : A)
        → (m w).0 ≡ ok a
        → Stops (f a (m w).1).0
        → Stops ((m >>= f) w).0
    unfolding ◌>>=◌
    Stops-known m f w a e h = subst (λ x. Stops (continue x f (m w).1).0) (sym e) h

    pub some-of_or_stop :
        (o : Option A) (r : Response) (w : W) (a : A) → (or_stop o r w).0 ≡ ok a → o ≡ some a
    some-of_or_stop none r w a h = absurd (ground arith)
    some-of_or_stop (some x) r w a h = ground arith

  pub Stops-lift :
      {A : Type 0} (x : Result Response A) → ((r : Response) → x ≡ err r → R r) → Stops x
  Stops-lift (ok a) h = tt
  Stops-lift (err r) h = h r refl

  pub Stops-guard :
      {W : Type 0} (b : Bool) (r : Response) (w : W) → (b ≡ false → R r) → Stops (guard b r w).0
  Stops-guard true r w h = tt
  Stops-guard false r w h = h refl
