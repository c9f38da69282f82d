-- ===== src/Handler/Action.antt =====
-- A handler's steps: each may change the world, and may end the request with a response. What was
-- done before an early return stays done.
use event_tracking.Prelude.{
  ℕ, String, ◌≡◌, refl, ap, ◌∙◌, arith, Bool, true, false, Option, none, some, Result, ok, err,
}

-- What a handler wrote: `failure` is the JSON object of httpError, `success` the JSON text of a
-- response message.
pub data Payload : Type 0 where
  failure success : String → Payload

-- `retry_after` is the Retry-After header.
pub record Response : Type 0 where
  pub status : ℕ
  pub retry_after : Option ℕ
  pub payload : Payload

-- httpError
abbrev pub http_error : ℕ → String → Response
http_error code msg = record { status = code; retry_after = none; payload = failure msg }

abbrev pub Action : Type 0 → Type 0 → Type 0
Action W A = W → Result Response A × W

module _ {W A : Type 0} where
  abbrev pub pure : A → Action W A
  pure a w = (ok a, w)

  abbrev pub stop : Response → Action W A
  stop r w = (err r, w)

  abbrev pub gets : (W → A) → Action W A
  gets f w = (ok (f w), w)

  -- a value, or an early return
  abbrev pub or_stop : Option A → Response → Action W A
  or_stop none r w = (err r, w)
  or_stop (some a) r w = (ok a, w)

  abbrev pub lift : Result Response A → Action W A
  lift r w = (r, w)

  -- a call whose error ends the request
  abbrev pub attempt : (W → Option A × W) → Response → Action W A
  attempt call r w = or_stop (call w).0 r (call w).1

module _ {W : Type 0} where
  -- an early return under a test
  abbrev pub guard : Bool → Response → Action W (Unit {0})
  guard true r w = (ok tt, w)
  guard false r w = (err r, w)

  -- a call of a function field that may be nil
  abbrev pub notify : (W → W) → Action W (Unit {0})
  notify f w = (ok tt, f w)

module _ {W A B : Type 0} where
  abbrev pub continue : Result Response A → (A → Action W B) → Action W B
  continue (ok a) f w = f a w
  continue (err r) f w = (err r, w)

  infixl 10 ◌>>=◌ ◌>>◌
  unfoldable pub ◌>>=◌ : Action W A → (A → Action W B) → Action W B
  ◌>>=◌ m f w = continue (m w).0 f (m w).1

  abbrev pub ◌>>◌ : Action W A → Action W B → Action W B
  m >> n = m >>= λ _. n

  pub >>=-eq-ok :
      (m : Action W A) (f : A → Action W B) (w : W) (b : B)
      → ((m >>= f) w).0 ≡ ok b
      → (a : A) × ((m w).0 ≡ ok a) × ((f a (m w).1).0 ≡ ok b) × ((m >>= f) w ≡ f a (m w).1)
  unfolding ◌>>=◌
  >>=-eq-ok m f w b h = go (m w).0 refl h
    where
      go :
          (r : Result Response A)
          → (m w).0 ≡ r
          → (continue r f (m w).1).0 ≡ ok b
          → (a : A) × ((m w).0 ≡ ok a)
            × ((f a (m w).1).0 ≡ ok b)
            × (continue (m w).0 f (m w).1 ≡ f a (m w).1)
      go (ok a) e k = (a, e, k, ap (λ r. continue r f (m w).1) e)
      go (err r) e k = absurd (ground arith)

-- `m` leaves the observation `see` as it is, whether it returns or ends the request.
abbrev pub Keeps : {W A O : Type 0} → (W → O) → Action W A → Type 0
Keeps {W} see m = (w : W) → see (m w).1 ≡ see w

module _ {W A B O : Type 0} (see : W → O) where
  pub Keeps-bind :
      (m : Action W A) (f : A → Action W B)
      → Keeps see m
      → ((a : A) → Keeps see (f a))
      → Keeps see (m >>= f)
  unfolding ◌>>=◌
  Keeps-bind m f km kf w = go (m w).0
    where
      go : (r : Result Response A) → see (continue r f (m w).1).1 ≡ see w
      go (ok a) = kf a (m w).1 ∙ km w
      go (err r) = km w

module _ {W A O : Type 0} (see : W → O) where
  pub Keeps-or_stop : (o : Option A) (r : Response) → Keeps see (or_stop o r)
  Keeps-or_stop none r w = refl
  Keeps-or_stop (some a) r w = refl

  pub Keeps-attempt :
      (call : W → Option A × W) (r : Response)
      → ((w : W) → see (call w).1 ≡ see w)
      → Keeps see (attempt call r)
  Keeps-attempt call r h w = Keeps-or_stop (call w).0 r (call w).1 ∙ h w

module _ {W O : Type 0} (see : W → O) where
  pub Keeps-guard : (b : Bool) (r : Response) → Keeps see (guard b r)
  Keeps-guard true r w = refl
  Keeps-guard false r w = refl
