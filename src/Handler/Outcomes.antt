-- ===== src/Handler/Outcomes.antt =====
-- How a handler's steps end: rules that follow a chain of steps as far as it goes.
use event_tracking.Prelude.{
  ℕ, ◌≤◌, ◌≡◌, refl, Bool, true, false, Option, none, some, Result, ok, err, eqb,
}
use event_tracking.Handler.Action.{Action, Response, or_stop, attempt, guard, lift, continue, ◌>>=◌}

-- An error response: a status from 400 on, and the Retry-After header, of a second at least, with
-- status 429 and only with it.
abbrev RetryAfter : ℕ → Option ℕ → Type 0
RetryAfter status none = eqb status 429 ≡ false
RetryAfter status (some seconds) = (status ≡ 429) × (1 ≤ seconds)

abbrev pub IsRefusal : Response → Type 0
IsRefusal r = (400 ≤ r.status) × RetryAfter r.status r.retry_after

module _ {A : Type 0} where
  -- The end of a step: a value of which `Q` holds, or an error response.
  abbrev pub Ends : (A → Type 0) → Result Response A → Type 0
  Ends Q (ok a) = Q a
  Ends Q (err r) = IsRefusal r

module _ {W : Type 0} where
  abbrev pub Meets : {A : Type 0} → Action W A → (A → Type 0) → Type 0
  Meets m Q = (w : W) → Ends Q (m w).0

  pub Meets-bind :
      {A B : Type 0} (m : Action W A) (f : A → Action W B) (P : A → Type 0) (Q : B → Type 0)
      → Meets m P
      → ((a : A) → P a → Meets (f a) Q)
      → Meets (m >>= f) Q
  unfolding ◌>>=◌
  Meets-bind m f P Q hm hf w = go (m w).0 (hm w)
    where
      go : (x : Result Response _) → Ends P x → Ends Q (continue x f (m w).1).0
      go (ok a) h = hf a h (m w).1
      go (err r) h = h

  pub Meets-attempt :
      {A : Type 0} (call : W → Option A × W) (r : Response)
      → IsRefusal r
      → Meets (attempt call r) (λ a. (w : W) × ((call w).0 ≡ some a))
  Meets-attempt call r h w = go (call w).0 refl
    where
      go :
          (o : Option _)
          → (call w).0 ≡ o
          → Ends (λ a. (w : W) × ((call w).0 ≡ some a)) (or_stop o r (call w).1).0
      go none e = h
      go (some a) e = (w, e)

  pub Meets-mono :
      {A : Type 0} (m : Action W A) (P Q : A → Type 0)
      → ((a : A) → P a → Q a)
      → Meets m P
      → Meets m Q
  Meets-mono m P Q h hm w = go (m w).0 (hm w)
    where
      go : (x : Result Response _) → Ends P x → Ends Q x
      go (ok a) p = h a p
      go (err r) p = p

  pub Meets-elim :
      {A B : Type 0} (o : Option B) (n : Action W A) (f : B → Action W A) (Q : A → Type 0)
      → Meets n Q
      → ((b : B) → Meets (f b) Q)
      → Meets (elim o [ none ↦ n | some b ↦ f b ]) Q
  Meets-elim none n f Q hn hf = hn
  Meets-elim (some b) n f Q hn hf = hf b

module _ {W : Type 0} where
  -- The run of a step from one world: a value and the world it leaves have `Q`, or the response is a
  -- refusal.
  abbrev pub Met : {A : Type 0} → (A → W → Type 0) → Result Response A → W → Type 0
  Met Q (ok a) w = Q a w
  Met Q (err r) w = IsRefusal r

  unfoldable pub From : {A : Type 0} → W → Action W A → (A → W → Type 0) → Type 0
  From w m Q = Met Q (m w).0 (m w).1

  -- a step that only computes
  pub From-run :
      {A : Type 0} (m : Action W A) (Q : A → W → Type 0) (w : W)
      → Met Q (m w).0 (m w).1
      → From w m Q
  unfolding From
  From-run m Q w h = h

  pub Ends-From :
      {A : Type 0} (m : Action W A) (Q : A → Type 0) (w : W)
      → From w m (λ a _. Q a)
      → Ends Q (m w).0
  unfolding From
  Ends-From {A} m Q w h = go (m w).0 h
    where
      go : (x : Result Response A) → Met (λ a _. Q a) x (m w).1 → Ends Q x
      go (ok a) h = h
      go (err r) h = h

  pub From-bind :
      {A B : Type 0} (m : Action W A) (f : A → Action W B) (Q : B → W → Type 0) (w : W)
      → From w m (λ a u. From u (f a) Q)
      → From w (m >>= f) Q
  unfolding From ◌>>=◌
  From-bind {A} m f Q w h = go (m w).0 h
    where
      go :
          (x : Result Response A)
          → Met (λ a u. From u (f a) Q) x (m w).1
          → Met Q (continue x f (m w).1).0 (continue x f (m w).1).1
      go (ok a) h = h
      go (err r) h = h

  pub From-or_stop :
      {A : Type 0} (o : Option A) (r : Response) (Q : A → W → Type 0) (w : W)
      → IsRefusal r
      → ((a : A) → o ≡ some a → Q a w)
      → From w (or_stop o r) Q
  unfolding From
  From-or_stop none r Q w refusal h = refusal
  From-or_stop (some a) r Q w refusal h = h a refl

  pub From-attempt :
      {A : Type 0} (call : W → Option A × W) (r : Response) (Q : A → W → Type 0) (w : W)
      → IsRefusal r
      → ((a : A) → (call w).0 ≡ some a → Q a (call w).1)
      → From w (attempt call r) Q
  unfolding From
  From-attempt call r Q w refusal h = From-or_stop (call w).0 r Q (call w).1 refusal h

  pub From-guard :
      (b : Bool) (r : Response) (Q : Unit {0} → W → Type 0) (w : W)
      → (b ≡ false → IsRefusal r)
      → (b ≡ true → Q tt w)
      → From w (guard b r) Q
  unfolding From
  From-guard true r Q w refusal h = h refl
  From-guard false r Q w refusal h = refusal refl

  pub From-lift :
      {A : Type 0} (x : Result Response A) (Q : A → W → Type 0) (w : W)
      → Ends (λ _. Unit {0}) x
      → ((a : A) → x ≡ ok a → Q a w)
      → From w (lift x) Q
  unfolding From
  From-lift (ok a) Q w refusal h = h a refl
  From-lift (err r) Q w refusal h = refusal

  pub From-Meets :
      {A : Type 0} (m : Action W A) (P : A → Type 0) (Q : A → W → Type 0) (w : W)
      → Meets m P
      → ((a : A) (u : W) → P a → Q a u)
      → From w m Q
  unfolding From
  From-Meets {A} m P Q w met h = go (m w).0 (met w)
    where
      go : (x : Result Response A) → Ends P x → Met Q x (m w).1
      go (ok a) e = h a (m w).1 e
      go (err r) e = e

  -- a step of which it is known how it ends in this world
  pub From-Ends :
      {A : Type 0} (m : Action W A) (P : A → Type 0) (Q : A → W → Type 0) (w : W)
      → Ends P (m w).0
      → ((a : A) → P a → Q a (m w).1)
      → From w m Q
  unfolding From
  From-Ends {A} m P Q w met h = go (m w).0 met
    where
      go : (x : Result Response A) → Ends P x → Met Q x (m w).1
      go (ok a) e = h a e
      go (err r) e = e

  pub From-mono :
      {A : Type 0} (m : Action W A) (P Q : A → W → Type 0) (w : W)
      → From w m P
      → ((a : A) (u : W) → P a u → Q a u)
      → From w m Q
  unfolding From
  From-mono {A} m P Q w met h = go (m w).0 met
    where
      go : (x : Result Response A) → Met P x (m w).1 → Met Q x (m w).1
      go (ok a) e = h a (m w).1 e
      go (err r) e = e
