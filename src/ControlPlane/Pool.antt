-- ===== src/ControlPlane/Pool.antt =====
-- pkg/controlplane/migrate.go: Open, which opens a pool of connections and pings the server once. The
-- library is a parameter, as it is for Open of pkg/clickhouse, which takes the same steps.
use event_tracking.Prelude.{
  ℕ, ◌+◌, ◌≡◌, ◌⊎◌, inl, inr, Bool, true, false, Result, ok, err, arith, refl, ap, ◌∙◌, sym,
}

-- What a library offers; `false` is an error. A dial that fails leaves no pool.
pub record Pools (O W : Type 0) : Type 0 where
  pub dial : O → W → Bool × W
  pub ping : W → Bool × W
  pub close : W → W

pub data OpenError : Type 0 where
  open_failed ping_failed : OpenError

module _ {O W : Type 0} (p : Pools O W) where
  abbrev pub pinged : Bool × W → Result OpenError (Unit {0}) × W
  pinged (true, w) = (ok tt, w)
  pinged (false, w) = (err ping_failed, p.close w)

  abbrev pub dialled : Bool × W → Result OpenError (Unit {0}) × W
  dialled (true, w) = pinged (p.ping w)
  dialled (false, w) = (err open_failed, w)

  unfoldable pub open_pool : O → W → Result OpenError (Unit {0}) × W
  open_pool options w = dialled (p.dial options w)

  -- How many pools are live, as the library counts them.
  pub record IsPools : Type 0 where
    pub live : W → ℕ
    pub dialled_live :
        (o : O) (w : W)
        → ((p.dial o w).0 ≡ true → live (p.dial o w).1 ≡ live w + 1)
          × ((p.dial o w).0 ≡ false → live (p.dial o w).1 ≡ live w)
    pub pinged_live : (w : W) → live (p.ping w).1 ≡ live w
    pub closed_live : (w : W) (n : ℕ) → live w ≡ n + 1 → live (p.close w) ≡ n

  module _ (l : IsPools) where
    ping_balance :
        (n : ℕ) (x : Bool × W)
        → l.live x.1 ≡ n + 1
        → ((pinged x).0 ≡ ok tt × (l.live (pinged x).1 ≡ n + 1))
          ⊎ ((¬ ((pinged x).0 ≡ ok tt)) × (l.live (pinged x).1 ≡ n))
    ping_balance n (true, w) h = inl (refl, h)
    ping_balance n (false, w) h = inr (λ k. absurd (ground arith), l.closed_live w n h)

    -- A pool that could not be opened or pinged is not left open: the call returns either without an
    -- error and with one pool more, or with an error and with as many as before.
    pub open_pool_balance :
        (options : O) (w : W)
        → (((open_pool options w).0 ≡ ok tt) × (l.live (open_pool options w).1 ≡ l.live w + 1))
          ⊎ ((¬ ((open_pool options w).0 ≡ ok tt)) × (l.live (open_pool options w).1 ≡ l.live w))
    unfolding open_pool
    open_pool_balance options w = go (p.dial options w) refl
      where
        go :
            (x : Bool × W)
            → p.dial options w ≡ x
            → (((dialled x).0 ≡ ok tt) × (l.live (dialled x).1 ≡ l.live w + 1))
              ⊎ ((¬ ((dialled x).0 ≡ ok tt)) × (l.live (dialled x).1 ≡ l.live w))
        go (true, u) e = ping_balance (l.live w) (p.ping u) (
            l.pinged_live u
            ∙ sym (ap (λ y. l.live y.1) e)
            ∙ (l.dialled_live options w).0 (ap (λ y. y.0) e))
        go (false, u) e = inr (
          λ k. absurd (ground arith),
          sym (ap (λ y. l.live y.1) e) ∙ (l.dialled_live options w).1 (ap (λ y. y.0) e),
        )
