-- ===== src/Service/Wiring/Contracts.antt =====
-- The wired stores against what the batch handler relies on.
use event_tracking.Prelude.{ℕ, String, List, ◌≡◌, refl, Bool, true, false, Result}
use event_tracking.Tenant.{Claims}
use event_tracking.Tenant.Keys.{Cache}
use event_tracking.Tenant.Verify.{Config, Error}
use event_tracking.ClickHouse.Insert.{IsDriver, stored-insert_events}
use event_tracking.Enrich.Offsets.Postgres.{OffsetRow, find, get_or_set-Settles}
use event_tracking.Handler.Batch.Contract.{Spares, IsDeps}
use event_tracking.Handler.Batch.Redelivery.{HoldsOffsets}
use event_tracking.Service.Wiring.{Parts, World, batch_deps, verified, failing}

module _ (e : Parts) (cfg : Config) where
  -- what verifying leaves alone
  pub verified_keeps :
      {A : Type 0} (see : World e → A)
      → ((w : World e) (c : Cache e.jose) (n : _)
          → see (record w { cache = c; statements = n }) ≡ see w)
      → (x : (Result Error Claims × Bool) × Cache e.jose) (w : World e)
      → see (verified e x w).1 ≡ see w
  verified_keeps see h ((r, true), c) w = h w c _
  verified_keeps see h ((r, false), c) w = h w c _

  -- Only the offsets of the sessions, the counters, the key cache, the warnings and the count of
  -- statements change before the insert.
  pub batch_deps-Spares :
      {A : Type 0} (see : World e → A)
      → ((w : World e) (c : Cache e.jose) (n : ℕ)
          → see (record w { cache = c; statements = n }) ≡ see w)
      → ((w : World e) (s : (e.redis).Server) (o : List OffsetRow) (n : ℕ)
          → see (record w { counters = s; session_offsets = o; statements = n }) ≡ see w)
      → ((w : World e) (v : List (String × String)) → see (record w { warnings = v }) ≡ see w)
      → Spares (batch_deps e cfg) see
  batch_deps-Spares see cached counted warned = record {
    verify_keeps = λ bearer now w. verified_keeps see cached _ w;
    limits_keeps = λ tenant_id tier w. counted w w.counters w.session_offsets _;
    allow_keeps = λ c lim n now w. counted w _ w.session_offsets w.statements;
    offsets_keep = λ key candidate w. counted w w.counters _ _;
    skew_keeps = λ tenant_id device_id w. refl;
    legacy_keeps = λ tenant_id version w. warned w _;
  }

  -- A batch that is acknowledged is stored by the driver, and nothing else of the service stores or
  -- removes a row.
  abbrev pub batch_deps-IsDeps : IsDriver e.driver → IsDeps (batch_deps e cfg)
  batch_deps-IsDeps l = record {
    stored = λ w. l.stored w.events;
    inserted = λ rows w h. stored-insert_events e.driver l rows w.events h;
    spares =
        batch_deps-Spares (λ w. l.stored w.events) (λ w c n. refl) (λ w s o n. refl) (λ w v. refl);
  }

  -- The offsets of the sessions are those of the table, and no other dependency changes one.
  abbrev pub batch_deps-HoldsOffsets : HoldsOffsets (batch_deps e cfg)
  batch_deps-HoldsOffsets = record {
    view = λ w. find w.session_offsets;
    settles = λ key c w. get_or_set-Settles key c (record {
      session_offsets = w.session_offsets;
      now = w.clock;
      fails = failing e w;
      unheard = w.unheard w.statements;
    });
    verify_view = λ bearer now w. verified_keeps (λ w. find w.session_offsets) (λ w c n. refl) _ w;
    limits_view = λ tenant_id tier w. refl;
    allow_view = λ c lim n now w. refl;
    insert_view = λ rows w. refl;
    skew_view = λ t device w. refl;
    legacy_view = λ t version w. refl;
  }
