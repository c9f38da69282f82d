-- ===== src/Service/Start/Stages.antt =====
-- How a start that succeeds comes to the keys.
use event_tracking.Prelude.{
  ◌≡◌, refl, sym, Bool, true, false, List, Option, none, some, Result, ok, err, arith,
  if◌then◌else◌, All, All-append, inl, inr, String,
}
use mathlib.Core.Path.{subst}
use event_tracking.Tenant.Jose.{Jose}
use event_tracking.ControlPlane.Migrate as Control
use event_tracking.ControlPlane.SigningKeys.{KeyRow, ensure_signing_key}
use event_tracking.ControlPlane.SigningKeys.Bootstrap.{ensure_signing_key_cases}
use event_tracking.ClickHouse.Migrate as Events
use event_tracking.Service.Start.{
  Databases, Run, Service, Stage, clickhouse, postgres, postgres_migrate, clickhouse_migrate,
  ensure_key, Libraries, configured, start, with_keys, with_active, minting, listening,
}

module _ (j : Jose) {S T : Type 0} (lib : Libraries j S T) where
  abbrev pub control_run : Run → Databases S T → Bool × Control.Database S
  control_run run w =
      Control.migrate lib.exec_control lib.control_files run.control_faults w.control

  abbrev pub event_run : Run → Databases S T → Bool × Events.Server T
  event_run run w = Events.migrate lib.exec_events lib.event_files run.event_faults w.events

  -- the databases when both migrations are through
  abbrev pub migrated : Run → Databases S T → Databases S T
  migrated run w = record w { control = (control_run run w).1; events = (event_run run w).1 }

  pub start_past :
      (run : Run) (w : Databases S T) (s : Service j)
      → (start j lib run w).0 ≡ ok s
      → ((control_run run w).0 ≡ true)
        × ((event_run run w).0 ≡ true)
        × (start j lib run w ≡ with_keys j lib run (migrated run w))
  unfolding start
  start_past run w s h =
      go run.clickhouse_opens run.postgres_opens (control_run run w).0 (event_run run w).0 h
    where
      chosen : Bool → Bool → Bool → Bool → Result Stage (Service j) × Databases S T
      chosen a b c d =
          if a
          then if b
            then if c
              then if d then with_keys j lib run (migrated run w) else (
                err clickhouse_migrate,
                record w { control = (control_run run w).1; events = (event_run run w).1 },
              )
              else (err postgres_migrate, record w { control = (control_run run w).1 })
            else (err postgres, w)
          else (err clickhouse, w)

      go :
          (a b c d : Bool)
          → (chosen a b c d).0 ≡ ok s
          → (c ≡ true) × (d ≡ true) × (chosen a b c d ≡ with_keys j lib run (migrated run w))
      go false b c d h = absurd (ground arith)
      go true false c d h = absurd (ground arith)
      go true true false d h = absurd (ground arith)
      go true true true false h = absurd (ground arith)
      go true true true true h = (refl, refl, refl)

  listening_same :
      (p : Option String) (kid : String) (key : j.PrivateKey) (w : Databases S T)
      → (listening j lib p kid key w).1 ≡ w
  listening_same none kid key w = refl
  listening_same (some port) kid key w = refl

  minting_same :
      (o : Option j.PrivateKey) (kid : String) (w : Databases S T) → (minting j lib o kid w).1 ≡ w
  minting_same none kid w = refl
  minting_same (some key) kid w = listening_same _ kid key w

  with_active_same :
      (o : Option (String × String)) (w : Databases S T) → (with_active j lib o w).1 ≡ w
  with_active_same none w = refl
  with_active_same (some (kid, private)) w = minting_same (lib.import_private private) kid w

  ensured_same :
      (b : Bool) (o : Option (String × String)) (w : Databases S T)
      → (if b then with_active j lib o w else (err ensure_key, w)).1 ≡ w
  ensured_same true o w = with_active_same o w
  ensured_same false o w = refl

  -- the table after EnsureSigningKey
  abbrev pub ensured_keys : Run → List KeyRow → List KeyRow
  ensured_keys run keys =
      (ensure_signing_key run.insert_fails run.check_fails (configured j lib "SIGNING_KID" "kid-1")
        run.fresh.0 run.fresh.1 keys).1

  -- Everything after the migrations changes nothing but the table of keys.
  pub with_keys_same :
      (run : Run) (w : Databases S T)
      → (with_keys j lib run w).1 ≡ record w { keys = ensured_keys run w.keys }
  unfolding with_keys
  with_keys_same run w = ensured_same _ _ _

  -- What holds of each pair of halves in the table, and of the generated pair, still holds after the
  -- start.
  pub All-start :
      (IsPair : String → String → Type 0) (run : Run) (w : Databases S T) (s : Service j)
      → (start j lib run w).0 ≡ ok s
      → IsPair run.fresh.0 run.fresh.1
      → All (λ r. IsPair r.public_key r.private_key) w.keys
      → All (λ r. IsPair r.public_key r.private_key) (start j lib run w).1.keys
  All-start IsPair run w s h fresh pairs =
      let (c, e, same) = start_past run w s h in
      let P : KeyRow → Type 0 = λ r. IsPair r.public_key r.private_key in
      let cases =
        ensure_signing_key_cases run.insert_fails run.check_fails
          (configured j lib "SIGNING_KID" "kid-1") run.fresh.0 run.fresh.1 w.keys in
      let ensured : All P (ensured_keys run w.keys) = elim cases.1 [
        | inl kept ↦ subst (All P) (sym kept) pairs
        | inr (added, idle) ↦ subst (All P) (sym added) (All-append P w.keys _ pairs (fresh, tt))
      ] in
      subst (λ r. All P r.1.keys) (sym same)
        (subst (λ u. All P u.keys) (sym (with_keys_same run (migrated run w))) ensured)
