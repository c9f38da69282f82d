-- ===== src/Service/Start/Ready.antt =====
-- What holds of the databases and the keys when the service starts to listen.
use event_tracking.Prelude.{String, ◌≡◌, sym, ap, ◌∙◌, true, List, [], Option, ok}
use mathlib.Core.Path.{subst}
use event_tracking.Migrations.{names_in}
use event_tracking.Tenant.Jose.{Jose}
use event_tracking.ControlPlane.Migrate as Control
use event_tracking.ControlPlane.Migrate.Runs.{Advanced, migrated_once, after_runs}
use event_tracking.ClickHouse.Migrate as Events
use event_tracking.ClickHouse.Migrate.Runs.{unapplied, migrate-Advanced}
use event_tracking.Service.Start.{Databases, Run, Service, Libraries, start, with_keys}
use event_tracking.Service.Start.Keys.{HasKeys, with_keys_ok}
use event_tracking.Service.Start.Stages.{migrated, start_past, with_keys_same}

module _ (j : Jose) {S T : Type 0} (lib : Libraries j S T) {K : Type 0}
    (import_key : String → Option K) where
  -- The database of the control plane has run its migrations but those that are left.
  abbrev pub ControlAt : Databases S T → List String → Control.Database S → Type 0
  ControlAt before left after =
      Control.Runs.Advanced lib.exec_control lib.control_files
        (names_in (lib.control_files).read_dir) before.control left after

  -- The same of the server of the events.
  abbrev pub EventsAt : Databases S T → List String → Events.Server T → Type 0
  EventsAt before left after =
      Events.Runs.Advanced lib.exec_events lib.event_files
        (unapplied (before.events).ledger (names_in (lib.event_files).read_dir)) before.events left
        after

  -- Both databases have every migration, and the keys are in place.
  pub record IsReady (before after : Databases S T) (s : Service j) : Type 0 where
    pub control_migrated : ControlAt before [] after.control
    pub events_migrated : EventsAt before [] after.events
    pub has_keys : HasKeys j lib import_key after.keys s

  with_keys-IsReady :
      (run : Run) (w u : Databases S T) (s : Service j)
      → ControlAt w [] u.control
      → EventsAt w [] u.events
      → (with_keys j lib run u).0 ≡ ok s
      → IsReady w (with_keys j lib run u).1 s
  with_keys-IsReady run w u s control events h =
      let same = with_keys_same j lib run u in
      record {
        control_migrated = subst (λ x. ControlAt w [] x) (sym (ap (λ x. x.control) same)) control;
        events_migrated = subst (λ x. EventsAt w [] x) (sym (ap (λ x. x.events) same)) events;
        has_keys = with_keys_ok j lib import_key run u s h;
      }

  -- a migration of the control plane that reports no error
  control_done :
      (run : Run) (w : Databases S T)
      → (Control.migrate lib.exec_control lib.control_files run.control_faults w.control).0 ≡ true
      → ControlAt w []
          (Control.migrate lib.exec_control lib.control_files run.control_faults w.control).1
  control_done run w e =
      let (left, adv, fin) =
        Control.Runs.migrate-Advanced lib.exec_control lib.control_files run.control_faults
          w.control in
      subst
        (λ l.
          ControlAt w l
            (Control.migrate lib.exec_control lib.control_files run.control_faults w.control).1)
        (fin e) adv

  -- a migration of the events that reports no error
  events_done :
      (run : Run) (w : Databases S T)
      → (Events.migrate lib.exec_events lib.event_files run.event_faults w.events).0 ≡ true
      → EventsAt w [] (Events.migrate lib.exec_events lib.event_files run.event_faults w.events).1
  events_done run w e =
      let (left, adv, fin, _) =
        Events.Runs.migrate-Advanced lib.exec_events lib.event_files run.event_faults w.events in
      subst
        (λ l.
          EventsAt w l (Events.migrate lib.exec_events lib.event_files run.event_faults w.events).1)
        (fin e) adv

  -- The service starts to listen only when both databases have every migration of their directories,
  -- each having run whole, and with a minter whose key is the active one and is published.
  pub start-IsReady :
      (run : Run) (w : Databases S T) (s : Service j)
      → (start j lib run w).0 ≡ ok s
      → IsReady w (start j lib run w).1 s
  start-IsReady run w s h =
      let (c, e, same) = start_past j lib run w s h in
      subst (λ r. IsReady w r.1 s) (sym same)
        (with_keys-IsReady run w (migrated j lib run w) s (control_done run w c)
          (events_done run w e) (ap (λ r. r.0) (sym same) ∙ h))
