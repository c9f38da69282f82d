-- ===== src/Examples/Upgrades.antt =====
-- Migrations of two files, with runs that fail.
use event_tracking.ClickHouse.Migrate.Statements.{AreStatements}
use event_tracking.Prelude.{
  ℕ, none, String, Bool, Option, ◌≡◌, ◌==◌, refl, true, false, List, [], ◌∷◌, ◌++◌, some,
  if◌then◌else◌,
}
use event_tracking.Prelude.Text.{trim_space}
use event_tracking.Migrations.{
  Entry, Directory, has_suffix, leb_text, insert, sort_strings, sql_files, names_in, is_applied,
}
use event_tracking.Migrations.Pending.{pending, replay}
use event_tracking.ControlPlane.Migrate as Control
use event_tracking.ControlPlane.Migrate.Runs.{Advanced, after_runs, migrated_once}
use event_tracking.ControlPlane.Migrate.Clean.{no_faults}
use event_tracking.ControlPlane.Migrate.Replicas.{
  Phase, waiting, looping, applying, ended, Fleet, move, IsBusy, enters, misses, commits, succeeds,
  fails, Steps, start, then_step,
}
use event_tracking.ControlPlane.Migrate.Replicas.Invariant.{replicas_migrate}
use event_tracking.ClickHouse.Migrate as Events
use event_tracking.ClickHouse.Migrate.Runs.{unapplied, migrate-Advanced}
use event_tracking.ClickHouse.Migrate.Retries.{migrated_after_failure}

abbrev entries : List Entry
entries =
    record { name = "0002_b.sql"; is_dir = false }
    ∷ record { name = "README.md"; is_dir = false }
    ∷ record { name = "0001_a.sql"; is_dir = false }
    ∷ []

abbrev pub two_files : Directory
two_files = record {
  read_dir = some entries;
  read_file = λ n. some (if n == "0001_a.sql" then "A1; A2;" else "B1;");
}

-- the schema is what was executed
abbrev pub log_text : String → List String → Option (List String)
log_text body s = some (s ++ body ∷ [])

abbrev pub empty : Control.Database (List String)
empty = record { schema = []; ledger = [] }

-- the commit of the first file is not heard of
abbrev unheard : Control.Faults
unheard = record no_faults {
  at_file = λ n. record {
    begin_fails = false;
    check_fails = false;
    apply_fails = false;
    record_fails = false;
    commit_fails = false;
    commit_unheard = true;
  };
}

migrated_once_example :
    ((left : List String) × Advanced log_text two_files
        (names_in two_files.read_dir)
        empty
        left
        (after_runs log_text two_files (unheard ∷ []) empty))
    × ((Control.migrate log_text two_files no_faults
            (after_runs log_text two_files (unheard ∷ []) empty)).0
          ≡ true
        → Advanced log_text two_files
            (names_in two_files.read_dir)
            empty
            []
            (Control.migrate log_text two_files no_faults
              (after_runs log_text two_files (unheard ∷ []) empty)).1)
migrated_once_example = migrated_once log_text two_files (unheard ∷ []) no_faults empty

in_order : names_in two_files.read_dir ≡ "0001_a.sql" ∷ "0002_b.sql" ∷ []
unfolding sort_strings insert leb_text sql_files has_suffix
in_order = refl

all_done :
    replay (Control.Runs.run_file log_text two_files) (pending [] (names_in two_files.read_dir)) []
    ≡ some ("A1; A2;" ∷ "B1;" ∷ [])
unfolding sort_strings insert leb_text sql_files has_suffix pending replay is_applied
all_done = refl

abbrev pub log_statement : String → List String → Bool × List String
log_statement q s = (true, s ++ q ∷ [])

abbrev pub empty_server : Events.Server (List String)
empty_server = record { schema = []; ledger = [] }

abbrev pub no_event_faults : Events.Faults
no_event_faults = record {
  create_fails = false;
  query_fails = false;
  record_fails = λ n. false;
  record_unheard = λ n. false;
}

-- the second file runs and is not recorded
abbrev unrecorded : Events.Faults
unrecorded = record no_event_faults { record_fails = λ n. n == "0002_b.sql" }

migrate-Advanced_example :
    (left : List String) × Events.Runs.Advanced log_statement two_files
      (unapplied [] (names_in two_files.read_dir))
      empty_server
      left
      (Events.migrate log_statement two_files unrecorded empty_server).1
    × ((Events.migrate log_statement two_files unrecorded empty_server).0 ≡ true → left ≡ [])
    × ((n body : String)
        → two_files.read_file n ≡ some body
        → AreStatements body (Events.statements body))
migrate-Advanced_example = migrate-Advanced log_statement two_files unrecorded empty_server

second_run :
    (Events.migrate log_statement two_files no_event_faults
      (Events.migrate log_statement two_files unrecorded empty_server).1).0
    ≡ true
unfolding Events.migrate Events.apply_files Events.exec_all Events.statements_in
    Events.split_statements trim_space sort_strings insert leb_text sql_files has_suffix is_applied
second_run = refl

migrated_after_failure_example :
    (Events.migrate log_statement two_files no_event_faults
      (Events.migrate log_statement two_files unrecorded empty_server).1).1.ledger
    ≡ [] ++ unapplied [] (names_in two_files.read_dir)
unfolding sort_strings insert leb_text sql_files has_suffix
migrated_after_failure_example =
    migrated_after_failure log_statement two_files unrecorded no_event_faults empty_server
      ((refl, tt), (tt, tt)) second_run

-- two replicas: the first takes the lock and dies in the first transaction, the second goes on
abbrev fleet : Fleet (List String)
fleet = record { database = empty; lock = none; lost = false; phase = λ i. waiting }

abbrev names : List String
names = names_in two_files.read_dir

abbrev at : ℕ → Phase → Option ℕ → Fleet (List String) → Fleet (List String)
at i p k f = record f { lock = k; phase = move i p f }

-- a file that replica 1 commits
abbrev done : String → List String → Fleet (List String) → Fleet (List String)
done n ns f = record f {
  database = record {
    schema = (f.database).schema ++ (if n == "0001_a.sql" then "A1; A2;" else "B1;") ∷ [];
    ledger = (f.database).ledger ++ n ∷ [];
  };
  lock = some 1;
  phase = move 1 (looping ns) f;
}

abbrev died : Fleet (List String)
died = at 0 (ended false) none (
    at 0 (applying "0001_a.sql" ("0002_b.sql" ∷ [])) (some 0) (at 0 (looping names) (some 0) fleet))

abbrev first_done : Fleet (List String)
first_done =
    done "0001_a.sql" ("0002_b.sql" ∷ []) (
      at 1 (applying "0001_a.sql" ("0002_b.sql" ∷ [])) (some 1)
        (at 1 (looping names) (some 1) died))

abbrev finished : Fleet (List String)
finished =
    at 1 (ended true) none
      (done "0002_b.sql" [] (at 1 (applying "0002_b.sql" []) (some 1) first_done))

history : Steps log_text two_files fleet finished
unfolding sort_strings insert leb_text sql_files has_suffix is_applied
history =
    then_step
      (then_step
        (then_step
          (then_step
            (then_step
              (then_step
                (then_step
                  (then_step (then_step start (enters 0 refl refl))
                    (misses 0 "0001_a.sql" ("0002_b.sql" ∷ []) refl "A1; A2;" refl refl))
                  (fails 0 tt))
                (enters 1 refl refl))
              (misses 1 "0001_a.sql" ("0002_b.sql" ∷ []) refl "A1; A2;" refl refl))
            (commits 1 "0001_a.sql" ("0002_b.sql" ∷ []) ("A1; A2;" ∷ []) true refl refl refl))
          (misses 1 "0002_b.sql" [] refl "B1;" refl refl))
        (commits 1 "0002_b.sql" [] ("A1; A2;" ∷ "B1;" ∷ []) true refl refl refl))
      (succeeds 1 refl _ refl)

replicas_migrate_example :
    ((left : List String) × Advanced log_text two_files names empty left finished.database)
    × (finished.lost ≡ false
        → (i j : ℕ) → IsBusy (finished.phase i)
        → IsBusy (finished.phase j)
        → i ≡ j)
    × ((i : ℕ)
        → finished.phase i ≡ ended true
        → Advanced log_text two_files names empty [] finished.database)
replicas_migrate_example = replicas_migrate log_text two_files fleet finished (λ i. refl) history
