-- ===== src/ControlPlane/Migrate.antt =====
-- pkg/controlplane/migrate.go: Migrate. The schema is a parameter, and so is what the text of a file
-- does to it in its transaction; `none` is an error. A run is given what fails in it.
pub mod Runs
pub mod Clean
pub mod Replicas
use event_tracking.Prelude.{
  String, Bool, true, false, not, List, [], ◌∷◌, ◌++◌, Option, none, some, if◌then◌else◌,
}
use event_tracking.Migrations.{Entry, Directory, migration_names, is_applied}

-- The database: its schema, and the rows of schema_migrations.
pub record Database (S : Type 0) : Type 0 where
  pub schema : S
  pub ledger : List String

-- What fails of the calls for one file; a commit may fail before the server has committed, or after.
pub record FileFaults : Type 0 where
  pub begin_fails : Bool
  pub check_fails : Bool
  pub apply_fails : Bool
  pub record_fails : Bool
  pub commit_fails : Bool
  pub commit_unheard : Bool

-- What fails in one run: a call before the loop, or a call for a file.
pub record Faults : Type 0 where
  pub acquire_fails : Bool
  pub lock_fails : Bool
  pub create_fails : Bool
  pub at_file : String → FileFaults

module _ {S : Type 0} (exec : String → S → Option S) where
  abbrev recorded : String → S → Database S → Database S
  recorded name s db = record { schema = s; ledger = db.ledger ++ name ∷ [] }

  -- INSERT INTO schema_migrations and the commit, after the body has run
  abbrev pub finish : FileFaults → String → Database S → Option S → Bool × Database S
  finish f name db none = (false, db)
  finish f name db (some s) =
      if f.record_fails
      then (false, db)
      else if f.commit_fails
      then (false, db)
      else (not f.commit_unheard, recorded name s db)

  -- The transaction of one file. An error rolls back what the transaction has done.
  unfoldable pub apply_file : FileFaults → String → String → Database S → Bool × Database S
  apply_file f name body db =
      if f.begin_fails
      then (false, db)
      else if f.check_fails
      then (false, db)
      else if is_applied name db.ledger
      then (true, db)
      else if f.apply_fails
      then (false, db)
      else finish f name db (exec body db.schema)

  -- fs.ReadFile comes before the transaction.
  abbrev pub file_step : FileFaults → String → Option String → Database S → Bool × Database S
  file_step f name none db = (false, db)
  file_step f name (some body) db = apply_file f name body db

  module _ (dir : Directory) where
    -- The loop over the names; an error ends it.
    unfoldable pub apply_files : Faults → List String → Database S → Bool × Database S
    apply_files f [] db = (true, db)
    apply_files f (n ∷ ns) db =
        let (done, db') = file_step (f.at_file n) n (dir.read_file n) db in
        let rest = apply_files f ns db' in if done then rest else (false, db')

    abbrev pub apply_dir : Faults → Option (List Entry) → Database S → Bool × Database S
    apply_dir f none db = (false, db)
    apply_dir f (some entries) db = apply_files f (migration_names entries) db

    -- The ledger is empty until CREATE TABLE IF NOT EXISTS has made it. The advisory lock is held
    -- throughout, so that no other run comes between the statements of this one.
    unfoldable pub migrate : Faults → Database S → Bool × Database S
    migrate f db =
        if f.acquire_fails
        then (false, db)
        else if f.lock_fails
        then (false, db)
        else if f.create_fails
        then (false, db)
        else apply_dir f dir.read_dir db
