-- ===== src/ClickHouse/Migrate.antt =====
-- pkg/clickhouse/migrate.go: Migrate and appliedMigrations. The server's schema is a parameter, and
-- so is what a statement does to it, also when it fails. A run is given what else fails in it.
pub mod Statements
pub mod Runs
pub mod Retries
use Prim.Native.String
use event_tracking.Prelude.{
  String, Bool, true, false, not, ◌&&◌, List, [], ◌∷◌, ◌++◌, Option, none, some, ◌==◌,
  if◌then◌else◌,
}
use event_tracking.Prelude.Text.{trim_space}
use event_tracking.Migrations.{Entry, Directory, migration_names, is_applied}

-- The server: its schema, and the rows of schema_migrations.
pub record Server (S : Type 0) : Type 0 where
  pub schema : S
  pub ledger : List String

-- A call of a run that fails; an insert into the ledger may fail before it has effect, or after.
pub record Faults : Type 0 where
  pub create_fails : Bool
  pub query_fails : Bool
  pub record_fails : String → Bool
  pub record_unheard : String → Bool

abbrev to_first : String → List String → List String
to_first c [] = c ∷ []
to_first c (p ∷ ps) = String.◌++◌ c p ∷ ps

-- strings.Split(body, ";")
unfoldable pub split_statements : String → List String
split_statements String.[] = "" ∷ []
split_statements (String.◌∷◌ c s) =
    let rest = split_statements s in
    let one = String.◌∷◌ c "" in if one == ";" then "" ∷ rest else to_first one rest

-- the pieces that the inner loop executes
unfoldable pub statements_in : List String → List String
statements_in [] = []
statements_in (p ∷ ps) =
    let stmt = trim_space p in
    let rest = statements_in ps in if stmt == "" then rest else stmt ∷ rest

abbrev pub statements : String → List String
statements body = statements_in (split_statements body)

module _ {S : Type 0} (exec : String → S → Bool × S) where
  -- The inner loop: the first error ends it.
  unfoldable pub exec_all : List String → S → Bool × S
  exec_all [] s = (true, s)
  exec_all (q ∷ qs) s =
      let (done, t) = exec q s in let rest = exec_all qs t in if done then rest else (false, t)

  -- INSERT INTO schema_migrations, after the statements
  abbrev pub finish : Faults → String → Server S → Bool × S → Bool × Server S
  finish f n db (false, s) = (false, record db { schema = s })
  finish f n db (true, s) =
      if f.record_fails n
      then (false, record db { schema = s })
      else (not (f.record_unheard n), record { schema = s; ledger = db.ledger ++ n ∷ [] })

  abbrev pub apply_file : Faults → String → Option String → Server S → Bool × Server S
  apply_file f n none db = (false, db)
  apply_file f n (some body) db = finish f n db (exec_all (statements body) db.schema)

  module _ (dir : Directory) where
    -- The loop over the names; `applied` is the map that was read before it.
    unfoldable pub apply_files : Faults → List String → List String → Server S → Bool × Server S
    apply_files f applied [] db = (true, db)
    apply_files f applied (n ∷ ns) db =
        let skipped = apply_files f applied ns db in
        let (done, db') = apply_file f n (dir.read_file n) db in
        let rest = apply_files f applied ns db' in
        if is_applied n applied then skipped else if done then rest else (false, db')

    abbrev pub apply_dir : Faults → Option (List Entry) → Server S → Bool × Server S
    apply_dir f none db = (false, db)
    apply_dir f (some entries) db = apply_files f db.ledger (migration_names entries) db

    unfoldable pub migrate : Faults → Server S → Bool × Server S
    migrate f db =
        if f.create_fails
        then (false, db)
        else if f.query_fails
        then (false, db)
        else apply_dir f dir.read_dir db
