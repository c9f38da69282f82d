-- ===== src/ControlPlane/Migrate/Clean.antt =====
-- A run of Migrate in which no call fails.
use event_tracking.Prelude.{
  String, ◌≡◌, refl, Bool, true, false, List, [], ◌∷◌, ◌++◌, Option, none, some, All, arith, inl,
  inr, Bool-cases, Option-cases, if◌then◌else◌,
}
use mathlib.Core.Path.{subst}
use event_tracking.Migrations.{Directory, Entry, migration_names, is_applied}
use event_tracking.Migrations.Pending.{pending, replay}
use event_tracking.ControlPlane.Migrate.{
  Database, FileFaults, Faults, apply_file, apply_files, file_step, apply_dir, migrate,
}
use event_tracking.ControlPlane.Migrate.Runs.{run_file}

abbrev no_file_faults : FileFaults
no_file_faults = record {
  begin_fails = false;
  check_fails = false;
  apply_fails = false;
  record_fails = false;
  commit_fails = false;
  commit_unheard = false;
}

abbrev pub no_faults : Faults
no_faults = record {
  acquire_fails = false;
  lock_fails = false;
  create_fails = false;
  at_file = λ n. no_file_faults;
}

module _ {S : Type 0} (exec : String → S → Option S) (dir : Directory) where
  abbrev pub IsReadable : String → Type 0
  IsReadable n = (body : String) × (dir.read_file n ≡ some body)

  applied_step :
      (n : String) (db : Database S)
      → IsReadable n
      → is_applied n db.ledger ≡ true
      → file_step exec no_file_faults n (dir.read_file n) db ≡ (true, db)
  unfolding apply_file
  applied_step n db (body, e) h = rw (e) (rw (h) refl)

  new_step :
      (n : String) (db : Database S) (t : S)
      → IsReadable n
      → is_applied n db.ledger ≡ false
      → run_file exec dir n db.schema ≡ some t
      → file_step exec no_file_faults n (dir.read_file n) db
        ≡ (true, record { schema = t; ledger = db.ledger ++ n ∷ [] })
  unfolding apply_file
  new_step n db t (body, e) h r =
      let r' : exec body db.schema ≡ some t =
        subst
          (λ o. (elim o as (λ _. Option S) [ none ↦ none | some b ↦ exec b db.schema ]) ≡ some t) e
          r in
      rw (e) (rw (h) (rw (r') refl))

  -- what the rest of the files makes of the schema after `n`
  rest_of : List String → Database S → String → Option S → Option S
  rest_of ns db n o = elim o [
    | none ↦ none
    | some t ↦ replay (run_file exec dir) (pending (db.ledger ++ n ∷ []) ns) t
  ]

  none-some : {s : S} → none ≡ some s → ⊥
  none-some h = ground arith

  apply_files-clean :
      (ns : List String) (db : Database S) (s : S)
      → All IsReadable ns
      → replay (run_file exec dir) (pending db.ledger ns) db.schema ≡ some s
      → (apply_files exec dir no_faults ns db).0 ≡ true
  unfolding apply_files pending replay rest_of
  apply_files-clean [] db s h r = refl
  apply_files-clean (n ∷ ns) db s (h, hs) r =
      let run = run_file exec dir in
      let todo : Bool → List String =
        λ b. if b then pending db.ledger ns else n ∷ pending (db.ledger ++ n ∷ []) ns in
      elim (Bool-cases (is_applied n db.ledger)) [
        | inl e ↦
            let r' = subst (λ b. replay run (todo b) db.schema ≡ some s) e r in
            rw (applied_step n db h e) (apply_files-clean ns db s hs r')
        | inr e ↦ elim (Option-cases (run_file exec dir n db.schema)) [
          | inl e' ↦
              let r' = subst (λ b. replay run (todo b) db.schema ≡ some s) e r in
              absurd (none-some (subst (λ o. rest_of ns db n o ≡ some s) e' r'))
          | inr (t, e') ↦
              let r' = subst (λ b. replay run (todo b) db.schema ≡ some s) e r in
              rw (new_step n db t h e e') (
                apply_files-clean ns (record { schema = t; ledger = db.ledger ++ n ∷ [] }) s hs
                  (subst (λ o. rest_of ns db n o ≡ some s) e' r'))
        ]
      ]

  apply_dir-clean :
      (es : List Entry) (db : Database S) (s : S)
      → All IsReadable (migration_names es)
      → replay (run_file exec dir) (pending db.ledger (migration_names es)) db.schema ≡ some s
      → (o : Option (List Entry)) → o ≡ some es
      → (apply_dir exec dir no_faults o db).0 ≡ true
  apply_dir-clean es db s h r o e = rw (e) (apply_files-clean (migration_names es) db s h r)

  -- A run reports no error when no call fails, the files of the directory are readable and those
  -- that are to be done run one after the other.
  pub migrate_succeeds :
      (es : List Entry) (db : Database S) (s : S)
      → dir.read_dir ≡ some es
      → All IsReadable (migration_names es)
      → replay (run_file exec dir) (pending db.ledger (migration_names es)) db.schema ≡ some s
      → (migrate exec dir no_faults db).0 ≡ true
  unfolding migrate
  migrate_succeeds es db s e h r = apply_dir-clean es db s h r dir.read_dir e
