-- ===== src/ControlPlane/Migrate/Runs.antt =====
-- What one run of Migrate, and any series of runs, makes of the database.
use event_tracking.Prelude.{
  String, ◌≡◌, ◌⊎◌, refl, sym, ap, ◌∙◌, Bool, true, false, List, [], ◌∷◌, ◌++◌, Option, none, some,
  arith, inl, inr, Bool-cases, Option-cases, if◌then◌else◌,
}
use mathlib.Core.Path.{subst}
use mathlib.Core.List.{append-nil, append_assoc}
use event_tracking.Migrations.{Directory, names_in, Entry, migration_names, is_applied}
use event_tracking.Migrations.Pending.{pending, pending-append, replay, replay-append}
use event_tracking.ControlPlane.Migrate.{
  Database, FileFaults, Faults, file_step, apply_dir, finish, apply_file, apply_files, migrate,
}

module _ {S : Type 0} (exec : String → S → Option S) (dir : Directory) where
  -- a file's text on the schema
  abbrev pub run_file : String → S → Option S
  run_file n s = elim (dir.read_file n) [ none ↦ none | some body ↦ exec body s ]

  -- Of the names that the ledger of `db` lacks, the first ones are recorded and have run, and `left`
  -- are left to do.
  abbrev pub Advanced : List String → Database S → List String → Database S → Type 0
  Advanced ns db left db' =
      (a : List String) × (pending db.ledger ns ≡ a ++ left)
      × (db'.ledger ≡ db.ledger ++ a)
      × (replay run_file a db.schema ≡ some db'.schema)

  -- either nothing happened, or the file has run and is recorded
  FileStep : String → Bool → Database S → Database S → Type 0
  FileStep n done db db' =
      ((db' ≡ db) × (done ≡ true → is_applied n db.ledger ≡ true))
      ⊎ ((is_applied n db.ledger ≡ false)
          × (db'.ledger ≡ db.ledger ++ n ∷ [])
          × (run_file n db.schema ≡ some db'.schema))

  finish_lem :
      (f : FileFaults) (n : String) (db : Database S) (o : Option S)
      → is_applied n db.ledger ≡ false
      → run_file n db.schema ≡ o
      → FileStep n (finish exec f n db o).0 db (finish exec f n db o).1
  unfolding FileStep
  finish_lem f n db none h e = inl (refl, λ k. absurd (ground arith))
  finish_lem f n db (some s) h e =
      elim (Bool-cases f.record_fails)
        as (λ _. FileStep n (finish exec f n db (some s)).0 db (finish exec f n db (some s)).1) [
          | inl b ↦ rw (b) (inl (refl, λ k. absurd (ground arith)))
          | inr b ↦
              elim (Bool-cases f.commit_fails)
                as (λ _.
                  FileStep n (finish exec f n db (some s)).0 db (finish exec f n db (some s)).1) [
                    | inl c ↦ rw (b, c) (inl (refl, λ k. absurd (ground arith)))
                    | inr c ↦ rw (b, c) (inr (h, refl, e))
                  ]
        ]

  apply_file_lem :
      (f : FileFaults) (n body : String) (db : Database S)
      → run_file n db.schema ≡ exec body db.schema
      → FileStep n (apply_file exec f n body db).0 db (apply_file exec f n body db).1
  unfolding FileStep apply_file
  apply_file_lem f n body db e =
      go f.begin_fails f.check_fails (is_applied n db.ledger) f.apply_fails refl
    where
      go :
          (b c i a : Bool)
          → is_applied n db.ledger ≡ i
          → FileStep n
              (if b
                then (false, db)
                else if c
                then (false, db)
                else if i
                then (true, db)
                else if a
                then (false, db)
                else finish exec f n db (exec body db.schema)).0
              db
              (if b
                then (false, db)
                else if c
                then (false, db)
                else if i
                then (true, db)
                else if a
                then (false, db)
                else finish exec f n db (exec body db.schema)).1
      go true c i a h = inl (refl, λ k. absurd (ground arith))
      go false true i a h = inl (refl, λ k. absurd (ground arith))
      go false false true a h = inl (refl, λ k. h)
      go false false false true h = inl (refl, λ k. absurd (ground arith))
      go false false false false h = finish_lem f n db (exec body db.schema) h e

  file_step_lem :
      (f : FileFaults) (n : String) (db : Database S)
      → FileStep n
          (file_step exec f n (dir.read_file n) db).0
          db
          (file_step exec f n (dir.read_file n) db).1
  unfolding FileStep
  file_step_lem f n db =
      elim (Option-cases (dir.read_file n))
        as (λ _.
          FileStep n (file_step exec f n (dir.read_file n) db).0 db
            (file_step exec f n (dir.read_file n) db).1) [
              | inl e ↦ rw (e) (inl (refl, λ k. absurd (ground arith)))
              | inr (body, e) ↦ rw (e) (apply_file_lem f n body db (rw (e, run_file) refl))
            ]

  -- the loop from a database that a step has left
  after_step :
      (f : Faults) (n : String) (ns : List String) (db db' : Database S)
      → (done : Bool) → FileStep n done db db'
      → ((left : List String) × Advanced ns db' left (apply_files exec dir f ns db').1
          × ((apply_files exec dir f ns db').0 ≡ true → left ≡ []))
      → (left : List String) × Advanced
          (n ∷ ns)
          db
          left
          (if done then apply_files exec dir f ns db' else (false, db')).1
        × ((if done then apply_files exec dir f ns db' else (false, db')).0 ≡ true → left ≡ [])
  unfolding FileStep pending replay
  after_step f n ns db db' true (inl (e, h)) (left, (a, p, l, r), fin) =
      let known = h refl in
      let e' = sym e in
      (
        left,
        (
          a,
          rw (known) (ap (λ d. pending d.ledger ns) e' ∙ p),
          l ∙ ap (λ d. d.ledger ++ a) e,
          ap (λ d. replay run_file a d.schema) e' ∙ r,
        ),
        fin,
      )
  after_step f n ns db db' false (inl (e, h)) (left, adv, fin) = (
    pending db.ledger (n ∷ ns),
    ([], refl, ap (λ d. d.ledger) e ∙ sym (append-nil db.ledger), ap (λ d. some d.schema) (sym e)),
    λ k. absurd (ground arith),
  )
  after_step f n ns db db' true (inr (new, l, r)) (left, (a, p, l', r'), fin) = (
    left,
    (
      n ∷ a,
      rw (new) (ap (λ l. n ∷ pending l ns) (sym l) ∙ ap (λ xs. n ∷ xs) p),
      l' ∙ ap (λ x. x ++ a) l ∙ append_assoc db.ledger (n ∷ []) a,
      rw (r, replay) r',
    ),
    fin,
  )
  after_step f n ns db db' false (inr (new, l, r)) (left, adv, fin) = (
    pending (db.ledger ++ n ∷ []) ns,
    (n ∷ [], rw (new) refl, l, rw (r, replay) refl),
    λ k. absurd (ground arith),
  )

  -- One run, whatever fails in it, records the first of the files it has to do, each of which has
  -- run, and if it reports no error it leaves none.
  apply_files-Advanced :
      (f : Faults) (ns : List String) (db : Database S)
      → (left : List String) × Advanced ns db left (apply_files exec dir f ns db).1
        × ((apply_files exec dir f ns db).0 ≡ true → left ≡ [])
  unfolding apply_files pending replay
  apply_files-Advanced f [] db = ([], ([], refl, sym (append-nil db.ledger), refl), λ h. refl)
  apply_files-Advanced f (n ∷ ns) db =
      let s = file_step exec (f.at_file n) n (dir.read_file n) db in
      after_step f n ns db s.1 s.0 (file_step_lem (f.at_file n) n db)
        (apply_files-Advanced f ns s.1)

  pub Advanced-refl :
      (ns : List String) (db : Database S) → Advanced ns db (pending db.ledger ns) db
  unfolding replay
  Advanced-refl ns db = ([], refl, sym (append-nil db.ledger), refl)

  pub Advanced-trans :
      (ns l l' : List String) (db db' db'' : Database S)
      → Advanced ns db l db'
      → Advanced ns db' l' db''
      → Advanced ns db l' db''
  Advanced-trans ns l l' db db' db'' (a, p, q, r) (a', p', q', r') =
      let rest = pending-append db.ledger ns a l p in
      let split = sym rest ∙ ap (λ x. pending x ns) (sym q) ∙ p' in
      (
        a ++ a',
        p ∙ ap (λ x. a ++ x) split ∙ sym (append_assoc a a' l'),
        q' ∙ ap (λ x. x ++ a') q ∙ append_assoc db.ledger a a',
        replay-append run_file a a' db.schema db'.schema r ∙ r',
      )

  -- the names that a run goes through
  abbrev pub names : List String
  names = names_in dir.read_dir

  -- What a run returns; no file is left when it reports no error.
  abbrev pub EndsAs : List String → Database S → Bool × Database S → Type 0
  EndsAs ns db r = (left : List String) × Advanced ns db left r.1 × (r.0 ≡ true → left ≡ [])

  stays : (ns : List String) (db : Database S) → EndsAs ns db (false, db)
  stays ns db = (pending db.ledger ns, Advanced-refl ns db, λ k. absurd (ground arith))

  apply_dir-Advanced :
      (f : Faults) (es : Option (List Entry)) (db : Database S)
      → EndsAs (names_in es) db (apply_dir exec dir f es db)
  apply_dir-Advanced f none db = stays [] db
  apply_dir-Advanced f (some es) db = apply_files-Advanced f (migration_names es) db

  pub migrate-Advanced : (f : Faults) (db : Database S) → EndsAs names db (migrate exec dir f db)
  unfolding migrate
  migrate-Advanced f db =
      go f.acquire_fails f.lock_fails f.create_fails _ (apply_dir-Advanced f dir.read_dir db)
    where
      go :
          (a l c : Bool) (r : Bool × Database S)
          → EndsAs names db r
          → EndsAs names db
              (if a then (false, db) else if l then (false, db) else if c then (false, db) else r)
      go true l c r h = stays names db
      go false true c r h = stays names db
      go false false true r h = stays names db
      go false false false r h = h

  -- the database after a series of runs, each with its faults
  unfoldable pub after_runs : List Faults → Database S → Database S
  after_runs [] db = db
  after_runs (f ∷ fs) db = after_runs fs (migrate exec dir f db).1

  after_runs-Advanced :
      (fs : List Faults) (db : Database S)
      → (left : List String) × Advanced names db left (after_runs fs db)
  unfolding after_runs
  after_runs-Advanced [] db = (pending db.ledger names, Advanced-refl names db)
  after_runs-Advanced (f ∷ fs) db =
      let (l, adv, fin) = migrate-Advanced f db in
      let (l', adv') = after_runs-Advanced fs (migrate exec dir f db).1 in
      (l', Advanced-trans names l l' db (migrate exec dir f db).1 _ adv adv')

  -- Whatever fails in a series of runs, the database is at every moment between them one in which
  -- exactly the recorded files have run, each once and in order, after those recorded before; a run
  -- at the end that reports no error has left no file of the directory out.
  pub migrated_once :
      (fs : List Faults) (f : Faults) (db : Database S)
      → ((left : List String) × Advanced names db left (after_runs fs db))
        × ((migrate exec dir f (after_runs fs db)).0 ≡ true
            → Advanced names db [] (migrate exec dir f (after_runs fs db)).1)
  migrated_once fs f db =
      let before = after_runs-Advanced fs db in
      let (l, adv, fin) = migrate-Advanced f (after_runs fs db) in
      (
        before,
        λ done.
            subst (λ l. Advanced names db l (migrate exec dir f (after_runs fs db)).1) (fin done)
              (Advanced-trans names before.0 l db (after_runs fs db) _ before.1 adv),
      )
