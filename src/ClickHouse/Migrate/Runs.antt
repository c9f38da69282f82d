-- ===== src/ClickHouse/Migrate/Runs.antt =====
-- What a run of Migrate leaves on the server, and what the next run takes up.
use event_tracking.Prelude.{
  String, ◌≡◌, ◌⊎◌, refl, sym, ap, ◌∙◌, Bool, true, false, List, [], ◌∷◌, ◌++◌, Option, none, some,
  arith, inl, inr, Bool-cases, if◌then◌else◌,
}
use mathlib.Core.List.{append-nil, append_assoc}
use event_tracking.Migrations.{Directory, names_in, Entry, migration_names, is_applied}
use event_tracking.Migrations.Pending.{replay}
use event_tracking.ClickHouse.Migrate.Statements.{AreStatements, statements-AreStatements}
use event_tracking.ClickHouse.Migrate.{
  Server, Faults, statements, exec_all, finish, apply_file, apply_files, apply_dir, migrate,
}

-- the names of the list that the ledger lacks
unfoldable pub unapplied : List String → List String → List String
unapplied ledger [] = []
unapplied ledger (n ∷ ns) =
    let rest = unapplied ledger ns in if is_applied n ledger then rest else n ∷ rest

module _ {S : Type 0} (exec : String → S → Bool × S) (dir : Directory) where
  -- the schema after statements none of which fails
  unfoldable pub all_succeed : List String → S → Option S
  all_succeed [] s = some s
  all_succeed (q ∷ qs) s =
      let rest = all_succeed qs (exec q s).1 in if (exec q s).0 then rest else none

  -- The schema after some of the statements, in their order, of which only the last may have failed.
  unfoldable pub Reached : List String → S → S → Type 0
  Reached [] s t = t ≡ s
  Reached (q ∷ qs) s t =
      (t ≡ s) ⊎ ((t ≡ (exec q s).1) ⊎ (((exec q s).0 ≡ true) × Reached qs (exec q s).1 t))

  -- a file, all the statements of which succeed
  abbrev pub run_file : String → S → Option S
  run_file n s = elim (dir.read_file n) [
    | none ↦ none
    | some body ↦ all_succeed (statements body) s
  ]

  -- Nothing more was run, or the first of the files that are left, as far as it went.
  abbrev pub IsTried : List String → S → S → Type 0
  IsTried [] s t = t ≡ s
  IsTried (n ∷ ns) s t =
      (t ≡ s) ⊎ ((body : String) × (dir.read_file n ≡ some body) × Reached (statements body) s t)

  -- Of the names `todo`, the first ones have run whole and are recorded, and `left` are left.
  abbrev pub Advanced : List String → Server S → List String → Server S → Type 0
  Advanced todo db left db' =
      (a : List String) × (todo ≡ a ++ left)
      × (db'.ledger ≡ db.ledger ++ a)
      × ((s : S) × (replay run_file a db.schema ≡ some s) × IsTried left s db'.schema)

  abbrev EndsAs : List String → Server S → Bool × Server S → Type 0
  EndsAs todo db r = (left : List String) × Advanced todo db left r.1 × (r.0 ≡ true → left ≡ [])

  abbrev FileStep : String → Server S → Bool × Server S → Type 0
  FileStep n db r =
      ((r.0 ≡ false) × (r.1.ledger ≡ db.ledger) × IsTried (n ∷ []) db.schema r.1.schema)
      ⊎ ((r.1.ledger ≡ db.ledger ++ n ∷ []) × (run_file n db.schema ≡ some r.1.schema))

  untried : (todo : List String) (s : S) → IsTried todo s s
  untried [] s = refl
  untried (m ∷ ms) s = inl refl

  exec_all_lem :
      (qs : List String) (s : S)
      → Reached qs s (exec_all exec qs s).1
        × ((exec_all exec qs s).0 ≡ true → all_succeed qs s ≡ some (exec_all exec qs s).1)
  unfolding exec_all Reached all_succeed
  exec_all_lem [] s = (refl, λ h. refl)
  exec_all_lem (q ∷ qs) s = go (exec q s).0 refl (exec_all_lem qs (exec q s).1)
    where
      go :
          (b : Bool)
          → (exec q s).0 ≡ b
          → Reached qs (exec q s).1 (exec_all exec qs (exec q s).1).1
            × ((exec_all exec qs (exec q s).1).0 ≡ true
                → all_succeed qs (exec q s).1 ≡ some (exec_all exec qs (exec q s).1).1)
          → Reached
              (q ∷ qs)
              s
              (if b then exec_all exec qs (exec q s).1 else (false, (exec q s).1)).1
            × ((if b then exec_all exec qs (exec q s).1 else (false, (exec q s).1)).0 ≡ true
                → (if b then all_succeed qs (exec q s).1 else none)
                  ≡ some (if b then exec_all exec qs (exec q s).1 else (false, (exec q s).1)).1)
      go true e (far, all) = (inr (inr (e, far)), all)
      go false e (far, all) = (inr (inl refl), λ h. absurd (ground arith))

  finish_lem :
      (f : Faults) (n : String) (db : Server S) (x : Bool × S)
      → IsTried (n ∷ []) db.schema x.1
      → (x.0 ≡ true → run_file n db.schema ≡ some x.1)
      → FileStep n db (finish exec f n db x)
  finish_lem f n db (false, s) e h = inl (refl, refl, e)
  finish_lem f n db (true, s) e h =
      elim (Bool-cases (f.record_fails n)) as (λ _. FileStep n db (finish exec f n db (true, s))) [
        | inl b ↦ rw (b) (inl (refl, refl, e))
        | inr b ↦ rw (b) (inr (refl, h refl))
      ]

  apply_file_lem :
      (f : Faults) (n : String) (db : Server S)
      → FileStep n db (apply_file exec f n (dir.read_file n) db)
  apply_file_lem f n db = go (dir.read_file n) refl
    where
      go : (o : Option String) → dir.read_file n ≡ o → FileStep n db (apply_file exec f n o db)
      go none e = inl (refl, refl, inl refl)
      go (some body) e =
          let (far, all) = exec_all_lem (statements body) db.schema in
          finish_lem f n db (exec_all exec (statements body) db.schema) (inr (body, e, far))
            (λ h. rw (e, run_file) (all h))

  after_step :
      (n : String) (todo : List String) (db : Server S) (r rest : Bool × Server S)
      → FileStep n db r
      → EndsAs todo r.1 rest
      → EndsAs (n ∷ todo) db (if r.0 then rest else (false, r.1))
  unfolding replay
  after_step n todo db (true, db') rest (inl (e, l, h)) later = absurd (ground arith)
  after_step n todo db (false, db') rest (inl (e, l, h)) later = (
    n ∷ todo,
    ([], refl, l ∙ sym (append-nil db.ledger), (db.schema, refl, h)),
    λ k. absurd (ground arith),
  )
  after_step n todo db (false, db') rest (inr (l, h)) later = (
    todo,
    (n ∷ [], refl, l, (db'.schema, rw (h, replay) refl, untried todo _)),
    λ k. absurd (ground arith),
  )
  after_step n todo db (true, db') rest (inr (l, h)) (left, (a, p, q, (s, r, t)), fin) = (
    left,
    (
      n ∷ a,
      ap (λ x. n ∷ x) p,
      q ∙ ap (λ x. x ++ a) l ∙ append_assoc db.ledger (n ∷ []) a,
      (s, rw (h, replay) r, t),
    ),
    fin,
  )

  apply_files-Advanced :
      (f : Faults) (ledger ns : List String) (db : Server S)
      → EndsAs (unapplied ledger ns) db (apply_files exec dir f ledger ns db)
  unfolding apply_files unapplied replay
  apply_files-Advanced f ledger [] db =
      ([], ([], refl, sym (append-nil db.ledger), (db.schema, refl, refl)), λ h. refl)
  apply_files-Advanced f ledger (n ∷ ns) db =
      let r = apply_file exec f n (dir.read_file n) db in
      let later = apply_files-Advanced f ledger ns r.1 in
      let skipped = apply_files-Advanced f ledger ns db in
      go (is_applied n ledger) skipped
        (after_step n (unapplied ledger ns) db r _ (apply_file_lem f n db) later)
    where
      go :
          {t u : List String} {x y : Bool × Server S} (b : Bool)
          → EndsAs t db x
          → EndsAs u db y
          → EndsAs (if b then t else u) db (if b then x else y)
      go true h k = h
      go false h k = k

  stays : (todo : List String) (db : Server S) → EndsAs todo db (false, db)
  unfolding replay
  stays todo db = (
    todo,
    ([], refl, sym (append-nil db.ledger), (db.schema, refl, untried todo _)),
    λ h. absurd (ground arith),
  )

  apply_dir-Advanced :
      (f : Faults) (es : Option (List Entry)) (db : Server S)
      → EndsAs (unapplied db.ledger (names_in es)) db (apply_dir exec dir f es db)
  apply_dir-Advanced f none db = stays _ db
  apply_dir-Advanced f (some es) db = apply_files-Advanced f db.ledger (migration_names es) db

  -- A run records the first of the files that it has to do, in their order, each after all of its
  -- statements have succeeded; of the next file it may have executed statements up to the first that
  -- fails, and of the later ones none. A run that reports no error leaves no file. The statements of
  -- a file are what stands between its semicolons, trimmed, less what is blank.
  pub migrate-Advanced :
      (f : Faults) (db : Server S)
      → (left : List String) × Advanced
          (unapplied db.ledger (names_in dir.read_dir))
          db
          left
          (migrate exec dir f db).1
        × ((migrate exec dir f db).0 ≡ true → left ≡ [])
        × ((n body : String) → dir.read_file n ≡ some body → AreStatements body (statements body))
  unfolding migrate
  migrate-Advanced f db =
      let (left, far, fin) =
        go f.create_fails f.query_fails _ (apply_dir-Advanced f dir.read_dir db) in
      (left, far, fin, λ n body read. statements-AreStatements body)
    where
      go :
          (c q : Bool) (r : Bool × Server S)
          → EndsAs (unapplied db.ledger (names_in dir.read_dir)) db r
          → EndsAs
              (unapplied db.ledger (names_in dir.read_dir))
              db
              (if c then (false, db) else if q then (false, db) else r)
      go true q r h = stays _ db
      go false true r h = stays _ db
      go false false r h = h
