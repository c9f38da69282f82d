-- ===== src/ControlPlane/Migrate/Replicas/Invariant.antt =====
-- What the advisory lock of Migrate keeps true among replicas.
use event_tracking.Prelude.{
  ℕ, String, ◌≡◌, refl, sym, ap, ◌∙◌, Bool, true, false, List, [], ◌∷◌, ◌++◌, Option, none, some,
  eqb, arith, inl, inr, Bool-cases, if◌then◌else◌,
}
use mathlib.Core.Path.{subst}
use event_tracking.Migrations.{Directory, names_in, is_applied}
use event_tracking.Migrations.Pending.{pending, pending-append, replay}
use event_tracking.ControlPlane.Migrate.{Database}
use event_tracking.ControlPlane.Migrate.Runs.{run_file, Advanced, Advanced-refl, Advanced-trans}
use event_tracking.ControlPlane.Migrate.Replicas.{
  Phase, waiting, looping, applying, ended, Fleet, move, IsBusy, Step, enters, finds, misses,
  commits, succeeds, fails, drops, freed, Steps, start, then_step,
}

module _ {S : Type 0} (exec : String → S → Option S) (dir : Directory) where
  abbrev names : List String
  names = names_in dir.read_dir

  module _ (before : Database S) where
    -- what a replica in a phase knows of the ledger
    Knows : Phase → List String → Type 0
    Knows waiting l = Unit
    Knows (looping ns) l = pending l names ≡ pending l ns
    Knows (applying n ns) l = pending l names ≡ pending l (n ∷ ns)
    Knows (ended true) l = pending l names ≡ []
    Knows (ended false) l = Unit

    -- As long as no connection was dropped, a replica at work holds the lock.
    Fine : Phase → ℕ → List String → Option ℕ → Bool → Type 0
    Fine p i l k lost = Knows p l × (lost ≡ false → IsBusy p → k ≡ some i)

    Inv : Fleet S → Type 0
    Inv f =
        ((left : List String) × Advanced exec dir names before left f.database)
        × ((i : ℕ) → Fine (f.phase i) i (f.database).ledger f.lock f.lost)

    same_index : (i j : ℕ) → eqb i j ≡ true → i ≡ j
    same_index i j h = ground arith

    moved :
        (f : Fleet S) (l : List String) (k : Option ℕ) (i : ℕ) (p : Phase)
        → Fine p i l k f.lost
        → ((j : ℕ) → eqb i j ≡ false → Fine (f.phase j) j l k f.lost)
        → (j : ℕ) → Fine (move i p f j) j l k f.lost
    moved f l k i p own rest j =
        elim (Bool-cases (eqb i j)) as (λ _. Fine (move i p f j) j l k f.lost) [
          | inl e ↦ rw (e) (subst (λ j. Fine p j l k f.lost) (same_index i j e) own)
          | inr e ↦ rw (e) (rest j e)
        ]

    -- another's release leaves the lock with who has it
    freed_other : (i j : ℕ) (k : Option ℕ) → eqb i j ≡ false → k ≡ some j → freed i k ≡ some j
    freed_other i j k e h = ground (arith, h, e)

    released :
        (p : Phase) (i j : ℕ) (l : List String) (k : Option ℕ) (lost : Bool)
        → eqb i j ≡ false
        → Fine p j l k lost
        → Fine p j l (freed i k) lost
    unfolding Fine
    released p i j l k lost e (know, his) = (know, λ h busy. freed_other i j k e (his h busy))

    -- Once the next file is recorded, what any replica knows is still so.
    recorded :
        (p : Phase) (l : List String) (m : String) (r : List String)
        → pending l names ≡ m ∷ r
        → Knows p l
        → Knows p (l ++ m ∷ [])
    unfolding Knows
    recorded waiting l m r h know = tt
    recorded (looping ns) l m r h know =
        pending-append l names (m ∷ []) r h ∙ sym (pending-append l ns (m ∷ []) r (sym know ∙ h))
    recorded (applying n ns) l m r h know =
        pending-append l names (m ∷ []) r h
        ∙ sym (pending-append l (n ∷ ns) (m ∷ []) r (sym know ∙ h))
    recorded (ended true) l m r h know = absurd (impossible (sym know ∙ h))
      where
        impossible : [] ≡ m ∷ r → ⊥
        impossible h = ground arith
    recorded (ended false) l m r h know = tt

    own_of :
        (f : Fleet S) (i : ℕ) (p : Phase)
        → Inv f
        → f.phase i ≡ p
        → Fine p i (f.database).ledger f.lock f.lost
    unfolding Inv
    own_of f i p v e = subst (λ q. Fine q i (f.database).ledger f.lock f.lost) e (v.1 i)

    commit-Inv :
        (f : Fleet S) (i : ℕ) (n : String) (ns : List String) (s : S) (heard : Bool)
        → Fine (applying n ns) i (f.database).ledger f.lock f.lost
        → is_applied n (f.database).ledger ≡ false
        → run_file exec dir n (f.database).schema ≡ some s
        → Inv f
        → Inv (record f {
          database = record { schema = s; ledger = (f.database).ledger ++ n ∷ [] };
          lock = if heard then f.lock else freed i f.lock;
          phase = move i (if heard then looping ns else ended false) f;
        })
    unfolding Inv Fine Knows replay pending
    commit-Inv f i n ns s heard own new ran v =
        let l = (f.database).ledger in
        let r = pending (l ++ n ∷ []) ns in
        let todo : pending l names ≡ n ∷ r = own.0 ∙ rw new refl in
        let done =
          Advanced-trans exec dir names v.0.0 r before f.database
            (record { schema = s; ledger = l ++ n ∷ [] }) v.0.1
            (n ∷ [], todo, refl, rw (ran, replay) refl) in
        (
          (r, done),
          moved f _ _ i _ (mine todo heard) λ j apart. (
            recorded (f.phase j) l n r todo (v.1 j).0,
            λ h busy. held j heard apart ((v.1 j).1 h busy),
          ),
        )
      where
        held :
            (j : ℕ) (heard : Bool)
            → eqb i j ≡ false
            → f.lock ≡ some j
            → (if heard then f.lock else freed i f.lock) ≡ some j
        held j true apart h = h
        held j false apart h = freed_other i j f.lock apart h

        mine :
            pending (f.database).ledger names ≡ n ∷ pending ((f.database).ledger ++ n ∷ []) ns
            → (heard : Bool)
            → Fine
                (if heard then looping ns else ended false)
                i
                ((f.database).ledger ++ n ∷ [])
                (if heard then f.lock else freed i f.lock)
                f.lost
        mine todo true = (
          pending-append (f.database).ledger names (n ∷ [])
              (pending ((f.database).ledger ++ n ∷ []) ns) todo,
          λ h b. own.1 h tt,
        )
        mine todo false = (tt, λ h b. absurd b)

    Step-Inv : (f g : Fleet S) → Step exec dir f g → Inv f → Inv g
    unfolding Inv Fine Knows pending
    Step-Inv f _ (enters i e free) v = (
      v.0,
      moved f _ _ i (looping names) (refl, λ h b. refl)
          λ j apart. ((v.1 j).0, λ h busy. absurd (taken j (sym free ∙ (v.1 j).1 h busy))),
    )
      where
        taken : (j : ℕ) → none ≡ some j → ⊥
        taken j h = ground arith
    Step-Inv f _ (finds i n ns e body read known) v =
        let own = own_of f i (looping (n ∷ ns)) v e in
        (
          v.0,
          moved f _ _ i (looping ns) (own.0 ∙ rw (known) refl, λ h b. own.1 h tt) λ j apart. v.1 j,
        )
    Step-Inv f _ (misses i n ns e body read new) v =
        let own = own_of f i (looping (n ∷ ns)) v e in
        (v.0, moved f _ _ i (applying n ns) (own.0, λ h b. own.1 h tt) λ j apart. v.1 j)
    Step-Inv f _ (succeeds i e es read) v =
        let own = own_of f i (looping []) v e in
        (
          v.0,
          moved f _ _ i (ended true) (own.0, λ h b. absurd b)
              λ j apart. released (f.phase j) i j _ f.lock f.lost apart (v.1 j),
        )
    Step-Inv f _ (fails i busy) v = (
      v.0,
      moved f _ _ i (ended false) (tt, λ h b. absurd b)
          λ j apart. released (f.phase j) i j _ f.lock f.lost apart (v.1 j),
    )
    Step-Inv f _ (drops i held) v =
        (v.0, λ j. ((v.1 j).0, λ (h : true ≡ false) busy. absurd (ground arith)))
    Step-Inv f _ (commits i n ns s heard e new ran) v =
        commit-Inv f i n ns s heard (own_of f i (applying n ns) v e) new ran v

    Steps-Inv : (f g : Fleet S) → Steps exec dir f g → Inv f → Inv g
    Steps-Inv f _ start v = v
    Steps-Inv f h (then_step {g} s t) v = Step-Inv g h t (Steps-Inv f g s v)

  -- Replicas that all start before the lock, and that take it, check, commit, fail and die in any
  -- order: at every moment, also after the server has dropped the lock of a replica at work, each
  -- recorded file has run, once and in order, and no other file has; when a replica has ended without
  -- an error, no file is left; and as long as no lock was dropped, no two replicas are at work.
  pub replicas_migrate :
      (f g : Fleet S)
      → ((i : ℕ) → f.phase i ≡ waiting)
      → Steps exec dir f g
      → ((left : List String) × Advanced exec dir names f.database left g.database)
        × (g.lost ≡ false → (i j : ℕ) → IsBusy (g.phase i) → IsBusy (g.phase j) → i ≡ j)
        × ((i : ℕ) → g.phase i ≡ ended true → Advanced exec dir names f.database [] g.database)
  unfolding Inv Fine Knows
  replicas_migrate f g before_lock s =
      let v = Steps-Inv f.database f g s (
        (_, Advanced-refl exec dir names f.database),
        λ i.
            subst (λ p. Fine f.database p i (f.database).ledger f.lock f.lost) (sym (before_lock i))
              (tt, λ h b. absurd b),
      ) in
      (
        v.0,
        λ h i j b c. one i j (sym ((v.1 i).1 h b) ∙ (v.1 j).1 h c),
        λ i e. finished v.0 (subst (λ p. Knows f.database p (g.database).ledger) e (v.1 i).0),
      )
    where
      one : (i j : ℕ) → some i ≡ some j → i ≡ j
      one i j h = ground arith

      finished :
          ((left : List String) × Advanced exec dir names f.database left g.database)
          → pending (g.database).ledger names ≡ []
          → Advanced exec dir names f.database [] g.database
      finished (left, (a, p, q, r)) e =
          let none_left =
            sym (pending-append (f.database).ledger names a left p)
            ∙ ap (λ l. pending l names) (sym q)
            ∙ e in
          subst (λ l. Advanced exec dir names f.database l g.database) none_left (a, p, q, r)
