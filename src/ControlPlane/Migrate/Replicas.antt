-- ===== src/ControlPlane/Migrate/Replicas.antt =====
-- pkg/controlplane/migrate.go: replicas that start at the same time and run Migrate against one
-- database, statement by statement.
pub mod Invariant
use event_tracking.Prelude.{
  ℕ, String, ◌≡◌, refl, sym, ap, ◌∙◌, Bool, true, false, List, [], ◌∷◌, ◌++◌, Option, none, some,
  eqb, arith, inl, inr, Bool-cases, if◌then◌else◌,
}
use mathlib.Core.Path.{subst}
use mathlib.Core.List.{append-nil}
use event_tracking.Migrations.{Directory, Entry, names_in, is_applied}
use event_tracking.Migrations.Pending.{pending, pending-append, replay}
use event_tracking.ControlPlane.Migrate.{Database}
use event_tracking.ControlPlane.Migrate.Runs.{run_file, Advanced, Advanced-refl, Advanced-trans}

-- Where a replica is in Migrate: before the lock, in the loop with names to go, in the transaction of
-- a file that its check has not found in the ledger, or at the end.
pub data Phase : Type 0 where
  waiting : Phase
  looping : List String → Phase
  applying : String → List String → Phase
  ended : Bool → Phase

-- The database, the replica whose connection holds the advisory lock, whether the server has ever
-- dropped such a connection, and the phase of each replica.
pub record Fleet (S : Type 0) : Type 0 where
  pub database : Database S
  pub lock : Option ℕ
  pub lost : Bool
  pub phase : ℕ → Phase

abbrev pub move : {S : Type 0} → ℕ → Phase → Fleet S → ℕ → Phase
move i p f j = if eqb i j then p else f.phase j

-- the lock after a replica has ended, which frees it if it has it
abbrev pub freed : ℕ → Option ℕ → Option ℕ
freed i none = none
freed i (some j) = if eqb i j then none else some j

abbrev pub IsBusy : Phase → Type 0
IsBusy waiting = ⊥
IsBusy (looping ns) = Unit
IsBusy (applying n ns) = Unit
IsBusy (ended b) = ⊥

module _ {S : Type 0} (exec : String → S → Option S) (dir : Directory) where
  abbrev pub names : List String
  names = names_in dir.read_dir

  -- One step of one replica: it takes the lock when no other has it, reads and checks a name, commits
  -- the transaction of a file or fails before or after the commit is done, comes to the end, or dies.
  -- The lock is one of a connection of its own, and the transactions use others, so that the server may
  -- free it while the replica goes on. A commit needs that the name is still not in the ledger, of
  -- which it is the primary key.
  pub data Step (f : Fleet S) : Fleet S → Type 0 where
    enters :
        (i : ℕ)
        → f.phase i ≡ waiting
        → f.lock ≡ none
        → Step f (record f { lock = some i; phase = move i (looping names) f })
    finds :
        (i : ℕ) (n : String) (ns : List String)
        → f.phase i ≡ looping (n ∷ ns)
        → (body : String) → dir.read_file n ≡ some body
        → is_applied n (f.database).ledger ≡ true
        → Step f (record f { phase = move i (looping ns) f })
    misses :
        (i : ℕ) (n : String) (ns : List String)
        → f.phase i ≡ looping (n ∷ ns)
        → (body : String) → dir.read_file n ≡ some body
        → is_applied n (f.database).ledger ≡ false
        → Step f (record f { phase = move i (applying n ns) f })
    commits :
        (i : ℕ) (n : String) (ns : List String) (s : S) (heard : Bool)
        → f.phase i ≡ applying n ns
        → is_applied n (f.database).ledger ≡ false
        → run_file exec dir n (f.database).schema ≡ some s
        → Step f (record f {
          database = record { schema = s; ledger = (f.database).ledger ++ n ∷ [] };
          lock = if heard then f.lock else freed i f.lock;
          phase = move i (if heard then looping ns else ended false) f;
        })
    succeeds :
        (i : ℕ)
        → f.phase i ≡ looping []
        → (es : List Entry) → dir.read_dir ≡ some es
        → Step f (record f { lock = freed i f.lock; phase = move i (ended true) f })
    fails :
        (i : ℕ)
        → IsBusy (f.phase i)
        → Step f (record f { lock = freed i f.lock; phase = move i (ended false) f })
    drops : (i : ℕ) → f.lock ≡ some i → Step f (record f { lock = none; lost = true })

  pub data Steps (f : Fleet S) : Fleet S → Type 0 where
    start : Steps f f
    then_step : {g h : Fleet S} → Steps f g → Step g h → Steps f h
