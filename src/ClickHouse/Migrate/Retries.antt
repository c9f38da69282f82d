-- ===== src/ClickHouse/Migrate/Retries.antt =====
-- The files that a failed run of Migrate leaves to the next.
use event_tracking.Prelude.{
  String, ◌≡◌, refl, sym, ap, ◌∙◌, Bool, true, false, List, [], ◌∷◌, ◌++◌, ◌==◌, ◌||◌, All, arith,
  if◌then◌else◌,
}
use mathlib.Core.Path.{subst}
use mathlib.Core.List.{append-nil, append_assoc}
use event_tracking.Migrations.{Directory, names_in, is_applied}
use event_tracking.Migrations.Pending.{is_applied-append, is_applied-last, head-eq, tail-eq}
use event_tracking.ClickHouse.Migrate.{Server, Faults, migrate}
use event_tracking.ClickHouse.Migrate.Runs.{unapplied, migrate-Advanced}

-- No name occurs twice.
abbrev pub AreDistinct : List String → Type 0
AreDistinct [] = Unit
AreDistinct (n ∷ ns) = All (λ m. (n == m) ≡ false) ns × AreDistinct ns

is_applied-insert :
    (m n : String) (xs ys : List String)
    → (n == m) ≡ false
    → is_applied m (xs ++ n ∷ ys) ≡ is_applied m (xs ++ ys)
unfolding is_applied
is_applied-insert m n [] ys h = rw (h) refl
is_applied-insert m n (x ∷ xs) ys h = ap (λ b. x == m || b) (is_applied-insert m n xs ys h)

unapplied-insert :
    (n : String) (xs ys ns : List String)
    → All (λ m. (n == m) ≡ false) ns
    → unapplied (xs ++ n ∷ ys) ns ≡ unapplied (xs ++ ys) ns
unfolding unapplied
unapplied-insert n xs ys [] h = refl
unapplied-insert n xs ys (m ∷ ms) (h, hs) =
    rw (is_applied-insert m n xs ys h, unapplied-insert n xs ys ms hs) refl

-- What is left after the first files were recorded is the rest.
unapplied-append :
    (ledger ns a left : List String)
    → AreDistinct ns
    → unapplied ledger ns ≡ a ++ left
    → unapplied (ledger ++ a) ns ≡ left
unfolding unapplied
unapplied-append ledger [] [] left d h = h
unapplied-append ledger [] (x ∷ a) left d h = absurd (ground arith)
unapplied-append ledger (n ∷ ns) a left (apart, d) h =
    go (is_applied n ledger) refl a h (λ a h. unapplied-append ledger ns a left d h)
  where
    go :
        (b : Bool)
        → is_applied n ledger ≡ b
        → (a : List String)
        → (if b then unapplied ledger ns else n ∷ unapplied ledger ns) ≡ a ++ left
        → ((a : List String) → unapplied ledger ns ≡ a ++ left → unapplied (ledger ++ a) ns ≡ left)
        → unapplied (ledger ++ a) (n ∷ ns) ≡ left
    go true e a h ih = rw (is_applied-append n ledger a e) (ih a h)
    go false e [] h ih = ap (λ l. unapplied l (n ∷ ns)) (append-nil ledger) ∙ rw (e) h
    go false e (x ∷ a) h ih =
        subst (λ y. unapplied (ledger ++ y ∷ a) (n ∷ ns) ≡ left) (head-eq n x h)
          (rw (is_applied-last n ledger a)
            (unapplied-insert n ledger a ns apart ∙ ih a (tail-eq h)))

module _ {S : Type 0} (exec : String → S → Bool × S) (dir : Directory) where
  -- The next run starts with the file at which a failed run stopped and skips none that follows: if
  -- it reports no error, the ledger has in the end each file of the directory that it lacked before
  -- the failed run, in their order and once.
  pub migrated_after_failure :
      (f f' : Faults) (db : Server S)
      → AreDistinct (names_in dir.read_dir)
      → (migrate exec dir f' (migrate exec dir f db).1).0 ≡ true
      → (migrate exec dir f' (migrate exec dir f db).1).1.ledger
        ≡ db.ledger ++ unapplied db.ledger (names_in dir.read_dir)
  migrated_after_failure f f' db d done =
      let ns = names_in dir.read_dir in
      let (left, (a, p, q, _), _, _) = migrate-Advanced exec dir f db in
      let (left', (a', p', q', _), fin, _) =
        migrate-Advanced exec dir f' (migrate exec dir f db).1 in
      let rest = ap (λ l. unapplied l ns) q ∙ unapplied-append db.ledger ns a left d p in
      let same = sym (append-nil a') ∙ ap (λ x. a' ++ x) (sym (fin done)) ∙ sym p' ∙ rest in
      q'
      ∙ ap (λ l. l ++ a') q
      ∙ append_assoc db.ledger a a'
      ∙ ap (λ x. db.ledger ++ (a ++ x)) same
      ∙ ap (λ x. db.ledger ++ x) (sym p)
