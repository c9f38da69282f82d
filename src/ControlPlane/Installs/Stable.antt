-- ===== src/ControlPlane/Installs/Stable.antt =====
-- pkg/controlplane/store.go: runs of IssueInstall, and which installs stand under which anchors.
use event_tracking.Prelude.{
  ℕ, String, ◌≡◌, ◌≢◌, ◌⊎◌, refl, ◌∙◌, ap, arith, false, not, ◌&&◌, ◌||◌, List, [], ◌∷◌, Option,
  none, some, eq_iff, is_some, inl, inr, Bool-cases, if◌then◌else◌,
}
use event_tracking.ControlPlane.Installs.{
  Install, Anchor, anchor, anchor_of, same_anchor, same_anchor_iff, find, upsert, is_taken,
  Database, subject_or_null, new_install, run_upsert, issue_with, issue_install,
}

find-upsert :
    (n : Install) (a : Anchor) (rows : List Install)
    → find (upsert n rows).1 a
      ≡ (if same_anchor (anchor_of n) a then some (upsert n rows).0 else find rows a)
unfolding find upsert
find-upsert n a [] = refl
find-upsert n a (r ∷ rows) = ground (
  arith,
  find-upsert n a rows,
  same_anchor_iff (anchor_of r) (anchor_of n),
  same_anchor_iff (anchor_of r) a,
  same_anchor_iff (anchor_of n) a,
)

upsert_answer :
    (n : Install) (rows : List Install)
    → ((upsert n rows).0 ≡ n.install_id) × (find rows (anchor_of n) ≡ none)
      ⊎ (find rows (anchor_of n) ≡ some (upsert n rows).0)
unfolding find upsert
upsert_answer n [] = inl (refl, refl)
upsert_answer n (r ∷ rows) = ground (arith, upsert_answer n rows)

find-taken :
    (id : String) (a : Anchor) (rows : List Install)
    → is_taken id rows ≡ false
    → find rows a ≢ some id
unfolding find is_taken
find-taken id a [] h = ground arith
find-taken id a (r ∷ rows) h = ground (arith, find-taken id a rows, eq_iff r.install_id id)

-- What a call does to the view of the table: nothing, or the install under the anchor is the answer
-- from then on, and that one is the one that was there, or a fresh one.
abbrev pub Settles : Anchor → Option String → List Install → List Install → Type 0
Settles a none rows rows' = (b : Anchor) → find rows' b ≡ find rows b
Settles a (some id) rows rows' =
    ((b : Anchor) → find rows' b ≡ (if same_anchor a b then some id else find rows b))
    × ((find rows a ≡ some id) ⊎ ((find rows a ≡ none) × ((b : Anchor) → find rows b ≢ some id)))

run_upsert-Settles :
    (n : Install) (db : Database)
    → Settles (anchor_of n) (run_upsert n db).0 db.installs (run_upsert n db).1.installs
unfolding run_upsert
run_upsert-Settles n db =
    elim (Bool-cases (
      db.fails
      || (is_taken n.install_id db.installs && not (is_some (find db.installs (anchor_of n)))))) [
        | inl t ↦ rw (t, Settles) (λ b. refl)
        | inr f ↦
            rw (f, Settles)
              (
                λ b. find-upsert n b db.installs,
                elim (upsert_answer n db.installs) [
                  | inl (e, g) ↦
                      inr (g, λ b. rw e (find-taken n.install_id b db.installs (ground arith)))
                  | inr g ↦ inl g
                ],
              )
      ]

module _ (t p subject device : String) (tier : ℕ) (db : Database) where
  pub issue_install-Settles :
      Settles
        (anchor t (subject_or_null subject) device)
        (issue_install t p subject device tier db).0
        db.installs
        (issue_install t p subject device tier db).1.installs
  unfolding issue_install
  issue_install-Settles = go db.entropy
    where
      go :
          (o : Option String)
          → Settles
              (anchor t (subject_or_null subject) device)
              (issue_with o t p subject device tier db).0
              db.installs
              (issue_with o t p subject device tier db).1.installs
      go none = λ b. refl
      go (some hex) = run_upsert-Settles (new_install hex t p subject device tier) db

-- Calls of IssueInstall for anyone, in the order in which the database serves them, with whatever
-- the random source gives, between any changes that leave the table of installs as it is.
pub data Runs (s : Database) : Database → Type 0 where
  start : Runs s s
  issued :
      {u v : Database}
      → Runs s u
      → (t p subject device : String) (tier : ℕ) → v ≡ (issue_install t p subject device tier u).1
      → Runs s v
  other : {u v : Database} → Runs s u → v.installs ≡ u.installs → Runs s v

-- No install stands under two anchors.
abbrev pub Owned : List Install → Type 0
Owned rows = (a b : Anchor) (id : String) → find rows a ≡ some id → find rows b ≡ some id → a ≡ b

pub Settles-held :
    (a b : Anchor) (o : Option String) (id : String) (rows rows' : List Install)
    → Settles a o rows rows'
    → find rows b ≡ some id
    → find rows' b ≡ some id
Settles-held a b none id rows rows' h e = h b ∙ e
Settles-held a b (some i) id rows rows' h e = elim (Bool-cases (same_anchor a b)) [
  | inl t ↦ ground (arith, h.0 b, h.1, ap (find rows) ((same_anchor_iff a b).0 t))
  | inr f ↦ ground (arith, h.0 b)
]

Runs-held :
    (b : Anchor) (id : String) (s t : Database)
    → Runs s t
    → find s.installs b ≡ some id
    → find t.installs b ≡ some id
Runs-held b id s t start e = e
Runs-held b id s t (issued {u = u} run tn p subject device tier q) e = rw q (
    Settles-held _ b _ id u.installs _ (issue_install-Settles tn p subject device tier u)
      (Runs-held b id s u run e))
Runs-held b id s t (other {u = u} run q) e = rw q (Runs-held b id s u run e)

pub Settles-some :
    (a : Anchor) (o : Option String) (id : String) (rows rows' : List Install)
    → Settles a o rows rows'
    → o ≡ some id
    → (find rows' a ≡ some id) × ((find rows a ≡ some id) ⊎ (find rows a ≡ none))
Settles-some a none id rows rows' h e = absurd (ground arith)
Settles-some a (some i) id rows rows' h e = ground (arith, h.0 a, h.1, same_anchor_iff a a)

-- Two exchanges that are anchored alike, by the attested subject or else by the device key, and that
-- both get an install, get the same one, whatever calls come between.
pub issue_install_stable :
    (t p p' subject device device' : String) (tier tier' : ℕ) (id id' : String) (s v : Database)
    → anchor t (subject_or_null subject) device' ≡ anchor t (subject_or_null subject) device
    → (issue_install t p subject device tier s).0 ≡ some id
    → Runs (issue_install t p subject device tier s).1 v
    → (issue_install t p' subject device' tier' v).0 ≡ some id'
    → id' ≡ id
issue_install_stable t p p' subject device device' tier tier' id id' s v same e run e' =
    let a = anchor t (subject_or_null subject) device in
    let first =
      Settles-some a _ id s.installs _ (issue_install-Settles t p subject device tier s) e in
    let held = Runs-held a id (issue_install t p subject device tier s).1 v run first.0 in
    let again =
      Settles-some _ _ id' v.installs _ (issue_install-Settles t p' subject device' tier' v) e' in
    ground (arith, again.1, held, ap (find v.installs) same)
