-- ===== src/Migrations/Pending.antt =====
-- What a ledger leaves to do, independently of how a runner does it.
use event_tracking.Prelude.{
  String, ◌≡◌, sym, ap, ◌∙◌, true, false, List, [], ◌∷◌, ◌++◌, Option, none, some, eq_refl, arith,
  inl, inr, Bool-cases, if◌then◌else◌,
}
use mathlib.Core.Path.{subst}
use mathlib.Core.List.{append-nil, append_assoc}
use event_tracking.Migrations.{is_applied}

-- The names of the list that the ledger lacks, each once.
unfoldable pub pending : List String → List String → List String
pending ledger [] = []
pending ledger (n ∷ ns) =
    let skipped = pending ledger ns in
    let listed = n ∷ pending (ledger ++ n ∷ []) ns in
    if is_applied n ledger then skipped else listed

-- A schema after the named files, if each of them runs.
unfoldable pub replay : {S : Type 0} → (String → S → Option S) → List String → S → Option S
replay run [] s = some s
replay run (n ∷ ns) s = elim (run n s) [ none ↦ none | some t ↦ replay run ns t ]

pub is_applied-append :
    (n : String) (xs ys : List String) → is_applied n xs ≡ true → is_applied n (xs ++ ys) ≡ true
unfolding is_applied
is_applied-append n [] ys h = absurd (ground arith)
is_applied-append n (x ∷ xs) ys h = elim (Bool-cases (is_applied n xs)) [
  | inl e ↦ ground (arith, is_applied-append n xs ys e)
  | inr e ↦ ground arith
]

pub is_applied-last : (n : String) (xs ys : List String) → is_applied n (xs ++ n ∷ ys) ≡ true
unfolding is_applied
is_applied-last n [] ys = ground (arith, eq_refl n)
is_applied-last n (x ∷ xs) ys = ground (arith, is_applied-last n xs ys)

abbrev head_or : String → List String → String
head_or n [] = n
head_or n (x ∷ xs) = x

abbrev tail : List String → List String
tail [] = []
tail (x ∷ xs) = xs

pub head-eq : (n x : String) {xs ys : List String} → n ∷ xs ≡ x ∷ ys → n ≡ x
head-eq n x h = ap (head_or n) h

pub tail-eq : {n x : String} {xs ys : List String} → n ∷ xs ≡ x ∷ ys → xs ≡ ys
tail-eq h = ap tail h

-- What is left after a first part of it was recorded is the rest.
pub pending-append :
    (ledger ns a r : List String) → pending ledger ns ≡ a ++ r → pending (ledger ++ a) ns ≡ r
unfolding pending
pending-append ledger [] [] r h = h
pending-append ledger [] (x ∷ a) r h = absurd (ground arith)
pending-append ledger (n ∷ ns) a r h = elim (Bool-cases (is_applied n ledger)) [
  | inl e ↦ skipped e (λ h'. pending-append ledger ns a r h')
  | inr e ↦ listed e a h (λ a h'. pending-append (ledger ++ n ∷ []) ns a r h')
]
  where
    skipped :
        is_applied n ledger ≡ true
        → (pending ledger ns ≡ a ++ r → pending (ledger ++ a) ns ≡ r)
        → pending (ledger ++ a) (n ∷ ns) ≡ r
    skipped e ih =
        let h' =
          subst (λ b. (if b then pending ledger ns else n ∷ pending (ledger ++ n ∷ []) ns) ≡ a ++ r)
            e h in
        rw (is_applied-append n ledger a e) (ih h')

    listed :
        is_applied n ledger ≡ false
        → (a : List String) → pending ledger (n ∷ ns) ≡ a ++ r
        → ((a : List String)
            → pending (ledger ++ n ∷ []) ns ≡ a ++ r
            → pending ((ledger ++ n ∷ []) ++ a) ns ≡ r)
        → pending (ledger ++ a) (n ∷ ns) ≡ r
    listed e [] h ih = rw (append-nil ledger) h
    listed e (x ∷ a) h ih =
        let h' =
          subst
            (λ b. (if b then pending ledger ns else n ∷ pending (ledger ++ n ∷ []) ns) ≡ x ∷ a ++ r)
            e h in
        let same = head-eq n x h' in
        let later = ih a (tail-eq h') in
        subst (λ y. pending (ledger ++ y ∷ a) (n ∷ ns) ≡ r) same
          (rw (is_applied-last n ledger a)
            (ap (λ l. pending l ns) (sym (append_assoc ledger (n ∷ []) a)) ∙ later))

pub replay-append :
    {S : Type 0} (run : String → S → Option S) (a b : List String) (s t : S)
    → replay run a s ≡ some t
    → replay run (a ++ b) s ≡ replay run b t
unfolding replay
replay-append {S} run [] b s t h =
    ap (λ o. elim o as (λ _. Option S) [ none ↦ none | some u ↦ replay run b u ]) h
replay-append {S} run (n ∷ a) b s t h = go (run n s) h (λ u k. replay-append run a b u t k)
  where
    go :
        (o : Option S)
        → (elim o as (λ _. Option S) [ none ↦ none | some u ↦ replay run a u ]) ≡ some t
        → ((u : S) → replay run a u ≡ some t → replay run (a ++ b) u ≡ replay run b t)
        → (elim o as (λ _. Option S) [ none ↦ none | some u ↦ replay run (a ++ b) u ])
          ≡ replay run b t
    go none h ih = absurd (ground arith)
    go (some u) h ih = ih u h
