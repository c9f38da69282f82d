-- ===== src/Migrations/Order.antt =====
-- The order in which a runner takes the files of its directory.
use event_tracking.Prelude.{
  String, ◌≡◌, refl, true, false, List, [], ◌∷◌, arith, inl, inr, Bool-cases, if◌then◌else◌,
}
use mathlib.Core.List.{Permᴰ}
use mathlib.Core.List.Permᴰ
use mathlib.Core.Path.{subst}
use event_tracking.Migrations.{Entry, leb_text, insert, sort_strings, sql_files, migration_names}

-- in ascending order
abbrev pub IsAscending : List String → Type 0
IsAscending [] = Unit
IsAscending (s ∷ []) = Unit
IsAscending (s ∷ t ∷ ts) = (leb_text s t ≡ true) × IsAscending (t ∷ ts)

leb_total : (s t : String) → leb_text s t ≡ false → leb_text t s ≡ true
unfolding leb_text
leb_total String.[] t h = absurd (ground arith)
leb_total (String.◌∷◌ c s) String.[] h = refl
leb_total (String.◌∷◌ c s) (String.◌∷◌ d t) h = elim (Bool-cases (leb_text s t)) [
  | inl e ↦ ground arith
  | inr e ↦ ground (arith, leb_total s t e)
]

below-insert :
    (u s : String) (ts : List String)
    → leb_text u s ≡ true
    → IsAscending (u ∷ ts)
    → IsAscending (insert s ts)
    → IsAscending (u ∷ insert s ts)
unfolding insert
below-insert u s [] p h k = (p, tt)
below-insert u s (t ∷ ts) p h k =
    elim (Bool-cases (leb_text s t)) as (λ _. IsAscending (u ∷ insert s (t ∷ ts))) [
      | inl e ↦ rw (e) (p, (e, h.1))
      | inr e ↦
          rw (e) (h.0, subst (λ b. IsAscending (if b then s ∷ t ∷ ts else t ∷ insert s ts)) e k)
    ]

insert-IsAscending : (s : String) (ts : List String) → IsAscending ts → IsAscending (insert s ts)
unfolding insert
insert-IsAscending s [] h = tt
insert-IsAscending s (t ∷ ts) h =
    elim (Bool-cases (leb_text s t)) as (λ _. IsAscending (insert s (t ∷ ts))) [
      | inl e ↦ rw (e) (e, h)
      | inr e ↦
          rw (e) (below-insert t s ts (leb_total s t e) h (insert-IsAscending s ts (tail t ts h)))
    ]
  where
    tail : (t : String) (ts : List String) → IsAscending (t ∷ ts) → IsAscending ts
    tail t [] h = tt
    tail t (u ∷ us) h = h.1

insert-Perm : (s : String) (ts : List String) → Permᴰ (insert s ts) (s ∷ ts)
unfolding insert
insert-Perm s [] = Permᴰ.refl (s ∷ [])
insert-Perm s (t ∷ ts) =
    elim (Bool-cases (leb_text s t)) as (λ _. Permᴰ (insert s (t ∷ ts)) (s ∷ t ∷ ts)) [
      | inl e ↦ rw (e) (Permᴰ.refl (s ∷ t ∷ ts))
      | inr e ↦ rw (e) (Permᴰ.trans (Permᴰ.cons refl (insert-Perm s ts)) (Permᴰ.swap refl refl))
    ]

sorted : (ns : List String) → IsAscending (sort_strings ns) × Permᴰ (sort_strings ns) ns
unfolding sort_strings
sorted [] = (tt, Permᴰ.refl [])
sorted (n ∷ ns) =
    let (up, same) = sorted ns in
    (
      insert-IsAscending n (sort_strings ns) up,
      Permᴰ.trans (insert-Perm n (sort_strings ns)) (Permᴰ.cons refl same),
    )

-- Every file of the directory whose name ends in ".sql" is taken, no other, and in ascending order
-- of the names.
pub migration_names-IsAscending :
    (es : List Entry) → IsAscending (migration_names es) × Permᴰ (migration_names es) (sql_files es)
migration_names-IsAscending es = sorted (sql_files es)
