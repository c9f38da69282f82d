-- ===== src/Enrich/Offsets/Memory.antt =====
-- MemoryOffsetStore: a Go map under a mutex, so that a call is one step.
use event_tracking.Prelude.{
  ◌≡◌, List, [], ◌∷◌, Option, none, some, arith, inl, inr, Option-cases, if◌then◌else◌,
}
use event_tracking.Prelude.Int.{ℤ}
use event_tracking.Enrich.Offsets.{
  SessionKey, same_key, same_key_iff, OffsetStore, Settles, IsOffsetStore,
}

-- The map; a key that is written was absent, so that an insertion replaces no pair.
abbrev pub Offsets : Type 0
Offsets = List (SessionKey × ℤ)

unfoldable pub find : Offsets → SessionKey → Option ℤ
find [] k = none
find ((j, v) ∷ m) k = if same_key j k then some v else find m k

unfoldable pub get_or_set : SessionKey → ℤ → Offsets → Option ℤ × Offsets
get_or_set k candidate m = elim (find m k) [
  | some v ↦ (some v, m)
  | none ↦ (some candidate, (k, candidate) ∷ m)
]

abbrev pub memory_store : OffsetStore
memory_store = record { Store = Offsets; get_or_set = get_or_set }

-- A key that is held answers for every key equal to it.
pub find_held :
    (m : Offsets) (k j : SessionKey) (v : ℤ)
    → find m k ≡ some v
    → find m j ≡ (if same_key k j then some v else find m j)
find_held m k j v e = ground (arith, same_key_iff k j)

pub get_or_set-Settles :
    (k : SessionKey) (candidate : ℤ) (m : Offsets)
    → Settles (get_or_set k candidate m).0 k candidate (find m) (find (get_or_set k candidate m).1)
unfolding get_or_set find
get_or_set-Settles k candidate m = elim (Option-cases (find m k)) [
  | inl e ↦ rw (e, Settles) (ground arith, λ j. ground arith)
  | inr (v, e) ↦ rw (e, Settles) (ground arith, λ j. ground (arith, find_held m k j v e))
]

-- The in-process store keeps the contract.
pub memory_store-IsOffsetStore : IsOffsetStore memory_store
memory_store-IsOffsetStore = record { view = find; settles = get_or_set-Settles }
