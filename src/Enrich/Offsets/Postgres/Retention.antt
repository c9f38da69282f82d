-- ===== src/Enrich/Offsets/Postgres/Retention.antt =====
-- The statement of pkg/controlplane/sql/0002_session_offsets_retention.sql that an operator runs from
-- time to time, and what it leaves of the sessions that are still in use.
use event_tracking.Prelude.{
  ℕ, ◌*◌, ◌≡◌, refl, arith, true, List, [], ◌∷◌, Option, none, some, inl, inr, Bool-cases,
  if◌then◌else◌,
}
use event_tracking.Prelude.Int.{ℤ, pos, ◌-ℤ◌, ◌+ℤ◌, ◌≤ℤ◌, ltb_ℤ, int_laws}
use event_tracking.Time.{Time, day}
use event_tracking.Enrich.Offsets.{SessionKey, same_key, same_key_iff}
use event_tracking.Enrich.Offsets.Postgres.{
  OffsetRow, Pool, upsert, get_or_set, find, upsert_answer,
}

-- INTERVAL '30 days'
abbrev pub retention : ℕ
retention = 30 * day

-- DELETE FROM session_offsets WHERE last_seen < now() - INTERVAL '30 days'
unfoldable pub sweep : Time → List OffsetRow → List OffsetRow
sweep now [] = []
sweep now (r ∷ rows) =
    let rest = sweep now rows in if ltb_ℤ r.last_seen (now -ℤ pos retention) then rest else r ∷ rest

-- the offset of a session with the time of its last use
unfoldable pub find_row : List OffsetRow → SessionKey → Option (ℤ × Time)
find_row [] k = none
find_row (r ∷ rows) k =
    if same_key r.key k then some (r.offset_ms, r.last_seen) else find_row rows k

find-find_row :
    (rows : List OffsetRow) (k : SessionKey) (v : ℤ) (s : Time)
    → find_row rows k ≡ some (v, s)
    → find rows k ≡ some v
unfolding find find_row
find-find_row [] k v s h = absurd (ground arith)
find-find_row (r ∷ rows) k v s h = ground (arith, find-find_row rows k v s)

find_row-upsert :
    (k j : SessionKey) (c : ℤ) (now : Time) (rows : List OffsetRow)
    → find_row (upsert k c now rows).1 j
      ≡ (if same_key k j then some ((upsert k c now rows).0, now) else find_row rows j)
unfolding upsert find_row
find_row-upsert k j c now [] = refl
find_row-upsert k j c now (r ∷ rows) = ground (
  arith,
  find_row-upsert k j c now rows,
  same_key_iff r.key k,
  same_key_iff r.key j,
  same_key_iff k j,
)

-- a row that is swept is not the one that was used since
behind :
    (k : SessionKey) (v : ℤ) (s now : Time) (r : OffsetRow) (rows : List OffsetRow)
    → now -ℤ pos retention ≤ℤ s
    → ltb_ℤ r.last_seen (now -ℤ pos retention) ≡ true
    → find_row (r ∷ rows) k ≡ some (v, s)
    → find_row rows k ≡ some (v, s)
unfolding find_row
behind k v s now r rows young old h = elim (Bool-cases (same_key r.key k)) [
  | inl t ↦ absurd (ground arith)
  | inr f ↦ ground arith
]

find_row-sweep :
    (k : SessionKey) (v : ℤ) (s now : Time) (rows : List OffsetRow)
    → now -ℤ pos retention ≤ℤ s
    → find_row rows k ≡ some (v, s)
    → find_row (sweep now rows) k ≡ some (v, s)
unfolding find_row sweep
find_row-sweep k v s now [] young h = absurd (ground arith)
find_row-sweep k v s now (r ∷ rows) young h =
    elim (Bool-cases (ltb_ℤ r.last_seen (now -ℤ pos retention))) [
      | inl old ↦ rw old (find_row-sweep k v s now rows young (behind k v s now r rows young old h))
      | inr new ↦ rw new (elim (Bool-cases (same_key r.key k)) [
        | inl t ↦ ground arith
        | inr f ↦ ground (arith, find_row-sweep k v s now rows young (ground arith))
      ])
    ]

-- Calls of GetOrSet for any session from the time `t` on, and sweeps up to 30 days after it.
pub data Tended (t : Time) (rows : List OffsetRow) : List OffsetRow → Type 0 where
  start : Tended t rows rows
  called :
      {u : List OffsetRow} {v : List OffsetRow}
      → Tended t rows u
      → (k : SessionKey) (c : ℤ) (p : Pool) → p.session_offsets ≡ u
      → t ≤ℤ p.now
      → v ≡ (get_or_set k c p).1.session_offsets
      → Tended t rows v
  swept :
      {u v : List OffsetRow}
      → Tended t rows u
      → (now : Time) → now ≤ℤ t +ℤ pos (30 * day)
      → v ≡ sweep now u
      → Tended t rows v

-- the session has the offset, and was used at the time or later
abbrev InUse : SessionKey → ℤ → Time → List OffsetRow → Type 0
InUse k v t rows = (s : Time) × (find_row rows k ≡ some (v, s)) × (t ≤ℤ s)

upsert-InUse :
    (k j : SessionKey) (c v : ℤ) (t now s : Time) (rows : List OffsetRow)
    → t ≤ℤ now
    → find_row rows k ≡ some (v, s)
    → t ≤ℤ s
    → InUse k v t (upsert j c now rows).1
upsert-InUse k j c v t now s rows late h young = elim (Bool-cases (same_key j k)) [
  | inl e ↦ (
    now,
    ground (
      arith,
      find_row-upsert j k c now rows,
      upsert_answer j c now rows,
      find-find_row rows k v s h,
      same_key_iff j k,
    ),
    late,
  )
  | inr e ↦ (s, ground (arith, find_row-upsert j k c now rows), young)
]

get_or_set-InUse :
    (k j : SessionKey) (c v : ℤ) (t : Time) (p : Pool)
    → t ≤ℤ p.now
    → InUse k v t p.session_offsets
    → InUse k v t (get_or_set j c p).1.session_offsets
unfolding get_or_set
get_or_set-InUse k j c v t p late (s, h, young) = elim (Bool-cases p.fails) [
  | inl e ↦ rw e (s, h, young)
  | inr e ↦
      let after = upsert-InUse k j c v t p.now s p.session_offsets late h young in
      elim (Bool-cases p.unheard) [
        | inl lost ↦ rw (e, lost) after
        | inr heard ↦ rw (e, heard) after
      ]
]

used :
    (k : SessionKey) (c v : ℤ) (p : Pool)
    → (get_or_set k c p).0 ≡ some v
    → InUse k v p.now (get_or_set k c p).1.session_offsets
unfolding get_or_set
used k c v p h = elim (Bool-cases p.fails) [
  | inl e ↦ absurd (ground arith)
  | inr e ↦ rw e (
    p.now,
    ground (arith, find_row-upsert k k c p.now p.session_offsets, same_key_iff k k),
    omega int_laws,
  )
]

Tended-InUse :
    (k : SessionKey) (v : ℤ) (t : Time) {rows rows' : List OffsetRow}
    → InUse k v t rows
    → Tended t rows rows'
    → InUse k v t rows'
Tended-InUse k v t i start = i
Tended-InUse k v t i (called path j c p at late after) =
    let (s, h, young) = Tended-InUse k v t i path in
    let i' = get_or_set-InUse k j c v t p late (s, rw at h, young) in (i'.0, rw after i'.1, i'.2)
Tended-InUse k v t i (swept path now soon after) =
    let (s, h, young) = Tended-InUse k v t i path in
    (s, rw after (find_row-sweep k v s now _ (omega int_laws) h), young)

-- An offset that GetOrSet answered is answered to every later call for the session, also of another
-- candidate, whatever sessions are settled in between and however often the table is swept, as long
-- as no sweep is made later than 30 days after the first call.
pub retained :
    (k : SessionKey) (c c' v v' : ℤ) (p q : Pool)
    → (get_or_set k c p).0 ≡ some v
    → Tended p.now (get_or_set k c p).1.session_offsets q.session_offsets
    → (get_or_set k c' q).0 ≡ some v'
    → v' ≡ v
unfolding get_or_set
retained k c c' v v' p q first path again =
    let (s, h, _) = Tended-InUse k v p.now (used k c v p first) path in
    elim (Bool-cases q.fails) [
      | inl e ↦ absurd (ground arith)
      | inr e ↦ ground (
        arith,
        upsert_answer k c' q.now q.session_offsets,
        find-find_row q.session_offsets k v s h,
      )
    ]
