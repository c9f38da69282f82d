-- ===== src/Enrich/Offsets/Postgres.antt =====
-- postgres_offset_store.go: one upsert statement on the table session_offsets
-- (pkg/controlplane/sql/0001_control_plane.sql, 0002_session_offsets_retention.sql).
pub mod Retention
use event_tracking.Prelude.{
  ◌≡◌, refl, Bool, List, [], ◌∷◌, Option, none, some, arith, inl, inr, Bool-cases, if◌then◌else◌,
}
use event_tracking.Prelude.Int.{ℤ}
use event_tracking.Time.{Time}
use event_tracking.Enrich.Offsets.{
  SessionKey, same_key, same_key_iff, OffsetStore, first_contact, Settles, IsOffsetStore,
}

-- A row; its key is the primary key of the table.
pub record OffsetRow : Type 0 where
  pub key : SessionKey
  pub offset_ms : ℤ
  pub last_seen : Time

-- INSERT … ON CONFLICT (tenant_id, device_id, session_id) DO UPDATE SET offset_ms =
-- session_offsets.offset_ms, last_seen = now() RETURNING offset_ms: the row with the key is kept
-- with its offset, and otherwise one is inserted. The first part is what RETURNING yields.
unfoldable pub upsert : SessionKey → ℤ → Time → List OffsetRow → ℤ × List OffsetRow
upsert k candidate now [] =
    (candidate, record { key = k; offset_ms = candidate; last_seen = now } ∷ [])
upsert k candidate now (r ∷ rows) =
    let (v, rows') = upsert k candidate now rows in
    if same_key r.key k then (r.offset_ms, record r { last_seen = now } ∷ rows) else (v, r ∷ rows')

-- The pool: the table, the database's clock, and whether the next statement fails, or has effect
-- but its reply is lost.
pub record Pool : Type 0 where
  pub session_offsets : List OffsetRow
  pub now : Time
  pub fails : Bool
  pub unheard : Bool

unfoldable pub get_or_set : SessionKey → ℤ → Pool → Option ℤ × Pool
get_or_set k candidate p =
    let (v, rows) = upsert k candidate p.now p.session_offsets in
    if p.fails
    then (none, p)
    else if p.unheard
    then (none, record p { session_offsets = rows })
    else (some v, record p { session_offsets = rows })

abbrev pub postgres_store : OffsetStore
postgres_store = record { Store = Pool; get_or_set = get_or_set }

unfoldable pub find : List OffsetRow → SessionKey → Option ℤ
find [] k = none
find (r ∷ rows) k = if same_key r.key k then some r.offset_ms else find rows k

pub upsert_answer :
    (k : SessionKey) (c : ℤ) (now : Time) (rows : List OffsetRow)
    → (upsert k c now rows).0 ≡ first_contact (find rows k) c
unfolding upsert find
upsert_answer k c now [] = refl
upsert_answer k c now (r ∷ rows) = ground (arith, upsert_answer k c now rows)

find-upsert :
    (k j : SessionKey) (c : ℤ) (now : Time) (rows : List OffsetRow)
    → find (upsert k c now rows).1 j
      ≡ (if same_key k j then some (upsert k c now rows).0 else find rows j)
unfolding upsert find
find-upsert k j c now [] = refl
find-upsert k j c now (r ∷ rows) = ground (
  arith,
  find-upsert k j c now rows,
  same_key_iff r.key k,
  same_key_iff r.key j,
  same_key_iff k j,
)

pub get_or_set-Settles :
    (k : SessionKey) (c : ℤ) (p : Pool)
    → Settles
        (get_or_set k c p).0
        k
        c
        (find p.session_offsets)
        (find (get_or_set k c p).1.session_offsets)
unfolding get_or_set
get_or_set-Settles k c p = elim (Bool-cases p.fails) [
  | inl e ↦ rw e (inl (λ j. refl))
  | inr e ↦ elim (Bool-cases p.unheard) [
    | inl lost ↦
        rw (e, lost, ← upsert_answer k c p.now p.session_offsets)
          (inr (λ j. find-upsert k j c p.now p.session_offsets))
    | inr heard ↦
        rw (e, heard)
          (
            upsert_answer k c p.now p.session_offsets,
            λ j. find-upsert k j c p.now p.session_offsets,
          )
  ]
]

-- The upsert keeps the contract, also when the statement fails or its reply is lost.
pub postgres_store-IsOffsetStore : IsOffsetStore postgres_store
postgres_store-IsOffsetStore = record {
  view = λ p. find p.session_offsets;
  settles = get_or_set-Settles;
}
