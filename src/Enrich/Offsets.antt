-- ===== src/Enrich/Offsets.antt =====
-- services/ingest/internal/enrich: the stores of session offsets, behind one contract
-- (skew.go: SessionKey, OffsetStore, MemoryOffsetStore; postgres_offset_store.go).
pub mod Memory
pub mod Postgres
pub mod Pinned
use event_tracking.Prelude.{
  String, ◌≡◌, ◌↔◌, ◌⊎◌, refl, Bool, true, false, ◌&&◌, Option, none, some, ◌==◌, eq_iff, arith,
  if◌then◌else◌,
}
use event_tracking.Prelude.Int.{ℤ}

pub record SessionKey : Type 0 where
  pub tenant_id : String
  pub device_id : String
  pub session_id : String

-- Go's `==` on SessionKey
unfoldable pub same_key : SessionKey → SessionKey → Bool
same_key k j =
    k.tenant_id == j.tenant_id && (k.device_id == j.device_id && k.session_id == j.session_id)

pub same_key_iff : (k j : SessionKey) → (same_key k j ≡ true) ↔ (k ≡ j)
unfolding same_key
same_key_iff k j = ground (
  arith,
  eq_iff k.tenant_id j.tenant_id,
  eq_iff k.device_id j.device_id,
  eq_iff k.session_id j.session_id,
)

-- The interface OffsetStore: `none` is the error.
pub record OffsetStore : Type 1 where
  pub Store : Type 0
  pub get_or_set : SessionKey → ℤ → Store → Option ℤ × Store

-- The stored offset if there is one, and the candidate otherwise.
abbrev pub first_contact : Option ℤ → ℤ → ℤ
first_contact none candidate = candidate
first_contact (some v) candidate = v

-- What a store does when its answer is `answer` and the offsets it holds go from `before` to
-- `after`: a value is the first-contact offset and is held from then on. With an error the offsets
-- are as before, or as a call that answers leaves them, when only its reply was lost.
abbrev pub Settles :
    Option ℤ → SessionKey → ℤ → (SessionKey → Option ℤ) → (SessionKey → Option ℤ) → Type 0
Settles none k candidate before after =
    ((j : SessionKey) → after j ≡ before j)
    ⊎ ((j : SessionKey)
        → after j ≡ (if same_key k j then some (first_contact (before k) candidate) else before j))
Settles (some v) k candidate before after =
    (v ≡ first_contact (before k) candidate)
    × ((j : SessionKey) → after j ≡ (if same_key k j then some v else before j))

-- The contract in the comment of OffsetStore.
pub record IsOffsetStore (o : OffsetStore) : Type 0 where
  pub view : o.Store → SessionKey → Option ℤ
  pub settles :
      (k : SessionKey) (candidate : ℤ) (s : o.Store)
      → Settles
          (o.get_or_set k candidate s).0
          k
          candidate
          (view s)
          (view (o.get_or_set k candidate s).1)
